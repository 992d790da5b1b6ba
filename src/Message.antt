-- ===== src/Message.antt =====
-- The messages that every component passes around: OpenAI-style dicts, as the functions of src/tts
-- read them (`m.get("role")`, `m.get("content")`, `m.get("tool_calls") or []`).
use tts_tokens_that_suffice.Prelude.{
  Bool, true, false, Option, none, some, List, [], ◌∷◌, Text, is_nonempty,
}

-- `m.get("role", "")`; `other` is any other text, such as "exit", or no role.
pub data Role : Type 0 where
  system user assistant tool : Role
  other : Text → Role

-- One entry of a list-valued content: a dict of type "text" with its text, or anything else.
pub data Part : Type 0 where
  text_part : Text → Part
  other_part : Text → Part

-- `m.get("content")`: no such key, `None`, a text, or a list of parts.
pub data Content : Type 0 where
  missing null : Content
  text : Text → Content
  parts : List Part → Content

-- A value of a JSON object; only the texts among them are read apart, another keeps its JSON text.
pub data Value : Type 0 where
  str_value : Text → Value
  other_value : Text → Value

abbrev pub Dict : Type 0
Dict = List (Text × Value)

-- What a JSON text stands for: an object, or anything else, by its text.
pub data Json : Type 0 where
  object : Dict → Json
  not_object : Text → Json

-- `tc["function"]["arguments"]`: a JSON text in the wire format, or an object parsed before.
pub data Arguments : Type 0 where
  json_text : Text → Arguments
  parsed : Json → Arguments

-- Python's `json` module: `loads` has no value where it raises a decoding error.
pub record Codec : Type 0 where
  pub loads : Text → Option Json
  pub dumps : Json → Text

-- A missing key is `none`.
pub record ToolCall : Type 0 where
  pub id : Option Text
  pub name : Option Text
  pub arguments : Option Arguments

pub record Message : Type 0 where
  pub role : Role
  pub content : Content
  pub reasoning_content : Option Text
  pub tool_calls : List ToolCall
  pub tool_call_id : Option Text

abbrev pub role_is_tool : Role → Bool
role_is_tool tool = true
role_is_tool _ = false

abbrev pub role_is_assistant : Role → Bool
role_is_assistant assistant = true
role_is_assistant _ = false

-- m.get("role") == "tool"
abbrev pub is_tool : Message → Bool
is_tool m = role_is_tool m.role

-- m.get("role") == "assistant"
abbrev pub is_assistant : Message → Bool
is_assistant m = role_is_assistant m.role

-- bool(m.get("reasoning_content"))
abbrev pub has_reasoning : Message → Bool
has_reasoning m = elim m.reasoning_content [ none ↦ false | some t ↦ is_nonempty t ]

-- bool(m.get("tool_calls"))
abbrev pub has_tool_calls : Message → Bool
has_tool_calls m = elim m.tool_calls [ [] ↦ false | c ∷ cs ↦ true ]

-- The constant keys of a message that the program writes itself: a role and a text.
abbrev pub plain : Role → Text → Message
plain r t = record {
  role = r;
  content = text t;
  reasoning_content = none;
  tool_calls = [];
  tool_call_id = none;
}

-- `m.get("content") or ""`
abbrev pub or_empty : Content → Content
or_empty missing = text []
or_empty null = text []
or_empty (text t) = text t
or_empty (parts []) = text []
or_empty (parts (p ∷ ps)) = parts (p ∷ ps)

-- What the chat API validates of a message: its role, its tool calls and the call it answers.
pub record Frame : Type 0 where
  pub role : Role
  pub tool_calls : List ToolCall
  pub tool_call_id : Option Text

abbrev pub frame : Message → Frame
frame m = record { role = m.role; tool_calls = m.tool_calls; tool_call_id = m.tool_call_id }
