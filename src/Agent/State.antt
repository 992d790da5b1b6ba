-- ===== src/Agent/State.antt =====
-- The text of a message for counting its tokens, and the configuration and the state of
-- `SummarizingAgent`, src/tts/agent/summarization_agent.py.
use tts_tokens_that_suffice.Prelude.{
  ℕ, Bool, Option, none, some, List, [], ◌∷◌, Text, codes, join, Result, ◌>>=◌, type_error, ok, err,
}
use tts_tokens_that_suffice.Message.{Codec, Message, ToolCall, or_empty, text, json_text, parsed}
use tts_tokens_that_suffice.Compaction.{Kind, Compactor, Metadata}
use tts_tokens_that_suffice.Trajectory.{or_blank}

-- `message_text`: content, then name and arguments of each call; a list-valued content cannot be
-- joined. `json` writes an argument that is not a text.
unfoldable pub nonempty_parts : List Text → List Text
nonempty_parts [] = []
nonempty_parts ([] ∷ ts) = nonempty_parts ts
nonempty_parts ((c ∷ t) ∷ ts) = (c ∷ t) ∷ nonempty_parts ts

unfoldable pub call_parts : Codec → List ToolCall → List Text
call_parts json [] = []
call_parts json (tc ∷ tcs) =
    or_blank tc.name
    ∷ elim tc.arguments [
      | none ↦ []
      | some a ↦ elim a [ json_text t ↦ t | parsed j ↦ json.dumps j ]
    ]
    ∷ call_parts json tcs

unfoldable pub message_text : Codec → Message → Result Text
unfolding nonempty_parts call_parts join
message_text json m = elim (or_empty m.content) [
  | text t ↦ ok (join (codes "\n") (nonempty_parts (t ∷ call_parts json m.tool_calls)))
  | other_content ↦ err type_error
]

-- [message_text(m) for m in messages]
unfoldable pub message_texts : Codec → List Message → Result (List Text)
unfolding message_text
message_texts json [] = ok []
message_texts json (m ∷ ms) =
    let rest = message_texts json ms in message_text json m >>= λ t. rest >>= λ ts. ok (t ∷ ts)

-- What `__init__` fixes. `tokenizer` is the length of an encoding; a compactor may be `None`.
pub record AgentConfig : Type 0 where
  pub json : Codec
  pub compactor : Option Compactor
  pub tokenizer : Option (Text → ℕ)
  pub compress_at_tokens : ℕ
  pub compress_at_turns : ℕ
  pub keep_first : ℕ
  pub keep_last_turns : ℕ
  -- whether `compressions_dir` is set
  pub saves : Bool

-- One entry of `self.compressions`.
pub record Compression : Type 0 where
  pub index : ℕ
  pub kind : Kind
  pub n_calls_at : ℕ
  pub n_msgs_before : ℕ
  pub n_msgs_after : ℕ
  pub tokens_before : ℕ
  pub tokens_after : ℕ
  pub summary : Option Text
  pub metadata : Metadata
  pub input_messages : List Message

-- A file that the agent writes: one for each compaction, and the running count.
pub data File : Type 0 where
  compaction_file : Compression → File
  count_file : ℕ → File

pub record Agent : Type 0 where
  pub messages : List Message
  pub n_calls : ℕ
  pub n_compressions : ℕ
  pub compressions : List Compression
  pub context_tokens : List ℕ
  pub last_prompt_tokens : Option ℕ
  -- the files written so far, oldest first
  pub files : List File

-- A call on the agent: what it returns or raises, and the agent afterwards.
abbrev pub Exec : Type 0 → Type 0
Exec A = Agent → Result A × Agent
