-- ===== src/Rendering.antt =====
-- src/tts/reward/utils.py, and `format_continuation` of src/tts/summarization/utils.py: messages as the
-- chat template takes them, and the text that an assistant turn was generated as. `template` is the
-- tokenizer's chat template, with its flag `add_generation_prompt`, and `encode` its encoding.
pub mod Events
pub mod Replies
use tts_tokens_that_suffice.Mask.Tags.{Runtime, content_str}
use tts_tokens_that_suffice.Prelude.{
  ℕ, Bool, true, false, not, ◌&&◌, Option, none, some, List, [], ◌∷◌, ◌++◌, ◌==◌, if◌then◌else◌,
  length, drop, Text, codes, starts_with, join, is_nonempty, Result, value_error, err, ok,
}
use tts_tokens_that_suffice.Message.{
  Message, Codec, system, Arguments, ToolCall, parsed, or_empty, json_text,
}
use tts_tokens_that_suffice.Trajectory.{empty_object}

unfoldable pub message_lines : Runtime → List Message → List Text
message_lines py [] = []
message_lines py (m ∷ ms) =
    let rest = message_lines py ms in
    elim m.role [ system ↦ rest | r ↦ content_str py (or_empty m.content) ∷ rest ]

unfoldable pub messages_text : Runtime → List Message → Text
unfolding message_lines join
messages_text py messages = join (codes "\n") (message_lines py messages)

unfoldable pub template_arguments : Codec → Option Arguments → Option Arguments
template_arguments json none = none
template_arguments json (some (parsed j)) = some (parsed j)
template_arguments json (some (json_text t)) =
    some (parsed (elim (json.loads t) [ none ↦ empty_object | some j ↦ j ]))

unfoldable pub template_calls : Codec → List ToolCall → List ToolCall
unfolding template_arguments
template_calls json [] = []
template_calls json (tc ∷ tcs) =
    record tc { arguments = template_arguments json tc.arguments } ∷ template_calls json tcs

unfoldable pub to_template_tool_calls : Codec → List Message → List Message
unfolding template_calls
to_template_tool_calls json [] = []
to_template_tool_calls json (m ∷ ms) =
    record m { tool_calls = template_calls json m.tool_calls } ∷ to_template_tool_calls json ms

unfoldable pub strip_reasoning : List Message → List Message
strip_reasoning [] = []
strip_reasoning (m ∷ ms) = record m { reasoning_content = none } ∷ strip_reasoning ms

pub record Generation : Type 0 where
  pub generated : Text
  pub token_ids : List ℕ
  pub recorded_n_tokens : Option ℕ

unfoldable pub n_tokens : Generation → ℕ
n_tokens g = length g.token_ids

unfoldable pub verified : Generation → Option Bool
unfolding n_tokens
verified g = elim g.recorded_n_tokens [ none ↦ none | some n ↦ some (n_tokens g == n) ]

-- s.rstrip("\n")
unfoldable pub rstrip_newlines : Text → Text
rstrip_newlines [] = []
rstrip_newlines (c ∷ s) =
    let rest = rstrip_newlines s in if c == 10 && not (is_nonempty rest) then [] else c ∷ rest

abbrev pub Template : Type 0
Template = List Message → Bool → Text

-- What is left of the full render behind the prompt.
unfoldable pub generation_of : (Text → List ℕ) → Option ℕ → Text → Text → Result Generation
unfolding starts_with rstrip_newlines
generation_of encode recorded full prompt =
    if not (starts_with full prompt)
    then err value_error
    else let written = rstrip_newlines (drop (length prompt) full) in
      ok (record { generated = written; token_ids = encode written; recorded_n_tokens = recorded })

-- `recorded` is the number of completion tokens in the message's usage, where there is one.
unfoldable pub reconstruct_generation :
    Codec → Template → (Text → List ℕ) → Option ℕ → List Message → Message → Result Generation
unfolding to_template_tool_calls generation_of
reconstruct_generation json template encode recorded context_messages assistant_message =
    let ctx = to_template_tool_calls json context_messages in
    let act = to_template_tool_calls json (assistant_message ∷ []) in
    generation_of encode recorded (template (ctx ++ act) false) (template ctx true)

unfoldable pub format_continuation : Template → List Message → List Message → Text
format_continuation template x_messages continuation_messages =
    drop (length (template x_messages true)) (template (x_messages ++ continuation_messages) false)
