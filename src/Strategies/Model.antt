-- ===== src/Strategies/Model.antt =====
-- src/tts/summarization/model_based.py: a generated summary in place of the middle, as a tool turn.
use tts_tokens_that_suffice.Prelude.{
  ℕ, ◌-◌, ◌/◌, Option, none, some, List, [], ◌∷◌, ◌++◌, ◌==◌, if◌then◌else◌, length, drop, Text,
  codes, starts_with, Error, Result, ok, err,
}
use tts_tokens_that_suffice.Message.{Message, Codec, plain, assistant, json_text, tool}
use tts_tokens_that_suffice.Compaction.{
  split_head_tail, Split, CompactionResult, Compactor, summary, no_metadata, summary_failed,
  failed_with,
}
use tts_tokens_that_suffice.Trajectory.{TrajectoryStep, messages_to_steps}

abbrev pub think_close : Text
think_close = codes "</think>"

-- `text.rpartition(sep)`: what stands behind the last occurrence of `sep`, if there is one.
unfoldable pub after_last : Text → Text → Option Text
unfolding starts_with
after_last sep [] = none
after_last sep (c ∷ s) = elim (after_last sep s) [
  | some t ↦ some t
  | none ↦ if starts_with (c ∷ s) sep then some (drop (length sep) (c ∷ s)) else none
]

-- text.lstrip("\n")
unfoldable pub lstrip_newlines : Text → Text
lstrip_newlines [] = []
lstrip_newlines (c ∷ s) = let rest = lstrip_newlines s in if c == 10 then rest else c ∷ s

unfoldable pub strip_thinking : Text → Text
unfolding after_last lstrip_newlines
strip_thinking t = elim (after_last think_close t) [ none ↦ t | some tail ↦ lstrip_newlines tail ]

unfoldable pub hf_id : Text → Text
unfolding starts_with
hf_id model =
    if starts_with model (codes "openai/")
    then drop 7 model
    else if starts_with model (codes "litellm_proxy/")
    then drop 14 model
    else if starts_with model (codes "hosted_vllm/")
    then drop 12 model
    else model

unfoldable pub summary_as_tool_turn : Text → Text → Text → List Message
summary_as_tool_turn z tool_name call_id =
    record (plain assistant []) {
      tool_calls =
          record {
            id = some call_id;
            name = some tool_name;
            arguments = some (json_text (codes "{}"));
          }
          ∷ [];
    }
    ∷ record (plain tool z) { tool_call_id = some call_id }
    ∷ []

-- `summary_as_tool_turn(z)`, with its default arguments
unfoldable pub recall_turn : Text → List Message
unfolding summary_as_tool_turn
recall_turn z = summary_as_tool_turn z (codes "recall_context") (codes "summary_0")

-- `keep_turns` may be negative in the source, which keeps no turn, as 0 does.
unfoldable pub build_z_scoring_messages : Text → List Message → ℕ → ℕ → List Message
unfolding recall_turn split_head_tail
build_z_scoring_messages z partial_messages max_size keep_first =
    let s = split_head_tail partial_messages keep_first ((max_size / 2 - keep_first) / 2) in
    s.head ++ (recall_turn z ++ s.tail)

-- A backend: the summary of some steps, or the exception that it raised.
abbrev pub Summarizer : Type 0
Summarizer = List TrajectoryStep → Result Text

module _ (json : Codec) (str_error : Error → Text) (summarize : Summarizer) where
  -- The result, by what the backend returned or raised.
  unfoldable pub around_summary : Split → Result Text → CompactionResult
  unfolding recall_turn
  around_summary s (ok z) = record {
    messages = s.head ++ (recall_turn z ++ s.tail);
    kind = summary;
    summary = some z;
    metadata = no_metadata;
  }
  around_summary s (err e) = record {
    messages = s.head ++ s.tail;
    kind = summary_failed;
    summary = none;
    metadata = failed_with (str_error e);
  }

  -- `ModelBasedSummarizer.compact`
  unfoldable pub compact : Compactor
  unfolding around_summary split_head_tail messages_to_steps
  compact messages keep_first keep_last_turns = ok (
      around_summary (split_head_tail messages keep_first keep_last_turns)
        (summarize (messages_to_steps json messages)))
