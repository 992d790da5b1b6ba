-- ===== src/Rollouts/Answers.antt =====
-- `validate_messages` of src/tts/utils/trajectory.py: what its verdict means, and that it does not
-- see what masking does.
use tts_tokens_that_suffice.Prelude.{
  ℕ, suc, ◌≡◌, refl, sym, ap, ◌∙◌, Bool, true, false, ◌&&◌, Option, List, [], ◌∷◌, map, arith,
  if◌then◌else◌, Text, Result, ◌>>=◌, ok,
}
use tts_tokens_that_suffice.Message.{
  Frame, ToolCall, Message, role_is_tool, frame, has_tool_calls, role_is_assistant,
}
use tts_tokens_that_suffice.Rollouts.{
  responded_ids, validate_from, validate_messages, Verdict, valid, expected_ids, verdict_at,
  missing_ids,
}
use tts_tokens_that_suffice.Mask.Tags.{Runtime}
use tts_tokens_that_suffice.Mask.{MaskConfig}
use tts_tokens_that_suffice.Compaction.{CompactionResult}
use tts_tokens_that_suffice.Mask.Compact.{compact}
use tts_tokens_that_suffice.Mask.Shape.{frame-compact}

-- The verdict reads the frames of the messages only.
responded_frames : List Frame → List (Option Text)
responded_frames [] = []
responded_frames (m ∷ ms) =
    let rest = responded_frames ms in if role_is_tool m.role then m.tool_call_id ∷ rest else []

responded_ids-frame : (ms : List Message) → responded_ids ms ≡ responded_frames (map frame ms)
unfolding responded_ids responded_frames
responded_ids-frame [] = refl
responded_ids-frame (m ∷ ms) = rw (responded_ids-frame ms) refl

has_calls : List ToolCall → Bool
has_calls [] = false
has_calls (c ∷ cs) = true

has_tool_calls-frame : (m : Message) → has_tool_calls m ≡ has_calls m.tool_calls
unfolding has_calls
has_tool_calls-frame m = ground arith

validate_frames : ℕ → List Frame → Result Verdict
validate_frames i [] = ok valid
validate_frames i (m ∷ ms) =
    let rest = validate_frames (suc i) ms in
    if role_is_assistant m.role && has_calls m.tool_calls
    then (expected_ids m.tool_calls >>= λ expected.
        verdict_at i (missing_ids expected (responded_frames ms)) rest)
    else rest

validate_from-frame :
    (i : ℕ) (ms : List Message) → validate_from i ms ≡ validate_frames i (map frame ms)
unfolding validate_from validate_frames
validate_from-frame i [] = refl
validate_from-frame i (m ∷ ms) =
    rw (validate_from-frame (suc i) ms, has_tool_calls-frame m, responded_ids-frame ms) refl

validate_messages-frame :
    (ms ns : List Message)
    → map frame ms ≡ map frame ns
    → validate_messages ms ≡ validate_messages ns
unfolding validate_messages
validate_messages-frame ms ns h =
    validate_from-frame 0 ms ∙ (ap (validate_frames 0) h ∙ sym (validate_from-frame 0 ns))

-- A mask-based compaction that returns leaves the verdict on the whole history as it was, so that
-- no tool call loses its answer.
pub validate_messages-compact :
    (py : Runtime) (cfg : MaskConfig) (ms : List Message) (f n : ℕ) (r : CompactionResult)
    → compact py cfg ms f n ≡ ok r
    → validate_messages r.messages ≡ validate_messages ms
validate_messages-compact py cfg ms f n r h =
    validate_messages-frame r.messages ms (frame-compact py cfg ms f n r h)
