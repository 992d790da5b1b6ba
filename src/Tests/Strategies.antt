-- ===== src/Tests/Strategies.antt =====
-- The laws of the other strategies, applied to a sample history.
use tts_tokens_that_suffice.Strategies.Truncation
use tts_tokens_that_suffice.Strategies.Model
use tts_tokens_that_suffice.Strategies.Cliff
use tts_tokens_that_suffice.Prelude.{
  ◌≡◌, refl, Option, some, List, [], ◌∷◌, ◌++◌, take, drop, Text, codes, decimal, ok, false,
  occurs_in,
}
use tts_tokens_that_suffice.Message.{Message, Role, user, plain}
use tts_tokens_that_suffice.Compaction.{CompactionResult, last_n_turns, summary, no_metadata, cliff}
use tts_tokens_that_suffice.Trajectory.{TrajectoryStep, messages_to_steps}
use tts_tokens_that_suffice.Tests.Samples.{blind_codec, preamble, history}
use tts_tokens_that_suffice.Strategies.Ends.{model_middle, model_ends, cliff_ends}
use tts_tokens_that_suffice.Strategies.Truncation.{IsTruncation, compact-IsTruncation}
use tts_tokens_that_suffice.Strategies.Model.{recall_turn, strip_thinking, think_close}
use tts_tokens_that_suffice.Strategies.Thinking.{occurs_in-strip_thinking}

abbrev three_turns : List Message
three_turns = preamble ++ history 3

compact-IsTruncation_example :
    (r : CompactionResult) × (Truncation.compact three_turns 2 1 ≡ ok r)
    × IsTruncation three_turns 2 1 r
compact-IsTruncation_example = compact-IsTruncation three_turns 2 1

-- A codec that reads no text and writes nothing, and a backend that says as many characters as
-- there are steps.
abbrev dots : List TrajectoryStep → Text
dots [] = []
dots (s ∷ steps) = 46 ∷ dots steps

abbrev summarized : CompactionResult
summarized = record {
  messages = preamble ++ recall_turn (codes "......") ++ history 1;
  kind = summary;
  summary = some (codes "......");
  metadata = no_metadata;
}

model_run :
    Model.compact blind_codec (λ e. []) (λ steps. ok (dots steps)) three_turns 2 1 ≡ ok summarized
unfolding Model.compact decimal
model_run = refl

model_kept :
    summarized.messages
    ≡ take 2 three_turns
      ++ (model_middle blind_codec
            (λ e. [])
            (λ steps. ok (dots steps))
            (ok (dots (messages_to_steps blind_codec three_turns)))
          ++ last_n_turns (drop 2 three_turns) 1)
model_kept =
    model_ends blind_codec (λ e. []) (λ steps. ok (dots steps)) three_turns 2 1 summarized model_run

-- A package that answers with a user message.
abbrev short_summary : List Message → Option (Role × Text)
short_summary ms = some (user, codes "done")

abbrev cliffed : CompactionResult
cliffed = record {
  messages = preamble ++ plain user (codes "done") ∷ history 1;
  kind = summary;
  summary = some (codes "done");
  metadata = cliff 2 4 4;
}

cliff_run : Cliff.compact short_summary three_turns 2 1 ≡ ok cliffed
unfolding Cliff.compact decimal
cliff_run = refl

cliff_kept :
    (middle : List Message) × (cliffed.messages
      ≡ take 2 three_turns ++ (middle ++ last_n_turns (drop 2 three_turns) 1))
cliff_kept = cliff_ends short_summary three_turns 2 1 cliffed cliff_run

thinking_run : strip_thinking (codes "<think>a</think>b</think>\n\nz") ≡ codes "z"
unfolding strip_thinking
thinking_run = refl

stripped_run :
    occurs_in think_close (strip_thinking (codes "<think>a</think>b</think>\n\nz")) ≡ false
stripped_run = occurs_in-strip_thinking (codes "<think>a</think>b</think>\n\nz")
