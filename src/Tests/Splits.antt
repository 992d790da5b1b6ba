-- ===== src/Tests/Splits.antt =====
-- The laws of splitting a trajectory, applied to a sample trajectory.
use tts_tokens_that_suffice.Prelude.{
  ℕ, ◌≡◌, refl, some, List, [], ◌++◌, take, codes, decimal, ◌*◌, ◌≤◌, ◌∷◌, map, arith, length,
  type_error, err, ok,
}
use tts_tokens_that_suffice.Trajectory.{
  AgentTrajectory, TrajectoryStep, SplitConfig, with_prefix, threshold_split, truncate_continuation,
  messages_to_steps,
}
use tts_tokens_that_suffice.Trajectory.Threshold.{
  IsThresholdSplit, threshold_split-IsThresholdSplit,
}
use tts_tokens_that_suffice.Trajectory.Splits.{
  FitsBudget, with_prefix-append, truncate_continuation-FitsBudget,
}
use tts_tokens_that_suffice.Tests.Samples.{blind_codec, preamble, history, act}
use tts_tokens_that_suffice.Trajectory.Sampling.{Draws, sample_split, sample_split-bounds}
use tts_tokens_that_suffice.Message.{assistant, Message, text, object, tool, plain, other}
use tts_tokens_that_suffice.Trajectory.Messages.{steps_to_messages}
use tts_tokens_that_suffice.Trajectory.Replay.{restored, messages_to_steps-steps_to_messages}
use tts_tokens_that_suffice.Trajectory.Collected.{
  from_collect_dict, without_reasoning, from_collect_dict-messages_to_steps, acts,
}

-- Three turns in six steps, each turn counted as ten tokens.
abbrev sample : AgentTrajectory
sample = record {
  task = codes "task";
  steps = messages_to_steps blind_codec (preamble ++ history 3);
  continuation = [];
  summary = [];
  trajectory_id = codes "t1";
  agent_system_prompt = codes "sys";
}

abbrev ten : List TrajectoryStep → ℕ
ten steps = 10

-- Split at fifteen tokens, with one turn of continuation.
abbrev at_fifteen : SplitConfig
at_fifteen = record {
  split_at_tokens = 15;
  min_prefix = 1;
  min_suffix = 1;
  max_continuation_tokens = 12;
}

abbrev halves : AgentTrajectory
halves = with_prefix sample 4

sample_kept :
    (with_prefix sample 4).steps ++ (with_prefix sample 4).continuation
    ≡ sample.steps ++ sample.continuation
sample_kept = with_prefix-append sample 4

split_run : threshold_split ten at_fifteen sample ≡ some halves
unfolding threshold_split with_prefix messages_to_steps decimal
split_run = refl

threshold_split-IsThresholdSplit_example : IsThresholdSplit ten at_fifteen sample halves
threshold_split-IsThresholdSplit_example =
    threshold_split-IsThresholdSplit ten at_fifteen sample halves split_run

-- The first turn as the prefix, and one of the two turns that follow.
abbrev early : AgentTrajectory
early = with_prefix sample 2

abbrev cut_short : AgentTrajectory
cut_short = record early { continuation = take 2 early.continuation; agent_system_prompt = [] }

truncate_run : truncate_continuation ten early 12 ≡ some cut_short
unfolding truncate_continuation with_prefix messages_to_steps decimal
truncate_run = refl

cut_short_fits : FitsBudget ten early cut_short 12
cut_short_fits = truncate_continuation-FitsBudget ten early cut_short 12 truncate_run

-- A generator that always gives the lower bound.
abbrev lowest : ℕ → ℕ → ℕ
lowest lo hi = lo

lowest-Draws : Draws lowest
lowest-Draws lo hi h = (omega arith, h)

sample_bounded :
    let s = sample_split lowest sample 1 1 in
    (1 * 2 ≤ length s.steps)
    × (1 * 2 ≤ length s.continuation)
    × (s.steps ++ s.continuation ≡ sample.steps)
sample_bounded =
    sample_split-bounds lowest sample 1 1 lowest-Draws refl
      (unfold messages_to_steps in omega arith)

-- A step with a call and one with its output.
abbrev two_steps : List TrajectoryStep
two_steps =
    record {
      role = assistant;
      content = text (codes "run");
      tool_calls = record { name = codes "bash"; arguments = object []; id = [] } ∷ [];
      tool_call_id = [];
      name = [];
      reasoning_content = codes "why";
    }
    ∷ record {
      role = tool;
      content = text (codes "out");
      tool_calls = [];
      tool_call_id = codes "c1";
      name = [];
      reasoning_content = [];
    }
    ∷ []

messages_to_steps-steps_to_messages_example :
    (ms : List Message) × (steps_to_messages
        (λ t. err type_error)
        two_steps
        (codes "task")
        (codes "sys")
      ≡ ok ms)
    × (messages_to_steps blind_codec ms ≡ map restored two_steps)
messages_to_steps-steps_to_messages_example =
    messages_to_steps-steps_to_messages blind_codec (λ t. err type_error) two_steps (codes "task")
      (codes "sys") (refl, (refl, tt))

-- Two turns, of which the second is cut off, and the exit.
abbrev exited : List Message
exited = history 1 ++ act ∷ plain (other (codes "exit")) (codes "LimitsExceeded") ∷ []

from_collect_dict-messages_to_steps_example :
    (steps : List TrajectoryStep) × (from_collect_dict blind_codec (codes "u") (preamble ++ exited)
      ≡ ok (record {
        task = text (codes "task");
        steps = steps;
        trajectory_id = codes "u";
        agent_system_prompt = text (codes "sys");
      }))
    × (map without_reasoning steps ≡ messages_to_steps blind_codec (preamble ++ exited))
from_collect_dict-messages_to_steps_example =
    from_collect_dict-messages_to_steps blind_codec (codes "u") (codes "sys") (codes "task") exited
      (unfold acts in (refl, (refl, (refl, (refl, tt)))))
