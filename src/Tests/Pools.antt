-- ===== src/Tests/Pools.antt =====
-- The selection and the batches of a training run, on runs of four plain steps.
use tts_tokens_that_suffice.Prelude.{
  ℕ, ◌≡◌, ◌*◌, ◌+◌, refl, true, false, List, [], ◌∷◌, ◌++◌, Text, codes, arith, type_error, Result,
  err, ok, Error, Each, length, drop, map,
}
use tts_tokens_that_suffice.Trajectory.{AgentTrajectory, TrajectoryStep, with_prefix}
use tts_tokens_that_suffice.Training.Pool.{PoolConfig, Plan, prepare}
use tts_tokens_that_suffice.Training.Prepared.{
  IsPrepared, prepare-IsPrepared, EachFits, prepare-FitsWindow,
}
use tts_tokens_that_suffice.Training.Batches.{
  Loop, train_turns, train_turns-later, later, epoch_turns,
}
use tts_tokens_that_suffice.Training.Slices.{epoch_turns-IsPartition, taken}
use tts_tokens_that_suffice.Tests.Rewards.{whole, scorer}
use tts_tokens_that_suffice.Message.{assistant, Json, text}

abbrev step_of_one : TrajectoryStep
step_of_one = record {
  role = assistant;
  content = text (codes "a");
  tool_calls = [];
  tool_call_id = [];
  name = [];
  reasoning_content = [];
}

abbrev pub four_steps : Text → AgentTrajectory
four_steps i = record {
  task = codes "t";
  steps = step_of_one ∷ step_of_one ∷ step_of_one ∷ step_of_one ∷ [];
  continuation = [];
  summary = [];
  trajectory_id = i;
  agent_system_prompt = [];
}

abbrev three : List AgentTrajectory
three = four_steps (codes "x") ∷ four_steps (codes "y") ∷ four_steps (codes "z") ∷ []

-- Batches of one, with one trajectory held out.
abbrev small : PoolConfig
small = record {
  batch_size = 1;
  num_epochs = 2;
  distortion_max_size = 4;
  distortion_keep_first = 1;
  min_split_prefix = 1;
  min_split_suffix = 1;
  split_at_tokens = 0;
  compaction_token_budget = 3;
  min_summary_tokens = 1;
  eval_size = 1;
  eval_every = 5;
  eval_on_train = false;
}

-- A split at the second of three turns, where the third has the two tokens of the continuation.
abbrev at_four : PoolConfig
at_four = record small { split_at_tokens = 4; compaction_token_budget = 2 }

abbrev six_steps : AgentTrajectory
six_steps =
    let four = four_steps (codes "w") in
    record four { steps = step_of_one ∷ step_of_one ∷ four.steps }

abbrev count_steps : List TrajectoryStep → ℕ
count_steps steps = length steps

abbrev lowest : ℕ → ℕ → ℕ → ℕ
lowest i lo hi = lo

abbrev pub no_reload : Text → Result Json
no_reload t = err type_error

abbrev pub silent : Error → Text
silent e = []

abbrev planned : Plan
planned = record {
  trajectories = four_steps (codes "x") ∷ four_steps (codes "y") ∷ [];
  eval_trajs = with_prefix (four_steps (codes "z")) 2 ∷ [];
  split_at_train_time = true;
  n_batches_per_epoch = 2;
  total_batches = 4;
}

plan_run : prepare whole scorer no_reload [] silent count_steps lowest small true three ≡ ok planned
unfolding prepare
plan_run = refl

prepare-IsPrepared_example : IsPrepared lowest small true three planned
prepare-IsPrepared_example =
    prepare-IsPrepared whole scorer no_reload [] silent count_steps lowest small true three planned
      refl plan_run

abbrev at_threshold : Plan
at_threshold = record {
  trajectories = with_prefix six_steps 4 ∷ [];
  eval_trajs = with_prefix six_steps 4 ∷ [];
  split_at_train_time = false;
  n_batches_per_epoch = 1;
  total_batches = 2;
}

threshold_run :
    prepare whole scorer no_reload [] silent count_steps lowest at_four true
      (six_steps ∷ four_steps (codes "x") ∷ six_steps ∷ [])
    ≡ ok at_threshold
unfolding prepare
threshold_run = refl

prepare-FitsWindow_example :
    EachFits whole scorer no_reload [] silent count_steps lowest at_four at_threshold.trajectories
    × EachFits whole scorer no_reload [] silent count_steps lowest at_four at_threshold.eval_trajs
prepare-FitsWindow_example =
    prepare-FitsWindow whole scorer no_reload [] silent count_steps lowest at_four true
      (six_steps ∷ four_steps (codes "x") ∷ six_steps ∷ []) at_threshold refl threshold_run

abbrev loop : Loop
loop = record {
  pool = small;
  save_every = 2;
  has_eval_set = true;
  split_at_train_time = true;
  n_batches_per_epoch = 2;
}

abbrev lowest_of : ℕ → ℕ → ℕ → ℕ → ℕ
lowest_of b = lowest

abbrev unshuffled : ℕ → List AgentTrajectory → List AgentTrajectory
unshuffled e ts = ts

-- A run of four batches, resumed at batch 3.
train_turns-later_example :
    ((train_turns loop lowest_of unshuffled three 3).0
      ≡ map (later loop lowest_of 3) (train_turns loop lowest_of unshuffled three 0).0)
    × (length (train_turns loop lowest_of unshuffled three 3).0 ≡ 2 * 2)
    × ((train_turns loop lowest_of unshuffled three 3).1 ≡ 3 + 2 * 2)
train_turns-later_example = train_turns-later loop lowest_of unshuffled three 3

epoch_turns-IsPartition_example :
    let turns = epoch_turns loop lowest_of 0 three 0 2 0 0 in
    (taken turns ++ drop (2 * 1) three ≡ three) × Each (λ t. length t.raw_batch ≡ 1) turns
epoch_turns-IsPartition_example =
    epoch_turns-IsPartition loop lowest_of 0 0 three 2 0 (omega arith) (omega arith)
