-- ===== src/Training/Pool.antt =====
-- The trajectories of a training run, `main` of src/tts/train_rl.py: which are trained on, and which
-- are held out. `tokens` counts the tokens of steps, and `draws i` is the draw number i of the
-- generator seeded with `eval_seed`.
use tts_tokens_that_suffice.Prelude.{
  ℕ, suc, ◌+◌, ◌-◌, ◌*◌, ◌/◌, Bool, false, not, ◌&&◌, none, some, List, [], ◌∷◌, leb, ltb, ◌==◌,
  if◌then◌else◌, length, take, drop, codes, Text, Error, value_error, other_error, Result, ◌>>=◌,
  ok, err, Option,
}
use tts_tokens_that_suffice.Message.{Json}
use tts_tokens_that_suffice.Trajectory.{
  AgentTrajectory, TrajectoryStep, SplitConfig, threshold_split,
}
use tts_tokens_that_suffice.Trajectory.Sampling.{sample_split}
use tts_tokens_that_suffice.Reward.Floats.{Floats}
use tts_tokens_that_suffice.Reward.Distortion.{Scorer}
use tts_tokens_that_suffice.Sweep.{compaction_tokens}

pub record PoolConfig : Type 0 where
  pub batch_size : ℕ
  pub num_epochs : ℕ
  pub distortion_max_size : ℕ
  pub distortion_keep_first : ℕ
  pub min_split_prefix : ℕ
  pub min_split_suffix : ℕ
  pub split_at_tokens : ℕ
  pub compaction_token_budget : ℕ
  pub min_summary_tokens : ℕ
  pub eval_size : ℕ
  pub eval_every : ℕ
  pub eval_on_train : Bool

-- The arguments of the split at the threshold.
unfoldable pub split_config : PoolConfig → SplitConfig
split_config cfg = record {
  split_at_tokens = cfg.split_at_tokens;
  min_prefix = cfg.min_split_prefix;
  min_suffix = cfg.min_split_suffix;
  max_continuation_tokens = cfg.split_at_tokens - cfg.compaction_token_budget;
}

-- `if (s := ...) is not None`
unfoldable pub with_split : Option AgentTrajectory → List AgentTrajectory → List AgentTrajectory
with_split none rest = rest
with_split (some s) rest = s ∷ rest

unfoldable pub split_all :
    (List TrajectoryStep → ℕ) → SplitConfig → List AgentTrajectory → List AgentTrajectory
unfolding threshold_split with_split
split_all tokens cfg [] = []
split_all tokens cfg (t ∷ ts) = with_split (threshold_split tokens cfg t) (split_all tokens cfg ts)

-- A split at the threshold whose verbatim part leaves room for the summary: `<= max_h4t3`, which may
-- be negative in the source.
unfoldable pub leaves_room : PoolConfig → ℕ → Bool
leaves_room cfg cost = leb (cost + cfg.min_summary_tokens) cfg.compaction_token_budget

-- An element of the filter, once its cost is known and the others are filtered.
unfoldable pub keep_costed :
    PoolConfig
    → AgentTrajectory
    → Result ℕ
    → Result (List AgentTrajectory)
    → Result (List AgentTrajectory)
unfolding leaves_room
keep_costed cfg t (err e) rest = err e
keep_costed cfg t (ok cost) (err e) = err e
keep_costed cfg t (ok cost) (ok kept) = ok (if leaves_room cfg cost then t ∷ kept else kept)

-- `last_n_turns` takes a negative number as it takes 0.
unfoldable pub tail_turns : PoolConfig → ℕ
tail_turns cfg = (cfg.distortion_max_size / 2 - cfg.distortion_keep_first) / 2

-- `if not trajectories: raise ValueError`
unfoldable pub any_left : List AgentTrajectory → Result (List AgentTrajectory)
any_left [] = err value_error
any_left (t ∷ ts) = ok (t ∷ ts)

-- What the selection hands to the loop: the trajectories, those held out before they are split, and
-- whether a batch is split when it is taken.
pub record Pool : Type 0 where
  pub trajectories : List AgentTrajectory
  pub eval_raw : List AgentTrajectory
  pub split_at_train_time : Bool

pub record Plan : Type 0 where
  pub trajectories : List AgentTrajectory
  pub eval_trajs : List AgentTrajectory
  pub split_at_train_time : Bool
  pub n_batches_per_epoch : ℕ
  pub total_batches : ℕ

-- The held-out set from the end, or the start of the training set itself.
unfoldable pub reserve_from : PoolConfig → List AgentTrajectory → Bool → Result Pool
reserve_from cfg ts splits =
    if cfg.eval_on_train
    then ok (record {
      trajectories = ts;
      eval_raw = take cfg.eval_size ts;
      split_at_train_time = splits;
    })
    else if leb (length ts) cfg.eval_size
    then err value_error
    else ok (record {
      trajectories = take (length ts - cfg.eval_size) ts;
      eval_raw = drop (length ts - cfg.eval_size) ts;
      split_at_train_time = splits;
    })

-- A pool of threads for no trajectory raises.
unfoldable pub with_workers : Pool → Result Pool
with_workers p = if ltb 0 (length p.eval_raw) then ok p else err value_error

unfoldable pub reserve : PoolConfig → List AgentTrajectory → Bool → Result Pool
unfolding reserve_from with_workers
reserve cfg ts splits =
    if ltb 0 cfg.eval_size && ltb 0 cfg.eval_every
    then (reserve_from cfg ts splits >>= with_workers)
    else ok (record { trajectories = ts; eval_raw = []; split_at_train_time = splits })

-- eval_trajs, with the number of draws so far
unfoldable pub split_eval :
    (ℕ → ℕ → ℕ → ℕ) → PoolConfig → Bool → ℕ → List AgentTrajectory → List AgentTrajectory
unfolding sample_split
split_eval draws cfg splits i [] = []
split_eval draws cfg splits i (t ∷ ts) =
    let rest = split_eval draws cfg splits (suc i) ts in
    (if splits then sample_split (draws i) t cfg.min_split_prefix cfg.min_split_suffix else t)
    ∷ rest

-- The checks and the counts in front of the loop; `//` by 0 raises.
unfoldable pub batch_plan : (ℕ → ℕ → ℕ → ℕ) → PoolConfig → Pool → Result Plan
unfolding split_eval
batch_plan draws cfg p =
    if ltb (length p.trajectories) cfg.batch_size
    then err value_error
    else if cfg.batch_size == 0
    then err (other_error (codes "integer division or modulo by zero"))
    else ok (record {
      trajectories = p.trajectories;
      eval_trajs = split_eval draws cfg p.split_at_train_time 0 p.eval_raw;
      split_at_train_time = p.split_at_train_time;
      n_batches_per_epoch = length p.trajectories / cfg.batch_size;
      total_batches = length p.trajectories / cfg.batch_size * cfg.num_epochs;
    })

module _ {F : Type 0} (f : Floats F) (s : Scorer F) (reload : Text → Result Json)
    (default_prompt : Text) (str_error : Error → Text) (tokens : List TrajectoryStep → ℕ) where
  unfoldable pub cost_of : PoolConfig → AgentTrajectory → Result ℕ
  unfolding compaction_tokens tail_turns
  cost_of cfg t =
      compaction_tokens f s reload default_prompt str_error t cfg.distortion_keep_first
        (tail_turns cfg)

  unfoldable pub keep_fitting : PoolConfig → List AgentTrajectory → Result (List AgentTrajectory)
  unfolding cost_of keep_costed
  keep_fitting cfg [] = ok []
  keep_fitting cfg (t ∷ ts) = keep_costed cfg t (cost_of cfg t) (keep_fitting cfg ts)

  -- The split at the threshold, once for the whole run.
  unfoldable pub threshold_pool :
      PoolConfig → Bool → List AgentTrajectory → Result (List AgentTrajectory)
  unfolding keep_fitting split_all split_config any_left
  threshold_pool cfg splits ts =
      if not splits
      then err value_error
      else if leb cfg.split_at_tokens cfg.compaction_token_budget
      then err value_error
      else (keep_fitting cfg (split_all tokens (split_config cfg) ts) >>= any_left)

  unfoldable pub prepare : (ℕ → ℕ → ℕ → ℕ) → PoolConfig → Bool → List AgentTrajectory → Result Plan
  unfolding threshold_pool reserve batch_plan
  prepare draws cfg splits ts =
      if ltb 0 cfg.split_at_tokens
      then (threshold_pool cfg splits ts >>= λ kept.
          reserve cfg kept false >>= batch_plan draws cfg)
      else (reserve cfg ts splits >>= batch_plan draws cfg)
