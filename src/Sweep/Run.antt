-- ===== src/Sweep/Run.antt =====
-- `main` of src/tts/sweep_reward.py: the shards, the units of a sweep, and a sweep that is resumed. The
-- output file is the list of its lines, to which the units are written in the order in which they end.
use tts_tokens_that_suffice.Prelude.{
  ℕ, Bool, not, ◌&&◌, List, [], ◌∷◌, ◌++◌, if◌then◌else◌, ltb, ◌==◌, keep_if, any, map, Text,
  text_eq, Error, value_error, Result, err, ok,
}
use tts_tokens_that_suffice.Message.{Json}
use tts_tokens_that_suffice.Trajectory.{AgentTrajectory, TrajectoryStep}
use tts_tokens_that_suffice.Reward.Floats.{Floats}
use tts_tokens_that_suffice.Reward.Distortion.{Scorer}
use tts_tokens_that_suffice.Sweep.{Row, sweep_one, strided}
use tts_tokens_that_suffice.Sweep.Specs.{Spec}

-- Shard `idx/n`, once the text is read: xs[idx::n].
unfoldable pub shard_of {ℓ} : {A : Type ℓ} → ℕ → ℕ → List A → Result (List A)
unfolding strided
shard_of idx n xs = if ltb idx n then ok (strided n idx xs) else err value_error

-- One (trajectory, turn) pair, with its context length.
pub record SweepUnit : Type 0 where
  pub traj : AgentTrajectory
  pub k_turns : ℕ
  pub context_tokens : ℕ

-- What a line says beside its keys: a row of the sweep, or that the unit raised.
pub data Said (F : Type 0) : Type 0 where
  swept : (row : Row F) → Said F
  unit_failed : (error : Text) → Said F

pub record Line (F : Type 0) : Type 0 where
  pub trajectory_id : Text
  pub n_prefix_turns : ℕ
  pub context_tokens : ℕ
  pub said : Said F

-- The units of a trajectory, from its turns; `turns_of` is `enumerate_split_turns`.
unfoldable pub units_at : AgentTrajectory → List (ℕ × ℕ) → List SweepUnit
units_at t [] = []
units_at t ((k, ctx) ∷ turns) =
    record { traj = t; k_turns = k; context_tokens = ctx } ∷ units_at t turns

unfoldable pub units_of : (AgentTrajectory → List (ℕ × ℕ)) → List AgentTrajectory → List SweepUnit
unfolding units_at
units_of turns_of [] = []
units_of turns_of (t ∷ ts) = units_at t (turns_of t) ++ units_of turns_of ts

module _ {F : Type 0} where
  -- `(trajectory_id, n_prefix_turns) in done`
  unfoldable pub is_done : List (Line F) → SweepUnit → Bool
  unfolding text_eq
  is_done lines u =
      any (λ l. text_eq l.trajectory_id u.traj.trajectory_id && (l.n_prefix_turns == u.k_turns))
        lines

  -- The units that a resumed sweep takes.
  unfoldable pub resumed : List SweepUnit → List (Line F) → List SweepUnit
  unfolding is_done
  resumed units lines = keep_if (λ u. not (is_done lines u)) units

  unfoldable pub line_for : SweepUnit → Said F → Line F
  line_for u said = record {
    trajectory_id = u.traj.trajectory_id;
    n_prefix_turns = u.k_turns;
    context_tokens = u.context_tokens;
    said = said;
  }

  -- What is written of a unit that ended.
  unfoldable pub lines_for : (Error → Text) → SweepUnit → Result (List (Row F)) → List (Line F)
  unfolding line_for
  lines_for str_error u (err e) = line_for u (unit_failed (str_error e)) ∷ []
  lines_for str_error u (ok rows) = map (λ r. line_for u (swept r)) rows

module _ {F : Type 0} (f : Floats F) (s : Scorer F) (reload : Text → Result Json)
    (default_prompt : Text) (str_error : Error → Text)
    (summarize : List TrajectoryStep → Result Text) (specs : List Spec) where
  unfoldable pub run_unit : SweepUnit → List (Line F)
  unfolding sweep_one lines_for
  run_unit u =
      lines_for str_error u
        (sweep_one f s reload default_prompt str_error summarize u.traj u.k_turns specs)

  unfoldable pub run_units : List SweepUnit → List (Line F) → List (Line F)
  unfolding run_unit
  run_units [] lines = lines
  run_units (u ∷ units) lines = run_units units (lines ++ run_unit u)

  -- A sweep over units, resumed from the lines of its file.
  unfoldable pub sweep : List SweepUnit → List (Line F) → List (Line F)
  unfolding resumed run_units
  sweep units lines = run_units (resumed units lines) lines
