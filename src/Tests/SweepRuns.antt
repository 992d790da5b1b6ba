-- ===== src/Tests/SweepRuns.antt =====
-- A sweep of two units that raise, and the shards of five texts.
use tts_tokens_that_suffice.Prelude.{
  ℕ, ◌+◌, ◌*◌, ◌≡◌, refl, List, [], ◌∷◌, get_elem?, Text, codes, type_error, ok, err, arith, Result,
}
use tts_tokens_that_suffice.Sweep.Run.{SweepUnit, resumed, sweep, shard_of}
use tts_tokens_that_suffice.Sweep.Specs.{Spec}
use tts_tokens_that_suffice.Sweep.Resumed.{resumed-sweep, shard_of-elements}
use tts_tokens_that_suffice.Tests.Rewards.{whole, scorer}
use tts_tokens_that_suffice.Tests.Pools.{four_steps, no_reload, silent}
use tts_tokens_that_suffice.Trajectory.{TrajectoryStep}

abbrev short_spec : Spec
short_spec = record { keep_first = 4; keep_last_turns = 3; max_size = 20 }

abbrev two_units : List SweepUnit
two_units =
    record { traj = four_steps (codes "x"); k_turns = 1; context_tokens = 2 }
    ∷ record { traj = four_steps (codes "y"); k_turns = 2; context_tokens = 4 }
    ∷ []

abbrev no_summary : List TrajectoryStep → Result Text
no_summary steps = err type_error

-- The first unit cannot be summarized, and the second has no next action.
resumed-sweep_example :
    resumed two_units
      (sweep whole scorer no_reload [] silent no_summary (short_spec ∷ []) two_units [])
    ≡ []
resumed-sweep_example =
    resumed-sweep whole scorer no_reload [] silent no_summary short_spec [] two_units []

abbrev five : List Text
five = codes "a" ∷ codes "b" ∷ codes "c" ∷ codes "d" ∷ codes "e" ∷ []

shard_run : shard_of 1 2 five ≡ ok (codes "b" ∷ codes "d" ∷ [])
unfolding shard_of
shard_run = refl

two_shards :
    (get_elem? (codes "b" ∷ codes "d" ∷ []) 1 ≡ get_elem? five 3)
    × ((j : ℕ) → get_elem? (codes "b" ∷ codes "d" ∷ []) j ≡ get_elem? five (1 + j * 2))
two_shards = shard_of-elements 2 3 five (codes "b" ∷ codes "d" ∷ []) (omega arith) shard_run
