-- ===== src/Trajectory/Sampling.antt =====
-- `sample_split` of src/tts/data/agent_trajectory.py. `draw` is `rng.randint`, which takes both bounds
-- and gives a number between them.
use tts_tokens_that_suffice.Trajectory.{with_prefix, AgentTrajectory}
use tts_tokens_that_suffice.Prelude.{
  ℕ, ◌+◌, ◌-◌, ◌*◌, ◌/◌, ◌≤◌, max, ◌≡◌, [], ◌++◌, append-nil, arith, ltb, if◌then◌else◌, length,
  take-append-drop, length-take, length-drop,
}

-- `hi`: the subtraction may go below zero in the source, which `lo > hi` then meets.
unfoldable pub upper_turn : ℕ → ℕ → ℕ → ℕ
upper_turn n lo min_suffix = if ltb n (lo + min_suffix) then max lo (n / 2) else n - min_suffix

unfoldable pub sample_split : (ℕ → ℕ → ℕ) → AgentTrajectory → ℕ → ℕ → AgentTrajectory
unfolding upper_turn with_prefix
sample_split draw t min_prefix min_suffix =
    with_prefix t (draw min_prefix (upper_turn (length t.steps / 2) min_prefix min_suffix) * 2)

-- A number between two bounds, where there is one.
abbrev pub Draws : (ℕ → ℕ → ℕ) → Type 0
Draws draw = (lo hi : ℕ) → lo ≤ hi → (lo ≤ draw lo hi) × (draw lo hi ≤ hi)

upper_turn-long : (n lo suffix : ℕ) → lo + suffix ≤ n → upper_turn n lo suffix ≡ n - suffix
unfolding upper_turn
upper_turn-long n lo suffix h = ground arith

-- A trajectory of enough turns is split with at least `min_prefix` turns in front and at least
-- `min_suffix` turns behind, and no step is lost.
pub sample_split-bounds :
    (draw : ℕ → ℕ → ℕ) (t : AgentTrajectory) (min_prefix min_suffix : ℕ)
    → Draws draw
    → t.continuation ≡ []
    → min_prefix + min_suffix ≤ length t.steps / 2
    → let s = sample_split draw t min_prefix min_suffix in
      (min_prefix * 2 ≤ length s.steps)
      × (min_suffix * 2 ≤ length s.continuation)
      × (s.steps ++ s.continuation ≡ t.steps)
unfolding sample_split with_prefix
sample_split-bounds draw t lo suffix draws whole h =
    let hi = length t.steps / 2 - suffix in
    let hi_is = upper_turn-long (length t.steps / 2) lo suffix h in
    let (above, below) = draws lo hi (omega arith) in
    rw (hi_is, whole, append-nil)
      (
        omega (arith, length-take (draw lo hi * 2) t.steps),
        omega (arith, length-drop (draw lo hi * 2) t.steps),
        take-append-drop (draw lo hi * 2) t.steps,
      )
