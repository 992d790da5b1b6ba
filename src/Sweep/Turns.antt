-- ===== src/Sweep/Turns.antt =====
-- The turns that `enumerate_split_turns` of src/tts/sweep_reward.py returns.
use tts_tokens_that_suffice.Prelude.{
  ℕ, zero, suc, ◌+◌, ◌-◌, ◌≤◌, inl, inr, ◌||◌, List, [], ◌∷◌, arith, ltb, Bool-cases, length, Each,
}
use tts_tokens_that_suffice.Sweep.{Range, split_turns, strided, enumerate_split_turns}
use tts_tokens_that_suffice.Trajectory.{TrajectoryStep, AgentTrajectory, turn_token_lens}

abbrev pub IsSplitTurn : Range → ℕ → ℕ × ℕ → Type 0
IsSplitTurn cfg n (k, total) =
    (cfg.min_tokens ≤ total)
    × (total ≤ cfg.max_tokens)
    × (cfg.min_prefix ≤ k)
    × (cfg.min_suffix ≤ n - k)

split_turns-IsSplitTurn :
    (cfg : Range) (n k before : ℕ) (lens : List ℕ)
    → Each (IsSplitTurn cfg n) (split_turns cfg n k before lens)
unfolding split_turns
split_turns-IsSplitTurn cfg n k before [] = tt
split_turns-IsSplitTurn cfg n k before (tl ∷ lens) =
    let rest = split_turns-IsSplitTurn cfg n (suc k) (before + tl) lens in
    elim (Bool-cases (ltb (before + tl) cfg.min_tokens)) [
      | inl early ↦ rw early rest
      | inr reached ↦ elim (Bool-cases (ltb cfg.max_tokens (before + tl))) [
        | inl late ↦ rw (reached, late) tt
        | inr fits ↦
            elim (Bool-cases (ltb (suc k) cfg.min_prefix || ltb (n - suc k) cfg.min_suffix)) [
              | inl short ↦ rw (reached, fits, short) rest
              | inr long ↦
                  rw (reached, fits, long)
                    ((ground arith, ground arith, ground arith, ground arith), rest)
            ]
      ]
    ]

Each-strided {ℓ κ} :
    {A : Type ℓ} (P : A → Type κ) (stride skip : ℕ) (xs : List A)
    → Each P xs
    → Each P (strided stride skip xs)
unfolding strided
Each-strided P stride skip [] h = tt
Each-strided P stride zero (x ∷ xs) h = (h.0, Each-strided P stride (stride - 1) xs h.1)
Each-strided P stride (suc skip) (x ∷ xs) h = Each-strided P stride skip xs h.1

-- Whatever the stride, each turn returned has a prefix within the two bounds of tokens, and turns
-- enough in front of it and behind it.
pub enumerate_split_turns-IsSplitTurn :
    (tokens : List TrajectoryStep → ℕ) (cfg : Range) (stride : ℕ) (t : AgentTrajectory)
    → Each
        (IsSplitTurn cfg (length (turn_token_lens tokens t.steps)))
        (enumerate_split_turns tokens cfg stride t)
unfolding enumerate_split_turns
enumerate_split_turns-IsSplitTurn tokens cfg stride t =
    let lens = turn_token_lens tokens t.steps in
    let found = split_turns-IsSplitTurn cfg (length lens) 0 0 lens in
    elim (Bool-cases (ltb 1 stride)) [
      | inl e ↦ rw e (Each-strided _ stride 0 _ found)
      | inr e ↦ rw e found
    ]
