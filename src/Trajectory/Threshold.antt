-- ===== src/Trajectory/Threshold.antt =====
-- `threshold_split` of src/tts/data/agent_trajectory.py: where a trajectory is split, and what the
-- two halves hold.
use tts_tokens_that_suffice.Prelude.{
  ℕ, ◌-◌, ◌*◌, ◌≤◌, ◌<◌, ◌≡◌, ◌⊎◌, some, List, ◌++◌, arith, length, take, drop, zero, suc, refl, ap,
  ◌∙◌, inl, inr, ◌||◌, Option, none, [], append-nil, ltb, if◌then◌else◌, take-append-drop,
}
use tts_tokens_that_suffice.Trajectory.{
  TrajectoryStep, turn_token_lens, SplitConfig, AgentTrajectory, split_at_turn,
  truncate_continuation, with_prefix, threshold_turn, threshold_split,
}
use tts_tokens_that_suffice.Trajectory.Splits.{
  sum, truncate_continuation-FitsBudget, threshold_turn_first, turn_token_lens-take,
}

-- What a split at the threshold is.
pub record IsThresholdSplit (tokens : List TrajectoryStep → ℕ) (cfg : SplitConfig)
    (t s : AgentTrajectory) : Type 0 where
  pub turn : ℕ
  -- the prefix is the first `turn` turns, and the continuation the start of what follows
  pub prefix_steps : s.steps ≡ take (turn * 2) t.steps
  pub unused : List TrajectoryStep
  pub following : s.continuation ++ unused ≡ drop (turn * 2) t.steps ++ t.continuation
  -- it is the first prefix to reach the threshold
  pub reaches : cfg.split_at_tokens ≤ sum (turn_token_lens tokens s.steps)
  pub first :
      (cfg.split_at_tokens ≡ 0)
      ⊎ (sum (take (turn - 1) (turn_token_lens tokens t.steps)) < cfg.split_at_tokens)
  -- there are turns enough on both sides
  pub enough_before : cfg.min_prefix ≤ turn
  pub enough_after : cfg.min_suffix ≤ length (turn_token_lens tokens t.steps) - turn
  -- a budget for the continuation is kept
  pub within_budget :
      (cfg.max_continuation_tokens ≡ 0)
      ⊎ (sum (turn_token_lens tokens s.continuation) ≤ cfg.max_continuation_tokens)

zero_or_positive : (n : ℕ) → (n ≡ 0) ⊎ (0 < n)
zero_or_positive zero = inl refl
zero_or_positive (suc n) = inr (omega arith)

-- The guards and the two returns at a turn, over any two results.
guards_passed {ℓ} :
    {T : Type ℓ} (k n before after budget : ℕ) (cut : Option T) (whole s : T)
    → (if ltb k before || ltb (n - k) after then none else if ltb 0 budget then cut else some whole)
      ≡ some s
    → (before ≤ k)
      × (after ≤ n - k)
      × (((0 < budget) × (cut ≡ some s)) ⊎ ((budget ≡ 0) × (whole ≡ s)))
guards_passed k n before after zero cut whole s h =
    (ground arith, ground arith, inr (refl, ground arith))
guards_passed k n before after (suc budget) cut whole s h =
    (ground arith, ground arith, inl (omega arith, ground arith))

module _ (tokens : List TrajectoryStep → ℕ) (cfg : SplitConfig) (t s : AgentTrajectory) where
  abbrev SplitCases : ℕ → Type 0
  SplitCases k =
      ((0 < cfg.max_continuation_tokens)
        × (truncate_continuation tokens (with_prefix t (k * 2)) cfg.max_continuation_tokens
            ≡ some s))
      ⊎ ((cfg.max_continuation_tokens ≡ 0) × (with_prefix t (k * 2) ≡ s))

  split_at_turn-some :
      (n k : ℕ)
      → split_at_turn tokens cfg t n k ≡ some s
      → (cfg.min_prefix ≤ k) × (cfg.min_suffix ≤ n - k) × SplitCases k
  unfolding split_at_turn
  split_at_turn-some n k h = guards_passed k n _ _ _ _ _ s h

  -- What the two returns have in common.
  split_parts :
      (k : ℕ)
      → SplitCases k
      → (s.steps ≡ take (k * 2) t.steps)
        × ((rest : List TrajectoryStep) × (s.continuation ++ rest
              ≡ drop (k * 2) t.steps ++ t.continuation))
        × ((cfg.max_continuation_tokens ≡ 0)
            ⊎ (sum (turn_token_lens tokens s.continuation) ≤ cfg.max_continuation_tokens))
  split_parts k (inl (h, e)) =
      let f = truncate_continuation-FitsBudget tokens (with_prefix t (k * 2)) s _ e in
      let c = (with_prefix t (k * 2)).continuation in
      (
        f.same_steps ∙ unfold with_prefix in refl,
        (
          drop (f.turns * 2) c,
          ap (λ l. l ++ drop (f.turns * 2) c) f.kept
              ∙ (take-append-drop (f.turns * 2) c ∙ unfold with_prefix in refl),
        ),
        inr f.fits,
      )
  split_parts k (inr (h, e)) = (
    rw (← e) (unfold with_prefix in refl),
    ([], rw (append-nil, ← e) (unfold with_prefix in refl)),
    inl h,
  )

  threshold_found :
      (o : Option ℕ)
      → threshold_turn cfg.split_at_tokens 0 0 (turn_token_lens tokens t.steps) ≡ o
      → elim o [
        | none ↦ none
        | some k ↦ split_at_turn tokens cfg t (length (turn_token_lens tokens t.steps)) k
      ]
        ≡ some s
      → IsThresholdSplit tokens cfg t s
  threshold_found none e h = absurd (cc)
  threshold_found (some k) e h =
      let (before, after, cases) = split_at_turn-some _ k h in
      let (steps, (rest, following), budget) = split_parts k cases in
      let (i, k_is, lt, reaches, first) = threshold_turn_first _ 0 0 _ k e in
      let k_suc : k ≡ suc i = omega arith in
      let k_pred : k - 1 ≡ i = omega arith in
      record {
        turn = k;
        prefix_steps = steps;
        unused = rest;
        following = following;
        reaches =
            rw (ap (turn_token_lens tokens) steps ∙ turn_token_lens-take tokens k t.steps)
              (rw k_suc (omega arith));
        first = elim (zero_or_positive cfg.split_at_tokens) [
          | inl none_asked ↦ inl none_asked
          | inr positive ↦ inr (rw k_pred (omega (arith, first positive)))
        ];
        enough_before = before;
        enough_after = after;
        within_budget = budget;
      }

  -- A split that `threshold_split` returns is at the first turn to reach the threshold, with turns
  -- enough on both sides and a continuation within its budget.
  pub threshold_split-IsThresholdSplit :
      threshold_split tokens cfg t ≡ some s → IsThresholdSplit tokens cfg t s
  threshold_split-IsThresholdSplit h = threshold_found _ refl (unfold threshold_split in h)
