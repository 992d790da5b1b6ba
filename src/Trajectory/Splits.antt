-- ===== src/Trajectory/Splits.antt =====
-- The splits of a trajectory, src/tts/data/agent_trajectory.py: nothing is lost, the split falls at
-- the first turn that reaches the threshold, and the continuation fits its budget.
use tts_tokens_that_suffice.Trajectory.{
  with_prefix, threshold_turn, kept_steps, AgentTrajectory, turn_token_lens, TrajectoryStep,
  truncate_continuation, keep_steps,
}
use tts_tokens_that_suffice.Prelude.{
  List, ℕ, ◌∷◌, ◌++◌, ◌≡◌, ◌≤◌, ◌⊎◌, sym, some, none, ◌+◌, ◌*◌, append_assoc, [], suc, length, ◌<◌,
  take, arith, drop, Bool-cases, leb, ltb, ◌∙◌, ap, inl, inr, take-append-drop, zero, refl,
  take_all,
}

-- A split moves steps to the continuation, and neither loses nor reorders one.
pub with_prefix-append :
    (t : AgentTrajectory) (n : ℕ)
    → (with_prefix t n).steps ++ (with_prefix t n).continuation ≡ t.steps ++ t.continuation
unfolding with_prefix
with_prefix-append t n =
    sym (append_assoc (take n t.steps) (drop n t.steps) t.continuation)
    ∙ ap (λ l. l ++ t.continuation) (take-append-drop n t.steps)

abbrev pub sum : List ℕ → ℕ
sum [] = 0
sum (n ∷ ns) = n + sum ns

-- The turn found is the first at which the total reaches the threshold.
pub threshold_turn_first :
    (at k total : ℕ) (lens : List ℕ) (j : ℕ)
    → threshold_turn at k total lens ≡ some j
    → (i : ℕ) × (j ≡ k + suc i)
      × (i < length lens)
      × (at ≤ total + sum (take (suc i) lens))
      × ((total < at) → total + sum (take i lens) < at)
unfolding threshold_turn
threshold_turn_first at k total [] j h = absurd (cc)
threshold_turn_first at k total (tl ∷ lens) j h = elim (Bool-cases (leb at (total + tl))) [
  | inl reached ↦
      let e : j ≡ k + 1 = ground arith in
      (0, omega arith, omega arith, ground arith, λ below. omega arith)
  | inr below ↦
      let (i, e, lt, reaches, first) =
        threshold_turn_first at (k + 1) (total + tl) lens j (rw below at h) in
      (suc i, omega arith, omega arith, omega arith, λ start. omega (arith, first (ground arith)))
]

-- No turn is found only where the whole trajectory stays below the threshold.
pub threshold_turn-none :
    (at k total : ℕ) (lens : List ℕ)
    → threshold_turn at k total lens ≡ none
    → total < at
    → total + sum lens < at
unfolding threshold_turn
threshold_turn-none at k total [] h below = omega arith
threshold_turn-none at k total (tl ∷ lens) h below =
    ground (arith, threshold_turn-none at (k + 1) (total + tl) lens)

-- The loop stops in front of the first turn that would pass the budget.
kept_steps_budget :
    (budget i total : ℕ) (lens : List ℕ)
    → total ≤ budget
    → (j : ℕ) × (kept_steps budget i total (i * 2) lens ≡ (i + j) * 2)
      × (j ≤ length lens)
      × (total + sum (take j lens) ≤ budget)
      × ((length lens ≤ j) ⊎ (budget < total + sum (take (suc j) lens)))
unfolding kept_steps
kept_steps_budget budget i total [] h =
    (0, omega arith, omega arith, omega arith, inl (omega arith))
kept_steps_budget budget i total (tl ∷ lens) h = elim (Bool-cases (ltb budget (total + tl))) [
  | inl over ↦ (0, rw over (omega arith), omega arith, omega arith, inr (ground arith))
  | inr fits ↦
      let (j, e, le, sums, next) =
        kept_steps_budget budget (i + 1) (total + tl) lens (ground arith) in
      let regroup : i + 1 + j ≡ i + suc j = omega arith in
      (
        suc j,
        rw fits (e ∙ ap (λ n. n * 2) regroup),
        omega arith,
        omega arith,
        elim next [ inl all ↦ inl (omega arith) | inr over ↦ inr (omega arith) ],
      )
]

double_suc : (j : ℕ) → suc j * 2 ≡ suc (suc (j * 2))
double_suc j = omega arith

pub turn_token_lens-take :
    (tokens : List TrajectoryStep → ℕ) (j : ℕ) (steps : List TrajectoryStep)
    → turn_token_lens tokens (take (j * 2) steps) ≡ take j (turn_token_lens tokens steps)
unfolding turn_token_lens
turn_token_lens-take tokens zero steps = refl
turn_token_lens-take tokens (suc j) [] = rw (double_suc j) refl
turn_token_lens-take tokens (suc j) (a ∷ []) = rw (double_suc j) refl
turn_token_lens-take tokens (suc j) (a ∷ b ∷ steps) =
    rw (double_suc j) (ap (λ r. tokens (a ∷ b ∷ []) ∷ r) (turn_token_lens-take tokens j steps))

-- What a continuation cut to a budget is: the longest run of whole turns that fits, not empty.
pub record FitsBudget (tokens : List TrajectoryStep → ℕ) (t s : AgentTrajectory) (budget : ℕ)
    : Type 0 where
  pub turns : ℕ
  pub some_turn : 0 < turns
  pub kept : s.continuation ≡ take (turns * 2) t.continuation
  pub same_steps : s.steps ≡ t.steps
  pub fits : sum (turn_token_lens tokens s.continuation) ≤ budget
  pub longest :
      (length (turn_token_lens tokens t.continuation) ≤ turns)
      ⊎ (budget < sum (take (suc turns) (turn_token_lens tokens t.continuation)))

module _ (tokens : List TrajectoryStep → ℕ) (t s : AgentTrajectory) (budget : ℕ) where
  abbrev kept : ℕ
  kept = kept_steps budget 0 0 0 (turn_token_lens tokens t.continuation)

  keep_steps-some :
      (k : ℕ)
      → keep_steps t k ≡ some s
      → (0 < k) × (s.continuation ≡ take k t.continuation) × (s.steps ≡ t.steps)
  unfolding keep_steps
  keep_steps-some k h = (ground arith, ground (arith, take_all k t.continuation), ground arith)

  -- A continuation that `_truncate_continuation` returns is the longest run of whole turns within
  -- the budget, and holds a turn; the prefix stays.
  pub truncate_continuation-FitsBudget :
      truncate_continuation tokens t budget ≡ some s → FitsBudget tokens t s budget
  truncate_continuation-FitsBudget h =
      let (some_kept, cut, same) = keep_steps-some kept (unfold truncate_continuation in h) in
      let (j, e, le, sums, next) =
        kept_steps_budget budget 0 0 (turn_token_lens tokens t.continuation) (omega arith) in
      let twice : kept ≡ j * 2 = omega arith in
      let cut' : s.continuation ≡ take (j * 2) t.continuation =
        cut ∙ ap (λ n. take n t.continuation) twice in
      record {
        turns = j;
        some_turn = omega arith;
        kept = cut';
        same_steps = same;
        fits =
            rw (ap (turn_token_lens tokens) cut' ∙ turn_token_lens-take tokens j t.continuation)
              (omega arith);
        longest = elim next [ inl all ↦ inl all | inr over ↦ inr (omega arith) ];
      }
