-- ===== src/Rollouts/Answered.antt =====
-- The answer of `get_steps_missing_before` of src/tts/utils/trajectory.py, from its two dictionaries.
use tts_tokens_that_suffice.Prelude.{
  ℕ, not, ◌&&◌, none, List, [], ◌∷◌, ◌==◌, Text, text_eq, any, ◌≡◌, lookup, ==_iff, text_eq_iff,
  arith, refl, inl, inr, Bool-cases, keep_if, IsDict, ap, true, false, subst, ◌∙◌, Option, ap₂,
}
use tts_tokens_that_suffice.Rollouts.Missing.{
  has_step, steps_at, missing_from, missing_steps, put_missing, get_steps_missing_before, is_after,
  is_before, Scan, scan_files,
}
use tts_tokens_that_suffice.Rollouts.Scanned.{
  steps_at-insert, scan_files-IsDict, scan_files-after, scan_files-before,
}

has_step-congr : (n m : ℕ) (s : List ℕ) → (n == m) ≡ true → has_step n s ≡ has_step m s
has_step-congr n m s h = ap (λ i. has_step i s) ((==_iff n m).0 h)

has_step-keep_if :
    (n : ℕ) (s t : List ℕ)
    → has_step n (keep_if (λ m. not (has_step m t)) s) ≡ (has_step n s && not (has_step n t))
unfolding has_step
has_step-keep_if n [] t = refl
has_step-keep_if n (m ∷ s) t = elim (Bool-cases (m == n)) [
  | inl e ↦ ground (arith, e, has_step-congr m n t e, has_step-keep_if n s t)
  | inr e ↦ ground (arith, e, has_step-keep_if n s t)
]

steps_at-put_missing_other :
    (b c : Text) (missing : List ℕ) (result : List (Text × List ℕ))
    → text_eq c b ≡ false
    → steps_at b (put_missing c missing result) ≡ steps_at b result
unfolding put_missing
steps_at-put_missing_other b c [] result h = refl
steps_at-put_missing_other b c (m ∷ missing) result h =
    ground (arith, h, steps_at-insert b c (m ∷ missing) result)

has_step-put_missing :
    (b c : Text) (n : ℕ) (missing : List ℕ) (result : List (Text × List ℕ))
    → text_eq c b ≡ true
    → has_step n (steps_at b result) ≡ false
    → has_step n (steps_at b (put_missing c missing result)) ≡ has_step n missing
unfolding put_missing has_step
has_step-put_missing b c n [] result h r = r
has_step-put_missing b c n (m ∷ missing) result h r =
    ground (arith, h, steps_at-insert b c (m ∷ missing) result)

-- A base uid that the dictionary lacks is left as it is in the result.
steps_at-missing_from_absent :
    (b : Text) (before result d : List (Text × List ℕ))
    → lookup b d ≡ none
    → steps_at b (missing_from before result d) ≡ steps_at b result
unfolding missing_from lookup
steps_at-missing_from_absent b before result [] h = refl
steps_at-missing_from_absent b before result ((c, s) ∷ d) h = elim (Bool-cases (text_eq c b)) [
  | inl e ↦ ground (arith, e, h)
  | inr e ↦
      let missing = missing_steps before c s in
      steps_at-missing_from_absent b before (put_missing c missing result) d (ground (arith, e, h))
      ∙ steps_at-put_missing_other b c missing result e
]

has_step-missing_steps :
    (n : ℕ) (b c : Text) (before : List (Text × List ℕ)) (s : List ℕ)
    → c ≡ b
    → has_step n (missing_steps before c s) ≡ (has_step n s && not (has_step n (steps_at b before)))
unfolding missing_steps
has_step-missing_steps n b c before s e =
    has_step-keep_if n s (steps_at c before)
    ∙ ap (λ x. has_step n s && not (has_step n (steps_at x before))) e

pub has_step-missing_from :
    (b : Text) (n : ℕ) (before result d : List (Text × List ℕ))
    → IsDict d
    → has_step n (steps_at b result) ≡ false
    → has_step n (steps_at b (missing_from before result d))
      ≡ (has_step n (steps_at b d) && not (has_step n (steps_at b before)))
unfolding missing_from IsDict
has_step-missing_from b n before result [] h r = r
has_step-missing_from b n before result ((c, s) ∷ d) (absent, h) r =
    let missing = missing_steps before c s in
    elim (Bool-cases (text_eq c b)) [
      | inl e ↦
          let same = (text_eq_iff c b).0 e in
          ground (
            arith,
            e,
            steps_at-missing_from_absent b before (put_missing c missing result) d
                (subst (λ x. lookup x d ≡ none) same absent),
            has_step-put_missing b c n missing result e r,
            has_step-missing_steps n b c before s same,
          )
      | inr e ↦ ground (
        arith,
        e,
        has_step-missing_from b n before (put_missing c missing result) d h
            (ap (has_step n) (steps_at-put_missing_other b c missing result e) ∙ r),
      )
    ]

-- A step is in the answer for a base uid exactly when some name in the directory is that of a run behind
-- its action, and none is that of a run in front of it.
pub has_step-get_steps_missing_before :
    (beyond : ℕ → Option ℕ) (files : List Text) (base_uid : Text) (step : ℕ)
    → has_step step (steps_at base_uid (get_steps_missing_before beyond files)) ≡ (
        any (is_after beyond base_uid step) files
        && not (any (is_before beyond base_uid step) files))
unfolding get_steps_missing_before IsDict has_step
has_step-get_steps_missing_before beyond files b n =
    let empty : Scan = record { after_steps = []; before_steps = [] } in
    let s = scan_files beyond files empty in
    has_step-missing_from b n s.before_steps [] s.after_steps
      (scan_files-IsDict beyond files empty tt) refl
    ∙ ap₂ (λ x y. x && not y) (scan_files-after beyond b n files empty)
        (scan_files-before beyond b n files empty)
