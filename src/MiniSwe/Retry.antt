-- ===== src/MiniSwe/Retry.antt =====
-- The attempts of `get_sb_environment`, src/tts/utils/mini_swe.py, to create a container. `create k` is
-- what the attempt number k comes to: `get_environment` and the startup command.
use tts_tokens_that_suffice.Prelude.{
  ℕ, zero, suc, ◌+◌, ◌-◌, ◌≤◌, ◌<◌, ◌≡◌, Bool, true, ◌&&◌, ◌||◌, Option, none, some, if◌then◌else◌,
  ltb, Text, codes, occurs_in, Error, Result, err, ok, refl, arith, inl, inr, Bool-cases, subst,
  if-cases, ap, ◌∙◌, not,
}

module _ (str_error : Error → Text) where
  unfoldable pub is_build_failure : Error → Bool
  unfolding occurs_in
  is_build_failure e =
      occurs_in (codes "returned non-zero exit status 255") (str_error e)
      || occurs_in (codes "stale NFS") (str_error e)

  module _ {E : Type 0} (max_retries : ℕ) where
    -- The `try` of an attempt, and what follows a failure: another attempt, or the failure itself.
    unfoldable pub tried : ℕ → Result E → Result (Option E) → Result (Option E)
    unfolding is_build_failure
    tried attempt (ok env) rest = ok (some env)
    tried attempt (err e) rest =
        if is_build_failure e && ltb attempt (max_retries - 1) then rest else err e

    -- The loop, with the number of attempts left; behind it the function returns `None`.
    unfoldable pub attempts : (ℕ → Result E) → ℕ → ℕ → Result (Option E)
    unfolding tried
    attempts create zero attempt = ok none
    attempts create (suc left) attempt =
        tried attempt (create attempt) (attempts create left (suc attempt))

    unfoldable pub create_environment : (ℕ → Result E) → Result (Option E)
    unfolding attempts
    create_environment create = attempts create max_retries 0

    -- An attempt that is tried again.
    pub record IsRetried (create : ℕ → Result E) (k : ℕ) : Type 0 where
      pub raised : Error
      pub raised_is : create k ≡ err raised
      pub build_failure : is_build_failure raised ≡ true

    -- What an attempt that is the last comes to.
    abbrev pub answer : Result E → Result (Option E)
    answer (ok env) = ok (some env)
    answer (err e) = err e

    -- No attempt follows this one.
    abbrev pub settles : ℕ → Result E → Bool
    settles k (ok env) = true
    settles k (err e) = not (is_build_failure e && ltb k (max_retries - 1))

    -- The attempts up to one that settles the matter.
    pub record IsSettled (create : ℕ → Result E) (from : ℕ) (r : Result (Option E)) : Type 0 where
      pub last : ℕ
      pub in_range : (from ≤ last) × (last < max_retries)
      pub before : (k : ℕ) → from ≤ k → k < last → IsRetried create k
      pub final : settles last (create last) ≡ true
      pub answered : r ≡ answer (create last)

    one_attempt :
        (create : ℕ → Result E) (k : ℕ)
        → k < max_retries
        → settles k (create k) ≡ true
        → IsSettled create k (answer (create k))
    one_attempt create k h final = record {
      last = k;
      in_range = (omega arith, h);
      before = λ j low high. absurd (omega arith);
      final = final;
      answered = refl;
    }

    one_more :
        (create : ℕ → Result E) (k : ℕ) (r : Result (Option E))
        → IsRetried create k
        → IsSettled create (suc k) r
        → IsSettled create k r
    one_more create k r again s = record {
      last = s.last;
      in_range = (omega (arith, s.in_range.0), s.in_range.1);
      before = λ j low high. elim (Bool-cases (ltb k j)) [
        | inl above ↦ s.before j (ground (arith, above)) high
        | inr here ↦
            let same : k ≡ j = ground (arith, here, low) in subst (IsRetried create) same again
      ];
      final = s.final;
      answered = s.answered;
    }

    tried-IsSettled :
        (create : ℕ → Result E) (k : ℕ) (o : Result E) (rest : Result (Option E))
        → create k ≡ o
        → k < max_retries
        → (suc k < max_retries → IsSettled create (suc k) rest)
        → IsSettled create k (tried k o rest)
    unfolding tried
    tried-IsSettled create k (ok env) rest same h later =
        subst (λ o. IsSettled create k (answer o)) same
          (one_attempt create k h (ap (settles k) same))
    tried-IsSettled create k (err e) rest same h later =
        elim (if-cases (is_build_failure e && ltb k (max_retries - 1)) rest (err e) refl) [
          | inl (again, retried) ↦
              let s = later (ground (arith, again)) in
              subst (IsSettled create k) retried (
                one_more create k rest
                  (record { raised = e; raised_is = same; build_failure = ground (arith, again) })
                  s)
          | inr (stop, raised) ↦ subst (IsSettled create k) raised (
              subst (λ o. IsSettled create k (answer o)) same
                (one_attempt create k h (ap (settles k) same ∙ ap not stop)))
        ]

    attempts-IsSettled :
        (create : ℕ → Result E) (left k : ℕ)
        → k + suc left ≡ max_retries
        → IsSettled create k (attempts create (suc left) k)
    unfolding attempts
    attempts-IsSettled create zero k h =
        tried-IsSettled create k (create k) (ok none) refl (omega arith)
          (λ more. absurd (omega arith))
    attempts-IsSettled create (suc left) k h =
        tried-IsSettled create k (create k) _ refl (omega arith)
          (λ more. attempts-IsSettled create left (suc k) (omega arith))

    -- With at least one attempt allowed, the attempts end in the first that creates a container, raises
    -- anything but a failed build or is the last one allowed, and come to what that one comes to.
    pub create_environment-IsSettled :
        (create : ℕ → Result E) → 1 ≤ max_retries → IsSettled create 0 (create_environment create)
    unfolding create_environment
    create_environment-IsSettled create h =
        let n : 0 + suc (max_retries - 1) ≡ max_retries = omega arith in
        let m : suc (max_retries - 1) ≡ max_retries = omega arith in
        subst (λ k. IsSettled create 0 (attempts create k 0)) m
          (attempts-IsSettled create (max_retries - 1) 0 n)
