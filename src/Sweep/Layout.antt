-- ===== src/Sweep/Layout.antt =====
-- That a spec of src/tts/sweep_reward.py names the context that is scored for it.
use tts_tokens_that_suffice.Prelude.{
  ℕ, zero, suc, ◌+◌, ◌/◌, ◌%◌, ◌<◌, ◌≡◌, refl, ap, ◌∙◌, inl, inr, Bool, Option, some, [], ◌∷◌, ◌++◌,
  arith, ltb, if◌then◌else◌, Bool-cases, Text, codes, decimal_from, decimal, ◌*◌, sym, append-nil,
  ok, true, false, any, ◌-◌, List, ◌==◌, ◌>>=◌,
}
use tts_tokens_that_suffice.Sweep.Specs.{
  digit, read_digits, number, parse_tail, settings_of, parse_head, parse_spec, spec_context,
}
use tts_tokens_that_suffice.Strategies.Subtask.Themes.{rstrip}
use tts_tokens_that_suffice.Mask.Tags.{is_space, Runtime}
use tts_tokens_that_suffice.Mask.{build_maskenv_scoring_messages, mask_env_messages, default_config}
use tts_tokens_that_suffice.Message.{Message}
use tts_tokens_that_suffice.Compaction.{split_head_tail}
use tts_tokens_that_suffice.Strategies.Model.{recall_turn}

-- A spec as it is written.
abbrev pub spec_text : Bool → ℕ → ℕ → Text
spec_text masked x y =
    (if masked then codes "maskenv-" else []) ++ (104 ∷ (decimal x ++ (116 ∷ decimal y)))

decimal_from-append : (f n : ℕ) (r t : Text) → decimal_from f n r ++ t ≡ decimal_from f n (r ++ t)
unfolding decimal_from
decimal_from-append zero n r t = refl
decimal_from-append (suc f) n r t = elim (Bool-cases (ltb n 10)) [
  | inl e ↦ rw e refl
  | inr e ↦ rw e (decimal_from-append f (n / 10) ((48 + n % 10) ∷ r) t)
]

module _ (beyond : ℕ → Option ℕ) where
  digit_ascii : (d : ℕ) → d < 10 → digit beyond (48 + d) ≡ some d
  unfolding digit
  digit_ascii d h = ground arith

  read_digit :
      (acc d : ℕ) (t : Text)
      → d < 10
      → read_digits beyond acc ((48 + d) ∷ t) ≡ read_digits beyond (acc * 10 + d) t
  unfolding read_digits
  read_digit acc d t h = ground (arith, digit_ascii d h)

  number_digit :
      (d : ℕ) (t : Text)
      → d < 10
      → number beyond ((48 + d) ∷ t) ≡ some (read_digits beyond 0 ((48 + d) ∷ t))
  unfolding number
  number_digit d t h = ground (arith, digit_ascii d h)

  -- Reading a printed number goes on behind it.
  read_digits-decimal_from :
      (f n : ℕ) (t : Text)
      → n < f
      → read_digits beyond 0 (decimal_from f n t) ≡ read_digits beyond n t
  unfolding decimal_from
  read_digits-decimal_from zero n t h = absurd (omega arith)
  read_digits-decimal_from (suc f) n t h = elim (Bool-cases (ltb n 10)) [
    | inl e ↦
        rw e (read_digit 0 n t (ground arith) ∙ ap (λ a. read_digits beyond a t) (omega arith))
    | inr e ↦ rw e (
        read_digits-decimal_from f (n / 10) ((48 + n % 10) ∷ t) (ground arith)
        ∙ (read_digit (n / 10) (n % 10) t (omega arith)
            ∙ ap (λ a. read_digits beyond a t) (omega arith)))
  ]

  number-decimal_from :
      (f n : ℕ) (t : Text)
      → n < f
      → number beyond (decimal_from f n t) ≡ some (read_digits beyond 0 (decimal_from f n t))
  unfolding decimal_from
  number-decimal_from zero n t h = absurd (omega arith)
  number-decimal_from (suc f) n t h = elim (Bool-cases (ltb n 10)) [
    | inl e ↦ rw e (number_digit n t (ground arith))
    | inr e ↦ rw e (number-decimal_from f (n / 10) ((48 + n % 10) ∷ t) (ground arith))
  ]

  -- A printed number is read, with what stands behind it.
  number-decimal :
      (n : ℕ) (t : Text) → number beyond (decimal n ++ t) ≡ some (read_digits beyond n t)
  unfolding decimal
  number-decimal n t =
      ap (number beyond) (decimal_from-append (suc n) n [] t)
      ∙ (number-decimal_from (suc n) n t (omega arith)
          ∙ ap some (read_digits-decimal_from (suc n) n t (omega arith)))

  parse_tail-decimal :
      (masked : Bool) (x y : ℕ)
      → parse_tail beyond masked x (116 ∷ decimal y) ≡ ok (settings_of masked x y)
  unfolding parse_tail read_digits
  parse_tail-decimal masked x y =
      let got : number beyond (decimal y) ≡ some (y, []) =
        ap (number beyond) (sym (append-nil (decimal y))) ∙ number-decimal y [] in
      rw got refl

  parse_head-decimal :
      (masked : Bool) (x y : ℕ)
      → parse_head beyond masked (104 ∷ (decimal x ++ (116 ∷ decimal y)))
        ≡ ok (settings_of masked x y)
  unfolding parse_head read_digits digit
  parse_head-decimal masked x y =
      rw (number-decimal x (116 ∷ decimal y)) (parse_tail-decimal masked x y)

-- Nothing is stripped of a text without white space.
rstrip_none : (s : Text) → any is_space s ≡ false → rstrip s ≡ s
unfolding rstrip
rstrip_none [] h = refl
rstrip_none (c ∷ s) h = elim (Bool-cases (is_space c)) [
  | inl e ↦ let bad : true ≡ false = rw e at h in cc
  | inr e ↦ rw e (ap (λ r. c ∷ r) (rstrip_none s (rw e at h)))
]

any-append :
    (p : ℕ → Bool) (s t : Text) → any p s ≡ false → any p t ≡ false → any p (s ++ t) ≡ false
any-append p [] t h k = k
any-append p (c ∷ s) t h k = elim (Bool-cases (p c)) [
  | inl e ↦ let bad : true ≡ false = rw e at h in cc
  | inr e ↦ rw e (any-append p s t (rw e at h) k)
]

space_digit : (d : ℕ) → d < 10 → is_space (48 + d) ≡ false
unfolding is_space
space_digit d h = ground arith

any-decimal_from :
    (f n : ℕ) (t : Text) → any is_space t ≡ false → any is_space (decimal_from f n t) ≡ false
unfolding decimal_from
any-decimal_from zero n t h = h
any-decimal_from (suc f) n t h = elim (Bool-cases (ltb n 10)) [
  | inl e ↦ rw e (rw (space_digit n (ground arith)) h)
  | inr e ↦
      rw e (
        any-decimal_from f (n / 10) ((48 + n % 10) ∷ t) (rw (space_digit (n % 10) (omega arith)) h))
]

sizes_solid : (x y : ℕ) → any is_space (decimal x ++ (116 ∷ decimal y)) ≡ false
unfolding decimal is_space
sizes_solid x y =
    any-append is_space (decimal x) (116 ∷ decimal y) (any-decimal_from (suc x) x [] refl)
      (any-decimal_from (suc y) y [] refl)

parse_spec-spec_text :
    (beyond : ℕ → Option ℕ) (masked : Bool) (x y : ℕ)
    → parse_spec beyond (spec_text masked x y) ≡ ok (settings_of masked x y)
unfolding parse_spec
parse_spec-spec_text beyond true x y =
    rw (rstrip_none _ (sizes_solid x y)) (unfold parse_head in parse_head-decimal beyond true x y)
parse_spec-spec_text beyond false x y =
    rw (rstrip_none _ (sizes_solid x y)) (unfold parse_head in parse_head-decimal beyond false x y)

-- The size of a spec that is not masked leaves a tail of its turns.
sized_context :
    (py : Runtime) (z : Text) (ms : List Message) (x y : ℕ)
    → 0 < x + y
    → let parts = split_head_tail ms x y in
      spec_context py z ms (settings_of false x y)
      ≡ (parts.head ++ (recall_turn z ++ parts.tail), z)
unfolding spec_context settings_of
sized_context py z ms x y h =
    let some_size : (2 * (x + 2 * y) == 0) ≡ false = ground arith in
    let turns : (2 * (x + 2 * y) / 2 - x) / 2 ≡ y = omega arith in rw (some_size, turns) refl

-- The context of a spec that is not masked; "h0t0" is that of a masked one.
unmasked_context :
    (py : Runtime) (z : Text) (ms : List Message) (x y : ℕ)
    → let parts = split_head_tail ms x y in
      spec_context py z ms (settings_of false x y) ≡ (
        if x + y == 0
        then (parts.head ++ (mask_env_messages py default_config parts.middle ++ parts.tail), [])
        else (parts.head ++ (recall_turn z ++ parts.tail), z))
unfolding spec_context settings_of build_maskenv_scoring_messages
unmasked_context py z ms x y = elim (Bool-cases (x + y == 0)) [
  | inl e ↦ let size : (2 * (x + 2 * y) == 0) ≡ true = ground (arith, e) in rw (e, size) refl
  | inr e ↦ rw e (sized_context py z ms x y (ground (arith, e)))
]

-- A spec is read as it is written, "hXtY", with "maskenv-" in front or not: what it names is the first
-- X messages and the last Y complete turns of the history, with the summary between them, which pays
-- the penalty, or with the masked middle and no text that does. "h0t0" without "maskenv-" names the
-- masked history too.
pub parse_spec-spec_context :
    (beyond : ℕ → Option ℕ) (py : Runtime) (z : Text) (ms : List Message) (x y : ℕ)
    → let parts = split_head_tail ms x y in
      let masked : List Message × Text =
        (parts.head ++ (mask_env_messages py default_config parts.middle ++ parts.tail), []) in
      ((parse_spec beyond (spec_text false x y) >>= λ spec. ok (spec_context py z ms spec))
        ≡ ok (if x + y == 0 then masked else (parts.head ++ (recall_turn z ++ parts.tail), z)))
      × ((parse_spec beyond (spec_text true x y) >>= λ spec. ok (spec_context py z ms spec))
          ≡ ok masked)
unfolding spec_context settings_of build_maskenv_scoring_messages
parse_spec-spec_context beyond py z ms x y = (
  ap (λ o. o >>= λ spec. ok (spec_context py z ms spec)) (parse_spec-spec_text beyond false x y)
      ∙ ap ok (unmasked_context py z ms x y),
  ap (λ o. o >>= λ spec. ok (spec_context py z ms spec)) (parse_spec-spec_text beyond true x y),
)
