-- ===== src/Reward/Rescoring.antt =====
-- That the x-side of src/tts/utils/logprob.py, computed once, serves every summary.
use tts_tokens_that_suffice.Prelude.{
  ℕ, zero, suc, ◌-◌, ◌≡◌, refl, sym, ap, ◌∙◌, true, Option, some, List, [], arith, sub_ℕ, is_zero,
  take, drop, Text, Result, err, ok, false, none, ◌++◌, ◌+ℤ◌, pos, length, inl, inr, Bool-cases,
  Option-cases,
}
use tts_tokens_that_suffice.Reward.Floats.{Floats}
use tts_tokens_that_suffice.Rendering.{Template}
use tts_tokens_that_suffice.Reward.Logprob.{
  Scored, x_logprobs, XLogprobs, against, differences, context_text, is_blank, slice,
  score_completion, score_completion_z, score_both, precompute_x,
}
use tts_tokens_that_suffice.Message.{Message}

take_zero {ℓ} : {A : Type ℓ} (n : ℕ) (xs : List A) → n ≡ 0 → take n xs ≡ []
take_zero zero xs h = refl
take_zero (suc n) xs h = absurd (omega arith)

-- Where a prompt has no token more than its context, no token of x is kept.
none_kept :
    {F : Type 0} (n : ℕ) (o : Result (Scored F)) (x : XLogprobs F)
    → x_logprobs n o ≡ some x
    → is_zero x.n_completion ≡ true
    → x.x_tok ≡ []
unfolding x_logprobs
none_kept n (err e) x h z = cc
none_kept {F} n (ok r) x h z =
    let made : XLogprobs F = record {
      n_x_ctx = n;
      n_completion = sub_ℕ r.prompt_tokens n;
      x_tok = take (r.prompt_tokens - n) (drop n r.token_logprobs);
    } in
    let same : made ≡ x = cc in
    let count : sub_ℕ r.prompt_tokens n ≡ x.n_completion = ap (λ y. y.n_completion) same in
    let few : r.prompt_tokens - n ≡ 0 = ground (arith, count) in
    sym (ap (λ y. y.x_tok) same) ∙ take_zero _ _ few

module _ {F : Type 0} (f : Floats F) where
  -- With no token to compare, what z scores does not matter, as long as it is scored.
  nothing_kept :
      (x : XLogprobs F) (n_z : ℕ) (o : Result (Scored F)) (r : Scored F)
      → x.x_tok ≡ []
      → o ≡ ok r
      → against f x n_z o ≡ some []
  unfolding against differences ◌+ℤ◌ slice
  nothing_kept x n_z o r none_left scored =
      ap (against f x n_z) scored
      ∙ ap (λ xs. some (differences f xs (slice n_z (pos n_z +ℤ x.n_completion) r.token_logprobs)))
          none_left

module _ {F : Type 0} (f : Floats F) (render : Option Text → Template) (encode : Text → List ℕ)
    (score : Text → Result (Scored F)) where
  -- The call of the server for a context and a completion.
  abbrev pub scored_behind : List Message → Text → Result (Scored F)
  scored_behind messages y = score (context_text render none messages y ++ y)

  abbrev pub after_x : List Message → Text → Option (XLogprobs F) → Option (List F)
  after_x z_messages y none = none
  after_x z_messages y (some x) = score_completion_z render encode score f none x z_messages y

  both_scored :
      (n_x n_z : ℕ) (x_resp z_resp : Result (Scored F)) (x : XLogprobs F)
      → x_logprobs n_x x_resp ≡ some x
      → score_both f n_x n_z x_resp z_resp ≡ against f x n_z z_resp
  unfolding score_both
  both_scored n_x n_z x_resp z_resp x h = ground (arith, h)

  not_blank :
      (z_messages : List Message) (y : Text) (x : XLogprobs F)
      → is_blank y ≡ false
      → (is_zero x.n_completion ≡ true
          → (x.x_tok ≡ []) × ((r : Scored F) × (scored_behind z_messages y ≡ ok r)))
      → score_completion_z render encode score f none x z_messages y
        ≡ against f x
            (length (encode (context_text render none z_messages y)))
            (scored_behind z_messages y)
  unfolding score_completion_z
  not_blank z_messages y x full h = elim (Bool-cases (is_zero x.n_completion)) [
    | inl z ↦
        let (none_left, (r, scored)) = h z in
        rw (full, z) (sym (nothing_kept f x _ _ r none_left scored))
    | inr nz ↦ rw (full, nz)
  ]

  -- Where the x-side fails, both fail.
  x_failed :
      (n_x n_z : ℕ) (x_resp z_resp : Result (Scored F))
      → x_logprobs n_x x_resp ≡ none
      → score_both f n_x n_z x_resp z_resp ≡ none
  unfolding score_both
  x_failed n_x n_z x_resp z_resp h = ground (arith, h)

  x_scored :
      (x_messages : List Message) (y : Text)
      → is_blank y ≡ false
      → precompute_x render encode score none x_messages y
        ≡ x_logprobs
            (length (encode (context_text render none x_messages y)))
            (scored_behind x_messages y)
  unfolding precompute_x
  x_scored x_messages y full = rw full

  both_full :
      (x_messages z_messages : List Message) (y : Text)
      → is_blank y ≡ false
      → score_completion render encode score f x_messages z_messages y
        ≡ score_both f
            (length (encode (context_text render none x_messages y)))
            (length (encode (context_text render none z_messages y)))
            (scored_behind x_messages y)
            (scored_behind z_messages y)
  unfolding score_completion
  both_full x_messages z_messages y full = rw full

  z_blank :
      (x_messages z_messages : List Message) (y : Text)
      → is_blank y ≡ true
      → score_completion render encode score f x_messages z_messages y
        ≡ after_x z_messages y (precompute_x render encode score none x_messages y)
  unfolding score_completion precompute_x score_completion_z
  z_blank x_messages z_messages y blank = rw (blank, blank)

  -- Computing the x-side once and scoring the z-side against it comes to what scoring both contexts
  -- together does, without tools, where a server answers alike to like prompts; where the completion
  -- adds no token to the context of x, the server must answer for z, which it is not asked for.
  pub score_completion-precompute_x :
      (x_messages z_messages : List Message) (y : Text)
      → ((x : XLogprobs F)
          → precompute_x render encode score none x_messages y ≡ some x
          → is_zero x.n_completion ≡ true
          → (r : Scored F) × (scored_behind z_messages y ≡ ok r))
      → score_completion render encode score f x_messages z_messages y
        ≡ after_x z_messages y (precompute_x render encode score none x_messages y)
  score_completion-precompute_x x_messages z_messages y answers = elim (Bool-cases (is_blank y)) [
    | inl blank ↦ z_blank x_messages z_messages y blank
    | inr full ↦
        both_full x_messages z_messages y full
        ∙ elim (Option-cases (x_logprobs _ (scored_behind x_messages y))) [
          | inl failed ↦
              x_failed _ _ _ (scored_behind z_messages y) failed
              ∙ sym (ap (after_x z_messages y) (x_scored x_messages y full ∙ failed))
          | inr (x, h) ↦
              let given : precompute_x render encode score none x_messages y ≡ some x =
                x_scored x_messages y full ∙ h in
              both_scored _ _ _ (scored_behind z_messages y) x h
              ∙ (sym (not_blank z_messages y x full (λ z. (none_kept _ _ x h z, answers x given z)))
                  ∙ sym (ap (after_x z_messages y) given))
        ]
  ]
