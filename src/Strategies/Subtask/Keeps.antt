-- ===== src/Strategies/Subtask/Keeps.antt =====
-- Whatever the model answers, `compact` of src/tts/summarization/subtask_based.py returns, and keeps
-- the system prompt and the task.
use tts_tokens_that_suffice.Strategies.Subtask.Compactor
use tts_tokens_that_suffice.Prelude.{
  ℕ, zero, suc, ◌+◌, ◌-◌, ◌≤◌, ◌<◌, max, ◌≡◌, refl, inl, inr, not, ◌||◌, Option, none, some, List,
  [], ◌∷◌, arith, ltb, Bool-cases, ℤ, clamp, pos, negsuc, length, any, Result, ◌>>=◌, err, ok,
}
use tts_tokens_that_suffice.Strategies.Subtask.{
  bounds, or_zero, kept_from, tail_block, theme_block, theme_blocks, end_or, Blocks, has_summary,
  message_for_step,
}
use tts_tokens_that_suffice.Message.{Codec, Message}
use tts_tokens_that_suffice.Strategies.Subtask.Themes.{Theme}
use tts_tokens_that_suffice.Trajectory.{messages_to_steps}
use tts_tokens_that_suffice.Strategies.Subtask.Replay.{message_for_step-IsMessageOf}

-- A call that returns.
abbrev pub Returns {ℓ} : {A : Type ℓ} → Result A → Type ℓ
Returns {A = A} r = (a : A) × (r ≡ ok a)

>>=-Returns {ℓ κ} :
    {A : Type ℓ} {B : Type κ} (r : Result A) (f : A → Result B)
    → Returns r
    → ((a : A) → Returns (f a))
    → Returns (r >>= f)
>>=-Returns (ok a) f h g = g a
>>=-Returns (err e) f (a, h) g = absurd (cc)

clamp-lt : (n : ℕ) (x : ℤ) → 0 < n → clamp n x < n
clamp-lt n (pos x) h = omega arith
clamp-lt n (negsuc x) h = h

bounds-lt : (n : ℕ) (t : Theme) → 0 < n → (bounds n t).1 < n
unfolding bounds
bounds-lt n t h =
    let first = clamp n (or_zero t.start_idx) in
    let last = clamp n (end_or t.end_idx (or_zero t.start_idx)) in
    elim (Bool-cases (ltb last first)) [
      | inl swapped ↦ rw swapped (clamp-lt n (or_zero t.start_idx) h)
      | inr kept ↦ rw kept (clamp-lt n (end_or t.end_idx (or_zero t.start_idx)) h)
    ]

module _ (json : Codec) (fresh : List Message) where
  abbrev pub n_steps : ℕ
  n_steps = length (messages_to_steps json fresh)

  kept_from-Returns :
      (first n : ℕ) → first + n ≤ max n_steps first → Returns (kept_from fresh first n)
  unfolding kept_from
  kept_from-Returns first zero h = ([], refl)
  kept_from-Returns first (suc n) h =
      let found = message_for_step-IsMessageOf json fresh first (omega arith) in
      >>=-Returns (message_for_step first fresh) _ (found.message, found.returned)
        (λ m.
          >>=-Returns (kept_from fresh (suc first) n) _
            (kept_from-Returns (suc first) n (omega arith)) (λ ms. (m ∷ ms, refl)))

  tail_block-Returns :
      (folded : Message) (start end fold : ℕ)
      → end < n_steps
      → Returns (tail_block fresh folded start end fold)
  unfolding tail_block
  tail_block-Returns folded start end fold h =
      >>=-Returns (kept_from fresh (start + fold) (end + 1 - (start + fold))) _
        (kept_from-Returns (start + fold) (end + 1 - (start + fold)) (omega arith))
        (λ kept. (_, refl))

  theme_block-Returns :
      (keep_recent : ℕ) (t : Theme)
      → 0 < n_steps
      → Returns (theme_block fresh n_steps keep_recent t)
  unfolding theme_block
  theme_block-Returns keep_recent t h = elim (Bool-cases (t.in_progress || not (has_summary t))) [
    | inl busy ↦ rw busy (tail_block-Returns _ _ (bounds n_steps t).1 _ (bounds-lt n_steps t h))
    | inr done ↦ rw done (_, refl)
  ]

  pub theme_blocks-Returns :
      (keep_recent : ℕ) (ts : List Theme)
      → 0 < n_steps
      → Returns (theme_blocks fresh n_steps keep_recent ts)
  unfolding theme_blocks
  theme_blocks-Returns keep_recent [] h = (_, refl)
  theme_blocks-Returns keep_recent (t ∷ ts) h =
      >>=-Returns (theme_block fresh n_steps keep_recent t) _ (theme_block-Returns keep_recent t h)
        (λ b.
          >>=-Returns (theme_blocks fresh n_steps keep_recent ts) _
            (theme_blocks-Returns keep_recent ts h) (λ bs. (_, refl)))

  last_tail-Returns :
      (keep_recent : ℕ) (t : Theme)
      → 0 < n_steps
      → Returns (Compactor.last_tail fresh n_steps keep_recent t)
  unfolding Compactor.last_tail
  last_tail-Returns keep_recent t h =
      tail_block-Returns _ _ (clamp n_steps (end_or t.end_idx (or_zero t.start_idx))) _
        (clamp-lt n_steps (end_or t.end_idx (or_zero t.start_idx)) h)

  pub fallback_blocks-Returns :
      (keep_recent : ℕ) (sorted : List Theme)
      → 0 < n_steps
      → Returns (Compactor.fallback_blocks fresh n_steps keep_recent sorted)
  unfolding Compactor.fallback_blocks
  fallback_blocks-Returns keep_recent sorted h =
      elim (Bool-cases (any (λ t. t.in_progress) sorted)) [
        | inl busy ↦ rw busy (Compactor.nothing, refl)
        | inr done ↦ rw done (of_last (Compactor.last_theme sorted))
      ]
    where
      of_last :
          (o : Option Theme)
          → Returns {A = Blocks} (elim o [
            | none ↦ ok Compactor.nothing
            | some t ↦ Compactor.last_tail fresh n_steps keep_recent t
          ])
      of_last none = (Compactor.nothing, refl)
      of_last (some t) = last_tail-Returns keep_recent t h
