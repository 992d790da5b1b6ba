-- ===== src/Training/Slices.antt =====
-- The batches of an epoch of src/tts/train_rl.py make up the shuffled trajectories, but for what a batch
-- does not fill.
use tts_tokens_that_suffice.Prelude.{
  ℕ, zero, suc, ◌+◌, ◌*◌, ◌≤◌, ◌≡◌, List, [], ◌∷◌, ◌++◌, ltb, length, drop, arith, Each, refl, ap,
  ◌∙◌, sym, take-append-drop, length-take, length-drop, subst, false, append_assoc,
}
use tts_tokens_that_suffice.Trajectory.{AgentTrajectory}
use tts_tokens_that_suffice.Training.Batches.{Loop, Turn, epoch_turns, raw_of, turn_at}

-- The batches of a list of turns, one after the other.
abbrev pub taken : List Turn → List AgentTrajectory
taken [] = []
taken (t ∷ turns) = t.raw_batch ++ taken turns

module _ {ℓ} {A : Type ℓ} where
  drop_nil : (n : ℕ) → ◌≡◌ {A = List A} [] (drop n [])
  drop_nil zero = refl
  drop_nil (suc n) = refl

  drop-drop : (m n : ℕ) (xs : List A) → drop m (drop n xs) ≡ drop (n + m) xs
  drop-drop m zero xs = ap (λ k. drop k xs) (omega arith)
  drop-drop zero (suc n) [] = drop_nil (suc n + 0)
  drop-drop (suc m) (suc n) [] = drop_nil (suc n + suc m)
  drop-drop m (suc n) (x ∷ xs) =
      let e : suc (n + m) ≡ suc n + m = omega arith in
      drop-drop m n xs ∙ ap (λ k. drop k (x ∷ xs)) e

module _ (cfg : Loop) (draws : ℕ → ℕ → ℕ → ℕ → ℕ) (start epoch : ℕ)
    (shuffled : List AgentTrajectory) where
  taken-epoch_turns :
      (n b idx : ℕ)
      → start ≤ idx
      → taken (epoch_turns cfg draws start shuffled epoch n b idx)
          ++ drop ((b + n) * cfg.pool.batch_size) shuffled
        ≡ drop (b * cfg.pool.batch_size) shuffled
  unfolding epoch_turns turn_at raw_of
  taken-epoch_turns zero b idx h = ap (λ k. drop (k * cfg.pool.batch_size) shuffled) (omega arith)
  taken-epoch_turns (suc n) b idx h =
      let size = cfg.pool.batch_size in
      let e : ltb idx start ≡ false = ground arith in
      let next : b + suc n ≡ suc b + n = omega arith in
      let behind : b * size + size ≡ suc b * size = omega arith in
      let rest = epoch_turns cfg draws start shuffled epoch n (suc b) (suc idx) in
      rw e (
        append_assoc (raw_of cfg draws shuffled b) (taken rest) _
        ∙ ap (λ r. raw_of cfg draws shuffled b ++ r)
            (ap (λ k. taken rest ++ drop (k * size) shuffled) next
              ∙ taken-epoch_turns n (suc b) (suc idx) (omega arith)
              ∙ ap (λ k. drop k shuffled) (sym behind)
              ∙ sym (drop-drop size (b * size) shuffled))
        ∙ take-append-drop size (drop (b * size) shuffled))

  EachFull :
      (n b idx : ℕ)
      → start ≤ idx
      → (b + n) * cfg.pool.batch_size ≤ length shuffled
      → Each
          (λ t. length t.raw_batch ≡ cfg.pool.batch_size)
          (epoch_turns cfg draws start shuffled epoch n b idx)
  unfolding epoch_turns turn_at raw_of
  EachFull zero b idx h fill = tt
  EachFull (suc n) b idx h fill =
      let size = cfg.pool.batch_size in
      let e : ltb idx start ≡ false = ground arith in
      let next : b + suc n ≡ suc b + n = omega arith in
      rw e (
        length-take size (drop (b * size) shuffled)
            ∙ omega (arith, length-drop (b * size) shuffled),
        EachFull n (suc b) (suc idx) (omega arith)
            (subst (λ k. k * size ≤ length shuffled) next fill),
      )

  -- The batches of an epoch are full, and with what is left over they make up the shuffled trajectories.
  pub epoch_turns-IsPartition :
      (n idx : ℕ)
      → start ≤ idx
      → n * cfg.pool.batch_size ≤ length shuffled
      → let turns = epoch_turns cfg draws start shuffled epoch n 0 idx in
        (taken turns ++ drop (n * cfg.pool.batch_size) shuffled ≡ shuffled)
        × Each (λ t. length t.raw_batch ≡ cfg.pool.batch_size) turns
  epoch_turns-IsPartition n idx h fill =
      let whole : 0 * cfg.pool.batch_size ≡ 0 = omega arith in
      let here : 0 + n ≡ n = omega arith in
      (
        ap
              (λ k.
                taken (epoch_turns cfg draws start shuffled epoch n 0 idx)
                ++ drop (k * cfg.pool.batch_size) shuffled)
              (sym here)
            ∙ taken-epoch_turns n 0 idx h
            ∙ ap (λ k. drop k shuffled) whole,
        EachFull n 0 idx h (subst (λ k. k * cfg.pool.batch_size ≤ length shuffled) (sym here) fill),
      )
