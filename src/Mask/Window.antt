-- ===== src/Mask/Window.antt =====
-- Which tool outputs `mask_env_messages` of src/tts/summarization/mask_based.py keeps verbatim for
-- being recent. The code collects indices and slices them; here the same choice is made by rank,
-- the number of tool messages from a message to the end of the window.
use tts_tokens_that_suffice.Prelude.{
  ℕ, List, if◌then◌else◌, leb, length, ◌≡◌, min, arith, drop, contains, Bool, ◌<◌, ◌+◌, ◌∷◌,
  length-drop, suc, false, [], ◌-◌, ◌++◌, Bool-cases, refl, zero, ◌≤◌, inl, inr, ap, ap₂, ◌∙◌,
  append_assoc, length-append, true, sym,
}
use tts_tokens_that_suffice.Mask.{
  slice_last, tool_indices, recent_window, MaskConfig, Message, mask_message, mask_from, ◌∷◌,
  is_tool, mask_env_messages,
}
use tts_tokens_that_suffice.Mask.Tags.{Runtime}
use tts_tokens_that_suffice.Compaction.Turns.{turns}

-- The size of the slice: `n` if there are that many, and otherwise what the negative bound leaves.
abbrev pub window : ℕ → ℕ → ℕ
window n total = if leb n total then n else min (n - total) total

pub length-slice_last {ℓ} :
    {A : Type ℓ} (n : ℕ) (xs : List A) → length (slice_last n xs) ≡ window n (length xs)
unfolding slice_last
length-slice_last n xs =
    ground (arith, length-drop (length xs - n) xs, length-drop (length xs - (n - length xs)) xs)

length-tool_indices : (i : ℕ) (ms : List Message) → length (tool_indices i ms) ≡ turns ms
unfolding tool_indices
length-tool_indices i [] = refl
length-tool_indices i (m ∷ ms) = ground (arith, length-tool_indices (suc i) ms)

tool_indices-cons :
    (i : ℕ) (m : Message) (ms : List Message)
    → is_tool m ≡ true
    → tool_indices i (m ∷ ms) ≡ i ∷ tool_indices (suc i) ms
unfolding tool_indices
tool_indices-cons i m ms h = rw h

tool_indices-skip :
    (i : ℕ) (m : Message) (ms : List Message)
    → is_tool m ≡ false
    → tool_indices i (m ∷ ms) ≡ tool_indices (suc i) ms
unfolding tool_indices
tool_indices-skip i m ms h = rw h

-- The window is the list of indices without its first ones.
recent_window-drop :
    (n : ℕ) (idx : List ℕ) → recent_window n idx ≡ drop (length idx - window n (length idx)) idx
unfolding recent_window slice_last
recent_window-drop zero idx = ap (λ k. drop k idx) (ground arith)
recent_window-drop (suc n) idx = elim (Bool-cases (leb (suc n) (length idx))) [
  | inl h ↦ rw h
  | inr h ↦ rw h (ap (λ k. drop k idx) (ground arith))
]

-- No index below `j` is among those from `j` on.
not-contains-tool_indices :
    (d i j : ℕ) (ms : List Message) → i < j → contains (drop d (tool_indices j ms)) i ≡ false
unfolding tool_indices
not-contains-tool_indices zero i j [] h = refl
not-contains-tool_indices (suc d) i j [] h = refl
not-contains-tool_indices zero i j (m ∷ ms) h =
    ground (arith, not-contains-tool_indices zero i (suc j) ms)
not-contains-tool_indices (suc d) i j (m ∷ ms) h = elim (Bool-cases (is_tool m)) [
  | inl t ↦ rw t (not-contains-tool_indices d i (suc j) ms (omega arith))
  | inr f ↦ rw f (not-contains-tool_indices (suc d) i (suc j) ms (omega arith))
]

contains-drop :
    (d i : ℕ) (pre : List ℕ) (ms : List Message)
    → contains (drop d (pre ++ i ∷ tool_indices (suc i) ms)) i ≡ leb d (length pre)
contains-drop zero i [] ms = ground arith
contains-drop (suc d) i [] ms =
    rw (not-contains-tool_indices d i (suc i) ms (omega arith)) (ground arith)
contains-drop zero i (p ∷ pre) ms = ground (arith, contains-drop zero i pre ms)
contains-drop (suc d) i (p ∷ pre) ms = rw (contains-drop d i pre ms) (ground arith)

module _ (py : Runtime) (cfg : MaskConfig) where
  -- Masking by rank: a tool output stays while no more than `w` of them are left.
  pub mask_by_rank : ℕ → List Message → List Message
  mask_by_rank w [] = []
  mask_by_rank w (m ∷ ms) = mask_message py cfg (leb (turns (m ∷ ms)) w) m ∷ mask_by_rank w ms

  -- Only for tool messages it matters whether they are recent.
  mask_message_irrel :
      (r r' : Bool) (m : Message)
      → is_tool m ≡ false
      → mask_message py cfg r m ≡ mask_message py cfg r' m
  unfolding mask_message
  mask_message_irrel r r' m h = rw h (ground arith)

  mask_message_head :
      (w d total i : ℕ) (pre : List ℕ) (m : Message) (ms : List Message)
      → length pre + turns (m ∷ ms) ≡ total
      → d ≡ total - w
      → w ≤ total
      → mask_message py cfg (contains (drop d (pre ++ tool_indices i (m ∷ ms))) i) m
        ≡ mask_message py cfg (leb (turns (m ∷ ms)) w) m
  mask_message_head w d total i pre m ms e q h = elim (Bool-cases (is_tool m)) [
    | inl t ↦
        ap (λ b. mask_message py cfg b m)
          (ap (λ l. contains (drop d (pre ++ l)) i) (tool_indices-cons i m ms t)
            ∙ (contains-drop d i pre ms ∙ ground arith))
    | inr f ↦ mask_message_irrel _ _ m f
  ]

  mask_from-mask_by_rank :
      (w d total i : ℕ) (pre : List ℕ) (ms : List Message)
      → length pre + turns ms ≡ total
      → d ≡ total - w
      → w ≤ total
      → mask_from py cfg (drop d (pre ++ tool_indices i ms)) i ms ≡ mask_by_rank w ms
  unfolding mask_from mask_by_rank
  mask_from-mask_by_rank w d total i pre [] e q h = refl
  mask_from-mask_by_rank w d total i pre (m ∷ ms) e q h =
      ap₂ (λ (m' : Message) (rest : List Message). m' ∷ rest)
        (mask_message_head w d total i pre m ms e q h)
        (elim (Bool-cases (is_tool m)) [
          | inl t ↦
              ap (λ l. mask_from py cfg (drop d l) (suc i) ms)
                (ap (λ l. pre ++ l) (tool_indices-cons i m ms t)
                  ∙ sym (append_assoc pre (i ∷ []) (tool_indices (suc i) ms)))
              ∙ mask_from-mask_by_rank w d total (suc i) (pre ++ i ∷ []) ms
                  (ground (arith, length-append pre (i ∷ []))) q h
          | inr f ↦
              ap (λ l. mask_from py cfg (drop d (pre ++ l)) (suc i) ms) (tool_indices-skip i m ms f)
              ∙ mask_from-mask_by_rank w d total (suc i) pre ms (ground arith) q h
        ])

  -- `mask_env_messages` is masking by rank: the tool outputs that stay for being recent are the last
  -- `keep_n` if there are that many, and otherwise only the last `keep_n - total`, or all of them
  -- if that is more than the total.
  pub mask_env_messages-mask_by_rank :
      (ms : List Message)
      → mask_env_messages py cfg ms ≡ mask_by_rank (window cfg.keep_n (turns ms)) ms
  unfolding mask_env_messages
  mask_env_messages-mask_by_rank ms =
      rw (recent_window-drop cfg.keep_n (tool_indices 0 ms), length-tool_indices 0 ms)
        (mask_from-mask_by_rank (window cfg.keep_n (turns ms)) _ (turns ms) 0 [] ms (omega arith)
          refl (ground arith))
