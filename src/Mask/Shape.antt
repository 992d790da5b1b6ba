-- ===== src/Mask/Shape.antt =====
-- What masking leaves alone, src/tts/summarization/mask_based.py: the messages stay, in order, with
-- their roles and their tool calls, so that the chat template still sees its turns.
use tts_tokens_that_suffice.Prelude.{
  ℕ, suc, ◌≡◌, refl, sym, ap, ◌∙◌, Bool, List, [], ◌∷◌, ◌++◌, map, map-append, arith, contains,
  >>=-eq-ok, ok_injective, ok,
}
use tts_tokens_that_suffice.Mask.Tags.{Runtime}
use tts_tokens_that_suffice.Mask.Compact.{compact, mask_result, outputs_masked, thoughts_masked}
use tts_tokens_that_suffice.Mask.{MaskConfig, mask_message, mask_from, mask_env_messages}
use tts_tokens_that_suffice.Message.{Message, frame}
use tts_tokens_that_suffice.Compaction.{CompactionResult, split_head_tail}
use tts_tokens_that_suffice.Compaction.Partition.{split_head_tail-append}

module _ (py : Runtime) (cfg : MaskConfig) where
  frame-mask_message :
      (recent : Bool) (m : Message) → frame (mask_message py cfg recent m) ≡ frame m
  unfolding mask_message
  frame-mask_message recent m = ground arith

  frame-mask_from :
      (recent : List ℕ) (i : ℕ) (ms : List Message)
      → map frame (mask_from py cfg recent i ms) ≡ map frame ms
  unfolding mask_from
  frame-mask_from recent i [] = refl
  frame-mask_from recent i (m ∷ ms) =
      cc (frame-mask_message (contains recent i) m, frame-mask_from recent (suc i) ms)

  -- Masking keeps every message, in order, with its role, its tool calls and its tool call id.
  pub frame-mask_env_messages :
      (ms : List Message) → map frame (mask_env_messages py cfg ms) ≡ map frame ms
  unfolding mask_env_messages
  frame-mask_env_messages ms = frame-mask_from _ 0 ms

-- A compaction that returns keeps the frames of the whole history.
pub frame-compact :
    (py : Runtime) (cfg : MaskConfig) (ms : List Message) (f n : ℕ) (r : CompactionResult)
    → compact py cfg ms f n ≡ ok r
    → map frame r.messages ≡ map frame ms
unfolding compact mask_result
frame-compact py cfg ms f n r h =
    let s = split_head_tail ms f n in
    let middle = mask_env_messages py cfg s.middle in
    let (k, e, g) =
      >>=-eq-ok (outputs_masked cfg middle)
        (λ n. ok (mask_result s middle (thoughts_masked cfg s.middle) n)) h in
    ap (λ (x : CompactionResult). map frame x.messages) (sym (ok_injective _ r g))
    ∙ (map-append frame s.head (middle ++ s.tail)
        ∙ (ap (λ l. map frame s.head ++ l)
              (map-append frame middle s.tail
                ∙ (ap (λ l. l ++ map frame s.tail) (frame-mask_env_messages py cfg s.middle)
                    ∙ sym (map-append frame s.middle s.tail)))
            ∙ (sym (map-append frame s.head (s.middle ++ s.tail))
                ∙ ap (map frame) (split_head_tail-append ms f n))))
