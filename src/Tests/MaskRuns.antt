-- ===== src/Tests/MaskRuns.antt =====
-- Mask-based compaction on sample histories.
use tts_tokens_that_suffice.Tests.Samples.{history, act, observe}
use tts_tokens_that_suffice.Mask.{mask_env_messages, default_config, describe_lines}
use tts_tokens_that_suffice.Prelude.{decimal, text_eq, count, ◌≡◌, ◌∷◌, refl}
use tts_tokens_that_suffice.Mask.Tags.{ascii_runtime, content_str}

-- Twelve outputs: the two oldest are masked.
twelve_turns :
    mask_env_messages ascii_runtime default_config (history 12)
    ≡ act ∷ observe (describe_lines 1) ∷ act ∷ observe (describe_lines 1) ∷ history 10
unfolding mask_env_messages decimal
twelve_turns = refl

-- Eight outputs, fewer than the ten to keep: six are masked.
eight_turns :
    count
      (λ m. text_eq (content_str ascii_runtime m.content) (describe_lines 1))
      (mask_env_messages ascii_runtime default_config (history 8))
    ≡ 6
unfolding mask_env_messages decimal text_eq
eight_turns = refl
