-- ===== src/Mask/Compact.antt =====
-- `MaskBasedSummarizer` of src/tts/summarization/mask_based.py: its constructor and `compact`.
use tts_tokens_that_suffice.Mask.{MaskConfig, mask_env_messages}
use tts_tokens_that_suffice.Prelude.{
  Text, starts_with, List, Result, codes, Bool, ℕ, if◌then◌else◌, ok, not, false, ◌∷◌, count, ◌&&◌,
  err, value_error, attribute_error, ◌>>=◌, ◌+◌, ◌++◌, [], none,
}
use tts_tokens_that_suffice.Mask.Tags.{Runtime}
use tts_tokens_that_suffice.Message.{
  Content, Message, is_tool, is_assistant, has_reasoning, text, parts, missing, null,
}
use tts_tokens_that_suffice.Compaction.{
  split_head_tail, Compactor, mask, masked, Split, CompactionResult,
}

-- `__init__` refuses a configuration that masks nothing.
unfoldable pub new : MaskConfig → Result MaskConfig
new cfg = if not cfg.mask_output && not cfg.mask_thinking then err value_error else ok cfg

abbrev pub mask_prefix : Text
mask_prefix = codes "Old environment output:"

-- `m.get("content", "").startswith(...)`: only a text has the method
unfoldable pub starts_masked : Content → Result Bool
unfolding starts_with
starts_masked missing = ok false
starts_masked null = err attribute_error
starts_masked (text t) = ok (starts_with t mask_prefix)
starts_masked (parts ps) = err attribute_error

-- The sum over the masked messages; it stops at the first exception.
unfoldable pub count_output_masked : List Message → Result ℕ
unfolding starts_masked
count_output_masked [] = ok 0
count_output_masked (m ∷ ms) =
    let rest = count_output_masked ms in
    if is_tool m
    then (starts_masked m.content >>= λ b. rest >>= λ n. ok (if b then n + 1 else n))
    else rest

-- `n_output_masked` and `n_thinking_masked`
unfoldable pub outputs_masked : MaskConfig → List Message → Result ℕ
unfolding count_output_masked
outputs_masked cfg masked_middle =
    if cfg.mask_output then count_output_masked masked_middle else ok 0

unfoldable pub thoughts_masked : MaskConfig → List Message → ℕ
thoughts_masked cfg middle =
    if cfg.mask_thinking then count (λ m. is_assistant m && has_reasoning m) middle else 0

-- The result, from the split, the masked middle and the two counts.
unfoldable pub mask_result : Split → List Message → ℕ → ℕ → CompactionResult
mask_result s masked_middle thoughts outputs = record {
  messages = s.head ++ (masked_middle ++ s.tail);
  kind = mask;
  summary = none;
  metadata = masked outputs thoughts;
}

unfoldable pub compact : Runtime → MaskConfig → Compactor
unfolding outputs_masked thoughts_masked mask_result mask_env_messages split_head_tail
compact py cfg messages keep_first keep_last_turns =
    let s = split_head_tail messages keep_first keep_last_turns in
    let middle = mask_env_messages py cfg s.middle in
    outputs_masked cfg middle >>= λ n. ok (mask_result s middle (thoughts_masked cfg s.middle) n)
