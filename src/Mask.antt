-- ===== src/Mask.antt =====
-- Mask-based compaction, src/tts/summarization/mask_based.py: the configuration of a mask, and the
-- rewriting of one message and of a history. `Mask.Tags` is the regular expression, `Mask.Window`
-- and `Mask.Shape` hold the laws, and `Mask.Compact` is the compactor.
pub mod Tags
pub mod Window
pub mod Shape
pub mod Compact
use tts_tokens_that_suffice.Message.{text, Message, is_assistant, is_tool, has_reasoning}
use tts_tokens_that_suffice.Prelude.{
  Text, codes, decimal, ℕ, Bool, true, List, count_lines, ◌++◌, false, drop, if◌then◌else◌, leb,
  ◌∷◌, length, ◌&&◌, suc, ltb, contains, ◌-◌, some, [], zero,
}
use tts_tokens_that_suffice.Mask.Tags.{Runtime, should_keep_tool_output, content_str}
use tts_tokens_that_suffice.Compaction.{split_head_tail}

-- The keyword arguments of `mask_env_messages`, which `MaskBasedSummarizer` keeps as its fields.
pub record MaskConfig : Type 0 where
  pub placeholder : Text
  pub mask_output : Bool
  pub mask_thinking : Bool
  pub thinking_placeholder : Text
  pub keep_n : ℕ
  pub tagged_keep : Bool
  pub long_output_chars : ℕ
  pub descriptive_placeholder : Bool

-- The default arguments.
abbrev pub default_config : MaskConfig
default_config = record {
  placeholder = codes "[OUTPUT]";
  mask_output = true;
  mask_thinking = false;
  thinking_placeholder = codes "[THINKING]";
  keep_n = 10;
  tagged_keep = true;
  long_output_chars = 5000;
  descriptive_placeholder = true;
}

-- DESCRIPTIVE_PLACEHOLDER.format(lines=lines)
unfoldable pub describe_lines : ℕ → Text
unfolding decimal
describe_lines lines =
    codes "Old environment output: (" ++ (decimal lines ++ codes " lines omitted)")

-- `xs[len(xs) - n:]`, where a negative bound counts from the end: with more than `len(xs)` asked
-- for, the slice begins `n - len(xs)` elements before the end.
unfoldable pub slice_last {ℓ} : {A : Type ℓ} → ℕ → List A → List A
slice_last n xs =
    if leb n (length xs) then drop (length xs - n) xs else drop (length xs - (n - length xs)) xs

-- [i for i, m in enumerate(messages) if m.get("role") == "tool"], from the index `i` on
unfoldable pub tool_indices : ℕ → List Message → List ℕ
tool_indices i [] = []
tool_indices i (m ∷ ms) = let rest = tool_indices (suc i) ms in if is_tool m then i ∷ rest else rest

-- `keep_from` and `tool_idx[keep_from:]`
unfoldable pub recent_window : ℕ → List ℕ → List ℕ
unfolding slice_last
recent_window zero tool_idx = drop (length tool_idx) tool_idx
recent_window (suc n) tool_idx = slice_last (suc n) tool_idx

module _ (py : Runtime) (cfg : MaskConfig) where
  -- `_masked_content`
  unfoldable pub masked_content : Message → Text
  unfolding describe_lines count_lines
  masked_content m =
      if cfg.descriptive_placeholder
      then describe_lines (count_lines (content_str py m.content))
      else cfg.placeholder

  -- What becomes of a tool message outside the recent window.
  unfoldable pub mask_old_output : Message → Message
  unfolding masked_content should_keep_tool_output
  mask_old_output m =
      if cfg.tagged_keep && should_keep_tool_output py m.content
      then if ltb 0 cfg.long_output_chars
          && ltb cfg.long_output_chars (length (content_str py m.content))
        then record m { content = text (masked_content m) }
        else m
      else record m { content = text (masked_content m) }

  -- The body of the loop; `recent` tells whether the index is in `recent_tool_idx`.
  unfoldable pub mask_message : Bool → Message → Message
  unfolding mask_old_output
  mask_message recent m =
      if cfg.mask_thinking && is_assistant m && has_reasoning m
      then record m { reasoning_content = some cfg.thinking_placeholder }
      else if cfg.mask_output && is_tool m
      then if recent then m else mask_old_output m
      else m

  -- The loop over `enumerate(messages)`, from the index `i` on.
  unfoldable pub mask_from : List ℕ → ℕ → List Message → List Message
  unfolding mask_message
  mask_from recent i [] = []
  mask_from recent i (m ∷ ms) = mask_message (contains recent i) m ∷ mask_from recent (suc i) ms

  unfoldable pub mask_env_messages : List Message → List Message
  unfolding mask_from recent_window tool_indices
  mask_env_messages messages =
      mask_from (recent_window cfg.keep_n (tool_indices 0 messages)) 0 messages

  unfoldable pub build_maskenv_scoring_messages : List Message → ℕ → ℕ → List Message
  unfolding mask_env_messages split_head_tail
  build_maskenv_scoring_messages partial_messages keep_first keep_last_turns =
      let s = split_head_tail partial_messages keep_first keep_last_turns in
      s.head ++ (mask_env_messages s.middle ++ s.tail)
