-- ===== src/Tests/Histories.antt =====
-- The laws of splitting and masking a history, applied to sample histories.
use tts_tokens_that_suffice.Mask.Compact
use tts_tokens_that_suffice.Prelude.{
  ◌≡◌, refl, none, ◌∷◌, ◌++◌, map, arith, take, drop, codes, decimal, ok,
}
use tts_tokens_that_suffice.Compaction.{
  split_head_tail, CompactionResult, last_n_turns, mask, masked,
}
use tts_tokens_that_suffice.Compaction.Turns.{
  IsCut, last_n_turns-IsCut, drop_turns, last_n_turns-drop_turns,
}
use tts_tokens_that_suffice.Mask.{mask_env_messages, MaskConfig, describe_lines, default_config}
use tts_tokens_that_suffice.Message.{frame}
use tts_tokens_that_suffice.Rollouts.{validate_messages}
use tts_tokens_that_suffice.Tests.Samples.{preamble, history, act, observe}
use tts_tokens_that_suffice.Mask.Tags.{ascii_runtime}
use tts_tokens_that_suffice.Compaction.Partition.{split_head_tail-append}
use tts_tokens_that_suffice.Mask.Window.{mask_by_rank, mask_env_messages-mask_by_rank}
use tts_tokens_that_suffice.Mask.Shape.{frame-compact}
use tts_tokens_that_suffice.Rollouts.Answers.{validate_messages-compact}
use tts_tokens_that_suffice.Strategies.Ends.{mask_ends}

split_head_tail-append_example :
    let s = split_head_tail (preamble ++ history 3) 2 1 in
    s.head ++ (s.middle ++ s.tail) ≡ preamble ++ history 3
split_head_tail-append_example = split_head_tail-append (preamble ++ history 3) 2 1

-- The tail of that split is the last turn.
one_turn_kept : (split_head_tail (preamble ++ history 3) 2 1).tail ≡ history 1
unfolding split_head_tail decimal
one_turn_kept = refl

last_n_turns-drop_turns_example : last_n_turns (history 3) 2 ≡ drop_turns 1 (history 3)
unfolding drop_turns
last_n_turns-drop_turns_example = last_n_turns-drop_turns (history 3) 2 (omega arith)

last_n_turns-IsCut_example : IsCut (history 3) (last_n_turns (history 3) 2)
last_n_turns-IsCut_example = last_n_turns-IsCut (history 3) 2 (omega arith)

mask_env_messages-mask_by_rank_example :
    mask_env_messages ascii_runtime default_config (history 12)
    ≡ mask_by_rank ascii_runtime default_config 10 (history 12)
mask_env_messages-mask_by_rank_example =
    mask_env_messages-mask_by_rank ascii_runtime default_config (history 12)

-- The default mask, keeping one recent output.
abbrev keep_one : MaskConfig
keep_one = record default_config { keep_n = 1 }

-- What it makes of a history of three turns behind the preamble.
abbrev masked_history : CompactionResult
masked_history = record {
  messages = preamble ++ act ∷ observe (describe_lines 1) ∷ act ∷ observe (codes "1") ∷ history 1;
  kind = mask;
  summary = none;
  metadata = masked 1 0;
}

compact_run : Compact.compact ascii_runtime keep_one (preamble ++ history 3) 2 1 ≡ ok masked_history
unfolding Compact.compact describe_lines decimal
compact_run = refl

masked_framed : map frame masked_history.messages ≡ map frame (preamble ++ history 3)
masked_framed =
    frame-compact ascii_runtime keep_one (preamble ++ history 3) 2 1 masked_history compact_run

validate_messages-compact_example :
    validate_messages masked_history.messages ≡ validate_messages (preamble ++ history 3)
validate_messages-compact_example =
    validate_messages-compact ascii_runtime keep_one (preamble ++ history 3) 2 1 masked_history
      compact_run

mask_kept :
    masked_history.messages
    ≡ take 2 (preamble ++ history 3)
      ++ (mask_env_messages ascii_runtime keep_one
            (split_head_tail (preamble ++ history 3) 2 1).middle
          ++ last_n_turns (drop 2 (preamble ++ history 3)) 1)
mask_kept = mask_ends ascii_runtime keep_one (preamble ++ history 3) 2 1 masked_history compact_run
