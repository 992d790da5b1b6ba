-- ===== src/Strategies/Truncation.antt =====
-- src/tts/summarization/truncation_based.py: the middle is dropped.
use tts_tokens_that_suffice.Prelude.{ℕ, min, ◌≡◌, refl, none, List, ◌++◌, length, take, drop, ok}
use tts_tokens_that_suffice.Compaction.{
  split_head_tail, Compactor, CompactionResult, truncation, dropped,
}
use tts_tokens_that_suffice.Message.{Message}
use tts_tokens_that_suffice.Compaction.Partition.{split_head_tail-append, split_head_tail_sizes}
use tts_tokens_that_suffice.Compaction.Turns.{turns}

unfoldable pub build_truncation_scoring_messages : List Message → ℕ → ℕ → List Message
unfolding split_head_tail
build_truncation_scoring_messages partial_messages keep_first keep_last_turns =
    let s = split_head_tail partial_messages keep_first keep_last_turns in s.head ++ s.tail

unfoldable pub compact : Compactor
unfolding split_head_tail
compact messages keep_first keep_last_turns =
    let s = split_head_tail messages keep_first keep_last_turns in
    ok (record {
      messages = s.head ++ s.tail;
      kind = truncation;
      summary = none;
      metadata = dropped (length s.middle);
    })

-- What a truncation returns: the history without one run of messages behind the head, whose length
-- the metadata tells, and in front of the last turns.
pub record IsTruncation (ms : List Message) (f n : ℕ) (r : CompactionResult) : Type 0 where
  pub cut : List Message
  pub kept_tail : List Message
  pub whole : take f ms ++ (cut ++ kept_tail) ≡ ms
  pub shorter : r.messages ≡ take f ms ++ kept_tail
  pub counted : r.metadata ≡ dropped (length cut)
  pub last_turns : turns kept_tail ≡ min n (turns (drop f ms))

-- `compact` never raises, and drops one run of messages between the head and the last turns.
pub compact-IsTruncation :
    (ms : List Message) (f n : ℕ)
    → (r : CompactionResult) × (compact ms f n ≡ ok r) × IsTruncation ms f n r
compact-IsTruncation ms f n =
    let s = split_head_tail ms f n in
    let r : CompactionResult = record {
      messages = s.head ++ s.tail;
      kind = truncation;
      summary = none;
      metadata = dropped (length s.middle);
    } in
    (
      r,
      unfold compact in refl,
      record {
        cut = s.middle;
        kept_tail = s.tail;
        whole = unfold split_head_tail in split_head_tail-append ms f n;
        shorter = unfold split_head_tail in refl;
        counted = refl;
        last_turns = (split_head_tail_sizes ms f n).1;
      },
    )
