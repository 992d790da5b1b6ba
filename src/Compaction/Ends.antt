-- ===== src/Compaction/Ends.antt =====
-- The contract of a compactor, src/tts/summarization/base.py: the head and the last turns survive a
-- compaction verbatim. The strategies prove it, and the agent relies on it.
use tts_tokens_that_suffice.Prelude.{
  ℕ, ◌≤◌, ◌≡◌, refl, List, ◌++◌, length, take, drop, take-take_append, ok,
}
use tts_tokens_that_suffice.Compaction.{Compactor, split_head_tail, CompactionResult, last_n_turns}
use tts_tokens_that_suffice.Message.{Message}

pub record KeepsEnds (c : Compactor) : Type 0 where
  pub ends :
      (ms : List Message) (keep_first keep_last : ℕ) (r : CompactionResult)
      → c ms keep_first keep_last ≡ ok r
      → (middle : List Message) × (r.messages
          ≡ take keep_first ms ++ (middle ++ last_n_turns (drop keep_first ms) keep_last))

-- The parts of a split that a strategy does not rewrite.
pub head-split_head_tail : (ms : List Message) (f n : ℕ) → (split_head_tail ms f n).head ≡ take f ms
unfolding split_head_tail
head-split_head_tail ms f n = refl

pub tail-split_head_tail :
    (ms : List Message) (f n : ℕ) → (split_head_tail ms f n).tail ≡ last_n_turns (drop f ms) n
unfolding split_head_tail
tail-split_head_tail ms f n = refl

-- A history that is longer than the head keeps its head in front of anything.
pub take-KeepsEnds :
    (c : Compactor) (k : KeepsEnds c) (ms : List Message) (f n : ℕ) (r : CompactionResult)
    → f ≤ length ms
    → c ms f n ≡ ok r
    → take f r.messages ≡ take f ms
take-KeepsEnds c k ms f n r h e =
    let (middle, same) = k.ends ms f n r e in rw same (take-take_append f ms _ h)
