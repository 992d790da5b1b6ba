-- ===== src/Strategies/Cliff.antt =====
-- src/tts/summarization/cliff_based.py: `CliffCompactor.compact` around the `compact` function of the
-- cliffcompaction package, which is the parameter `cliff_compact`: for a middle it gives `None`, or
-- the role and the text of its summary message.
use tts_tokens_that_suffice.Prelude.{
  Option, none, some, List, [], ◌∷◌, ◌++◌, length, Text, Result, type_error, ok, err,
}
use tts_tokens_that_suffice.Message.{Message, Role, plain, user}
use tts_tokens_that_suffice.Compaction.{
  Split, CompactionResult, summary, split_head_tail, dropped, cliff, Compactor,
}

unfoldable pub unchanged : List Message → Result CompactionResult
unchanged messages =
    ok (record { messages = messages; kind = summary; summary = none; metadata = dropped 0 })

-- The check on the package's summary message, and the result built around it.
unfoldable pub around_summary : Split → Role → Text → Result CompactionResult
around_summary s user z = ok (record {
  messages = s.head ++ plain user z ∷ s.tail;
  kind = summary;
  summary = some z;
  metadata = cliff (length s.head) (length s.middle) (length z);
})
around_summary s r z = err type_error

module _ (cliff_compact : List Message → Option (Role × Text)) where
  -- After the split, by its middle: nothing to compact, nothing gained, or a summary.
  unfoldable pub compact_middle : List Message → Split → List Message → Result CompactionResult
  unfolding unchanged around_summary
  compact_middle messages s [] = unchanged messages
  compact_middle messages s (m ∷ ms) = elim (cliff_compact (m ∷ ms)) [
    | none ↦ unchanged messages
    | some (r, z) ↦ around_summary s r z
  ]

  unfoldable pub compact : Compactor
  unfolding compact_middle split_head_tail
  compact messages keep_first keep_last_turns =
      let s = split_head_tail messages keep_first keep_last_turns in
      compact_middle messages s s.middle
