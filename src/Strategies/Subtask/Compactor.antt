-- ===== src/Strategies/Subtask/Compactor.antt =====
-- `SubtaskModelBasedSummarizer.compact` of src/tts/summarization/subtask_based.py, around the blocks
-- of the themes.
use tts_tokens_that_suffice.Prelude.{
  ℕ, ◌+◌, ◌-◌, max, not, Option, none, some, List, [], ◌∷◌, ◌++◌, if◌then◌else◌, clamp, length, any,
  keep_if, Text, codes, join, Error, Result, ◌>>=◌, err, ok,
}
use tts_tokens_that_suffice.Strategies.Subtask.Themes.{Theme, Answer, parse_subtasks, Entries}
use tts_tokens_that_suffice.Strategies.Subtask.{
  tail_block, Blocks, theme_blocks, fallback_message, or_zero, end_or, sort_themes,
  is_subtask_summary,
}
use tts_tokens_that_suffice.Message.{Message, Codec}
use tts_tokens_that_suffice.Compaction.{
  CompactionResult, Split, summary, dropped, themes, split_head_tail, summary_failed, Compactor,
  failed_with,
}
use tts_tokens_that_suffice.Strategies.Model.{Summarizer}
use tts_tokens_that_suffice.Trajectory.{TrajectoryStep, messages_to_steps}

-- themes[-1]
unfoldable pub last_theme : List Theme → Option Theme
last_theme [] = none
last_theme (t ∷ []) = some t
last_theme (t ∷ u ∷ ts) = last_theme (u ∷ ts)

-- The recent steps of the last theme, kept once more where no theme is in progress. The bounds are
-- not swapped here: out of order they keep nothing.
unfoldable pub last_tail : List Message → ℕ → ℕ → Theme → Result Blocks
unfolding tail_block fallback_message
last_tail fresh n_steps keep_recent t =
    let start = clamp n_steps (or_zero t.start_idx) in
    let end = clamp n_steps (end_or t.end_idx (or_zero t.start_idx)) in
    let fold = (end + 1 - start) - max 1 keep_recent in
    tail_block fresh (fallback_message start fold) start end fold

abbrev pub nothing : Blocks
nothing = record { messages = []; compressed = 0; kept_progress = 0 }

unfoldable pub fallback_blocks : List Message → ℕ → ℕ → List Theme → Result Blocks
unfolding last_theme last_tail
fallback_blocks fresh n_steps keep_recent sorted =
    let last : Result Blocks = elim (last_theme sorted) [
      | none ↦ ok nothing
      | some t ↦ last_tail fresh n_steps keep_recent t
    ] in
    if any (λ t. t.in_progress) sorted then ok nothing else last

-- [t.get("summary") for t in themes if isinstance(t.get("summary"), str)]
unfoldable pub summaries : List Theme → List Text
summaries [] = []
summaries (t ∷ ts) = let rest = summaries ts in elim t.summary [ none ↦ rest | some s ↦ s ∷ rest ]

-- summary_text or None
unfoldable pub or_none : Text → Option Text
or_none [] = none
or_none (c ∷ s) = some (c ∷ s)

unfoldable pub keep_all : List Message → CompactionResult
keep_all messages = record {
  messages = messages;
  kind = summary;
  summary = none;
  metadata = dropped 0;
}

-- The result, from the sorted themes.
unfoldable pub with_themes :
    Split → List Message → List Message → ℕ → ℕ → List Theme → Result CompactionResult
unfolding theme_blocks fallback_blocks summaries or_none join
with_themes s prior fresh n_steps keep_recent sorted =
    theme_blocks fresh n_steps keep_recent sorted >>= λ b.
    fallback_blocks fresh n_steps keep_recent sorted >>= λ f. ok (record {
      messages = s.head ++ (prior ++ (b.messages ++ f.messages));
      kind = summary;
      summary = or_none (join (codes "\n\n") (summaries sorted));
      metadata =
          themes (length sorted) (b.compressed + f.compressed) (b.kept_progress + f.kept_progress);
    })

module _ (json : Codec) (str_error : Error → Text) (loads : Text → Option Answer)
    (summarize : Summarizer) where
  -- What the backend and the parser came to: any exception of theirs is caught, but none of the
  -- entries' own.
  unfoldable pub with_answer :
      List Message
      → Split
      → List Message
      → List Message
      → ℕ
      → ℕ
      → Result Entries
      → Result CompactionResult
  unfolding with_themes sort_themes
  with_answer messages s prior fresh n_steps keep_recent (err e) = ok (record {
    messages = messages;
    kind = summary_failed;
    summary = none;
    metadata = failed_with (str_error e);
  })
  with_answer messages s prior fresh n_steps keep_recent (ok (err e)) = err e
  with_answer messages s prior fresh n_steps keep_recent (ok (ok answered)) =
      with_themes s prior fresh n_steps keep_recent (sort_themes answered)

  -- The fresh messages of the middle, by their steps.
  unfoldable pub with_steps :
      List Message
      → Split
      → List Message
      → List Message
      → ℕ
      → List TrajectoryStep
      → Result CompactionResult
  unfolding keep_all with_answer parse_subtasks
  with_steps messages s prior fresh keep_recent [] = ok (keep_all messages)
  with_steps messages s prior fresh keep_recent (t ∷ steps) =
      with_answer messages s prior fresh (length (t ∷ steps)) keep_recent
        (summarize (t ∷ steps) >>= λ raw. parse_subtasks loads raw)

  unfoldable pub with_middle : List Message → Split → ℕ → List Message → Result CompactionResult
  unfolding keep_all with_steps is_subtask_summary messages_to_steps
  with_middle messages s keep_recent [] = ok (keep_all messages)
  with_middle messages s keep_recent (m ∷ middle) =
      let fresh = keep_if (λ x. not (is_subtask_summary x)) (m ∷ middle) in
      with_steps messages s (keep_if is_subtask_summary (m ∷ middle)) fresh keep_recent
        (messages_to_steps json fresh)

  -- `keep_recent` is `keep_recent_steps`; the two bounds of the interface are not read.
  unfoldable pub compact : ℕ → Compactor
  unfolding with_middle split_head_tail
  compact keep_recent messages keep_first keep_last_turns =
      let s = split_head_tail messages 2 0 in with_middle messages s keep_recent s.middle
