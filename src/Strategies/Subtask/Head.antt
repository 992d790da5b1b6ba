-- ===== src/Strategies/Subtask/Head.antt =====
-- The contract of `SubtaskModelBasedSummarizer.compact`, src/tts/summarization/subtask_based.py.
use tts_tokens_that_suffice.Strategies.Subtask.Compactor
use tts_tokens_that_suffice.Prelude.{
  ℕ, ◌<◌, ◌≡◌, refl, sym, ap, ◌∙◌, Option, List, [], ◌∷◌, ◌++◌, arith, length, take, drop,
  take-append-drop, Text, Error, Result, ◌>>=◌, err, ok, not, keep_if, subst, ◌⊎◌, inl, inr,
}
use tts_tokens_that_suffice.Message.{Message, Codec}
use tts_tokens_that_suffice.Compaction.{CompactionResult, Split, split_head_tail}
use tts_tokens_that_suffice.Strategies.Subtask.Themes.{Answer, Theme, parse_subtasks, Entries}
use tts_tokens_that_suffice.Strategies.Model.{Summarizer}
use tts_tokens_that_suffice.Trajectory.{messages_to_steps, TrajectoryStep}
use tts_tokens_that_suffice.Strategies.Subtask.Keeps.{theme_blocks-Returns, fallback_blocks-Returns}
use tts_tokens_that_suffice.Strategies.Subtask.{sort_themes, is_subtask_summary}
use tts_tokens_that_suffice.Compaction.Ends.{head-split_head_tail}

-- A compaction that returns, and whose result begins with the first two messages.
pub record KeepsHead (ms : List Message) (found : Result CompactionResult) : Type 0 where
  pub result : CompactionResult
  pub returned : found ≡ ok result
  pub rest : List Message
  pub head : result.messages ≡ take 2 ms ++ rest

-- A compaction that keeps the head, or raises what reading the answered entries raises.
abbrev pub KeepsOrRaises : List Message → Result Entries → Result CompactionResult → Type 0
KeepsOrRaises ms answered found =
    KeepsHead ms found ⊎ ((e : Error) × (answered ≡ ok (err e)) × (found ≡ err e))

unchanged-KeepsHead :
    (ms : List Message) (r : CompactionResult) → r.messages ≡ ms → KeepsHead ms (ok r)
unchanged-KeepsHead ms r same = record {
  result = r;
  returned = refl;
  rest = drop 2 ms;
  head = same ∙ sym (take-append-drop 2 ms);
}

with_themes-KeepsHead :
    (json : Codec) (ms : List Message) (s : Split) (prior fresh : List Message) (keep_recent : ℕ)
    (sorted : List Theme)
    → s.head ≡ take 2 ms
    → 0 < length (messages_to_steps json fresh)
    → KeepsHead ms (
        Compactor.with_themes s prior fresh
          (length (messages_to_steps json fresh))
          keep_recent
          sorted)
unfolding Compactor.with_themes
with_themes-KeepsHead json ms s prior fresh keep_recent sorted same h =
    let (b, e) = theme_blocks-Returns json fresh keep_recent sorted h in
    let (f, g) = fallback_blocks-Returns json fresh keep_recent sorted h in
    rw (e, g)
      (record {
        result = _;
        returned = refl;
        rest = prior ++ (b.messages ++ f.messages);
        head = ap (λ l. l ++ (prior ++ (b.messages ++ f.messages))) same;
      })

module _ (json : Codec) (str_error : Error → Text) (loads : Text → Option Answer)
    (summarize : Summarizer) (ms : List Message) (keep_recent : ℕ) where
  with_answer-KeepsHead :
      (s : Split) (prior fresh : List Message) (answered : Result Entries)
      → s.head ≡ take 2 ms
      → 0 < length (messages_to_steps json fresh)
      → KeepsOrRaises ms answered (
          Compactor.with_answer json str_error loads summarize ms s prior fresh
            (length (messages_to_steps json fresh))
            keep_recent
            answered)
  unfolding Compactor.with_answer
  with_answer-KeepsHead s prior fresh (err e) same h = inl (unchanged-KeepsHead ms _ refl)
  with_answer-KeepsHead s prior fresh (ok (err e)) same h = inr (e, refl, refl)
  with_answer-KeepsHead s prior fresh (ok (ok answered)) same h =
      inl (with_themes-KeepsHead json ms s prior fresh keep_recent (sort_themes answered) same h)

  -- What the backend and the parser make of the steps.
  abbrev pub answer_to : List TrajectoryStep → Result Entries
  answer_to steps = summarize steps >>= λ raw. parse_subtasks loads raw

  with_steps-KeepsHead :
      (s : Split) (prior fresh : List Message) (steps : List TrajectoryStep)
      → s.head ≡ take 2 ms
      → messages_to_steps json fresh ≡ steps
      → KeepsOrRaises ms
          (answer_to steps)
          (Compactor.with_steps json str_error loads summarize ms s prior fresh keep_recent steps)
  unfolding Compactor.with_steps Compactor.keep_all
  with_steps-KeepsHead s prior fresh [] same e = inl (unchanged-KeepsHead ms _ refl)
  with_steps-KeepsHead s prior fresh (t ∷ steps) same e =
      subst
        (λ (n : ℕ). KeepsOrRaises ms (answer_to (t ∷ steps)) (
          Compactor.with_answer json str_error loads summarize ms s prior fresh n keep_recent
            (answer_to (t ∷ steps))))
        (ap length e)
        (with_answer-KeepsHead s prior fresh (answer_to (t ∷ steps)) same (rw e (omega arith)))

  with_middle-KeepsHead :
      (s : Split) (middle : List Message)
      → s.head ≡ take 2 ms
      → KeepsOrRaises ms
          (answer_to (messages_to_steps json (keep_if (λ x. not (is_subtask_summary x)) middle)))
          (Compactor.with_middle json str_error loads summarize ms s keep_recent middle)
  unfolding Compactor.with_middle Compactor.keep_all
  with_middle-KeepsHead s [] same = inl (unchanged-KeepsHead ms _ refl)
  with_middle-KeepsHead s (m ∷ middle) same =
      let fresh = keep_if (λ x. not (is_subtask_summary x)) (m ∷ middle) in
      with_steps-KeepsHead s (keep_if is_subtask_summary (m ∷ middle)) fresh
        (messages_to_steps json fresh) same refl

  pub compact-KeepsHead :
      (f n : ℕ)
      → let middle = (split_head_tail ms 2 0).middle in
        KeepsOrRaises ms
          (answer_to (messages_to_steps json (keep_if (λ x. not (is_subtask_summary x)) middle)))
          (Compactor.compact json str_error loads summarize keep_recent ms f n)
  unfolding Compactor.compact
  compact-KeepsHead f n =
      with_middle-KeepsHead (split_head_tail ms 2 0) (split_head_tail ms 2 0).middle
        (head-split_head_tail ms 2 0)
