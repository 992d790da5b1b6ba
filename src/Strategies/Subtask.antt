-- ===== src/Strategies/Subtask.antt =====
-- src/tts/summarization/subtask_based.py: the middle by themes, a summary for each finished one and
-- the recent steps of the one in progress. `Subtask.Themes` parses the model's answer.
pub mod Themes
pub mod Replay
pub mod Compactor
pub mod Keeps
pub mod Head
use tts_tokens_that_suffice.Prelude.{
  ℕ, zero, suc, ◌+◌, ◌-◌, min, Bool, true, false, not, ◌||◌, Option, none, some, List, [], ◌∷◌,
  ◌++◌, ltb, ◌==◌, if◌then◌else◌, ℤ, leb_int, clamp, pos, Text, codes, starts_with, join,
  is_nonempty, decimal, Result, ◌>>=◌, index_error, err, ok,
}
use tts_tokens_that_suffice.Message.{Message, text, system, plain, other, user, assistant, tool}
use tts_tokens_that_suffice.Strategies.Subtask.Themes.{Theme}

abbrev pub summary_header : Text
summary_header = codes "<subtask-summary> "

unfoldable pub is_subtask_summary : Message → Bool
unfolding starts_with
is_subtask_summary m = elim m.content [ text t ↦ starts_with t summary_header | c ↦ false ]

-- The loop of `_message_for_step`, with `step_idx` and `seen_task`.
unfoldable pub message_from : ℕ → ℕ → Bool → List Message → Result Message
message_from idx step_idx seen_task [] = err index_error
message_from idx step_idx seen_task (m ∷ ms) =
    let skip = message_from idx step_idx seen_task ms in
    let after_task = message_from idx step_idx true ms in
    let later = message_from idx (suc step_idx) seen_task ms in
    let this : Result Message = if step_idx == idx then ok m else later in
    elim m.role [
      | system ↦ skip
      | user ↦ if seen_task then this else after_task
      | assistant ↦ this
      | tool ↦ this
      | other r ↦ skip
    ]

unfoldable pub message_for_step : ℕ → List Message → Result Message
unfolding message_from
message_for_step idx middle = message_from idx 0 false middle

-- for i in range(first, first + n): blocks.append(_message_for_step(steps, i, fresh))
unfoldable pub kept_from : List Message → ℕ → ℕ → Result (List Message)
unfolding message_for_step
kept_from fresh first zero = ok []
kept_from fresh first (suc n) =
    let rest = kept_from fresh (suc first) n in
    message_for_step first fresh >>= λ m. rest >>= λ ms. ok (m ∷ ms)

-- What the loop over the themes appends and counts.
pub record Blocks : Type 0 where
  pub messages : List Message
  pub compressed : ℕ
  pub kept_progress : ℕ

abbrev pub or_zero : Option ℤ → ℤ
or_zero none = pos 0
or_zero (some x) = x

abbrev pub end_or : Option ℤ → ℤ → ℤ
end_or none start = start
end_or (some x) start = x

-- The two bounds of a theme, clamped to `n_steps` steps, and swapped where they are out of order.
unfoldable pub bounds : ℕ → Theme → ℕ × ℕ
bounds n_steps t =
    let first = clamp n_steps (or_zero t.start_idx) in
    let last = clamp n_steps (end_or t.end_idx (or_zero t.start_idx)) in
    if ltb last first then (last, first) else (first, last)

abbrev pub has_summary : Theme → Bool
has_summary t = elim t.summary [ none ↦ false | some s ↦ is_nonempty s ]

-- sorted(themes, key=lambda t: t.get("start_idx", 0)), which is stable
unfoldable pub insert : Theme → List Theme → List Theme
insert t [] = t ∷ []
insert t (u ∷ us) =
    let rest = insert t us in
    if leb_int (or_zero t.start_idx) (or_zero u.start_idx) then t ∷ u ∷ us else u ∷ rest

unfoldable pub sort_themes : List Theme → List Theme
unfolding insert
sort_themes [] = []
sort_themes (t ∷ ts) = insert t (sort_themes ts)

-- The message that stands for the older steps of a theme in progress.
unfoldable pub fold_message : Text → ℕ → ℕ → ℕ → Message
unfolding decimal join
fold_message name start end fold = plain user (
    join [] (
      summary_header
      ∷ codes "Progress on subtask '"
      ∷ name
      ∷ codes "' (steps "
      ∷ decimal start
      ∷ codes ".."
      ∷ decimal (start + fold - 1)
      ∷ codes " of "
      ∷ decimal (end + 1)
      ∷ codes ", "
      ∷ decimal fold
      ∷ codes " steps) is summarized below; continue from step "
      ∷ decimal (start + fold)
      ∷ codes "."
      ∷ []))

unfoldable pub fallback_message : ℕ → ℕ → Message
unfolding decimal join
fallback_message start fold = plain user (
    join [] (
      summary_header
      ∷ codes "Earlier progress on this task (steps "
      ∷ decimal start
      ∷ codes ".."
      ∷ decimal (start + fold - 1)
      ∷ codes ") is folded into this summary."
      ∷ []))

-- The steps from `start` to `end` but the first `fold`, and one message for these.
unfoldable pub tail_block : List Message → Message → ℕ → ℕ → ℕ → Result Blocks
unfolding kept_from
tail_block fresh folded start end fold =
    kept_from fresh (start + fold) (end + 1 - (start + fold)) >>= λ kept. ok (record {
      messages = kept ++ (if ltb 0 fold then folded ∷ [] else []);
      compressed = fold;
      kept_progress = end + 1 - (start + fold);
    })

abbrev pub name_or_work : Option Text → Text
name_or_work none = codes "work"
name_or_work (some n) = n

abbrev pub summary_of : Theme → Text
summary_of t = elim t.summary [ none ↦ [] | some s ↦ s ]

-- The body of the loop, for one theme.
unfoldable pub theme_block : List Message → ℕ → ℕ → Theme → Result Blocks
unfolding bounds tail_block fold_message
theme_block fresh n_steps keep_recent t =
    let (start, end) = bounds n_steps t in
    let total = end + 1 - start in
    let fold = total - min total keep_recent in
    if t.in_progress || not (has_summary t)
    then tail_block fresh (fold_message (name_or_work t.name) start end fold) start end fold
    else ok (record {
      messages = plain user (summary_header ++ summary_of t) ∷ [];
      compressed = total;
      kept_progress = 0;
    })

-- The loop over the themes.
unfoldable pub theme_blocks : List Message → ℕ → ℕ → List Theme → Result Blocks
unfolding theme_block
theme_blocks fresh n_steps keep_recent [] =
    ok (record { messages = []; compressed = 0; kept_progress = 0 })
theme_blocks fresh n_steps keep_recent (t ∷ ts) =
    let rest = theme_blocks fresh n_steps keep_recent ts in
    theme_block fresh n_steps keep_recent t >>= λ b. rest >>= λ bs. ok (record {
      messages = b.messages ++ bs.messages;
      compressed = b.compressed + bs.compressed;
      kept_progress = b.kept_progress + bs.kept_progress;
    })
