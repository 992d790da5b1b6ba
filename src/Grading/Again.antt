-- ===== src/Grading/Again.antt =====
-- A second run of scripts/eval/grade_preds.py with --skip-graded, behind a first one.
use tts_tokens_that_suffice.Prelude.{
  ℕ, Option, sym, ◌≡◌, refl, ap, ap₂, subst, ◌∙◌, inl, inr, Bool, false, not, ◌&&◌, ◌||◌, none,
  some, List, arith, if◌then◌else◌, Bool-cases, Option-cases, length, get_elem?, any, keep_if, Text,
  text_eq, lookup, Result, ◌>>=◌, ok,
}
use tts_tokens_that_suffice.Grading.{
  Evaluated, score_of, Grade, grade_of, is_unscored, left_to_grade, reported, grade_one,
  grade_preds, grade_all, cached_grade, report_of,
}
use tts_tokens_that_suffice.Grading.Updates.{
  Store, cached_of, updated, graded_as, Updates, is_saved, cached_grade-cached_of, any-keep_if,
  Parses, is_broken, grade_all-Updates, updated-parses,
}
use tts_tokens_that_suffice.Evaluation.Batch.{any-member, keep_if-ext}

abbrev or_graded : Evaluated → Option Bool → Bool
or_graded ev s = elim s [ none ↦ ev.resolved | some r ↦ r ]

abbrev reported_as : Evaluated → Option (Option Grade) → Bool
reported_as ev o = or_graded ev (cached_of o)

-- A trajectory behind a run that graded it if it had no score.
abbrev after_run : Evaluated → Option (Option Grade) → Option (Option Grade)
after_run ev o = updated (is_unscored (cached_of o)) ev o

-- What a second run leaves to grade: what has no trajectory, and what could not be graded.
abbrev is_left : Evaluated → Option (Option Grade) → Bool
is_left ev o = is_unscored (cached_of o) && (not (is_saved o) || ev.is_error)

fresh-resolved :
    (ev ev' : Evaluated)
    → or_graded ev' (score_of (grade_of ev)) ≡ (if ev.is_error then ev'.resolved else ev.resolved)
unfolding score_of grade_of
fresh-resolved ev ev' = elim (Bool-cases ev.is_error) [ inl e ↦ rw e refl | inr e ↦ rw e refl ]

fresh-is_unscored : (ev : Evaluated) → is_unscored (score_of (grade_of ev)) ≡ ev.is_error
unfolding score_of grade_of
fresh-is_unscored ev = elim (Bool-cases ev.is_error) [ inl e ↦ rw e refl | inr e ↦ rw e refl ]

reported_as-after_run :
    (ev ev' : Evaluated) (o : Option (Option Grade))
    → reported_as ev' (after_run ev o) ≡ (if is_left ev o then ev'.resolved else reported_as ev o)
reported_as-after_run ev ev' none = refl
reported_as-after_run ev ev' (some none) = fresh-resolved ev ev' ∙ refl
reported_as-after_run ev ev' (some (some g)) = elim (Option-cases (score_of g)) [
  | inl e ↦ rw e (fresh-resolved ev ev' ∙ refl)
  | inr (r, e) ↦ rw (e, e) refl
]

is_left-after_run :
    (ev : Evaluated) (o : Option (Option Grade))
    → is_unscored (cached_of (after_run ev o)) ≡ is_left ev o
is_left-after_run ev none = refl
is_left-after_run ev (some none) = fresh-is_unscored ev
is_left-after_run ev (some (some g)) = elim (Option-cases (score_of g)) [
  | inl e ↦ rw e (fresh-is_unscored ev)
  | inr (r, e) ↦ rw (e, e) refl
]

reported-reported_as :
    (evaluate : Text → Result Evaluated) (held : Store) (j : Text)
    → reported evaluate held j ≡ reported_as (graded_as evaluate j) (lookup j held)
unfolding reported
reported-reported_as evaluate held j =
    ap (or_graded (graded_as evaluate j)) (cached_grade-cached_of held j)

module _ (evaluate : Text → Result Evaluated) (todo : List Text) (trajs : Store) where
  -- A trajectory of the run's instances behind the run.
  each-after_run :
      (up : Updates trajs
        (grade_all evaluate (left_to_grade todo trajs) trajs)
        (λ j. any (λ i. text_eq i j) (left_to_grade todo trajs))
        (graded_as evaluate))
      (n : ℕ) (j : Text)
      → get_elem? todo n ≡ some j
      → lookup j up.after ≡ after_run (graded_as evaluate j) (lookup j trajs)
  unfolding left_to_grade
  each-after_run up n j h =
      up.each j
      ∙ ap (λ b. updated b (graded_as evaluate j) (lookup j trajs))
          (any-keep_if (λ i. is_unscored (cached_grade trajs i)) todo j
            ∙ rw (any-member todo n j h, cached_grade-cached_of trajs j) (ground arith))

  abbrev pub left_again : Text → Bool
  left_again i =
      is_unscored (cached_grade trajs i)
      && (not (is_saved (lookup i trajs)) || (grade_one (evaluate i)).is_error)

  -- What the report of a second run says of an instance: what the first said, unless it is graded again.
  abbrev pub reported_again : (Text → Result Evaluated) → Text → Bool
  reported_again evaluate' i =
      if left_again i then (grade_one (evaluate' i)).resolved else reported evaluate trajs i

  is_left-cached : (i : Text) → is_left (graded_as evaluate i) (lookup i trajs) ≡ left_again i
  is_left-cached i =
      ap
        (λ s. is_unscored s && (not (is_saved (lookup i trajs)) || (graded_as evaluate i).is_error))
        (sym (cached_grade-cached_of trajs i))

  module _
      (up : Updates trajs
        (grade_all evaluate (left_to_grade todo trajs) trajs)
        (λ j. any (λ i. text_eq i j) (left_to_grade todo trajs))
        (graded_as evaluate)) where
    Parses-after : Parses trajs → Parses up.after
    Parses-after h j =
        subst (λ o. is_broken o ≡ false) (sym (up.each j))
          (updated-parses _ (graded_as evaluate j) (lookup j trajs) (h j))

    left_again-after :
        (n : ℕ) (j : Text)
        → get_elem? todo n ≡ some j
        → is_unscored (cached_grade up.after j) ≡ left_again j
    left_again-after n j at =
        ap is_unscored (cached_grade-cached_of up.after j)
        ∙ ap (λ o. is_unscored (cached_of o)) (each-after_run up n j at)
        ∙ is_left-after_run (graded_as evaluate j) (lookup j trajs)
        ∙ is_left-cached j

    reported_again-after :
        (evaluate' : Text → Result Evaluated) (n : ℕ) (j : Text)
        → get_elem? todo n ≡ some j
        → reported evaluate' up.after j ≡ reported_again evaluate' j
    reported_again-after evaluate' n j at =
        reported-reported_as evaluate' up.after j
        ∙ ap (reported_as (graded_as evaluate' j)) (each-after_run up n j at)
        ∙ reported_as-after_run (graded_as evaluate j) (graded_as evaluate' j) (lookup j trajs)
        ∙ ap₂ (λ b r. if b then (grade_one (evaluate' j)).resolved else r) (is_left-cached j)
            (sym (reported-reported_as evaluate trajs j))

  -- Where every saved trajectory parses, a run that skips what is graded returns, and so does a second
  -- run, with whatever the graders say then. It has to grade again just the instances without a score
  -- that have no trajectory, or whose grading failed; its report says of these what they are graded
  -- now, and of the others what the first report said.
  pub grade_preds-again :
      (evaluate' : Text → Result Evaluated)
      → Parses trajs
      → (after : List (Text × Option Grade)) × (last : List (Text × Option Grade)) × (grade_preds
            evaluate todo trajs
          ≡ ok (report_of evaluate todo trajs, after))
        × (left_to_grade todo after ≡ keep_if left_again todo)
        × (grade_preds evaluate' todo after
            ≡ ok (
              record {
                n = length todo;
                resolved = keep_if (reported_again evaluate') todo;
                unresolved = keep_if (λ i. not (reported_again evaluate' i)) todo;
              },
              last,
            ))
  unfolding grade_preds report_of left_to_grade
  grade_preds-again evaluate' h =
      let up = grade_all-Updates evaluate (left_to_grade todo trajs) trajs h in
      let next =
        grade_all-Updates evaluate' (left_to_grade todo up.after) up.after (Parses-after up h) in
      (
        up.after,
        next.after,
        ap (λ r. r >>= λ after. ok (report_of evaluate todo trajs, after)) up.returned,
        keep_if-ext _ _ todo (left_again-after up),
        ap (λ r. r >>= λ after. ok (report_of evaluate' todo up.after, after)) next.returned
            ∙ rw
                (
                  keep_if-ext _ _ todo (reported_again-after up evaluate'),
                  keep_if-ext _ (λ i. not (reported_again evaluate' i)) todo
                      (λ n j at. ap not (reported_again-after up evaluate' n j at)),
                )
                refl,
      )
