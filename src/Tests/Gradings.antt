-- ===== src/Tests/Gradings.antt =====
-- The grading of four predictions: one has a score, one none, one failed to be graded, and the last
-- has no trajectory.
use tts_tokens_that_suffice.Prelude.{
  ◌≡◌, Bool, refl, inl, inr, true, false, not, Option, none, some, List, [], ◌∷◌, if◌then◌else◌,
  Bool-cases, any, keep_if, Text, codes, text_eq, lookup, Result, value_error, err, ok,
}
use tts_tokens_that_suffice.Grading.{
  Grade, Evaluated, grade_preds, report_of, left_to_grade, cached_grade, grade_one, reported,
  score_of,
}
use tts_tokens_that_suffice.Grading.Updates.{Store, is_broken, Parses}
use tts_tokens_that_suffice.Grading.Again.{left_again, reported_again, grade_preds-again}

abbrev with_score : Bool → Grade
with_score r = record { resolved = some r; is_error = false }

abbrev saved_grades : Store
saved_grades =
    (codes "a", some (with_score false))
    ∷ (codes "b", some (record { resolved = none; is_error = false }))
    ∷ (codes "c", some (record { resolved = some false; is_error = true }))
    ∷ []

abbrev with_predictions : List Text
with_predictions = codes "a" ∷ codes "b" ∷ codes "c" ∷ codes "d" ∷ []

-- "c" fails again, and the others are resolved.
abbrev grader : Text → Result Evaluated
grader i =
    if text_eq i (codes "c")
    then err value_error
    else ok (record { resolved = true; is_error = false })

graded_run :
    grade_preds grader with_predictions saved_grades
    ≡ ok (
      record {
        n = 4;
        resolved = codes "b" ∷ codes "d" ∷ [];
        unresolved = codes "a" ∷ codes "c" ∷ [];
      },
      (codes "a", some (with_score false))
          ∷ (codes "b", some (with_score true))
          ∷ (codes "c", some (record { resolved = some false; is_error = true }))
          ∷ [],
    )
unfolding grade_preds
graded_run = refl

none_broken : (trajs : Store) → any (λ e. is_broken (some e.1)) trajs ≡ false → Parses trajs
unfolding lookup
none_broken [] h j = refl
none_broken ((i, none) ∷ trajs) h j = cc
none_broken ((i, some g) ∷ trajs) h j = elim (Bool-cases (text_eq i j)) [
  | inl e ↦ rw e refl
  | inr e ↦ rw e (none_broken trajs h j)
]

-- "c" is graded now.
abbrev second_grader : Text → Result Evaluated
second_grader i = ok (record { resolved = true; is_error = false })

grade_preds-again_example :
    (after : List (Text × Option Grade)) × (last : List (Text × Option Grade)) × (grade_preds grader
        with_predictions saved_grades
      ≡ ok (report_of grader with_predictions saved_grades, after))
    × (left_to_grade with_predictions after
        ≡ keep_if (left_again grader with_predictions saved_grades) with_predictions)
    × (grade_preds second_grader with_predictions after
        ≡ ok (
          record {
            n = 4;
            resolved =
                keep_if
                  (reported_again grader with_predictions saved_grades second_grader)
                  with_predictions;
            unresolved =
                keep_if
                  (λ i. not (reported_again grader with_predictions saved_grades second_grader i))
                  with_predictions;
          },
          last,
        ))
grade_preds-again_example =
    grade_preds-again grader with_predictions saved_grades second_grader
      (none_broken saved_grades refl)

second_report :
    keep_if (reported_again grader with_predictions saved_grades second_grader) with_predictions
    ≡ codes "b" ∷ codes "c" ∷ codes "d" ∷ []
unfolding reported cached_grade score_of grade_one
second_report = refl
