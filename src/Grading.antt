-- ===== src/Grading.antt =====
-- scripts/eval/grade_preds.py: the predictions of an evaluation are graded apart from it, and the
-- grades are written into the saved trajectories, of which only the grade is kept here; that of a file
-- that does not parse is `none`.
pub mod Updates
pub mod Again
use tts_tokens_that_suffice.Prelude.{
  ℕ, Bool, true, false, not, ◌&&◌, Option, none, some, List, [], ◌∷◌, ◌++◌, if◌then◌else◌, keep_if,
  length, Text, lookup, insert, Error, Result, err, ok, ◌>>=◌, value_error,
}

-- summarizer.resolved, and whether summarizer.evaluation has an `eval_error` that is a text.
pub record Grade : Type 0 where
  pub resolved : Option Bool
  pub is_error : Bool

-- What `evaluate_trajectory` returns: a text as `eval_error` where no container started.
pub record Evaluated : Type 0 where
  pub resolved : Bool
  pub is_error : Bool

-- The result of `_grade_one`; an exception becomes an `eval_error`.
unfoldable pub grade_one : Result Evaluated → Evaluated
grade_one (ok ev) = ev
grade_one (err e) = record { resolved = false; is_error = true }

-- A grade that counts: `resolved` is known, and the grading did not fail.
unfoldable pub score_of : Grade → Option Bool
score_of g = elim g.resolved [ none ↦ none | some r ↦ if g.is_error then none else some r ]

unfoldable pub cached_grade : List (Text × Option Grade) → Text → Option Bool
unfolding score_of lookup
cached_grade trajs iid = elim (lookup iid trajs) [
  | none ↦ none
  | some none ↦ none
  | some (some g) ↦ score_of g
]

unfoldable pub grade_of : Evaluated → Grade
grade_of ev = record { resolved = some ev.resolved; is_error = ev.is_error }

-- `_update_traj`, once the trajectory was looked for: an instance without one is left alone, and one
-- that does not parse raises.
unfoldable pub update_found :
    Text
    → Evaluated
    → List (Text × Option Grade)
    → Option (Option Grade)
    → Result (List (Text × Option Grade))
unfolding insert grade_of
update_found iid ev trajs none = ok trajs
update_found iid ev trajs (some none) = err value_error
update_found iid ev trajs (some (some g)) = ok (insert iid (some (grade_of ev)) trajs)

unfoldable pub update_traj :
    Text → Evaluated → List (Text × Option Grade) → Result (List (Text × Option Grade))
unfolding update_found lookup
update_traj iid ev trajs = update_found iid ev trajs (lookup iid trajs)

-- The loop over the instances that are graded, in the order in which they end.
unfoldable pub grade_all :
    (Text → Result Evaluated)
    → List Text
    → List (Text × Option Grade)
    → Result (List (Text × Option Grade))
unfolding grade_one update_traj
grade_all evaluate [] trajs = ok trajs
grade_all evaluate (iid ∷ todo) trajs =
    update_traj iid (grade_one (evaluate iid)) trajs >>= λ updated. grade_all evaluate todo updated

abbrev pub is_unscored : Option Bool → Bool
is_unscored none = true
is_unscored (some r) = false

-- The instances that are left to grade with --skip-graded.
unfoldable pub left_to_grade : List Text → List (Text × Option Grade) → List Text
unfolding cached_grade
left_to_grade todo trajs = keep_if (λ i. is_unscored (cached_grade trajs i)) todo

-- What the report says of an instance: the cached score, or the new one.
unfoldable pub reported : (Text → Result Evaluated) → List (Text × Option Grade) → Text → Bool
unfolding cached_grade grade_one
reported evaluate trajs iid = elim (cached_grade trajs iid) [
  | none ↦ (grade_one (evaluate iid)).resolved
  | some r ↦ r
]

pub record Report : Type 0 where
  pub n : ℕ
  pub resolved : List Text
  pub unresolved : List Text

-- The report of a run with --skip-graded; the lists are sorted in the source.
unfoldable pub report_of :
    (Text → Result Evaluated) → List Text → List (Text × Option Grade) → Report
unfolding reported
report_of evaluate todo trajs = record {
  n = length todo;
  resolved = keep_if (reported evaluate trajs) todo;
  unresolved = keep_if (λ i. not (reported evaluate trajs i)) todo;
}

-- A run with --skip-graded: its report, and the trajectories that it leaves.
unfoldable pub grade_preds :
    (Text → Result Evaluated)
    → List Text
    → List (Text × Option Grade)
    → Result (Report × List (Text × Option Grade))
unfolding report_of grade_all left_to_grade
grade_preds evaluate todo trajs = grade_all evaluate (left_to_grade todo trajs) trajs >>= λ after.
    ok (report_of evaluate todo trajs, after)
