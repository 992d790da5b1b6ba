-- ===== src/Cleaning.antt =====
-- scripts/data/clean_failed_runs.py: failed runs are deleted with their predictions, so that the next
-- evaluation takes them again. The directory is the state of Evaluation; `listing` holds the names of
-- its subdirectories in order, and `files` says which trajectories parse and which directories
-- `shutil.rmtree` deletes.
pub mod Retries
pub mod Dry
use tts_tokens_that_suffice.Prelude.{
  ℕ, suc, ◌+◌, Bool, true, false, not, ◌&&◌, ◌||◌, Option, none, some, List, [], ◌∷◌, if◌then◌else◌,
  any, Text, text_eq, lookup, remove,
}
use tts_tokens_that_suffice.Evaluation.{Disk, Prediction, Saved}

pub record Files : Type 0 where
  pub parses : Text → Bool
  pub deletes : Text → Bool

unfoldable pub exit_status_of : Files → Text → Saved → Option Text
exit_status_of files iid traj = if files.parses iid then traj.exit_status else none

-- `status in statuses`
unfoldable pub is_listed : List Text → Option Text → Bool
unfolding text_eq
is_listed statuses none = false
is_listed statuses (some t) = any (λ x. text_eq x t) statuses

-- The tests on a subdirectory: it holds a trajectory, with a status to remove.
unfoldable pub failed : Files → List Text → List (Text × Saved) → Text → Bool
unfolding exit_status_of is_listed lookup
failed files statuses trajs iid = elim (lookup iid trajs) [
  | none ↦ false
  | some t ↦ is_listed statuses (exit_status_of files iid t)
]

-- The variables of the loop and the trajectories on disk.
pub record CleanState : Type 0 where
  pub trajs : List (Text × Saved)
  pub preds : List (Text × Prediction)
  pub removed : ℕ
  pub changed : Bool

-- `if iid in preds: ...`
unfoldable pub in_preds : Text → List (Text × Prediction) → Bool
unfolding lookup
in_preds iid preds = elim (lookup iid preds) [ none ↦ false | some p ↦ true ]

-- A run that is removed.
unfoldable pub clean_run : Files → Bool → Text → CleanState → CleanState
unfolding in_preds remove
clean_run files true iid s = record {
  trajs = s.trajs;
  preds = s.preds;
  removed = suc s.removed;
  changed = s.changed;
}
clean_run files false iid s =
    let found = in_preds iid s.preds in
    record {
      trajs = if files.deletes iid then remove iid s.trajs else s.trajs;
      preds = if found then remove iid s.preds else s.preds;
      removed = suc s.removed;
      changed = s.changed || found;
    }

-- A turn of the loop over the subdirectories.
unfoldable pub clean_one : Files → List Text → Bool → Text → CleanState → CleanState
unfolding failed clean_run
clean_one files statuses dry_run iid s =
    if failed files statuses s.trajs iid then clean_run files dry_run iid s else s

unfoldable pub clean_from : Files → List Text → Bool → List Text → CleanState → CleanState
unfolding clean_one
clean_from files statuses dry_run [] s = s
clean_from files statuses dry_run (iid ∷ listing) s =
    clean_from files statuses dry_run listing (clean_one files statuses dry_run iid s)

-- `clean_dir` once the predictions file was looked for and read.
unfoldable pub clean_read :
    Files
    → List Text
    → Bool
    → List Text
    → List (Text × Saved)
    → Option (List (Text × Prediction))
    → ℕ × Disk
unfolding clean_from
clean_read files statuses dry_run listing trajs none = (0, record { preds = none; trajs = trajs })
clean_read files statuses dry_run listing trajs (some p) =
    let s =
      clean_from files statuses dry_run listing
        (record { trajs = trajs; preds = p; removed = 0; changed = false }) in
    (
      s.removed,
      record { preds = some (if s.changed && not dry_run then s.preds else p); trajs = s.trajs },
    )

unfoldable pub clean_dir : Files → List Text → Bool → List Text → Disk → ℕ × Disk
unfolding clean_read
clean_dir files statuses dry_run listing d =
    clean_read files statuses dry_run listing d.trajs d.preds

-- One output directory of the command line.
pub record OutputDir : Type 0 where
  pub listing : List Text
  pub disk : Disk

-- The total that `main` prints, and what it leaves.
unfoldable pub clean_all : Files → List Text → Bool → List OutputDir → ℕ × List OutputDir
unfolding clean_dir
clean_all files statuses dry_run [] = (0, [])
clean_all files statuses dry_run (o ∷ dirs) =
    let r = clean_dir files statuses dry_run o.listing o.disk in
    let rest = clean_all files statuses dry_run dirs in
    (r.0 + rest.0, record { listing = o.listing; disk = r.1 } ∷ rest.1)
