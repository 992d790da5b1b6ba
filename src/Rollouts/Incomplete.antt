-- ===== src/Rollouts/Incomplete.antt =====
-- `get_steps_incomplete_before` of src/tts/utils/trajectory.py: the scan of a directory for steps with
-- fewer runs in front of the action than are wanted.
use tts_tokens_that_suffice.Prelude.{
  ℕ, Option, Bool, none, some, List, [], ◌∷◌, ltb, ◌==◌, if◌then◌else◌, length, Text, codes, lookup,
  insert,
}
use tts_tokens_that_suffice.Rollouts.Missing.{note_step, has_step, add_step, steps_at}
use tts_tokens_that_suffice.Rollouts.Files.{
  read_step, after_file, after_literal, before_file, ends_run,
}

-- `d.get(n)`, of a dictionary with numbers as keys
unfoldable pub at_number {ℓ} : {V : Type ℓ} → ℕ → List (ℕ × V) → Option V
at_number n [] = none
at_number n ((m, v) ∷ d) = let rest = at_number n d in if m == n then some v else rest

-- `d[n] = v`
unfoldable pub put_number {ℓ} : {V : Type ℓ} → ℕ → V → List (ℕ × V) → List (ℕ × V)
put_number n v [] = (n, v) ∷ []
put_number n v ((m, w) ∷ d) =
    let rest = put_number n v d in if m == n then (m, v) ∷ d else (m, w) ∷ rest

-- `d.get(base_uid, {})`
unfoldable pub inner_at {ℓ} : {V : Type ℓ} → Text → List (Text × List (ℕ × V)) → List (ℕ × V)
unfolding lookup
inner_at base_uid d = elim (lookup base_uid d) [ none ↦ [] | some inner ↦ inner ]

unfoldable pub entry_at {ℓ} : {V : Type ℓ} → Text → ℕ → List (Text × List (ℕ × V)) → Option V
unfolding inner_at at_number
entry_at base_uid step d = at_number step (inner_at base_uid d)

-- `d.setdefault(base_uid, {})[step] = v`
unfoldable pub put_entry {ℓ} :
    {V : Type ℓ} → Text → ℕ → V → List (Text × List (ℕ × V)) → List (Text × List (ℕ × V))
unfolding inner_at put_number insert
put_entry base_uid step v d = insert base_uid (put_number step v (inner_at base_uid d)) d

abbrev pub RunsOf : Type 0
RunsOf = List (Text × List (ℕ × List ℕ))

-- `d.get(base_uid, {}).get(step, set())`
unfoldable pub ks_at : Text → ℕ → RunsOf → List ℕ
unfolding entry_at
ks_at base_uid step d = elim (entry_at base_uid step d) [ none ↦ [] | some ks ↦ ks ]

pub record Tally : Type 0 where
  pub after_steps : List (Text × List ℕ)
  pub before_ks : RunsOf
  pub before_init_steps : List (Text × List ℕ)

-- A turn of the loop over the files, for what the three patterns read.
unfoldable pub note_reads :
    Option (Text × (ℕ × ℕ)) → Option (Text × (ℕ × ℕ)) → Option (Text × ℕ) → Tally → Tally
unfolding note_step put_entry ks_at add_step
note_reads (some r) p q s = record s { after_steps = note_step (r.0) (r.1.0) s.after_steps }
note_reads none (some r) q s = record s {
  before_ks =
      put_entry (r.0) (r.1.0) (add_step (r.1.1) (ks_at (r.0) (r.1.0) s.before_ks)) s.before_ks;
}
note_reads none none (some r) s = record s {
  before_init_steps = note_step (r.0) (r.1) s.before_init_steps;
}
note_reads none none none s = s

pub record Incomplete : Type 0 where
  pub existing_ks : List ℕ
  pub has_before_init : Bool

unfoldable pub incomplete_at : Tally → Text → ℕ → Incomplete
unfolding ks_at has_step steps_at
incomplete_at s base_uid step = record {
  existing_ks = ks_at base_uid step s.before_ks;
  has_before_init = has_step step (steps_at base_uid s.before_init_steps);
}

-- The loop over the steps of a base uid, with the result so far.
unfoldable pub incomplete_steps :
    ℕ
    → Tally
    → Text
    → List ℕ
    → List (Text × List (ℕ × Incomplete))
    → List (Text × List (ℕ × Incomplete))
unfolding incomplete_at put_entry
incomplete_steps n_rollouts s base_uid [] result = result
incomplete_steps n_rollouts s base_uid (step ∷ steps) result =
    let entry = incomplete_at s base_uid step in
    incomplete_steps n_rollouts s base_uid steps (
      if ltb (length entry.existing_ks) n_rollouts
      then put_entry base_uid step entry result
      else result)

-- The loop over the base uids.
unfoldable pub incomplete_from :
    ℕ
    → Tally
    → List (Text × List ℕ)
    → List (Text × List (ℕ × Incomplete))
    → List (Text × List (ℕ × Incomplete))
unfolding incomplete_steps
incomplete_from n_rollouts s [] result = result
incomplete_from n_rollouts s ((base_uid, steps) ∷ rest) result =
    incomplete_from n_rollouts s rest (incomplete_steps n_rollouts s base_uid steps result)

module _ (beyond : ℕ → Option ℕ) where
  -- `:before_init(?::\d+)?\.json$`, behind the step
  unfoldable pub before_init_file : Text → Option (Text × ℕ)
  unfolding read_step after_literal ends_run
  before_init_file name = elim (read_step beyond name) [
    | none ↦ none
    | some r ↦ elim (after_literal (codes ":before_init") (r.1.1)) [
      | none ↦ none
      | some rest ↦ if ends_run beyond rest then some (r.0, r.1.0) else none
    ]
  ]

  unfoldable pub tally_files : List Text → Tally → Tally
  unfolding note_reads before_init_file
  tally_files [] s = s
  tally_files (f ∷ files) s =
      tally_files files
        (note_reads (after_file beyond f) (before_file beyond f) (before_init_file f) s)

  unfoldable pub get_steps_incomplete_before : ℕ → List Text → List (Text × List (ℕ × Incomplete))
  unfolding tally_files incomplete_from
  get_steps_incomplete_before n_rollouts files =
      let s =
        tally_files files (record { after_steps = []; before_ks = []; before_init_steps = [] }) in
      incomplete_from n_rollouts s s.after_steps []
