-- ===== src/Rollouts/Missing.antt =====
-- `get_steps_missing_before` of src/tts/utils/trajectory.py: the scan of a directory for steps whose
-- action was continued, but never replaced. A set is a list of its elements.
use tts_tokens_that_suffice.Prelude.{
  ℕ, Bool, false, not, ◌&&◌, Option, none, some, List, [], ◌∷◌, ◌++◌, ◌==◌, Text, text_eq,
  if◌then◌else◌, keep_if, any, lookup, insert,
}
use tts_tokens_that_suffice.Rollouts.Files.{after_file, before_file}

-- `n in s`
unfoldable pub has_step : ℕ → List ℕ → Bool
has_step n s = any (λ m. m == n) s

-- `s.add(n)`
unfoldable pub add_step : ℕ → List ℕ → List ℕ
unfolding has_step
add_step n s = if has_step n s then s else s ++ n ∷ []

-- `d.get(base_uid, set())`
unfoldable pub steps_at : Text → List (Text × List ℕ) → List ℕ
steps_at base_uid d = elim (lookup base_uid d) [ none ↦ [] | some s ↦ s ]

-- `d[base_uid].add(step)`, of a `defaultdict(set)`
unfoldable pub note_step : Text → ℕ → List (Text × List ℕ) → List (Text × List ℕ)
unfolding add_step steps_at
note_step base_uid step d = insert base_uid (add_step step (steps_at base_uid d)) d

pub record Scan : Type 0 where
  pub after_steps : List (Text × List ℕ)
  pub before_steps : List (Text × List ℕ)

-- `steps - before_steps.get(base_uid, set())`
unfoldable pub missing_steps : List (Text × List ℕ) → Text → List ℕ → List ℕ
unfolding steps_at has_step
missing_steps before base_uid steps =
    keep_if (λ n. not (has_step n (steps_at base_uid before))) steps

-- `if missing: result[base_uid] = missing`
unfoldable pub put_missing : Text → List ℕ → List (Text × List ℕ) → List (Text × List ℕ)
put_missing base_uid [] result = result
put_missing base_uid (n ∷ missing) result = insert base_uid (n ∷ missing) result

-- The second loop, with the result so far.
unfoldable pub missing_from :
    List (Text × List ℕ) → List (Text × List ℕ) → List (Text × List ℕ) → List (Text × List ℕ)
unfolding missing_steps put_missing
missing_from before result [] = result
missing_from before result ((base_uid, steps) ∷ rest) =
    missing_from before (put_missing base_uid (missing_steps before base_uid steps) result) rest

-- What a turn of the first loop does with what the two patterns read in a name.
unfoldable pub note_read : Option (Text × (ℕ × ℕ)) → Option (Text × (ℕ × ℕ)) → Scan → Scan
unfolding note_step
note_read (some r) before s = record {
  after_steps = note_step (r.0) (r.1.0) s.after_steps;
  before_steps = s.before_steps;
}
note_read none (some r) s = record {
  after_steps = s.after_steps;
  before_steps = note_step (r.0) (r.1.0) s.before_steps;
}
note_read none none s = s

-- Whether a name is that of a run of a step.
abbrev pub names : Option (Text × (ℕ × ℕ)) → Text → ℕ → Bool
names none base_uid step = false
names (some r) base_uid step = text_eq (r.0) base_uid && (r.1.0 == step)

module _ (beyond : ℕ → Option ℕ) where
  -- A turn of the first loop.
  unfoldable pub note_file : Text → Scan → Scan
  unfolding note_read
  note_file f s = note_read (after_file beyond f) (before_file beyond f) s

  -- The first loop.
  unfoldable pub scan_files : List Text → Scan → Scan
  unfolding note_file
  scan_files [] s = s
  scan_files (f ∷ files) s = scan_files files (note_file f s)

  unfoldable pub get_steps_missing_before : List Text → List (Text × List ℕ)
  unfolding scan_files missing_from
  get_steps_missing_before files =
      let s = scan_files files (record { after_steps = []; before_steps = [] }) in
      missing_from s.before_steps [] s.after_steps

  abbrev pub is_after : Text → ℕ → Text → Bool
  is_after base_uid step f = names (after_file beyond f) base_uid step

  abbrev pub is_before : Text → ℕ → Text → Bool
  is_before base_uid step f = names (before_file beyond f) base_uid step
