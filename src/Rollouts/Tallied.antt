-- ===== src/Rollouts/Tallied.antt =====
-- What the first loop of `get_steps_incomplete_before` of src/tts/utils/trajectory.py collects, in terms
-- of the files alone.
use tts_tokens_that_suffice.Prelude.{
  ℕ, Option, ◌≡◌, refl, ◌⊎◌, inl, inr, Bool, false, ◌&&◌, ◌||◌, none, some, List, [], ◌∷◌, arith,
  ◌==◌, if◌then◌else◌, ==_iff, Bool-cases, Text, text_eq, lookup-insert, IsDict, insert-IsDict, ap,
  ap₂, ◌∙◌, text_eq_iff, insert, any,
}
use tts_tokens_that_suffice.Rollouts.Incomplete.{
  at_number, entry_at, ks_at, note_reads, put_number, put_entry, Tally, inner_at, RunsOf,
  before_init_file, tally_files,
}
use tts_tokens_that_suffice.Rollouts.Missing.{
  add_step, note_step, has_step, steps_at, names, is_after,
}
use tts_tokens_that_suffice.Rollouts.Scanned.{has_step-note_step}
use tts_tokens_that_suffice.Rollouts.Files.{before_file, after_file, after_file-before_file}
use tts_tokens_that_suffice.Rollouts.InitFiles.{before_init_file-run_files}

at_number-put_number {ℓ} :
    {V : Type ℓ} (n m : ℕ) (v : V) (d : List (ℕ × V))
    → at_number n (put_number m v d) ≡ (if m == n then some v else at_number n d)
unfolding at_number put_number
at_number-put_number n m v [] = refl
at_number-put_number n m v ((i, w) ∷ d) =
    ground (arith, ==_iff m n, ==_iff i m, ==_iff i n, at_number-put_number n m v d)

inner_at-insert {ℓ} :
    {V : Type ℓ} (b c : Text) (v : List (ℕ × V)) (d : List (Text × List (ℕ × V)))
    → inner_at b (insert c v d) ≡ (if text_eq c b then v else inner_at b d)
unfolding inner_at
inner_at-insert b c v d = elim (Bool-cases (text_eq c b)) [
  | inl e ↦ ground (arith, e, lookup-insert c b v d)
  | inr e ↦ ground (arith, e, lookup-insert c b v d)
]

pub entry_at-put_entry {ℓ} :
    {V : Type ℓ} (b c : Text) (n m : ℕ) (v : V) (d : List (Text × List (ℕ × V)))
    → entry_at b n (put_entry c m v d)
      ≡ (if text_eq c b && (m == n) then some v else entry_at b n d)
unfolding entry_at put_entry
entry_at-put_entry b c n m v d =
    ap (at_number n) (inner_at-insert b c (put_number m v (inner_at c d)) d)
    ∙ elim (Bool-cases (text_eq c b)) [
      | inl e ↦
          let same : c ≡ b = (text_eq_iff c b).0 e in
          rw e (
            at_number-put_number n m v (inner_at c d)
            ∙ ap (λ x. if m == n then some v else at_number n (inner_at x d)) same)
      | inr e ↦ rw e refl
    ]

-- The runs in front of a step, each once, in the order in which the files name them.
abbrev pub run_noted : Option (Text × (ℕ × ℕ)) → Text → ℕ → List ℕ → List ℕ
run_noted none base_uid step ks = ks
run_noted (some r) base_uid step ks =
    if text_eq (r.0) base_uid && (r.1.0 == step) then add_step (r.1.1) ks else ks

abbrev pub init_names : Option (Text × ℕ) → Text → ℕ → Bool
init_names none base_uid step = false
init_names (some r) base_uid step = text_eq (r.0) base_uid && (r.1 == step)

ks_at-put_entry :
    (b c : Text) (n m k : ℕ) (d : RunsOf)
    → ks_at b n (put_entry c m (add_step k (ks_at c m d)) d)
      ≡ run_noted (some (c, (m, k))) b n (ks_at b n d)
unfolding ks_at
ks_at-put_entry b c n m k d =
    let ks = add_step k (ks_at c m d) in
    ap (λ o. elim o [ none ↦ [] | some found ↦ found ]) (entry_at-put_entry b c n m ks d)
    ∙ elim (Bool-cases (text_eq c b && (m == n))) [
      | inl e ↦
          let is_base : c ≡ b = (text_eq_iff c b).0 (ground (arith, e)) in
          let is_step : m ≡ n = (==_iff m n).0 (ground (arith, e)) in
          rw e (ap₂ (λ x y. add_step k (ks_at x y d)) is_base is_step)
      | inr e ↦ rw e refl
    ]

note_reads-after :
    (b : Text) (n : ℕ) (p q : Option (Text × (ℕ × ℕ))) (i : Option (Text × ℕ)) (s : Tally)
    → has_step n (steps_at b (note_reads p q i s).after_steps)
      ≡ (has_step n (steps_at b s.after_steps) || names p b n)
unfolding note_reads
note_reads-after b n (some r) q i s = has_step-note_step b (r.0) n (r.1.0) s.after_steps
note_reads-after b n none (some r) i s = ground arith
note_reads-after b n none none (some r) s = ground arith
note_reads-after b n none none none s = ground arith

note_reads-IsDict :
    (p q : Option (Text × (ℕ × ℕ))) (i : Option (Text × ℕ)) (s : Tally)
    → IsDict s.after_steps
    → IsDict (note_reads p q i s).after_steps
unfolding note_reads note_step
note_reads-IsDict (some r) q i s h =
    insert-IsDict (r.0) (add_step (r.1.0) (steps_at (r.0) s.after_steps)) s.after_steps h
note_reads-IsDict none (some r) i s h = h
note_reads-IsDict none none (some r) s h = h
note_reads-IsDict none none none s h = h

note_reads-before :
    (b : Text) (n : ℕ) (p q : Option (Text × (ℕ × ℕ))) (i : Option (Text × ℕ)) (s : Tally)
    → (p ≡ none) ⊎ (q ≡ none)
    → ks_at b n (note_reads p q i s).before_ks ≡ run_noted q b n (ks_at b n s.before_ks)
unfolding note_reads
note_reads-before b n none (some r) i s h = ks_at-put_entry b (r.0) n (r.1.0) (r.1.1) s.before_ks
note_reads-before b n none none none s h = refl
note_reads-before b n none none (some r) s h = refl
note_reads-before b n (some r) none i s h = refl
note_reads-before b n (some r) (some q) i s (inl h) = cc
note_reads-before b n (some r) (some q) i s (inr h) = cc

note_reads-init :
    (b : Text) (n : ℕ) (p q : Option (Text × (ℕ × ℕ))) (i : Option (Text × ℕ)) (s : Tally)
    → (i ≡ none) ⊎ ((p ≡ none) × (q ≡ none))
    → has_step n (steps_at b (note_reads p q i s).before_init_steps)
      ≡ (has_step n (steps_at b s.before_init_steps) || init_names i b n)
unfolding note_reads
note_reads-init b n none none (some r) s h = has_step-note_step b (r.0) n (r.1) s.before_init_steps
note_reads-init b n none none none s h = ground arith
note_reads-init b n none (some q) none s h = ground arith
note_reads-init b n (some p) q none s h = ground arith
note_reads-init b n none (some q) (some r) s h = ground arith
note_reads-init b n (some p) q (some r) s h = ground arith

module _ (beyond : ℕ → Option ℕ) where
  abbrev pub is_before_init : Text → ℕ → Text → Bool
  is_before_init base_uid step f = init_names (before_init_file beyond f) base_uid step

  -- The numbers of the runs in front of a step that the files name, each once.
  unfoldable pub runs_from : Text → ℕ → List Text → List ℕ → List ℕ
  runs_from base_uid step [] ks = ks
  runs_from base_uid step (f ∷ files) ks =
      runs_from base_uid step files (run_noted (before_file beyond f) base_uid step ks)

  pub tally_files-after :
      (b : Text) (n : ℕ) (files : List Text) (s : Tally)
      → has_step n (steps_at b (tally_files beyond files s).after_steps)
        ≡ (has_step n (steps_at b s.after_steps) || any (is_after beyond b n) files)
  unfolding tally_files
  tally_files-after b n [] s = ground arith
  tally_files-after b n (f ∷ files) s =
      let read =
        note_reads (after_file beyond f) (before_file beyond f) (before_init_file beyond f) s in
      ground (
        arith,
        tally_files-after b n files read,
        note_reads-after b n (after_file beyond f) (before_file beyond f)
            (before_init_file beyond f) s,
      )

  pub tally_files-before :
      (b : Text) (n : ℕ) (files : List Text) (s : Tally)
      → ks_at b n (tally_files beyond files s).before_ks
        ≡ runs_from b n files (ks_at b n s.before_ks)
  unfolding tally_files runs_from
  tally_files-before b n [] s = refl
  tally_files-before b n (f ∷ files) s =
      let read =
        note_reads (after_file beyond f) (before_file beyond f) (before_init_file beyond f) s in
      tally_files-before b n files read
      ∙ ap (runs_from b n files) (
          note_reads-before b n (after_file beyond f) (before_file beyond f)
            (before_init_file beyond f) s (after_file-before_file beyond f))

  pub tally_files-init :
      (b : Text) (n : ℕ) (files : List Text) (s : Tally)
      → has_step n (steps_at b (tally_files beyond files s).before_init_steps)
        ≡ (has_step n (steps_at b s.before_init_steps) || any (is_before_init b n) files)
  unfolding tally_files
  tally_files-init b n [] s = ground arith
  tally_files-init b n (f ∷ files) s =
      let read =
        note_reads (after_file beyond f) (before_file beyond f) (before_init_file beyond f) s in
      ground (
        arith,
        tally_files-init b n files read,
        note_reads-init b n (after_file beyond f) (before_file beyond f) (before_init_file beyond f)
            s (before_init_file-run_files beyond f),
      )

  pub tally_files-IsDict :
      (files : List Text) (s : Tally)
      → IsDict s.after_steps
      → IsDict (tally_files beyond files s).after_steps
  unfolding tally_files
  tally_files-IsDict [] s h = h
  tally_files-IsDict (f ∷ files) s h = tally_files-IsDict files _ (
      note_reads-IsDict (after_file beyond f) (before_file beyond f) (before_init_file beyond f) s
        h)
