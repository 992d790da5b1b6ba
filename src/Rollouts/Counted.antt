-- ===== src/Rollouts/Counted.antt =====
-- The answer of `get_steps_incomplete_before` of src/tts/utils/trajectory.py, in terms of the files alone.
use tts_tokens_that_suffice.Prelude.{
  ℕ, Option, ◌≡◌, refl, ap, subst, ◌∙◌, inl, inr, Bool, true, false, ◌&&◌, ◌||◌, none, some, List,
  [], ◌∷◌, arith, ltb, ◌==◌, if◌then◌else◌, ==_iff, Bool-cases, length, any, Text, text_eq,
  text_eq_iff, lookup, IsDict, sym, ap₂,
}
use tts_tokens_that_suffice.Rollouts.Missing.{has_step, steps_at, is_after}
use tts_tokens_that_suffice.Rollouts.Incomplete.{
  Tally, ks_at, Incomplete, put_entry, entry_at, incomplete_steps, incomplete_from, incomplete_at,
  get_steps_incomplete_before, tally_files,
}
use tts_tokens_that_suffice.Rollouts.Tallied.{
  entry_at-put_entry, runs_from, is_before_init, tally_files-IsDict, tally_files-after,
  tally_files-before, tally_files-init, run_noted,
}
use tts_tokens_that_suffice.Rollouts.Files.{before_file}
use tts_tokens_that_suffice.Rollouts.Scanned.{has_step-add_step}

-- Whether a dictionary has the step for the base uid.
abbrev in_dict : Text → ℕ → List (Text × List ℕ) → Bool
in_dict b n d = any (λ e. text_eq (e.0) b && has_step n (e.1)) d

in_dict-absent :
    (b : Text) (n : ℕ) (d : List (Text × List ℕ)) → lookup b d ≡ none → in_dict b n d ≡ false
unfolding lookup
in_dict-absent b n [] h = refl
in_dict-absent b n ((c, steps) ∷ d) h = elim (Bool-cases (text_eq c b)) [
  | inl e ↦ ground (arith, e, h)
  | inr e ↦ ground (arith, e, h, in_dict-absent b n d)
]

in_dict-steps_at :
    (b : Text) (n : ℕ) (d : List (Text × List ℕ))
    → IsDict d
    → in_dict b n d ≡ has_step n (steps_at b d)
unfolding IsDict steps_at lookup has_step
in_dict-steps_at b n [] h = refl
in_dict-steps_at b n ((c, steps) ∷ d) (absent, h) = elim (Bool-cases (text_eq c b)) [
  | inl e ↦
      let gone : lookup b d ≡ none =
        subst (λ x. lookup x d ≡ none) ((text_eq_iff c b).0 e) absent in
      rw (e, in_dict-absent b n d gone) (ground arith)
  | inr e ↦ ground (arith, e, in_dict-steps_at b n d h)
]

if-both {ℓ} :
    {V : Type ℓ} (p q r : Bool) (v o : V)
    → r ≡ (q || p)
    → (if p then v else (if q then v else o)) ≡ (if r then v else o)
if-both true true r v o h = rw h refl
if-both true false r v o h = rw h refl
if-both false true r v o h = rw h refl
if-both false false r v o h = rw h refl

module _ (n_rollouts : ℕ) (s : Tally) where
  abbrev is_few : Text → ℕ → Bool
  is_few b n = ltb (length (ks_at b n s.before_ks)) n_rollouts

  abbrev Found : Type 0
  Found = List (Text × List (ℕ × Incomplete))

  -- A turn of the loop over the steps.
  abbrev put_few : Text → ℕ → Found → Found
  put_few c m result = if is_few c m then put_entry c m (incomplete_at s c m) result else result

  module _ (b : Text) (n : ℕ) where
    abbrev answered : Bool → Found → Option Incomplete
    answered is_there result =
        if is_there && is_few b n then some (incomplete_at s b n) else entry_at b n result

    is_same : (text_eq b b && (n == n)) ≡ true
    is_same = ground (arith, text_eq_iff b b, ==_iff n n)

    entry_at-put_few_same :
        (result : Found) → entry_at b n (put_few b n result) ≡ answered true result
    entry_at-put_few_same result = elim (Bool-cases (is_few b n)) [
      | inl few ↦ rw few (entry_at-put_entry b b n n (incomplete_at s b n) result ∙ rw is_same refl)
      | inr many ↦ rw many refl
    ]

    entry_at-put_few :
        (c : Text) (m : ℕ) (result : Found)
        → entry_at b n (put_few c m result) ≡ answered (text_eq c b && (m == n)) result
    entry_at-put_few c m result = elim (Bool-cases (text_eq c b && (m == n))) [
      | inl e ↦
          let is_base : c ≡ b = (text_eq_iff c b).0 (ground (arith, e)) in
          let is_step : m ≡ n = (==_iff m n).0 (ground (arith, e)) in
          ap₂ (λ x y. entry_at b n (put_few x y result)) is_base is_step
          ∙ entry_at-put_few_same result
          ∙ sym (ap (λ t. answered t result) e)
      | inr e ↦ elim (Bool-cases (is_few c m)) [
        | inl few ↦
            rw (e, few) (entry_at-put_entry b c n m (incomplete_at s c m) result ∙ rw e refl)
        | inr many ↦ rw (e, many) refl
      ]
    ]

    entry_at-incomplete_steps :
        (c : Text) (steps : List ℕ) (result : Found)
        → entry_at b n (incomplete_steps n_rollouts s c steps result)
          ≡ answered (text_eq c b && has_step n steps) result
    unfolding incomplete_steps has_step incomplete_at
    entry_at-incomplete_steps c [] result = ground arith
    entry_at-incomplete_steps c (m ∷ steps) result =
        entry_at-incomplete_steps c steps (put_few c m result)
        ∙ ap
            (λ o.
              if (text_eq c b && has_step n steps) && is_few b n
              then some (incomplete_at s b n)
              else o)
            (entry_at-put_few c m result)
        ∙ if-both _ _ _ (some (incomplete_at s b n)) (entry_at b n result) (ground arith)

    entry_at-incomplete_from :
        (d : List (Text × List ℕ)) (result : Found)
        → entry_at b n (incomplete_from n_rollouts s d result) ≡ answered (in_dict b n d) result
    unfolding incomplete_from
    entry_at-incomplete_from [] result = refl
    entry_at-incomplete_from ((c, steps) ∷ d) result =
        entry_at-incomplete_from d (incomplete_steps n_rollouts s c steps result)
        ∙ ap (λ o. if in_dict b n d && is_few b n then some (incomplete_at s b n) else o)
            (entry_at-incomplete_steps c steps result)
        ∙ if-both _ _ _ (some (incomplete_at s b n)) (entry_at b n result) (ground arith)

-- The entry of a step that has runs behind it or not, for its runs in front.
abbrev entry_if : ℕ → Bool → List ℕ → Bool → Option Incomplete
entry_if n_rollouts is_there ks is_init =
    if is_there && ltb (length ks) n_rollouts
    then some (record { existing_ks = ks; has_before_init = is_init })
    else none

-- Whether what is read in a name is the run of a step with some number.
abbrev pub is_run : ℕ → Option (Text × (ℕ × ℕ)) → Text → ℕ → Bool
is_run k none base_uid step = false
is_run k (some r) base_uid step = (text_eq (r.0) base_uid && (r.1.0 == step)) && (r.1.1 == k)

has_step-run_noted :
    (k : ℕ) (q : Option (Text × (ℕ × ℕ))) (b : Text) (n : ℕ) (ks : List ℕ)
    → has_step k (run_noted q b n ks) ≡ (has_step k ks || is_run k q b n)
has_step-run_noted k none b n ks = ground arith
has_step-run_noted k (some r) b n ks = ground (arith, has_step-add_step k (r.1.1) ks)

has_step-runs_from :
    (beyond : ℕ → Option ℕ) (b : Text) (n k : ℕ) (files : List Text) (ks : List ℕ)
    → has_step k (runs_from beyond b n files ks)
      ≡ (has_step k ks || any (λ f. is_run k (before_file beyond f) b n) files)
unfolding runs_from
has_step-runs_from beyond b n k [] ks = ground arith
has_step-runs_from beyond b n k (f ∷ files) ks = ground (
  arith,
  has_step-runs_from beyond b n k files (run_noted (before_file beyond f) b n ks),
  has_step-run_noted k (before_file beyond f) b n ks,
)

-- The answer has an entry for a step of a base uid exactly when some name in the directory is that of a
-- run behind its action, and the names hold fewer than `n_rollouts` runs in front of it; the entry has
-- these runs, a number being one of them exactly when some name has it, and tells whether some name
-- is that of an initial one.
pub entry_at-get_steps_incomplete_before :
    (beyond : ℕ → Option ℕ) (n_rollouts : ℕ) (files : List Text) (base_uid : Text) (step : ℕ)
    → let ks = runs_from beyond base_uid step files [] in
      (entry_at base_uid step (get_steps_incomplete_before beyond n_rollouts files) ≡ (
        if any (is_after beyond base_uid step) files && ltb (length ks) n_rollouts
        then some (record {
          existing_ks = ks;
          has_before_init = any (is_before_init beyond base_uid step) files;
        })
        else none))
      × ((k : ℕ) → has_step k ks ≡ any (λ f. is_run k (before_file beyond f) base_uid step) files)
unfolding get_steps_incomplete_before IsDict incomplete_at entry_at has_step ks_at
entry_at-get_steps_incomplete_before beyond n_rollouts files b n =
    let empty : Tally = record { after_steps = []; before_ks = []; before_init_steps = [] } in
    let s = tally_files beyond files empty in
    (
      entry_at-incomplete_from n_rollouts s b n s.after_steps []
          ∙ ap
              (λ a.
                entry_if n_rollouts a (ks_at b n s.before_ks)
                  (has_step n (steps_at b s.before_init_steps)))
              (in_dict-steps_at b n s.after_steps (tally_files-IsDict beyond files empty tt)
                ∙ tally_files-after beyond b n files empty)
          ∙ ap₂ (entry_if n_rollouts (any (is_after beyond b n) files))
              (tally_files-before beyond b n files empty) (tally_files-init beyond b n files empty),
      λ k. has_step-runs_from beyond b n k files [],
    )
