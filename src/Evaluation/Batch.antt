-- ===== src/Evaluation/Batch.antt =====
-- The runs of a batch, of `main` of src/tts/eval_swebench.py, and the predictions that they leave.
use tts_tokens_that_suffice.Prelude.{
  ℕ, ◌≡◌, Bool, true, false, Option, none, some, List, [], ◌∷◌, if◌then◌else◌, keep_if, Text,
  text_eq, lookup, Result, err, ok, refl, subst, inl, inr, Bool-cases, text_eq_iff, lookup-insert,
  lookup-remove, arith, ap, ◌∙◌, insert, zero, suc, get_elem?, any, sym,
}
use tts_tokens_that_suffice.Evaluation.{
  Calls, Disk, RunSettings, Prediction, process_instance, built, cleared, remove_from_preds_file,
  update_preds_file, with_prediction, handled, Finished, run_agent, or_blank_text, graded,
  attempted, concluded, with_saved, started, prepared, worked, saved_of,
}
use tts_tokens_that_suffice.Agent.State.{Agent}

abbrev pub is_missing : Option Prediction → Bool
is_missing none = true
is_missing (some p) = false

-- The instances that are not in the predictions file; with `redo_existing`, all of them.
unfoldable pub pending : Bool → List Text → Option (List (Text × Prediction)) → List Text
unfolding lookup
pending redo_existing ids none = ids
pending redo_existing ids (some d) =
    if redo_existing then ids else keep_if (λ i. is_missing (lookup i d)) ids

-- The workers take the instances in some order; the updates of the predictions file are locked.
unfoldable pub run_batch : RunSettings → (Text → Calls) → List Text → Disk → Disk
unfolding process_instance
run_batch cfg calls [] d = d
run_batch cfg calls (i ∷ ids) d = run_batch cfg calls ids (process_instance cfg (calls i) i d).1

-- The entries of the file; a missing file has none.
abbrev pub entries : Option (List (Text × Prediction)) → List (Text × Prediction)
entries none = []
entries (some m) = m

-- The patch of a run: what the agent submitted, if it returned, and the grader did where it is asked.
abbrev pub patch_of : RunSettings → Calls → Result (Option Text × Option Text) → Text
patch_of cfg c (err e) = []
patch_of cfg c (ok (status, none)) = []
patch_of cfg c (ok (status, some t)) =
    if cfg.grade then elim (c.evaluate t) [ err e ↦ [] | ok b ↦ t ] else t

abbrev saved_patch : Result (Unit {0}) → Text → Option Text
saved_patch (err e) t = none
saved_patch (ok u) t = some t

abbrev built_patch : RunSettings → Calls → Text → Result (Unit {0}) → Option Text
built_patch cfg c task (err e) = some []
built_patch cfg c task (ok u) = saved_patch c.save (patch_of cfg c (c.run task).0)

-- What a run leaves: no prediction where the model cannot be made, the task is missing or the
-- trajectory cannot be saved, and an empty patch where the container cannot be built.
abbrev pub delivered : RunSettings → Calls → Result Text → Option Text
delivered cfg c (err e) = none
delivered cfg c (ok task) = built_patch cfg c task (built cfg c)

abbrev pub entry_of : RunSettings → Text → Option Text → Option Prediction
entry_of cfg i none = none
entry_of cfg i (some t) =
    some (record { model_name_or_path = cfg.run_name; instance_id = i; model_patch = t })

-- The predictions for the other instances stay.
abbrev Leaves : Text → Option Prediction → Disk → Disk → Type 0
Leaves i entry d d' =
    (j : Text)
    → lookup j (entries d'.preds) ≡ (if text_eq i j then entry else lookup j (entries d.preds))

entries-remove :
    (i j : Text) (o : Option (List (Text × Prediction)))
    → lookup j (entries (remove_from_preds_file i o))
      ≡ (if text_eq i j then none else lookup j (entries o))
unfolding remove_from_preds_file
entries-remove i j none = lookup-remove i j []
entries-remove i j (some m) = lookup-remove i j m

cleared-Leaves : (i : Text) (d : Disk) → Leaves i none d (cleared i d)
unfolding cleared
cleared-Leaves i d j = entries-remove i j d.preds

lookup-update_preds_file :
    (i j name patch : Text) (o : Option (List (Text × Prediction)))
    → lookup j (update_preds_file i name patch o) ≡ (
        if text_eq i j
        then some (record { model_name_or_path = name; instance_id = i; model_patch = patch })
        else lookup j (entries o))
unfolding update_preds_file
lookup-update_preds_file i j name patch none = lookup-insert i j _ []
lookup-update_preds_file i j name patch (some m) = lookup-insert i j _ m

module _ (cfg : RunSettings) (c : Calls) (i : Text) where
  with_prediction-Leaves :
      (f : Finished) (d : Disk)
      → Leaves i (entry_of cfg i (some (or_blank_text f.result))) d (with_prediction cfg i f d)
  unfolding with_prediction
  with_prediction-Leaves f d j =
      lookup-update_preds_file i j cfg.run_name (or_blank_text f.result) d.preds

  -- The patch behind the `except`.
  result_of :
      (r : Result (Option Text × Option Text))
      → or_blank_text (handled cfg (run_agent cfg c r)).0.result ≡ patch_of cfg c r
  unfolding handled run_agent or_blank_text graded
  result_of (err e) = refl
  result_of (ok (status, none)) = ground arith
  result_of (ok (status, some t)) = ground arith

  -- A missing entry stays missing.
  unchanged : (d : Disk) → lookup i (entries d.preds) ≡ none → Leaves i none d d
  unchanged d gone j = elim (Bool-cases (text_eq i j)) [
    | inl same ↦
        let e : i ≡ j = (text_eq_iff i j).0 same in
        rw same (subst (λ t. lookup t (entries d.preds) ≡ none) e gone)
    | inr other ↦ rw other
  ]

  with_saved-Leaves :
      (f : Finished × Option Text) (a : Agent) (d : Disk)
      → lookup i (entries d.preds) ≡ none
      → (o : Result (Unit {0}))
      → Leaves i
          (entry_of cfg i (saved_patch o (or_blank_text f.0.result)))
          d
          (with_saved cfg i f a d o).1
  unfolding with_saved
  with_saved-Leaves f a d gone (err e) = unchanged d gone
  with_saved-Leaves f a d gone (ok u) =
      with_prediction-Leaves f.0 (record d { trajs = insert i (saved_of f a) d.trajs })

  concluded-Leaves :
      (task : Text) (d : Disk)
      → lookup i (entries d.preds) ≡ none
      → (b : Result (Unit {0}))
      → let tried = attempted cfg c task b in
        Leaves i
          (entry_of cfg i (built_patch cfg c task b))
          d
          (concluded cfg c i (handled cfg tried.0) tried.1 d).1
  unfolding attempted concluded handled or_blank_text
  concluded-Leaves task d gone (err e) = with_prediction-Leaves (handled cfg (err e)).0 d
  concluded-Leaves task d gone (ok u) =
      let r = (c.run task).0 in
      subst
        (λ t.
          Leaves i (entry_of cfg i (saved_patch c.save t)) d
            (with_saved cfg i (handled cfg (run_agent cfg c r)) (c.run task).1 d c.save).1)
        (result_of r)
        (with_saved-Leaves (handled cfg (run_agent cfg c r)) (c.run task).1 d gone c.save)

  started-Leaves :
      (d : Disk)
      → lookup i (entries d.preds) ≡ none
      → (o : Result Text) → Leaves i (entry_of cfg i (delivered cfg c o)) d (started cfg c i o d).1
  unfolding started worked
  started-Leaves d gone (err e) = unchanged d gone
  started-Leaves d gone (ok task) = concluded-Leaves task d gone (built cfg c)

  process_instance-Leaves :
      (d : Disk)
      → Leaves i (entry_of cfg i (delivered cfg c (prepared c))) d (process_instance cfg c i d).1
  unfolding process_instance
  process_instance-Leaves d j =
      let gone : lookup i (entries (cleared i d).preds) ≡ none =
        cleared-Leaves i d i
        ∙ ap (λ b. if b then none else lookup i (entries d.preds)) ((text_eq_iff i i).1 refl) in
      started-Leaves (cleared i d) gone (prepared c) j ∙ elim (Bool-cases (text_eq i j)) [
        | inl same ↦ rw same
        | inr other ↦ rw other (entries-remove i j d.preds ∙ rw other)
      ]

abbrev pub due : RunSettings → (Text → Calls) → Text → Option Prediction
due cfg calls j = entry_of cfg j (delivered cfg (calls j) (prepared (calls j)))

lookup-run_batch :
    (cfg : RunSettings) (calls : Text → Calls) (ids : List Text) (d : Disk) (j : Text)
    → lookup j (entries (run_batch cfg calls ids d).preds)
      ≡ (if any (λ i. text_eq i j) ids then due cfg calls j else lookup j (entries d.preds))
unfolding run_batch
lookup-run_batch cfg calls [] d j = refl
lookup-run_batch cfg calls (i ∷ ids) d j =
    lookup-run_batch cfg calls ids (process_instance cfg (calls i) i d).1 j
    ∙ elim (Bool-cases (any (λ k. text_eq k j) ids)) [
      | inl later ↦ elim (Bool-cases (text_eq i j)) [
        | inl same ↦ rw (later, same)
        | inr other ↦ rw (later, other)
      ]
      | inr last ↦ rw last (
          process_instance-Leaves cfg (calls i) i d j ∙ elim (Bool-cases (text_eq i j)) [
            | inl same ↦ let e : i ≡ j = (text_eq_iff i j).0 same in rw same (rw e)
            | inr other ↦ rw other
          ])
    ]

pub keep_if-ext :
    (p q : Text → Bool) (xs : List Text)
    → ((n : ℕ) (x : Text) → get_elem? xs n ≡ some x → p x ≡ q x)
    → keep_if p xs ≡ keep_if q xs
keep_if-ext p q [] h = refl
keep_if-ext p q (x ∷ xs) h = rw (h 0 x refl, keep_if-ext p q xs (λ n. h (suc n)))

pub any-member :
    (xs : List Text) (n : ℕ) (x : Text) → get_elem? xs n ≡ some x → any (λ i. text_eq i x) xs ≡ true
any-member [] n x h = cc
any-member (y ∷ ys) zero x h = ground (arith, text_eq_iff y x)
any-member (y ∷ ys) (suc n) x h = ground (arith, any-member ys n x h)

keep_if_all : (ids : List Text) → keep_if (λ i. is_missing (lookup i [])) ids ≡ ids
unfolding lookup
keep_if_all [] = refl
keep_if_all (i ∷ ids) = ap (λ r. i ∷ r) (keep_if_all ids)

pub pending-entries :
    (ids : List Text) (o : Option (List (Text × Prediction)))
    → pending false ids o ≡ keep_if (λ i. is_missing (lookup i (entries o))) ids
unfolding pending
pending-entries ids none = sym (keep_if_all ids)
pending-entries ids (some m) = refl

-- After a batch, taken in any order, the predictions file holds for each instance of the batch what
-- its run leaves, and for any other what it held; and a batch that is resumed with the same
-- instances takes those whose run left no prediction.
pub run_batch-predictions :
    (cfg : RunSettings) (calls : Text → Calls) (ids : List Text) (d : Disk)
    → let after = (run_batch cfg calls ids d).preds in
      ((j : Text)
        → lookup j (entries after)
          ≡ (if any (λ i. text_eq i j) ids then due cfg calls j else lookup j (entries d.preds)))
      × (pending false ids after ≡ keep_if (λ i. is_missing (due cfg calls i)) ids)
run_batch-predictions cfg calls ids d = (
  lookup-run_batch cfg calls ids d,
  pending-entries ids (run_batch cfg calls ids d).preds
      ∙ keep_if-ext _ (λ i. is_missing (due cfg calls i)) ids
          (λ n x h. ap is_missing (
            lookup-run_batch cfg calls ids d x
            ∙ ap (λ b. if b then due cfg calls x else lookup x (entries d.preds))
                (any-member ids n x h))),
)
