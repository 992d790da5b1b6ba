-- ===== src/Cleaning/Retries.antt =====
-- What the cleaning of scripts/data/clean_failed_runs.py leaves for the next evaluation.
use tts_tokens_that_suffice.Prelude.{
  ◌≡◌, Bool, true, false, ◌&&◌, ◌||◌, Option, none, some, List, [], ◌∷◌, if◌then◌else◌, any,
  keep_if, Text, text_eq, lookup, remove, lookup-remove, text_eq_iff, Bool-cases, inl, inr, arith,
  refl, ap, ◌∙◌, subst, sym,
}
use tts_tokens_that_suffice.Evaluation.{Disk, Saved, Prediction}
use tts_tokens_that_suffice.Evaluation.Batch.{
  entries, is_missing, pending, pending-entries, keep_if-ext,
}
use tts_tokens_that_suffice.Cleaning.{
  Files, CleanState, clean_run, clean_from, clean_dir, failed, in_preds, clean_one, clean_read,
}

module _ (files : Files) (statuses : List Text) where
  -- The deletion of one run leaves the test on another as it is.
  pub failed-remove_other :
      (i j : Text) (b : Bool) (trajs : List (Text × Saved))
      → text_eq i j ≡ false
      → failed files statuses (if b then remove i trajs else trajs) j
        ≡ failed files statuses trajs j
  unfolding failed
  failed-remove_other i j true trajs h = ground (arith, h, lookup-remove i j trajs)
  failed-remove_other i j false trajs h = refl

  in_preds-absent :
      (i : Text) (p : List (Text × Prediction)) → in_preds i p ≡ false → lookup i p ≡ none
  unfolding in_preds
  in_preds-absent i p h = ground (arith, h)

  lookup-clean_run :
      (i j : Text) (s : CleanState)
      → lookup j (clean_run files false i s).preds
        ≡ (if text_eq i j then none else lookup j s.preds)
  unfolding clean_run in_preds
  lookup-clean_run i j s = elim (Bool-cases (in_preds i s.preds)) [
    | inl e ↦ rw e (lookup-remove i j s.preds)
    | inr e ↦ rw e (elim (Bool-cases (text_eq i j)) [
      | inl same ↦ rw same (
          subst (λ x. lookup x s.preds ≡ none) ((text_eq_iff i j).0 same)
            (in_preds-absent i s.preds e))
      | inr other ↦ rw other
    ])
  ]

  failed-same :
      (i j : Text) (b : Bool) (trajs : List (Text × Saved))
      → text_eq i j ≡ true
      → failed files statuses trajs i ≡ b
      → failed files statuses trajs j ≡ b
  failed-same i j b trajs same e =
      subst (λ x. failed files statuses trajs x ≡ b) ((text_eq_iff i j).0 same) e

  lookup-clean_one :
      (i j : Text) (s : CleanState)
      → lookup j (clean_one files statuses false i s).preds
        ≡ (if text_eq i j && failed files statuses s.trajs j then none else lookup j s.preds)
  unfolding clean_one
  lookup-clean_one i j s = elim (Bool-cases (failed files statuses s.trajs i)) [
    | inl e ↦ rw e (
        lookup-clean_run i j s ∙ elim (Bool-cases (text_eq i j)) [
          | inl same ↦ rw (same, failed-same i j true s.trajs same e)
          | inr other ↦ rw other
        ])
    | inr e ↦ rw e (elim (Bool-cases (text_eq i j)) [
      | inl same ↦ rw (same, failed-same i j false s.trajs same e)
      | inr other ↦ rw other
    ])
  ]

  failed-remove :
      (i j : Text) (b : Bool) (trajs : List (Text × Saved))
      → failed files statuses trajs j ≡ false
      → failed files statuses (if b then remove i trajs else trajs) j ≡ false
  unfolding failed
  failed-remove i j false trajs h = h
  failed-remove i j true trajs h = elim (Bool-cases (text_eq i j)) [
    | inl same ↦ ground (arith, same, lookup-remove i j trajs)
    | inr other ↦ ground (arith, other, h, lookup-remove i j trajs)
  ]

  -- A turn neither makes a run fail nor, for another run, hides that it failed.
  failed-clean_one :
      (i j : Text) (s : CleanState)
      → failed files statuses s.trajs j ≡ false
      → failed files statuses (clean_one files statuses false i s).trajs j ≡ false
  unfolding clean_one clean_run
  failed-clean_one i j s h = elim (Bool-cases (failed files statuses s.trajs i)) [
    | inl e ↦ rw e (failed-remove i j (files.deletes i) s.trajs h)
    | inr e ↦ rw e h
  ]

  pub failed-clean_one_other :
      (i j : Text) (s : CleanState)
      → text_eq i j ≡ false
      → failed files statuses (clean_one files statuses false i s).trajs j
        ≡ failed files statuses s.trajs j
  unfolding clean_one clean_run
  failed-clean_one_other i j s h = elim (Bool-cases (failed files statuses s.trajs i)) [
    | inl e ↦ rw e (failed-remove_other i j (files.deletes i) s.trajs h)
    | inr e ↦ rw e refl
  ]

  lookup-clean_from :
      (listing : List Text) (s : CleanState) (j : Text)
      → lookup j (clean_from files statuses false listing s).preds ≡ (
          if any (λ i. text_eq i j) listing && failed files statuses s.trajs j
          then none
          else lookup j s.preds)
  unfolding clean_from
  lookup-clean_from [] s j = refl
  lookup-clean_from (i ∷ listing) s j =
      lookup-clean_from listing (clean_one files statuses false i s) j
      ∙ elim (Bool-cases (text_eq i j)) [
        | inl same ↦ elim (Bool-cases (failed files statuses s.trajs j)) [
          | inl e ↦ ground (arith, same, e, lookup-clean_one i j s)
          | inr e ↦ ground (arith, same, e, lookup-clean_one i j s, failed-clean_one i j s e)
        ]
        | inr other ↦
            ground (arith, other, lookup-clean_one i j s, failed-clean_one_other i j s other)
      ]

  clean_run-unchanged :
      (i : Text) (s : CleanState)
      → (clean_run files false i s).changed ≡ false
      → ((clean_run files false i s).preds ≡ s.preds) × (s.changed ≡ false)
  unfolding clean_run
  clean_run-unchanged i s h = elim (Bool-cases (in_preds i s.preds)) [
    | inl e ↦ ground (arith, e, h)
    | inr e ↦ (rw e refl, ground (arith, e, h))
  ]

  clean_one-unchanged :
      (i : Text) (s : CleanState)
      → (clean_one files statuses false i s).changed ≡ false
      → ((clean_one files statuses false i s).preds ≡ s.preds) × (s.changed ≡ false)
  unfolding clean_one
  clean_one-unchanged i s h = elim (Bool-cases (failed files statuses s.trajs i)) [
    | inl e ↦
        let same : clean_run files false i s ≡ clean_one files statuses false i s = rw e refl in
        subst (λ x. x.changed ≡ false → (x.preds ≡ s.preds) × (s.changed ≡ false)) same
          (clean_run-unchanged i s) h
    | inr e ↦
        let same : s ≡ clean_one files statuses false i s = rw e refl in
        subst (λ x. x.changed ≡ false → (x.preds ≡ s.preds) × (s.changed ≡ false)) same
          (λ q. (refl, q)) h
  ]

  -- Where nothing changed, the predictions are those that were read.
  clean_from-unchanged :
      (listing : List Text) (s : CleanState)
      → (clean_from files statuses false listing s).changed ≡ false
      → ((clean_from files statuses false listing s).preds ≡ s.preds) × (s.changed ≡ false)
  unfolding clean_from
  clean_from-unchanged [] s h = (refl, h)
  clean_from-unchanged (i ∷ listing) s h =
      let r = clean_from-unchanged listing (clean_one files statuses false i s) h in
      let q = clean_one-unchanged i s (r.1) in (r.0 ∙ q.0, q.1)

  lookup-clean_read :
      (listing : List Text)
      → (trajs : List (Text × Saved)) → (o : Option (List (Text × Prediction))) → (j : Text)
      → lookup j (entries (clean_read files statuses false listing trajs o).1.preds) ≡ (
          if any (λ i. text_eq i j) listing && failed files statuses trajs j
          then none
          else lookup j (entries o))
  unfolding clean_read
  lookup-clean_read listing trajs none j =
      elim (Bool-cases (any (λ i. text_eq i j) listing && failed files statuses trajs j)) [
        | inl e ↦ rw e refl
        | inr e ↦ rw e refl
      ]
  lookup-clean_read listing trajs (some p) j =
      let before : CleanState = record { trajs = trajs; preds = p; removed = 0; changed = false } in
      let after = clean_from files statuses false listing before in
      elim (Bool-cases after.changed) [
        | inl e ↦ rw e (lookup-clean_from listing before j)
        | inr e ↦ rw e (
            ap (lookup j) (sym (clean_from-unchanged listing before e).0)
            ∙ lookup-clean_from listing before j)
      ]

  is_missing-if :
      (b : Bool) (o : Option Prediction) → is_missing (if b then none else o) ≡ (is_missing o || b)
  is_missing-if true o = ground arith
  is_missing-if false o = ground arith

  -- After a cleaning, a resumed evaluation takes an instance that has no prediction, or whose listed run
  -- failed, and no other.
  pub pending-clean_dir :
      (ids listing : List Text) (d : Disk)
      → pending false ids (clean_dir files statuses false listing d).1.preds
        ≡ keep_if
            (λ i.
              is_missing (lookup i (entries d.preds))
              || (any (λ l. text_eq l i) listing && failed files statuses d.trajs i))
            ids
  unfolding clean_dir
  pending-clean_dir ids listing d =
      let after = (clean_dir files statuses false listing d).1 in
      pending-entries ids after.preds
      ∙ keep_if-ext _ _ ids (λ n x h.
        ap is_missing (lookup-clean_read listing d.trajs d.preds x)
        ∙ is_missing-if (any (λ l. text_eq l x) listing && failed files statuses d.trajs x)
            (lookup x (entries d.preds)))
