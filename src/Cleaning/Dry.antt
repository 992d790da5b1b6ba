-- ===== src/Cleaning/Dry.antt =====
-- The dry run of scripts/data/clean_failed_runs.py against the real one.
use tts_tokens_that_suffice.Prelude.{
  ℕ, suc, ◌+◌, ◌≡◌, Bool, true, false, Option, none, some, List, [], ◌∷◌, if◌then◌else◌, any, count,
  Text, text_eq, Bool-cases, inl, inr, arith, refl, ap, ◌∙◌, sym, IsDistinct,
}
use tts_tokens_that_suffice.Evaluation.{Disk, Saved, Prediction}
use tts_tokens_that_suffice.Cleaning.{
  Files, CleanState, clean_one, clean_run, clean_from, clean_dir, clean_read, failed,
}
use tts_tokens_that_suffice.Cleaning.Retries.{failed-clean_one_other}

module _ (files : Files) (statuses : List Text) where
  abbrev failures : List (Text × Saved) → List Text → ℕ
  failures trajs listing = count (failed files statuses trajs) listing

  abbrev with_removed : CleanState → ℕ → CleanState
  with_removed s n = record { trajs = s.trajs; preds = s.preds; removed = n; changed = s.changed }

  abbrev one_if : Bool → ℕ
  one_if true = 1
  one_if false = 0

  clean_one-dry :
      (i : Text) (s : CleanState)
      → clean_one files statuses true i s
        ≡ with_removed s (s.removed + one_if (failed files statuses s.trajs i))
  unfolding clean_one clean_run
  clean_one-dry i s = elim (Bool-cases (failed files statuses s.trajs i)) [
    | inl e ↦ rw e (ap (with_removed s) (omega arith))
    | inr e ↦ rw e (ap (with_removed s) (omega arith))
  ]

  clean_from-dry :
      (listing : List Text) (s : CleanState)
      → clean_from files statuses true listing s
        ≡ with_removed s (s.removed + failures s.trajs listing)
  unfolding clean_from
  clean_from-dry [] s = ap (with_removed s) (omega arith)
  clean_from-dry (i ∷ listing) s =
      ap (clean_from files statuses true listing) (clean_one-dry i s)
      ∙ clean_from-dry listing
          (with_removed s (s.removed + one_if (failed files statuses s.trajs i)))
      ∙ ap (with_removed s) (ground arith)

  -- A turn leaves the number of failed runs among other names.
  failures-clean_one :
      (i : Text) (s : CleanState) (listing : List Text)
      → any (λ j. text_eq i j) listing ≡ false
      → failures (clean_one files statuses false i s).trajs listing ≡ failures s.trajs listing
  failures-clean_one i s [] h = refl
  failures-clean_one i s (j ∷ listing) h =
      ground (arith, h, failed-clean_one_other files statuses i j s, failures-clean_one i s listing)

  removed-clean_one :
      (i : Text) (s : CleanState)
      → (clean_one files statuses false i s).removed
        ≡ (if failed files statuses s.trajs i then suc s.removed else s.removed)
  unfolding clean_one clean_run
  removed-clean_one i s = elim (Bool-cases (failed files statuses s.trajs i)) [
    | inl e ↦ rw e refl
    | inr e ↦ rw e refl
  ]

  removed-clean_from :
      (listing : List Text) (s : CleanState)
      → IsDistinct listing
      → (clean_from files statuses false listing s).removed ≡ s.removed + failures s.trajs listing
  unfolding clean_from IsDistinct
  removed-clean_from [] s h = omega arith
  removed-clean_from (i ∷ listing) s (alone, h) = ground (
    arith,
    removed-clean_from listing (clean_one files statuses false i s) h,
    removed-clean_one i s,
    failures-clean_one i s listing alone,
  )

  clean_read-dry :
      (listing : List Text)
      → (trajs : List (Text × Saved)) → (o : Option (List (Text × Prediction))) → IsDistinct listing
      → clean_read files statuses true listing trajs o
        ≡ ((clean_read files statuses false listing trajs o).0, record { preds = o; trajs = trajs })
  unfolding clean_read
  clean_read-dry listing trajs none h = refl
  clean_read-dry listing trajs (some p) h =
      let before : CleanState = record { trajs = trajs; preds = p; removed = 0; changed = false } in
      rw (clean_from-dry listing before) (
        ap (λ n. (n, record { preds = some p; trajs = trajs }))
          (sym (removed-clean_from listing before h)))

  -- A dry run over a listing changes nothing, and reports the number that the real run removes.
  pub clean_dir-dry :
      (listing : List Text) (d : Disk)
      → IsDistinct listing
      → clean_dir files statuses true listing d ≡ ((clean_dir files statuses false listing d).0, d)
  unfolding clean_dir
  clean_dir-dry listing d h = clean_read-dry listing d.trajs d.preds h
