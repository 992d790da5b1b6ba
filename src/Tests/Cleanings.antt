-- ===== src/Tests/Cleanings.antt =====
-- The cleaning of a directory of three runs, of which one failed.
use tts_tokens_that_suffice.Prelude.{
  ◌≡◌, refl, true, false, ◌&&◌, ◌||◌, none, some, List, [], ◌∷◌, any, keep_if, Text, codes, text_eq,
  lookup, IsDistinct,
}
use tts_tokens_that_suffice.Evaluation.{Disk, Saved, Prediction}
use tts_tokens_that_suffice.Evaluation.Batch.{pending, is_missing, entries}
use tts_tokens_that_suffice.Cleaning.{Files, clean_dir, failed}
use tts_tokens_that_suffice.Cleaning.Retries.{pending-clean_dir}
use tts_tokens_that_suffice.Cleaning.Dry.{clean_dir-dry}

abbrev saved_with : Text → Saved
saved_with status = record {
  exit_status = some status;
  submission = none;
  exception_str = none;
  n_compressions = 0;
  n_summaries = 0;
  tokens_before = [];
  context_tokens = [];
  resolved = none;
}

abbrev plain_files : Files
plain_files = record { parses = λ i. true; deletes = λ i. true }

abbrev transient : List Text
transient = codes "InternalServerError" ∷ codes "RepeatedFormatError" ∷ []

abbrev run_names : List Text
run_names = codes "a" ∷ codes "b" ∷ codes "c" ∷ []

abbrev prediction_of : Text → Prediction
prediction_of i = record { model_name_or_path = codes "r"; instance_id = i; model_patch = [] }

-- "a" was submitted, "b" failed, and "c" has no prediction.
abbrev runs : Disk
runs = record {
  preds =
      some ((codes "a", prediction_of (codes "a")) ∷ (codes "b", prediction_of (codes "b")) ∷ []);
  trajs =
      (codes "a", saved_with (codes "Submitted"))
      ∷ (codes "b", saved_with (codes "InternalServerError"))
      ∷ [];
}

cleaned_run : clean_dir plain_files transient false run_names runs ≡ (
  1,
  record {
    preds = some ((codes "a", prediction_of (codes "a")) ∷ []);
    trajs = (codes "a", saved_with (codes "Submitted")) ∷ [];
  },
)
unfolding clean_dir
cleaned_run = refl

pending-clean_dir_example :
    pending false run_names (clean_dir plain_files transient false run_names runs).1.preds
    ≡ keep_if
        (λ i.
          is_missing (lookup i (entries runs.preds))
          || (any (λ l. text_eq l i) run_names && failed plain_files transient runs.trajs i))
        run_names
pending-clean_dir_example = pending-clean_dir plain_files transient run_names run_names runs

clean_dir-dry_example :
    clean_dir plain_files transient true run_names runs
    ≡ ((clean_dir plain_files transient false run_names runs).0, runs)
unfolding IsDistinct
clean_dir-dry_example =
    clean_dir-dry plain_files transient run_names runs (refl, (refl, (refl, tt)))
