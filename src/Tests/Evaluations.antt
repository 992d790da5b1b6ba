-- ===== src/Tests/Evaluations.antt =====
-- The laws of the evaluation, applied to a batch of three instances.
use tts_tokens_that_suffice.Prelude.{
  ℕ, ◌≡◌, refl, Bool, true, false, Option, none, some, List, [], ◌∷◌, map, if◌then◌else◌, any,
  keep_if, Text, codes, text_eq, lookup, os_error, err, ok,
}
use tts_tokens_that_suffice.Evaluation.{Calls, Disk, RunSettings, Prediction, Saved}
use tts_tokens_that_suffice.Agent.State.{Agent}
use tts_tokens_that_suffice.Evaluation.Batch.{
  run_batch, entries, due, pending, is_missing, run_batch-predictions,
}
use tts_tokens_that_suffice.Evaluation.Summary.{write_summary}
use tts_tokens_that_suffice.Tests.Samples.{preamble}

abbrev resting : Agent
resting = record {
  messages = preamble;
  n_calls = 1;
  n_compressions = 0;
  compressions = [];
  context_tokens = 5 ∷ [];
  last_prompt_tokens = none;
  files = [];
}

-- An agent that submits the task as its patch, and a grader that rejects it.
abbrev smooth : Calls
smooth = record {
  model = ok tt;
  problem_statement = ok (codes "task");
  environment = ok tt;
  patch = ok tt;
  construct = ok tt;
  run = λ t. (ok (some (codes "Submitted"), some t), resting);
  evaluate = λ t. ok false;
  save = ok tt;
}

-- Of the instances, "a" runs well, the container of "b" cannot be built, and "c" cannot be saved.
abbrev calls_of : Text → Calls
calls_of i =
    if text_eq i (codes "a")
    then smooth
    else if text_eq i (codes "b")
    then record smooth { environment = err os_error }
    else record smooth { save = err os_error }

abbrev arm_settings : RunSettings
arm_settings = record {
  run_name = codes "r";
  grade = true;
  is_swe_smith = false;
  error_name = λ e. codes "OSError";
  str_error = λ e. [];
}

abbrev batch : List Text
batch = codes "a" ∷ codes "b" ∷ codes "c" ∷ []

-- "c" stands in the file from an earlier run.
abbrev disk : Disk
disk = record {
  preds = some (
      (
        codes "c",
        record {
          model_name_or_path = codes "r";
          instance_id = codes "c";
          model_patch = codes "old";
        },
      )
      ∷ []);
  trajs = [];
}

abbrev patches : Option (List (Text × Prediction)) → List (Text × Text)
patches none = []
patches (some d) = map (λ e. (e.0, e.1.model_patch)) d

batch_run :
    patches (run_batch arm_settings calls_of batch disk).preds
    ≡ (codes "a", codes "task") ∷ (codes "b", []) ∷ []
unfolding run_batch
batch_run = refl

run_batch-predictions_example :
    let after = (run_batch arm_settings calls_of batch disk).preds in
    ((j : Text)
      → lookup j (entries after) ≡ (
          if any (λ i. text_eq i j) batch
          then due arm_settings calls_of j
          else lookup j (entries disk.preds)))
    × (pending false batch after ≡ keep_if (λ i. is_missing (due arm_settings calls_of i)) batch)
run_batch-predictions_example = run_batch-predictions arm_settings calls_of batch disk

-- One compressed and resolved run of two.
abbrev saved_run : ℕ → Bool → Saved
saved_run n b = record {
  exit_status = none;
  submission = none;
  exception_str = none;
  n_compressions = n;
  n_summaries = n;
  tokens_before = 7 ∷ [];
  context_tokens = [];
  resolved = some b;
}

summary_run :
    let s = write_summary true (saved_run 2 true ∷ saved_run 0 false ∷ []) in
    (s.instances_compressed ≡ 1) × (s.max_input_tokens ≡ 7) × (s.n_resolved ≡ some 1)
unfolding write_summary
summary_run = (refl, refl, refl)
