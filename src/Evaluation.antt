-- ===== src/Evaluation.antt =====
-- src/tts/eval_swebench.py: the predictions file, the run of the agent on one instance, and the runs
-- of a batch. The file system is a state: the predictions file, which may not exist, and the saved
-- trajectory of each instance. A run is made of calls of the containers, the model and the grader,
-- each of which may raise.
pub mod Arms
pub mod Batch
pub mod Summary
use tts_tokens_that_suffice.Prelude.{
  ℕ, Bool, true, false, Option, none, some, List, [], map, if◌then◌else◌, count, Text, insert,
  remove, Error, Result, ◌>>=◌, err, ok,
}
use tts_tokens_that_suffice.Agent.State.{Agent, Compression}
use tts_tokens_that_suffice.Compaction.{summary}

-- One entry of the predictions file.
pub record Prediction : Type 0 where
  pub model_name_or_path : Text
  pub instance_id : Text
  pub model_patch : Text

-- What is saved of a run beside the messages.
pub record Saved : Type 0 where
  pub exit_status : Option Text
  pub submission : Option Text
  pub exception_str : Option Text
  pub n_compressions : ℕ
  pub n_summaries : ℕ
  pub tokens_before : List ℕ
  pub context_tokens : List ℕ
  pub resolved : Option Bool

pub record Disk : Type 0 where
  pub preds : Option (List (Text × Prediction))
  pub trajs : List (Text × Saved)

-- The calls made for an instance, with what each returns or raises. `run` also gives the agent that
-- it leaves behind, where it raises too.
pub record Calls : Type 0 where
  pub model : Result (Unit {0})
  pub problem_statement : Result Text
  pub environment : Result (Unit {0})
  pub patch : Result (Unit {0})
  pub construct : Result (Unit {0})
  pub run : Text → Result (Option Text × Option Text) × Agent
  pub evaluate : Text → Result Bool
  pub save : Result (Unit {0})

-- The arguments that are the same for each instance; `error_name` is the name of an exception's class.
pub record RunSettings : Type 0 where
  pub run_name : Text
  pub grade : Bool
  pub is_swe_smith : Bool
  pub error_name : Error → Text
  pub str_error : Error → Text

unfoldable pub update_preds_file :
    Text → Text → Text → Option (List (Text × Prediction)) → List (Text × Prediction)
unfolding insert
update_preds_file instance_id model_name result preds =
    let entry : Prediction = record {
      model_name_or_path = model_name;
      instance_id = instance_id;
      model_patch = result;
    } in
    elim preds [ none ↦ insert instance_id entry [] | some d ↦ insert instance_id entry d ]

unfoldable pub remove_from_preds_file :
    Text → Option (List (Text × Prediction)) → Option (List (Text × Prediction))
unfolding remove
remove_from_preds_file instance_id none = none
remove_from_preds_file instance_id (some d) = some (remove instance_id d)

-- exit_status, result and resolved at the end of a `try` that raised nothing.
pub record Finished : Type 0 where
  pub exit_status : Option Text
  pub result : Option Text
  pub resolved : Option Bool

unfoldable pub or_blank_text : Option Text → Text
or_blank_text none = []
or_blank_text (some t) = t

unfoldable pub graded : RunSettings → Calls → Option Text × Option Text → Result Finished
unfolding or_blank_text
graded cfg c (exit_status, submission) =
    if cfg.grade
    then (c.evaluate (or_blank_text submission) >>= λ b.
        ok (record { exit_status = exit_status; result = submission; resolved = some b }))
    else ok (record { exit_status = exit_status; result = submission; resolved = none })

unfoldable pub run_agent :
    RunSettings → Calls → Result (Option Text × Option Text) → Result Finished
unfolding graded
run_agent cfg c (err e) = err e
run_agent cfg c (ok info) = graded cfg c info

-- What is built before the agent runs.
unfoldable pub built : RunSettings → Calls → Result (Unit {0})
built cfg c = do u ← c.environment; v ← if cfg.is_swe_smith then c.patch else ok tt; c.construct

-- The body of the `try`: how it ended, and the agent, if there is one by then.
unfoldable pub attempted :
    RunSettings → Calls → Text → Result (Unit {0}) → Result Finished × Option Agent
unfolding run_agent
attempted cfg c task (err e) = (err e, none)
attempted cfg c task (ok u) = let ran = c.run task in (run_agent cfg c ran.0, some ran.1)

-- The variables behind the `except`, with the text of the exception.
unfoldable pub handled : RunSettings → Result Finished → Finished × Option Text
handled cfg (ok f) = (f, none)
handled cfg (err e) = (
  record { exit_status = some (cfg.error_name e); result = some []; resolved = none },
  some (cfg.str_error e),
)

unfoldable pub is_summary : Compression → Bool
is_summary c = elim c.kind [ summary ↦ true | other_kind ↦ false ]

unfoldable pub saved_of : Finished × Option Text → Agent → Saved
unfolding is_summary
saved_of (f, raised) a = record {
  exit_status = f.exit_status;
  submission = f.result;
  exception_str = raised;
  n_compressions = a.n_compressions;
  n_summaries = count is_summary a.compressions;
  tokens_before = map (λ c. c.tokens_before) a.compressions;
  context_tokens = a.context_tokens;
  resolved = f.resolved;
}

unfoldable pub with_prediction : RunSettings → Text → Finished → Disk → Disk
unfolding update_preds_file or_blank_text
with_prediction cfg instance_id f d = record d {
  preds = some (update_preds_file instance_id cfg.run_name (or_blank_text f.result) d.preds);
}

-- The end of the `finally` with an agent, by how the save of its trajectory went.
unfoldable pub with_saved :
    RunSettings
    → Text
    → Finished × Option Text
    → Agent
    → Disk
    → Result (Unit {0})
    → Result (Option Text) × Disk
unfolding saved_of with_prediction insert
with_saved cfg instance_id f a d (err e) = (err e, d)
with_saved cfg instance_id f a d (ok u) = (
  ok (some instance_id),
  with_prediction cfg instance_id f.0
      (record d { trajs = insert instance_id (saved_of f a) d.trajs }),
)

-- The `finally`, and what is returned.
unfoldable pub concluded :
    RunSettings
    → Calls
    → Text
    → Finished × Option Text
    → Option Agent
    → Disk
    → Result (Option Text) × Disk
unfolding with_saved with_prediction
concluded cfg c instance_id f none d = (ok none, with_prediction cfg instance_id f.0 d)
concluded cfg c instance_id f (some a) d = with_saved cfg instance_id f a d c.save

-- What a retry would find of an earlier run is cleared.
unfoldable pub cleared : Text → Disk → Disk
unfolding remove_from_preds_file remove
cleared instance_id d = record {
  preds = remove_from_preds_file instance_id d.preds;
  trajs = remove instance_id d.trajs;
}

unfoldable pub worked : RunSettings → Calls → Text → Text → Disk → Result (Option Text) × Disk
unfolding attempted built handled concluded
worked cfg c instance_id task d =
    let tried = attempted cfg c task (built cfg c) in
    concluded cfg c instance_id (handled cfg tried.0) tried.1 d

unfoldable pub prepared : Calls → Result Text
prepared c = do u ← c.model; c.problem_statement

unfoldable pub started :
    RunSettings → Calls → Text → Result Text → Disk → Result (Option Text) × Disk
unfolding worked
started cfg c instance_id (err e) d = (err e, d)
started cfg c instance_id (ok task) d = worked cfg c instance_id task d

unfoldable pub process_instance : RunSettings → Calls → Text → Disk → Result (Option Text) × Disk
unfolding cleared prepared started
process_instance cfg c instance_id d =
    started cfg c instance_id (prepared c) (cleared instance_id d)
