-- ===== src/Collection.antt =====
-- src/tts/collect_trajectories.py: the run on one instance, the count of the runs that are done, and
-- the runs of a batch. The directory is the list of its files, to which a run adds one under a new
-- name. `extra_status` is the exit status in the `extra` of a message, which mini-swe-agent writes.
pub mod Counts
use tts_tokens_that_suffice.Prelude.{
  ℕ, ◌+◌, Bool, true, false, ◌&&◌, ◌||◌, Option, none, some, List, [], ◌∷◌, ◌++◌, if◌then◌else◌,
  ltb, keep_if, Text, codes, text_eq, lookup, insert, Error, Result, ◌>>=◌, err, ok,
}
use tts_tokens_that_suffice.Message.{Message, Role, other}
use tts_tokens_that_suffice.Evaluation.{or_blank_text}

-- What is saved of a run.
pub record Entry : Type 0 where
  pub uid : Text
  pub instance_id : Text
  pub exit_status : Option Text
  pub evaluation : Option Bool
  pub num_calls : ℕ
  pub submission : Option Text
  pub messages : List Message
  pub exception_str : Option Text

-- A file of the directory; the content of one that does not parse is `none`.
pub record TrajFile : Type 0 where
  pub stem : Text
  pub content : Option Entry

-- What the agent leaves: `info`, or what it raised, its messages and its calls.
pub record Ran : Type 0 where
  pub info : Result (Option Text × Option Text)
  pub messages : List Message
  pub n_calls : ℕ

-- The calls made for an instance, with what each returns or raises.
pub record CollectCalls : Type 0 where
  pub uid : Text
  pub model : Result (Unit {0})
  pub problem_statement : Result Text
  pub environment : Result (Unit {0})
  pub patch : Result (Unit {0})
  pub construct : Result (Unit {0})
  pub run : Text → Ran
  pub evaluate : Text → Result Bool
  -- what comes before the file is opened, its opening included, and then the dump
  pub save : Result (Result (Unit {0}))

pub record CollectSettings : Type 0 where
  pub is_swe_smith : Bool
  pub error_name : Error → Text
  pub str_error : Error → Text

-- exit_status, result and evaluation at the end of the `try` or of the `except`, and str(e).
pub record CollectOutcome : Type 0 where
  pub exit_status : Option Text
  pub result : Option Text
  pub evaluation : Option Bool
  pub exception_str : Option Text

unfoldable pub set_up : CollectSettings → CollectCalls → Result (Unit {0})
set_up cfg c = do u ← c.environment; v ← if cfg.is_swe_smith then c.patch else ok tt; c.construct

-- The body of the `try` behind the agent's run.
unfoldable pub evaluated_run :
    CollectCalls → Result (Option Text × Option Text) → Result CollectOutcome
unfolding or_blank_text
evaluated_run c (err e) = err e
evaluated_run c (ok (status, submission)) = c.evaluate (or_blank_text submission) >>= λ resolved.
    ok (record {
      exit_status = status;
      result = submission;
      evaluation = some resolved;
      exception_str = none;
    })

-- The `except`; an evaluation that raised leaves none.
unfoldable pub caught : CollectSettings → Result CollectOutcome → CollectOutcome
caught cfg (ok o) = o
caught cfg (err e) = record {
  exit_status = some (cfg.error_name e);
  result = some [];
  evaluation = none;
  exception_str = some (cfg.str_error e);
}

unfoldable pub entry_for : Text → Text → CollectOutcome → Ran → Entry
entry_for uid iid o r = record {
  uid = uid;
  instance_id = iid;
  exit_status = o.exit_status;
  evaluation = o.evaluation;
  num_calls = r.n_calls;
  submission = o.result;
  messages = r.messages;
  exception_str = o.exception_str;
}

-- The `finally` with an agent: the file is written, or it is not opened, or the dump raises and leaves
-- a file that does not parse.
unfoldable pub written :
    Result (Result (Unit {0})) → Entry → List TrajFile → Result (Option Text) × List TrajFile
written (err e) entry files = (err e, files)
written (ok (err e)) entry files =
    (err e, files ++ record { stem = entry.uid; content = none } ∷ [])
written (ok (ok u)) entry files =
    (ok (some entry.uid), files ++ record { stem = entry.uid; content = some entry } ∷ [])

-- The `try` and its `finally`; without an agent nothing is written.
unfoldable pub collected :
    CollectSettings
    → CollectCalls
    → Text
    → Text
    → Result (Unit {0})
    → List TrajFile
    → Result (Option Text) × List TrajFile
unfolding evaluated_run caught entry_for written
collected cfg c iid task (err e) files = (ok none, files)
collected cfg c iid task (ok u) files =
    let r = c.run task in
    written c.save (entry_for c.uid iid (caught cfg (evaluated_run c r.info)) r) files

unfoldable pub task_of : CollectCalls → Result Text
task_of c = do u ← c.model; c.problem_statement

-- `process_instance` once the task is known.
unfoldable pub collect_task :
    CollectSettings
    → CollectCalls
    → Text
    → Result Text
    → List TrajFile
    → Result (Option Text) × List TrajFile
unfolding collected set_up
collect_task cfg c iid (err e) files = (err e, files)
collect_task cfg c iid (ok task) files = collected cfg c iid task (set_up cfg c) files

unfoldable pub collect_instance :
    CollectSettings → CollectCalls → Text → List TrajFile → Result (Option Text) × List TrajFile
unfolding collect_task task_of
collect_instance cfg c iid files = collect_task cfg c iid (task_of c) files

-- `status in _DONE_STATUSES`
unfoldable pub is_done_status : Text → Bool
unfolding text_eq
is_done_status t = text_eq t (codes "Submitted") || text_eq t (codes "LimitsExceeded")

unfoldable pub is_exit : Role → Bool
unfolding text_eq
is_exit (other r) = text_eq r (codes "exit")
is_exit _ = false

module _ (extra_status : Message → Text) where
  -- Whether the last message says that the run is done.
  unfoldable pub ends_done : List Message → Bool
  unfolding is_exit is_done_status
  ends_done [] = false
  ends_done (m ∷ []) = is_exit m.role && is_done_status (extra_status m)
  ends_done (m ∷ n ∷ ms) = ends_done (n ∷ ms)

  -- The instance of a file that counts.
  unfoldable pub done_instance : TrajFile → Option Text
  unfolding ends_done text_eq
  done_instance file = if text_eq file.stem (codes "collect") then none else elim file.content [
    | none ↦ none
    | some e ↦ if ends_done e.messages then some e.instance_id else none
  ]

  -- `done_counts.get(iid, 0)`
  unfoldable pub count_at : Text → List (Text × ℕ) → ℕ
  unfolding lookup
  count_at iid d = elim (lookup iid d) [ none ↦ 0 | some n ↦ n ]

  unfoldable pub add_done : Option Text → List (Text × ℕ) → List (Text × ℕ)
  unfolding count_at insert
  add_done none d = d
  add_done (some iid) d = insert iid (count_at iid d + 1) d

  unfoldable pub done_counts : List TrajFile → List (Text × ℕ) → List (Text × ℕ)
  unfolding add_done done_instance
  done_counts [] d = d
  done_counts (file ∷ files) d = done_counts files (add_done (done_instance file) d)

  -- The instances that still need runs.
  unfoldable pub due_instances : ℕ → List Text → List TrajFile → List Text
  unfolding done_counts count_at
  due_instances runs_per_instance ids files =
      keep_if (λ i. ltb (count_at i (done_counts files [])) runs_per_instance) ids

  -- One call of the collection: the workers run each due instance once, in some order.
  unfoldable pub collect_batch :
      CollectSettings → (Text → CollectCalls) → List Text → List TrajFile → List TrajFile
  unfolding collect_instance
  collect_batch cfg calls [] files = files
  collect_batch cfg calls (i ∷ ids) files =
      collect_batch cfg calls ids (collect_instance cfg (calls i) i files).1

  unfoldable pub collect :
      CollectSettings → (Text → CollectCalls) → ℕ → List Text → List TrajFile → List TrajFile
  unfolding collect_batch due_instances
  collect cfg calls runs_per_instance ids files =
      collect_batch cfg calls (due_instances runs_per_instance ids files) files
