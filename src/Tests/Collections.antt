-- ===== src/Tests/Collections.antt =====
-- The collection of two runs, of which one completes.
use tts_tokens_that_suffice.Prelude.{
  ◌+◌, ◌≡◌, refl, true, ◌&&◌, none, some, List, [], ◌∷◌, if◌then◌else◌, any, ltb, Text, codes,
  text_eq, os_error, err, ok, insert, IsDistinct,
}
use tts_tokens_that_suffice.Message.{Message, other, text}
use tts_tokens_that_suffice.Collection.{CollectCalls, CollectSettings, collect, done_counts}
use tts_tokens_that_suffice.Collection.Counts.{done_runs, completes, done_runs-collect}

abbrev exit_message : Message
exit_message = record {
  role = other (codes "exit");
  content = text [];
  reasoning_content = none;
  tool_calls = [];
  tool_call_id = none;
}

abbrev submitted : Message → Text
submitted m = codes "Submitted"

-- The grader raises, which does not keep the run from counting as done.
abbrev ungraded : CollectCalls
ungraded = record {
  uid = codes "u";
  model = ok tt;
  problem_statement = ok (codes "task");
  environment = ok tt;
  patch = ok tt;
  construct = ok tt;
  run = λ t. record {
    info = ok (some (codes "Submitted"), some t);
    messages = exit_message ∷ [];
    n_calls = 1;
  };
  evaluate = λ t. err os_error;
  save = ok (ok tt);
}

-- The container of "b" cannot be built.
abbrev collect_calls : Text → CollectCalls
collect_calls i =
    if text_eq i (codes "a") then ungraded else record ungraded { environment = err os_error }

abbrev collect_settings : CollectSettings
collect_settings = record {
  is_swe_smith = true;
  error_name = λ e. codes "OSError";
  str_error = λ e. [];
}

abbrev asked_for : List Text
asked_for = codes "a" ∷ codes "b" ∷ []

-- Two runs are asked for, and a call makes one.
done_run :
    done_runs submitted
      (codes "a")
      (collect submitted collect_settings collect_calls 2 asked_for [])
    ≡ 1
unfolding collect done_counts insert
done_run = refl

done_runs-collect_example :
    done_runs submitted
      (codes "a")
      (collect submitted collect_settings collect_calls 2 asked_for [])
    ≡ done_runs submitted (codes "a") []
      + (if any (λ i. text_eq i (codes "a")) asked_for
            && (ltb (done_runs submitted (codes "a") []) 2
                && completes submitted collect_settings (collect_calls (codes "a")))
          then 1
          else 0)
unfolding IsDistinct
done_runs-collect_example =
    done_runs-collect submitted collect_settings collect_calls 2 asked_for [] (codes "a")
      (refl, (refl, tt))
