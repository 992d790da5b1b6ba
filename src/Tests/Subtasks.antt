-- ===== src/Tests/Subtasks.antt =====
-- The laws of the compaction by subtasks and of the factory, applied to sample data.
use tts_tokens_that_suffice.Strategies.Truncation
use tts_tokens_that_suffice.Strategies.Subtask.Compactor
use tts_tokens_that_suffice.Prelude.{
  ◌≡◌, refl, true, false, Option, none, some, List, [], ◌∷◌, ◌++◌, arith, pos, negsuc, take, Text,
  codes, decimal, ok, type_error, err,
}
use tts_tokens_that_suffice.Message.{Message, plain, Role, user}
use tts_tokens_that_suffice.Strategies.Subtask.{message_for_step}
use tts_tokens_that_suffice.Strategies.Subtask.Replay.{IsMessageOf, message_for_step-IsMessageOf}
use tts_tokens_that_suffice.Strategies.Subtask.Themes.{Theme, Answer, subtasks, ill_typed}
use tts_tokens_that_suffice.Tests.Samples.{blind_codec, preamble, act, history}
use tts_tokens_that_suffice.Strategies.Built.{
  Outside, is_usable, compactor_of, compactor_of-head, make_compactor-usable,
}
use tts_tokens_that_suffice.Strategies.Factory.{
  Backend, Settings, make_compactor, by_subtasks, by_truncation,
}
use tts_tokens_that_suffice.Compaction.{CompactionResult, summary, truncation, themes, dropped}
use tts_tokens_that_suffice.Trajectory.{messages_to_steps}
use tts_tokens_that_suffice.Mask.Tags.{ascii_runtime}

-- A history whose middle begins with a message of the user.
abbrev asked : List Message
asked = preamble ++ plain user (codes "go on") ∷ history 2

abbrev middle : List Message
middle = plain user (codes "go on") ∷ history 2

-- The message of the user is taken for the task, and the first step is the first action.
first_step : message_for_step 0 middle ≡ ok act
unfolding message_for_step decimal
first_step = refl

message_for_step-IsMessageOf_example :
    IsMessageOf blind_codec (messages_to_steps blind_codec middle) 0 (message_for_step 0 middle)
message_for_step-IsMessageOf_example =
    message_for_step-IsMessageOf blind_codec middle 0 (unfold messages_to_steps in omega arith)

-- One finished theme, and one in progress with indices out of range.
abbrev two_themes : List Theme
two_themes =
    record {
      start_idx = some (pos 2);
      end_idx = some (pos 9);
      in_progress = true;
      name = none;
      summary = none;
    }
    ∷ record {
      start_idx = some (negsuc 0);
      end_idx = some (pos 1);
      in_progress = false;
      name = some (codes "look");
      summary = some (codes "looked");
    }
    ∷ []

abbrev answer : Text → Option Answer
answer t = some (subtasks two_themes)

themes_run :
    Compactor.compact blind_codec (λ e. []) answer (λ steps. ok []) 30 asked 4 3
    ≡ ok (record {
      messages = preamble ++ plain user (codes "<subtask-summary> looked") ∷ history 1;
      kind = summary;
      summary = some (codes "looked");
      metadata = themes 2 2 2;
    })
unfolding Compactor.compact decimal
themes_run = refl

-- An answer whose indices are null.
raised_run :
    Compactor.compact blind_codec
      (λ e. [])
      (λ t. some (ill_typed type_error))
      (λ steps. ok [])
      30
      asked
      4
      3
    ≡ err type_error
unfolding Compactor.compact
raised_run = refl

abbrev no_package : List Message → Option (Role × Text)
no_package ms = none

abbrev outside : Outside
outside = record {
  runtime = ascii_runtime;
  json = blind_codec;
  str_error = λ e. [];
  loads = answer;
  model_backend = λ b p steps. ok [];
  subtask_backend = λ b steps. ok [];
  cliff_compact = no_package;
}

abbrev a_backend : Backend
a_backend = record { model = codes "m"; api_base = []; api_key = []; max_tokens = 512 }

abbrev settings : Settings
settings = record {
  backend = a_backend;
  style = codes "sectioned";
  mask_output = true;
  mask_thinking = false;
  mask_keep_n = 10;
  mask_tagged_keep = true;
  mask_long_output_chars = 5000;
  mask_descriptive_placeholder = true;
}

abbrev more_tokens : Backend
more_tokens = record a_backend { max_tokens = 1024 }

built_run : make_compactor (codes " SubTask ") settings ≡ ok (some (by_subtasks more_tokens))
unfolding make_compactor
built_run = refl

compactor_usable : is_usable (by_subtasks more_tokens) ≡ true
compactor_usable =
    make_compactor-usable (codes " SubTask ") settings (by_subtasks more_tokens) built_run

abbrev cut_down : CompactionResult
cut_down = record {
  messages = preamble ++ history 1;
  kind = truncation;
  summary = none;
  metadata = dropped 3;
}

cut_run : compactor_of outside by_truncation asked 2 1 ≡ ok cut_down
unfolding Truncation.compact decimal
cut_run = refl

cut_down_headed : (rest : List Message) × (cut_down.messages ≡ take 2 asked ++ rest)
cut_down_headed = compactor_of-head outside by_truncation asked 1 cut_down cut_run
