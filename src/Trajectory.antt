-- ===== src/Trajectory.antt =====
-- Trajectories, src/tts/data/agent_trajectory.py: steps, the two conversions between steps and
-- messages, and the splits of a trajectory. The laws are in the modules below.
pub mod Format
pub mod Messages
pub mod Replay
pub mod Collected
pub mod SweAgent
pub mod Sampling
pub mod Splits
pub mod Threshold
use tts_tokens_that_suffice.Prelude.{
  Text, Option, ℕ, List, [], Bool, take, ◌∷◌, none, if◌then◌else◌, some, false, drop, ltb, ◌+◌,
  ◌==◌, length, leb, ◌++◌, ◌*◌, ◌||◌, ◌-◌, true,
}
use tts_tokens_that_suffice.Message.{
  Role, Json, Codec, Content, object, Arguments, ToolCall, Message, or_empty, parsed, is_assistant,
  json_text, is_tool, system, other, user, assistant, tool,
}

pub record StepCall : Type 0 where
  pub name : Text
  pub arguments : Json
  pub id : Text

-- `content` is a text, or a list of parts that `or ""` let through.
pub record TrajectoryStep : Type 0 where
  pub role : Role
  pub content : Content
  pub tool_calls : List StepCall
  pub tool_call_id : Text
  pub name : Text
  pub reasoning_content : Text

abbrev pub or_blank : Option Text → Text
or_blank none = []
or_blank (some t) = t

abbrev pub empty_object : Json
empty_object = object []

module _ (json : Codec) where
  -- a JSON text is parsed, and read as `{}` where that fails
  unfoldable pub parse_arguments : Option Arguments → Json
  parse_arguments none = empty_object
  parse_arguments (some (parsed j)) = j
  parse_arguments (some (json_text t)) = elim (json.loads t) [ none ↦ empty_object | some j ↦ j ]

  unfoldable pub parse_tool_calls : List ToolCall → List StepCall
  unfolding parse_arguments
  parse_tool_calls [] = []
  parse_tool_calls (tc ∷ tcs) =
      record {
        name = or_blank tc.name;
        arguments = parse_arguments tc.arguments;
        id = or_blank tc.id;
      }
      ∷ parse_tool_calls tcs

  -- The step of a message that is no system message and no task.
  unfoldable pub step_of : Message → TrajectoryStep
  unfolding parse_tool_calls
  step_of m = record {
    role = m.role;
    content = or_empty m.content;
    tool_calls = if is_assistant m then parse_tool_calls m.tool_calls else [];
    tool_call_id = if is_tool m then or_blank m.tool_call_id else [];
    name = [];
    reasoning_content = [];
  }

  -- The loop, with `seen_task`.
  unfoldable pub steps_from : Bool → List Message → List TrajectoryStep
  unfolding step_of
  steps_from seen_task [] = []
  steps_from seen_task (m ∷ ms) = elim m.role [
    | system ↦ steps_from seen_task ms
    | user ↦ let rest = steps_from true ms in if seen_task then step_of m ∷ rest else rest
    | assistant ↦ step_of m ∷ steps_from seen_task ms
    | tool ↦ step_of m ∷ steps_from seen_task ms
    | other r ↦ steps_from seen_task ms
  ]

  unfoldable pub messages_to_steps : List Message → List TrajectoryStep
  unfolding steps_from
  messages_to_steps messages = steps_from false messages

-- `metadata`, which the modelled code only passes on, is left out.
pub record AgentTrajectory : Type 0 where
  pub task : Text
  pub steps : List TrajectoryStep
  pub continuation : List TrajectoryStep
  pub summary : Text
  pub trajectory_id : Text
  pub agent_system_prompt : Text

unfoldable pub with_prefix : AgentTrajectory → ℕ → AgentTrajectory
with_prefix t n_steps = record {
  task = t.task;
  steps = take n_steps t.steps;
  continuation = drop n_steps t.steps ++ t.continuation;
  summary = t.summary;
  trajectory_id = t.trajectory_id;
  agent_system_prompt = [];
}

-- `_turn_token_lens`: the token count of each two steps; a last single step is left out.
-- `tokens` is the length of the tokenizer's answer for the text of a slice of steps.
unfoldable pub turn_token_lens : (List TrajectoryStep → ℕ) → List TrajectoryStep → List ℕ
turn_token_lens tokens [] = []
turn_token_lens tokens (a ∷ []) = []
turn_token_lens tokens (a ∷ b ∷ steps) = tokens (a ∷ b ∷ []) ∷ turn_token_lens tokens steps

-- The loop of `_truncate_continuation`, after `i` turns of `total` tokens: the steps kept.
unfoldable pub kept_steps : ℕ → ℕ → ℕ → ℕ → List ℕ → ℕ
kept_steps max_tokens i total kept [] = kept
kept_steps max_tokens i total kept (tl ∷ lens) =
    let rest = kept_steps max_tokens (i + 1) (total + tl) ((i + 1) * 2) lens in
    if ltb max_tokens (total + tl) then kept else rest

-- The returns of `_truncate_continuation`, with `kept` steps to keep.
unfoldable pub keep_steps : AgentTrajectory → ℕ → Option AgentTrajectory
keep_steps t kept =
    if kept == 0
    then none
    else if kept == length t.continuation
    then some t
    else some (record {
      task = t.task;
      steps = t.steps;
      continuation = take kept t.continuation;
      summary = t.summary;
      trajectory_id = t.trajectory_id;
      agent_system_prompt = [];
    })

unfoldable pub truncate_continuation :
    (List TrajectoryStep → ℕ) → AgentTrajectory → ℕ → Option AgentTrajectory
unfolding turn_token_lens kept_steps keep_steps
truncate_continuation tokens t max_tokens =
    keep_steps t (kept_steps max_tokens 0 0 0 (turn_token_lens tokens t.continuation))

-- The keyword arguments of `threshold_split`.
pub record SplitConfig : Type 0 where
  pub split_at_tokens : ℕ
  pub min_prefix : ℕ
  pub min_suffix : ℕ
  pub max_continuation_tokens : ℕ

-- The loop over `k`: the turn at which the running total reaches the threshold.
unfoldable pub threshold_turn : ℕ → ℕ → ℕ → List ℕ → Option ℕ
threshold_turn split_at k total [] = none
threshold_turn split_at k total (tl ∷ lens) =
    let rest = threshold_turn split_at (k + 1) (total + tl) lens in
    if leb split_at (total + tl) then some (k + 1) else rest

-- The body of the loop at that turn, `n` turns in all.
unfoldable pub split_at_turn :
    (List TrajectoryStep → ℕ) → SplitConfig → AgentTrajectory → ℕ → ℕ → Option AgentTrajectory
unfolding truncate_continuation with_prefix
split_at_turn tokens cfg t n k =
    if ltb k cfg.min_prefix || ltb (n - k) cfg.min_suffix
    then none
    else if ltb 0 cfg.max_continuation_tokens
    then truncate_continuation tokens (with_prefix t (k * 2)) cfg.max_continuation_tokens
    else some (with_prefix t (k * 2))

unfoldable pub threshold_split :
    (List TrajectoryStep → ℕ) → SplitConfig → AgentTrajectory → Option AgentTrajectory
unfolding turn_token_lens threshold_turn split_at_turn
threshold_split tokens cfg t =
    let lens = turn_token_lens tokens t.steps in
    elim (threshold_turn cfg.split_at_tokens 0 0 lens) [
      | none ↦ none
      | some k ↦ split_at_turn tokens cfg t (length lens) k
    ]
