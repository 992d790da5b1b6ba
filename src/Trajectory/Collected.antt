-- ===== src/Trajectory/Collected.antt =====
-- `from_collect_dict` of src/tts/data/agent_trajectory.py: the steps of a recorded run, and that the
-- live agent's messages give the same ones.
use tts_tokens_that_suffice.Prelude.{
  ◌≡◌, refl, Bool, true, false, ◌&&◌, List, [], ◌∷◌, arith, if◌then◌else◌, Text, Result, key_error,
  err, ok, ◌>>=◌, sym, ap₂, ◌∙◌, map, inl, inr, Bool-cases, ◌||◌, subst, ◌⊎◌,
}
use tts_tokens_that_suffice.Trajectory.{
  TrajectoryStep, parse_tool_calls, step_of, or_blank, steps_from, messages_to_steps,
}
use tts_tokens_that_suffice.Message.{
  Role, Content, Message, Codec, text, user, system, is_assistant, is_tool, role_is_tool,
  role_is_assistant, missing, has_tool_calls, assistant, tool, or_empty, other, plain,
}

-- next((m["content"] for m in messages if m.get("role") == role), "")
unfoldable pub first_content : (Role → Bool) → List Message → Result Content
first_content p [] = ok (text [])
first_content p (m ∷ ms) =
    let rest = first_content p ms in
    if p m.role then elim m.content [ missing ↦ err key_error | c ↦ ok c ] else rest

abbrev pub role_is_user : Role → Bool
role_is_user user = true
role_is_user _ = false

abbrev pub role_is_system : Role → Bool
role_is_system system = true
role_is_system _ = false

-- A recorded run, with the fields that are read of its messages; the metadata is only passed on.
pub record Collected : Type 0 where
  pub task : Content
  pub steps : List TrajectoryStep
  pub trajectory_id : Text
  pub agent_system_prompt : Content

unfoldable pub acts : Message → Bool
acts m = is_assistant m && has_tool_calls m

-- A message of another role than the user, the assistant and a tool, as the final exit is.
abbrev pub role_is_aside : Role → Bool
role_is_aside system = true
role_is_aside (other r) = true
role_is_aside _ = false

abbrev pub is_aside : Message → Bool
is_aside m = role_is_aside m.role

-- The loop of the agent: actions, an observation right behind any of them, and asides.
abbrev pub IsLoop : Bool → List Message → Type 0
IsLoop acted [] = Unit
IsLoop acted (m ∷ ms) =
    (((acted && is_tool m) || (acts m || is_aside m)) ≡ true) × IsLoop (acts m) ms

abbrev pub without_reasoning : TrajectoryStep → TrajectoryStep
without_reasoning s = record s { reasoning_content = [] }

tool_role : (r : Role) → role_is_tool r ≡ true → r ≡ tool
tool_role tool h = refl
tool_role system h = cc
tool_role user h = cc
tool_role assistant h = cc
tool_role (other t) h = cc

assistant_role : (r : Role) → role_is_assistant r ≡ true → r ≡ assistant
assistant_role assistant h = refl
assistant_role system h = cc
assistant_role user h = cc
assistant_role tool h = cc
assistant_role (other t) h = cc

aside_role : (r : Role) → role_is_aside r ≡ true → (r ≡ system) ⊎ ((t : Text) × (r ≡ other t))
aside_role system h = inl refl
aside_role (other t) h = inr (t, refl)
aside_role user h = cc
aside_role assistant h = cc
aside_role tool h = cc

observing_lem : (m : Message) → m.role ≡ tool → acts m ≡ false
unfolding acts
observing_lem m h = ground (arith, h)

acting_role : (m : Message) → acts m ≡ true → is_assistant m ≡ true
unfolding acts
acting_role m h = ground arith

module _ (json : Codec) where
  unfoldable pub acting_step : Message → TrajectoryStep
  unfolding parse_tool_calls
  acting_step m = record {
    role = assistant;
    content = or_empty m.content;
    tool_calls = parse_tool_calls json m.tool_calls;
    tool_call_id = [];
    name = [];
    reasoning_content = or_blank m.reasoning_content;
  }

  -- Besides the actions, only a tool message right behind one is a step.
  unfoldable pub collect_from : Bool → List Message → List TrajectoryStep
  collect_from acted [] = []
  collect_from acted (m ∷ ms) =
      let observed = step_of json m ∷ collect_from false ms in
      let next = acting_step m ∷ collect_from true ms in
      let skipped = collect_from false ms in
      if acted && is_tool m then observed else if acts m then next else skipped

  unfoldable pub from_collect_dict : Text → List Message → Result Collected
  unfolding first_content collect_from
  from_collect_dict uid messages = do
    task ← first_content role_is_user messages
    prompt ← first_content role_is_system messages
    ok (record {
      task = task;
      steps = collect_from false messages;
      trajectory_id = uid;
      agent_system_prompt = prompt;
    })

  steps_from-assistant :
      (seen : Bool) (m : Message) (ms : List Message)
      → m.role ≡ assistant
      → steps_from json seen (m ∷ ms) ≡ step_of json m ∷ steps_from json seen ms
  unfolding steps_from
  steps_from-assistant seen m ms h = ground (arith, h)

  steps_from-tool :
      (seen : Bool) (m : Message) (ms : List Message)
      → m.role ≡ tool
      → steps_from json seen (m ∷ ms) ≡ step_of json m ∷ steps_from json seen ms
  unfolding steps_from
  steps_from-tool seen m ms h = ground (arith, h)

  acting_lem :
      (m : Message) → m.role ≡ assistant → without_reasoning (acting_step m) ≡ step_of json m
  unfolding acting_step step_of
  acting_lem m h = ground (arith, h)

  observed_lem : (m : Message) → without_reasoning (step_of json m) ≡ step_of json m
  unfolding step_of
  observed_lem m = refl

  steps_from-aside :
      (seen : Bool) (m : Message) (ms : List Message)
      → is_aside m ≡ true
      → steps_from json seen (m ∷ ms) ≡ steps_from json seen ms
  unfolding steps_from
  steps_from-aside seen m ms h = elim (aside_role m.role h) [
    | inl e ↦ ground (arith, e)
    | inr (t, e) ↦ ground (arith, e)
  ]

  collect_from-IsLoop :
      (acted : Bool) (ms : List Message)
      → IsLoop acted ms
      → map without_reasoning (collect_from acted ms) ≡ steps_from json true ms
  unfolding collect_from
  collect_from-IsLoop acted [] h = unfold steps_from in refl
  collect_from-IsLoop acted (m ∷ ms) (h, rest) = elim (Bool-cases (acted && is_tool m)) [
    | inl e ↦
        let is_output : m.role ≡ tool = tool_role m.role (ground (arith, e)) in
        let loop : IsLoop false ms = subst (λ b. IsLoop b ms) (observing_lem m is_output) rest in
        rw e (
          ap₂ (λ s ss. s ∷ ss) (observed_lem m) (collect_from-IsLoop false ms loop)
          ∙ sym (steps_from-tool true m ms is_output))
    | inr no_output ↦ elim (Bool-cases (acts m)) [
      | inl e ↦
          let acting : m.role ≡ assistant = assistant_role m.role (acting_role m e) in
          rw (no_output, e)
            (ap₂ (λ s ss. s ∷ ss) (acting_lem m acting) (collect_from-IsLoop true ms (rw e at rest))
              ∙ sym (steps_from-assistant true m ms acting))
      | inr e ↦
          rw (no_output, e)
            (collect_from-IsLoop false ms (rw e at rest)
              ∙ sym (steps_from-aside true m ms (ground (arith, h, no_output, e))))
    ]
  ]

  -- Where behind the system prompt and the task each message is an action (an assistant message with
  -- tool calls), a tool message right behind an action, or of another role than the user, the assistant
  -- and a tool (as the final exit is), reading the recorded run gives the steps that the live agent's
  -- messages give, but for the reasoning, which only a recorded run keeps, with the two texts as its
  -- task and its prompt.
  pub from_collect_dict-messages_to_steps :
      (uid prompt task : Text) (ms : List Message)
      → IsLoop false ms
      → let messages = plain system prompt ∷ plain user task ∷ ms in
        (steps : List TrajectoryStep) × (from_collect_dict uid messages
          ≡ ok (record {
            task = text task;
            steps = steps;
            trajectory_id = uid;
            agent_system_prompt = text prompt;
          }))
        × (map without_reasoning steps ≡ messages_to_steps json messages)
  unfolding from_collect_dict messages_to_steps acts
  from_collect_dict-messages_to_steps uid prompt task ms h =
      (collect_from false ms, refl, collect_from-IsLoop false ms h)
