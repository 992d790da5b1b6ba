-- ===== src/Trajectory/Replay.antt =====
-- The round trip of src/tts/data/agent_trajectory.py: steps written as messages and read again.
use tts_tokens_that_suffice.Prelude.{
  ℕ, suc, ◌≡◌, refl, Bool, true, false, ◌&&◌, List, [], ◌∷◌, arith, if◌then◌else◌, Text, Result, ok,
  ap₂, ◌∙◌, none, some, map,
}
use tts_tokens_that_suffice.Message.{
  Role, Json, Codec, user, object, or_empty, ToolCall, Message, assistant, not_object,
  role_is_assistant, tool, parsed, other, system, plain,
}
use tts_tokens_that_suffice.Trajectory.{
  StepCall, TrajectoryStep, parse_tool_calls, step_of, steps_from, messages_to_steps,
}
use tts_tokens_that_suffice.Trajectory.Messages.{
  id_or_index, wire_calls, message_of, call_arguments, or_no_text, messages_of, steps_to_messages,
  bare,
}

-- A step that a message can carry: a role of the agent's loop, and calls whose arguments are objects.
abbrev pub is_step_role : Role → Bool
is_step_role user = true
is_step_role assistant = true
is_step_role tool = true
is_step_role _ = false

abbrev pub is_object : Json → Bool
is_object (object d) = true
is_object (not_object t) = false

abbrev pub all_objects : List StepCall → Bool
all_objects [] = true
all_objects (tc ∷ tcs) = is_object tc.arguments && all_objects tcs

abbrev pub is_replayable : TrajectoryStep → Bool
is_replayable s = is_step_role s.role && all_objects s.tool_calls

abbrev pub AllReplayable : List TrajectoryStep → Type 0
AllReplayable [] = Unit
AllReplayable (s ∷ steps) = (is_replayable s ≡ true) × AllReplayable steps

-- What comes back of the calls of a step, from the index `i` on: each with an id.
abbrev pub numbered : ℕ → List StepCall → List StepCall
numbered i [] = []
numbered i (tc ∷ tcs) =
    record { name = tc.name; arguments = tc.arguments; id = id_or_index tc.id i }
    ∷ numbered (suc i) tcs

-- What comes back of a step: its role, its content and its calls, and nothing else.
abbrev pub restored : TrajectoryStep → TrajectoryStep
restored s = record {
  role = s.role;
  content = or_empty s.content;
  tool_calls = if role_is_assistant s.role then numbered 0 s.tool_calls else [];
  tool_call_id = [];
  name = [];
  reasoning_content = [];
}

role_step :
    (r : Role)
    → is_step_role r ≡ true
    → (s : TrajectoryStep) (rest : List TrajectoryStep)
    → elim r as (λ x. List TrajectoryStep) [
      | system ↦ rest
      | user ↦ if true then s ∷ rest else rest
      | assistant ↦ s ∷ rest
      | tool ↦ s ∷ rest
      | other q ↦ rest
    ]
      ≡ s ∷ rest
role_step user h s rest = refl
role_step assistant h s rest = refl
role_step tool h s rest = refl
role_step system h s rest = absurd (cc)
role_step (other q) h s rest = absurd (cc)

module _ (json : Codec) (reload : Text → Result Json) where
  abbrev Calls : ℕ → List StepCall → Type 0
  Calls i tcs =
      (calls : List ToolCall) × (wire_calls reload i tcs ≡ ok calls)
      × (parse_tool_calls json calls ≡ numbered i tcs)

  wire_call :
      (i : ℕ) (tc : StepCall) (tcs : List StepCall) (j : Json)
      → tc.arguments ≡ j
      → is_object j ≡ true
      → Calls (suc i) tcs
      → Calls i (tc ∷ tcs)
  unfolding wire_calls parse_tool_calls call_arguments
  wire_call i tc tcs (object d) same h (calls, e, p) = (
    record {
      id = some (id_or_index tc.id i);
      name = some tc.name;
      arguments = some (parsed (object d));
    }
        ∷ calls,
    rw (same, e) refl,
    rw (same, p) refl,
  )
  wire_call i tc tcs (not_object t) same h later = absurd (cc)

  wire_all : (i : ℕ) (tcs : List StepCall) → all_objects tcs ≡ true → Calls i tcs
  unfolding wire_calls parse_tool_calls
  wire_all i [] h = ([], refl, refl)
  wire_all i (tc ∷ tcs) h =
      wire_call i tc tcs tc.arguments refl (ground arith) (wire_all (suc i) tcs (ground arith))

  abbrev Sent : TrajectoryStep → Type 0
  Sent s =
      (m : Message) × (message_of reload s ≡ ok m)
      × (m.role ≡ s.role)
      × (step_of json m ≡ restored s)

  send_role :
      (s : TrajectoryStep) (r : Role)
      → s.role ≡ r
      → is_step_role r ≡ true
      → Calls 0 s.tool_calls
      → Sent s
  unfolding message_of step_of parse_tool_calls
  send_role s assistant same h (calls, e, p) = (
    record {
      role = assistant;
      content = s.content;
      reasoning_content = or_no_text s.reasoning_content;
      tool_calls = calls;
      tool_call_id = none;
    },
    rw (same, e) refl,
    rw same refl,
    rw (same, p) refl,
  )
  send_role s user same h c = (bare user s.content, rw same refl, rw same refl, rw same refl)
  send_role s tool same h c = (bare tool s.content, rw same refl, rw same refl, rw same refl)
  send_role s system same h c = absurd (cc)
  send_role s (other r) same h c = absurd (cc)

  -- A message of such a role, behind the task, is a step.
  steps_from-cons :
      (m : Message) (ms : List Message)
      → is_step_role m.role ≡ true
      → steps_from json true (m ∷ ms) ≡ step_of json m ∷ steps_from json true ms
  unfolding steps_from
  steps_from-cons m ms h = role_step m.role h (step_of json m) (steps_from json true ms)

  replay :
      (steps : List TrajectoryStep)
      → AllReplayable steps
      → (ms : List Message) × (messages_of reload steps ≡ ok ms)
        × (steps_from json true ms ≡ map restored steps)
  unfolding messages_of steps_from
  replay [] h = ([], refl, refl)
  replay (s ∷ steps) (h, later) =
      let role_ok : is_step_role s.role ≡ true = ground arith in
      let (m, e, same, q) =
        send_role s s.role refl role_ok (wire_all 0 s.tool_calls (ground arith)) in
      let (ms, es, qs) = replay steps later in
      (
        m ∷ ms,
        rw (e, es) refl,
        steps_from-cons m ms (rw same role_ok)
            ∙ ap₂ (λ (t : TrajectoryStep) (ts : List TrajectoryStep). t ∷ ts) q qs,
      )

  -- Steps of the agent's loop whose calls have objects as arguments can be written as messages, and
  -- `messages_to_steps` reads each of them again, without its tool call id, its name and its
  -- reasoning, and with an id for each call.
  pub messages_to_steps-steps_to_messages :
      (steps : List TrajectoryStep) (task system_prompt : Text)
      → AllReplayable steps
      → (ms : List Message) × (steps_to_messages reload steps task system_prompt ≡ ok ms)
        × (messages_to_steps json ms ≡ map restored steps)
  unfolding steps_to_messages messages_to_steps steps_from
  messages_to_steps-steps_to_messages steps task system_prompt h =
      let (ms, e, q) = replay steps h in
      (plain system system_prompt ∷ plain user task ∷ ms, rw e refl, q)
