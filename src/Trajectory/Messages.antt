-- ===== src/Trajectory/Messages.antt =====
-- `steps_to_messages` of src/tts/data/agent_trajectory.py. `reload` is `json.loads` of arguments that
-- are no object.
use tts_tokens_that_suffice.Trajectory.{TrajectoryStep, StepCall}
use tts_tokens_that_suffice.Prelude.{
  ℕ, suc, Option, none, some, List, [], ◌∷◌, ◌++◌, if◌then◌else◌, Text, codes, decimal, Result,
  ◌>>=◌, ok,
}
use tts_tokens_that_suffice.Message.{
  Json, object, Role, Message, not_object, ToolCall, Content, role_is_assistant, plain, parsed,
  assistant, system, user,
}

-- tc.id or f"call_{i}"
unfoldable pub id_or_index : Text → ℕ → Text
unfolding decimal
id_or_index [] i = codes "call_" ++ decimal i
id_or_index (c ∷ s) i = c ∷ s

abbrev pub bare : Role → Content → Message
bare r c = record {
  role = r;
  content = c;
  reasoning_content = none;
  tool_calls = [];
  tool_call_id = none;
}

abbrev pub or_no_text : Text → Option Text
or_no_text [] = none
or_no_text (c ∷ s) = some (c ∷ s)

module _ (reload : Text → Result Json) where
  unfoldable pub call_arguments : Json → Result Json
  call_arguments (object d) = ok (object d)
  call_arguments (not_object t) = reload t

  -- The calls of a step, from the index `i` on.
  unfoldable pub wire_calls : ℕ → List StepCall → Result (List ToolCall)
  unfolding call_arguments id_or_index
  wire_calls i [] = ok []
  wire_calls i (tc ∷ tcs) =
      let rest = wire_calls (suc i) tcs in
      call_arguments tc.arguments >>= λ args. rest >>= λ calls. ok (
        record {
          id = some (id_or_index tc.id i);
          name = some tc.name;
          arguments = some (parsed args);
        }
        ∷ calls)

  unfoldable pub message_of : TrajectoryStep → Result Message
  unfolding wire_calls
  message_of s =
      if role_is_assistant s.role
      then (wire_calls 0 s.tool_calls >>= λ calls. ok (record (bare assistant s.content) {
        reasoning_content = or_no_text s.reasoning_content;
        tool_calls = calls;
      }))
      else ok (bare s.role s.content)

  unfoldable pub messages_of : List TrajectoryStep → Result (List Message)
  unfolding message_of
  messages_of [] = ok []
  messages_of (s ∷ steps) =
      let rest = messages_of steps in message_of s >>= λ m. rest >>= λ ms. ok (m ∷ ms)

  unfoldable pub steps_to_messages : List TrajectoryStep → Text → Text → Result (List Message)
  unfolding messages_of
  steps_to_messages steps task system_prompt =
      messages_of steps >>= λ ms. ok (plain system system_prompt ∷ plain user task ∷ ms)
