-- ===== src/Trajectory/SweAgent.antt =====
-- `from_swe_agent_dict` of src/tts/data/agent_trajectory.py: the steps of a SWE-agent history.
use tts_tokens_that_suffice.Prelude.{
  ℕ, Option, ◌≡◌, refl, inl, inr, Bool, false, ◌&&◌, none, some, List, [], ◌∷◌, if◌then◌else◌,
  Bool-cases, take, drop, any, Text, codes,
}
use tts_tokens_that_suffice.Message.{Content, Message, text, missing, is_assistant, tool}
use tts_tokens_that_suffice.Trajectory.{TrajectoryStep, AgentTrajectory}
use tts_tokens_that_suffice.Trajectory.Collected.{role_is_system, role_is_user}

-- msg.get("content", "")
abbrev pub or_no_content : Content → Content
or_no_content missing = text []
or_no_content c = c

-- The steps of a SWE-agent history: a user message behind a step of the assistant is the output of a
-- tool.
unfoldable pub swe_step : Bool → Message → TrajectoryStep
swe_step acted m =
    let is_output = acted && role_is_user m.role in
    record {
      role = if is_output then tool else m.role;
      content = or_no_content m.content;
      tool_calls = [];
      tool_call_id = [];
      name = if is_output then codes "bash" else [];
      reasoning_content = [];
    }

unfoldable pub swe_steps : Bool → List Message → List TrajectoryStep
unfolding swe_step
swe_steps acted [] = []
swe_steps acted (m ∷ ms) =
    let skipped = swe_steps acted ms in
    let taken = swe_step acted m ∷ swe_steps (is_assistant m) ms in
    if role_is_system m.role then skipped else taken

unfoldable pub from_swe_agent_dict :
    (task trajectory_id summary_text : Text) → Option ℕ → List Message → AgentTrajectory
unfolding swe_steps
from_swe_agent_dict task trajectory_id summary_text cutpoint history =
    let front : List Message = elim cutpoint [ none ↦ history | some n ↦ take n history ] in
    let behind : List Message = elim cutpoint [ none ↦ [] | some n ↦ drop n history ] in
    record {
      task = task;
      steps = swe_steps false front;
      continuation = swe_steps false behind;
      summary = summary_text;
      trajectory_id = trajectory_id;
      agent_system_prompt = [];
    }

-- A history is moved to the steps and the continuation by their roles: no system message is a step.
pub swe_steps_roles :
    (acted : Bool) (ms : List Message)
    → any (λ s. role_is_system s.role) (swe_steps acted ms) ≡ false
unfolding swe_steps
swe_steps_roles acted [] = refl
swe_steps_roles acted (m ∷ ms) = elim (Bool-cases (role_is_system m.role)) [
  | inl e ↦ rw e (swe_steps_roles acted ms)
  | inr e ↦ elim (Bool-cases (acted && role_is_user m.role)) [
    | inl out ↦ rw (e, out) (swe_steps_roles (is_assistant m) ms)
    | inr no_out ↦ rw (e, no_out) (rw e (swe_steps_roles (is_assistant m) ms))
  ]
]
