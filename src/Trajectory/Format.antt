-- ===== src/Trajectory/Format.antt =====
-- The text of a trajectory for the summarizer, src/tts/data/agent_trajectory.py. `Style` is Python's
-- own rendering: `json.dumps` with an indent of 2, the truth value of a JSON value that is no object,
-- and `repr` of a text.
use tts_tokens_that_suffice.Prelude.{
  ℕ, suc, Bool, true, false, List, [], ◌∷◌, ◌++◌, if◌then◌else◌, Text, codes, join, is_nonempty,
  decimal, Result, ◌>>=◌, type_error, err, ok,
}
use tts_tokens_that_suffice.Message.{
  Json, Content, Role, text, object, other, assistant, Message, parts, not_object, system, tool,
  plain, missing, user, null,
}
use tts_tokens_that_suffice.Trajectory.{StepCall, TrajectoryStep, AgentTrajectory}

pub record Style : Type 0 where
  pub dumps_indented : Json → Text
  pub holds : Text → Bool
  pub quoted : Text → Text

-- A text for `"\n".join`; any other value raises.
unfoldable pub as_text : Content → Result Text
as_text (text t) = ok t
as_text c = err type_error

-- bool(step.content)
abbrev pub has_content : Content → Bool
has_content missing = false
has_content null = false
has_content (text t) = is_nonempty t
has_content (parts []) = false
has_content (parts (p ∷ ps)) = true

module _ (style : Style) where
  abbrev pub is_truthy : Json → Bool
  is_truthy (object []) = false
  is_truthy (object (e ∷ es)) = true
  is_truthy (not_object t) = style.holds t

  -- `_format_tool_call`
  unfoldable pub format_tool_call : StepCall → Text
  format_tool_call tc =
      codes "Action: "
      ++ (tc.name
          ++ (codes "\n"
              ++ (if is_truthy tc.arguments
                  then style.dumps_indented tc.arguments
                  else codes "{}")))

  unfoldable pub format_calls : List StepCall → List Text
  unfolding format_tool_call
  format_calls [] = []
  format_calls (tc ∷ tcs) = format_tool_call tc ∷ format_calls tcs

  abbrev pub role_text : Role → Text
  role_text system = codes "system"
  role_text user = codes "user"
  role_text assistant = codes "assistant"
  role_text tool = codes "tool"
  role_text (other t) = t

  abbrev pub observation : Text → Text
  observation [] = codes "observation"
  observation (c ∷ s) = (c ∷ s) ++ codes " observation"

  -- The label and the parts of a step.
  unfoldable pub step_parts : TrajectoryStep → Text × Result (List Text)
  unfolding as_text format_calls
  step_parts s = elim s.role [
    | assistant ↦ (
      codes "assistant",
      if has_content s.content
          then (as_text s.content >>= λ t. ok (t ∷ format_calls s.tool_calls))
          else ok (format_calls s.tool_calls),
    )
    | tool ↦ (observation s.name, as_text s.content >>= λ t. ok (t ∷ []))
    | r ↦ (role_text r, as_text s.content >>= λ t. ok (t ∷ []))
  ]

  -- `_format_step`
  unfoldable pub format_step : TrajectoryStep → Result Text
  unfolding step_parts join
  format_step s =
      let (label, body) = step_parts s in
      body >>= λ ts. ok (
        codes "<EVENT type="
        ++ (style.quoted label ++ (codes ">\n" ++ (join (codes "\n") ts ++ codes "\n</EVENT>"))))

  unfoldable pub format_steps : List TrajectoryStep → Result (List Text)
  unfolding format_step
  format_steps [] = ok []
  format_steps (s ∷ steps) =
      let rest = format_steps steps in format_step s >>= λ t. rest >>= λ ts. ok (t ∷ ts)

  -- Over all the steps, as the summarizers call it.
  unfoldable pub format_trajectory_text : List TrajectoryStep → Result Text
  unfolding format_steps join
  format_trajectory_text steps = format_steps steps >>= λ ts. ok (join (codes "\n\n") ts)

  unfoldable pub number_steps : ℕ → List TrajectoryStep → Result (List Text)
  unfolding format_step decimal
  number_steps i [] = ok []
  number_steps i (s ∷ steps) =
      let rest = number_steps (suc i) steps in
      format_step s >>= λ t.
      rest >>= λ ts. ok ((codes "[STEP " ++ (decimal i ++ (codes "]\n" ++ t))) ∷ ts)

  unfoldable pub format_trajectory_text_numbered : List TrajectoryStep → Result Text
  unfolding number_steps join
  format_trajectory_text_numbered steps = number_steps 0 steps >>= λ ts. ok (join (codes "\n\n") ts)

  unfoldable pub trajectory_to_conversation : AgentTrajectory → Text → Result (List Message)
  unfolding format_trajectory_text
  trajectory_to_conversation t system_prompt = format_trajectory_text t.steps >>= λ body.
      ok (plain system system_prompt ∷ plain user body ∷ plain assistant t.summary ∷ [])

  -- `summarizer_messages` of src/tts/summarization/model_based.py
  unfoldable pub summarizer_messages : List TrajectoryStep → Text → Result (List Message)
  unfolding format_trajectory_text
  summarizer_messages steps system_prompt = format_trajectory_text steps >>= λ body.
      ok (plain system system_prompt ∷ plain user body ∷ [])
