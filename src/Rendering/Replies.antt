-- ===== src/Rendering/Replies.antt =====
-- The laws of src/tts/reward/utils.py: a reconstructed generation is what the template writes behind the
-- prompt, and parsing the arguments of tool calls early changes no step.
use tts_tokens_that_suffice.Prelude.{
  ℕ, zero, suc, ◌≡◌, refl, ap, ap₂, ◌∙◌, inl, inr, true, [], ◌∷◌, ◌++◌, arith, ◌==◌, Bool-cases,
  length, drop, Text, starts_with, is_nonempty, sym, Bool, false, not, ◌&&◌, Option, none, some,
  List, if◌then◌else◌, ok_injective, value_error, err, ok,
}
use tts_tokens_that_suffice.Rendering.{
  rstrip_newlines, Generation, generation_of, reconstruct_generation, Template, template_arguments,
  template_calls, to_template_tool_calls,
}
use tts_tokens_that_suffice.Message.{
  Codec, Message, Arguments, ToolCall, parsed, json_text, Role, system, other, user, assistant,
  tool,
}
use tts_tokens_that_suffice.Trajectory.{
  parse_arguments, parse_tool_calls, step_of, steps_from, messages_to_steps, TrajectoryStep,
}

starts_with-drop : (s p : Text) → starts_with s p ≡ true → s ≡ p ++ drop (length p) s
unfolding starts_with
starts_with-drop s [] h = refl
starts_with-drop [] (d ∷ p) h = absurd (cc)
starts_with-drop (c ∷ s) (d ∷ p) h =
    let same : c ≡ d = ground arith in
    ap₂ (λ (x : ℕ) (r : Text). x ∷ r) same (starts_with-drop s p (ground arith))

abbrev pub newlines : ℕ → Text
newlines zero = []
newlines (suc k) = 10 ∷ newlines k

-- One character more, whose test for a newline gave `b`.
rstrip_one :
    (c : ℕ) (s : Text) (k : ℕ) (r : Text) (b : Bool)
    → s ≡ r ++ newlines k
    → (c == 10) ≡ b
    → (j : ℕ) × (c ∷ s ≡ (if b && not (is_nonempty r) then [] else c ∷ r) ++ newlines j)
rstrip_one c s k r false e h = (k, ap (λ l. c ∷ l) e)
rstrip_one c s k (x ∷ r) true e h = (k, ap (λ l. c ∷ l) e)
rstrip_one c s k [] true e h =
    let newline : c ≡ 10 = ground arith in (suc k, ap₂ (λ (x : ℕ) (l : Text). x ∷ l) newline e)

rstrip_newlines-append : (s : Text) → (k : ℕ) × (s ≡ rstrip_newlines s ++ newlines k)
unfolding rstrip_newlines
rstrip_newlines-append [] = (0, refl)
rstrip_newlines-append (c ∷ s) =
    let (k, e) = rstrip_newlines-append s in rstrip_one c s k (rstrip_newlines s) (c == 10) e refl

-- Whether the last character of a text is a newline.
abbrev pub ends_in_newline : Text → Bool
ends_in_newline [] = false
ends_in_newline (c ∷ []) = c == 10
ends_in_newline (c ∷ d ∷ s) = ends_in_newline (d ∷ s)

strip_one :
    (c : ℕ) (r : Text) (b : Bool)
    → (c == 10) ≡ b
    → ends_in_newline r ≡ false
    → ends_in_newline (if b && not (is_nonempty r) then [] else c ∷ r) ≡ false
strip_one c [] true e h = refl
strip_one c [] false e h = e
strip_one c (d ∷ r) true e h = h
strip_one c (d ∷ r) false e h = h

rstrip_newlines-ends : (s : Text) → ends_in_newline (rstrip_newlines s) ≡ false
unfolding rstrip_newlines
rstrip_newlines-ends [] = refl
rstrip_newlines-ends (c ∷ s) =
    strip_one c (rstrip_newlines s) (c == 10) refl (rstrip_newlines-ends s)

-- What a reconstructed generation is of the two renders.
pub record IsGenerated (encode : Text → List ℕ) (full prompt : Text) (g : Generation) : Type 0 where
  pub separators : ℕ
  pub whole : full ≡ prompt ++ (g.generated ++ newlines separators)
  pub stripped : ends_in_newline g.generated ≡ false
  pub encoded : g.token_ids ≡ encode g.generated

generation_of-IsGenerated :
    (encode : Text → List ℕ) (recorded : Option ℕ) (full prompt : Text) (g : Generation)
    → generation_of encode recorded full prompt ≡ ok g
    → IsGenerated encode full prompt g
unfolding generation_of
generation_of-IsGenerated encode recorded full prompt g h =
    elim (Bool-cases (starts_with full prompt)) [
      | inr apart ↦ let bad : err value_error ≡ ok g = rw apart at h in absurd (cc)
      | inl begins ↦
          let written = rstrip_newlines (drop (length prompt) full) in
          let (k, e) = rstrip_newlines-append (drop (length prompt) full) in
          let same : record {
            generated = written;
            token_ids = encode written;
            recorded_n_tokens = recorded;
          }
              ≡ g =
            ok_injective _ g (rw begins at h) in
          let text_is : written ≡ g.generated = ap (λ x. x.generated) same in
          record {
            separators = k;
            whole =
                starts_with-drop full prompt begins
                ∙ ap (λ l. prompt ++ l) (e ∙ ap (λ l. l ++ newlines k) text_is);
            stripped =
                sym (ap ends_in_newline text_is) ∙ rstrip_newlines-ends (drop (length prompt) full);
            encoded = sym (ap (λ x. x.token_ids) same) ∙ ap encode text_is;
          }
    ]

-- Where `reconstruct_generation` returns, the render of the context and the turn is the prompt, the
-- text of the generation, which does not end in a newline, and newlines, none or more, and the token
-- ids are the encoding of that text.
pub reconstruct_generation-IsGenerated :
    (json : Codec) (template : Template) (encode : Text → List ℕ) (recorded : Option ℕ)
    (context : List Message) (m : Message) (g : Generation)
    → reconstruct_generation json template encode recorded context m ≡ ok g
    → let ctx = to_template_tool_calls json context in
      IsGenerated encode
        (template (ctx ++ to_template_tool_calls json (m ∷ [])) false)
        (template ctx true)
        g
unfolding reconstruct_generation
reconstruct_generation-IsGenerated json template encode recorded context m g h =
    generation_of-IsGenerated encode recorded _ _ g h

module _ (json : Codec) where
  parse_arguments-template :
      (a : Option Arguments)
      → parse_arguments json (template_arguments json a) ≡ parse_arguments json a
  unfolding parse_arguments template_arguments
  parse_arguments-template none = refl
  parse_arguments-template (some (parsed j)) = refl
  parse_arguments-template (some (json_text t)) = refl

  parse_tool_calls-template :
      (tcs : List ToolCall)
      → parse_tool_calls json (template_calls json tcs) ≡ parse_tool_calls json tcs
  unfolding parse_tool_calls template_calls
  parse_tool_calls-template [] = refl
  parse_tool_calls-template (tc ∷ tcs) =
      rw (parse_arguments-template tc.arguments, parse_tool_calls-template tcs) refl

  step_of-template :
      (m : Message)
      → step_of json (record m { tool_calls = template_calls json m.tool_calls }) ≡ step_of json m
  unfolding step_of
  step_of-template m = rw (parse_tool_calls-template m.tool_calls) refl

  abbrev by_role :
      Role → Bool → TrajectoryStep → (kept behind_task : List TrajectoryStep) → List TrajectoryStep
  by_role r seen s kept behind_task = elim r [
    | system ↦ kept
    | user ↦ if seen then s ∷ behind_task else behind_task
    | assistant ↦ s ∷ kept
    | tool ↦ s ∷ kept
    | other q ↦ kept
  ]

  steps_from-template :
      (seen : Bool) (ms : List Message)
      → steps_from json seen (to_template_tool_calls json ms) ≡ steps_from json seen ms
  unfolding steps_from to_template_tool_calls
  steps_from-template seen [] = refl
  steps_from-template seen (m ∷ ms) =
      ap
        (λ (s : TrajectoryStep).
          by_role m.role seen s (steps_from json seen (to_template_tool_calls json ms))
            (steps_from json true (to_template_tool_calls json ms)))
        (step_of-template m)
      ∙ ap₂
          (λ (kept behind_task : List TrajectoryStep).
            by_role m.role seen (step_of json m) kept behind_task)
          (steps_from-template seen ms) (steps_from-template true ms)

  -- The steps of messages whose arguments have been parsed for the template are those of the messages.
  pub messages_to_steps-to_template_tool_calls :
      (ms : List Message)
      → messages_to_steps json (to_template_tool_calls json ms) ≡ messages_to_steps json ms
  unfolding messages_to_steps
  messages_to_steps-to_template_tool_calls ms = steps_from-template false ms
