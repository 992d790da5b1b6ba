-- ===== src/Sweep/Rows.antt =====
-- `sweep_one` of src/tts/sweep_reward.py writes a row at least, for at least one spec.
use tts_tokens_that_suffice.Prelude.{
  ℕ, ◌*◌, ◌<◌, ◌≡◌, not, Option, none, some, List, [], ◌∷◌, if◌then◌else◌, ◌==◌, any, Text, Error,
  Result, err, ok, arith, length, ok_injective, subst, ◌>>=◌, >>=-eq-ok,
}
use tts_tokens_that_suffice.Sweep.{
  Row, sweep_one, rows_of, scored_unit, summarized_unit, unit_rows, first_assistant, prompt_or,
  third_message, row_of, compaction_tokens,
}
use tts_tokens_that_suffice.Reward.Floats.{Floats}
use tts_tokens_that_suffice.Reward.Distortion.{
  Scorer, XContext, precompute_x_context, distortion_reward_messages,
}
use tts_tokens_that_suffice.Message.{Json, Message}
use tts_tokens_that_suffice.Trajectory.{TrajectoryStep, AgentTrajectory, with_prefix}
use tts_tokens_that_suffice.Sweep.Specs.{Spec, spec_context}
use tts_tokens_that_suffice.Trajectory.Messages.{steps_to_messages}

module _ {F : Type 0} (f : Floats F) (s : Scorer F) (reload : Text → Result Json)
    (default_prompt : Text) (str_error : Error → Text)
    (summarize : List TrajectoryStep → Result Text) (spec : Spec) (specs : List Spec) where
  rows_of-rows :
      (x_ctx : XContext F) (z : Text) (ms : List Message) (t : AgentTrajectory)
      (rows : List (Row F))
      → rows_of f s reload default_prompt str_error x_ctx z ms t (spec ∷ specs) ≡ ok rows
      → 0 < length rows
  unfolding rows_of
  rows_of-rows x_ctx z ms t rows h =
      let rest = rows_of f s reload default_prompt str_error x_ctx z ms t specs in
      let context = spec_context s.py z ms spec in
      let r = distortion_reward_messages f s x_ctx context.0 context.1 in
      let row : ℕ → Row F = λ cost. row_of f s reload default_prompt str_error spec cost r in
      let (cost, cost_is, h') =
        >>=-eq-ok
          (compaction_tokens f s reload default_prompt str_error t spec.keep_first
            spec.keep_last_turns)
          (λ cost. rest >>= λ rows. ok (row cost ∷ rows)) h in
      let (others, others_are, h'') = >>=-eq-ok rest (λ rows. ok (row cost ∷ rows)) h' in
      subst (λ l. 0 < length l) (ok_injective _ _ h'') (omega arith)

  scored_unit-rows :
      (x : Option (XContext F)) (z : Text) (ms : List Message) (t : AgentTrajectory)
      (rows : List (Row F))
      → scored_unit f s reload default_prompt str_error x z ms t (spec ∷ specs) ≡ ok rows
      → 0 < length rows
  unfolding scored_unit
  scored_unit-rows none z ms t rows h = subst (λ l. 0 < length l) (ok_injective _ _ h) (omega arith)
  scored_unit-rows (some x) z ms t rows h = rows_of-rows x z ms t rows h

  summarized_unit-rows :
      (o : Result Text) (action : Message) (ms : List Message) (t : AgentTrajectory)
      (rows : List (Row F))
      → summarized_unit f s reload default_prompt str_error o action ms t (spec ∷ specs) ≡ ok rows
      → 0 < length rows
  unfolding summarized_unit
  summarized_unit-rows (err e) action ms t rows h =
      subst (λ l. 0 < length l) (ok_injective _ _ h) (omega arith)
  summarized_unit-rows (ok z) action ms t rows h =
      let (x, x_is, h') =
        >>=-eq-ok (precompute_x_context s ms action)
          (λ x. scored_unit f s reload default_prompt str_error x z ms t (spec ∷ specs)) h in
      scored_unit-rows x z ms t rows h'

  unit_rows-rows :
      (o : Option TrajectoryStep) (prompt : Text) (t : AgentTrajectory) (rows : List (Row F))
      → unit_rows f s reload default_prompt str_error summarize prompt t (spec ∷ specs) o ≡ ok rows
      → 0 < length rows
  unfolding unit_rows
  unit_rows-rows none prompt t rows h = subst (λ l. 0 < length l) (ok_injective _ _ h) (omega arith)
  unit_rows-rows (some a) prompt t rows h =
      let z =
        if any (λ spec. not (spec.max_size == 0)) (spec ∷ specs)
        then summarize t.steps
        else ok [] in
      let unit : List Message → Message → Result (List (Row F)) = λ ms action.
        summarized_unit f s reload default_prompt str_error z action ms t (spec ∷ specs) in
      let (ms, ms_are, h') =
        >>=-eq-ok (steps_to_messages reload t.steps t.task prompt)
          (λ ms. steps_to_messages reload (a ∷ []) t.task prompt >>= λ alone.
            third_message alone >>= unit ms)
          h in
      let (alone, alone_is, h'') =
        >>=-eq-ok (steps_to_messages reload (a ∷ []) t.task prompt)
          (λ alone. third_message alone >>= unit ms) h' in
      let (action, action_is, last) = >>=-eq-ok (third_message alone) (unit ms) h'' in
      summarized_unit-rows z action ms t rows last

  pub sweep_one-rows :
      (t : AgentTrajectory) (k : ℕ) (rows : List (Row F))
      → sweep_one f s reload default_prompt str_error summarize t k (spec ∷ specs) ≡ ok rows
      → 0 < length rows
  unfolding sweep_one
  sweep_one-rows t k rows h =
      let split = with_prefix t (k * 2) in
      unit_rows-rows (first_assistant split.continuation)
        (prompt_or default_prompt t.agent_system_prompt) split rows h
