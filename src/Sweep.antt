-- ===== src/Sweep.antt =====
-- src/tts/sweep_reward.py: the turns at which a trajectory is split and the rows of one such unit,
-- with `compaction_tokens` of src/tts/data/agent_trajectory.py. The columns of a row that are
-- arguments of the unit are left out. `tokens` is the length of the tokenizer's answer for a slice of
-- steps, and `default_prompt` the constant AGENT_SYSTEM_PROMPT.
pub mod Specs
pub mod Layout
pub mod Turns
pub mod Run
pub mod Rows
pub mod Resumed
use tts_tokens_that_suffice.Prelude.{
  ℕ, zero, suc, ◌+◌, ◌-◌, ◌*◌, not, ◌||◌, Option, none, some, List, [], ◌∷◌, ◌++◌, ltb, ◌==◌,
  if◌then◌else◌, length, take, drop, any, Text, is_nonempty, Error, Result, ◌>>=◌, index_error, err,
  ok,
}
use tts_tokens_that_suffice.Reward.Floats.{Floats}
use tts_tokens_that_suffice.Trajectory.{
  TrajectoryStep, AgentTrajectory, turn_token_lens, with_prefix,
}
use tts_tokens_that_suffice.Sweep.Specs.{Spec, spec_context}
use tts_tokens_that_suffice.Message.{role_is_assistant, Message, Json}
use tts_tokens_that_suffice.Reward.Distortion.{
  Reward, Scorer, Rewarded, distortion_reward_messages, XContext, precompute_x_context, no_reward,
  rewarded,
}
use tts_tokens_that_suffice.Trajectory.Messages.{steps_to_messages}
use tts_tokens_that_suffice.Rendering.{messages_text}
use tts_tokens_that_suffice.Compaction.{last_n_turns}

pub record Range : Type 0 where
  pub min_tokens : ℕ
  pub max_tokens : ℕ
  pub min_prefix : ℕ
  pub min_suffix : ℕ

-- The turns of `lens`, behind `k` turns of `before` tokens, of a trajectory of `n` turns.
unfoldable pub split_turns : Range → ℕ → ℕ → ℕ → List ℕ → List (ℕ × ℕ)
split_turns cfg n k before [] = []
split_turns cfg n k before (tl ∷ lens) =
    let rest = split_turns cfg n (suc k) (before + tl) lens in
    if ltb (before + tl) cfg.min_tokens
    then rest
    else if ltb cfg.max_tokens (before + tl)
    then []
    else if ltb (suc k) cfg.min_prefix || ltb (n - suc k) cfg.min_suffix
    then rest
    else (suc k, before + tl) ∷ rest

-- xs[::stride], with `skip` elements to leave out first
unfoldable pub strided {ℓ} : {A : Type ℓ} → ℕ → ℕ → List A → List A
strided stride skip [] = []
strided stride zero (x ∷ xs) = x ∷ strided stride (stride - 1) xs
strided stride (suc skip) (x ∷ xs) = strided stride skip xs

unfoldable pub enumerate_split_turns :
    (List TrajectoryStep → ℕ) → Range → ℕ → AgentTrajectory → List (ℕ × ℕ)
unfolding turn_token_lens split_turns strided
enumerate_split_turns tokens cfg stride t =
    let turn_lens = turn_token_lens tokens t.steps in
    let out = split_turns cfg (length turn_lens) 0 0 turn_lens in
    if ltb 1 stride then strided stride 0 out else out

-- s.agent_system_prompt or AGENT_SYSTEM_PROMPT
unfoldable pub prompt_or : Text → Text → Text
prompt_or default_prompt given = if is_nonempty given then given else default_prompt

unfoldable pub first_assistant : List TrajectoryStep → Option TrajectoryStep
first_assistant [] = none
first_assistant (s ∷ ss) =
    let rest = first_assistant ss in if role_is_assistant s.role then some s else rest

-- What the status column of a row says, with what goes with it.
pub data Row (F : Type 0) : Type 0 where
  no_next_action : Row F
  summarize_failed : (error : Text) → Row F
  x_precompute_failed : Row F
  score_failed : (spec : Spec) (compaction_tokens : ℕ) (error : Text) → Row F
  scored_row : (spec : Spec) (compaction_tokens : ℕ) (reward : Reward F) → Row F

-- messages[2]
unfoldable pub third_message : List Message → Result Message
third_message (a ∷ b ∷ m ∷ ms) = ok m
third_message _ = err index_error

module _ {F : Type 0} (f : Floats F) (s : Scorer F) (reload : Text → Result Json)
    (default_prompt : Text) (str_error : Error → Text) where
  unfoldable pub compaction_tokens : AgentTrajectory → ℕ → ℕ → Result ℕ
  unfolding steps_to_messages messages_text last_n_turns
  compaction_tokens t keep_first keep_last_turns = do
    msgs ← steps_to_messages reload t.steps t.task default_prompt
    let verbatim =
        messages_text s.py
          (take keep_first msgs ++ last_n_turns (drop keep_first msgs) keep_last_turns)
    ok (if is_nonempty verbatim then length (s.encode verbatim) else 0)

  unfoldable pub row_of : Spec → ℕ → Rewarded F → Row F
  row_of spec cost (no_reward e) = score_failed spec cost e
  row_of spec cost (rewarded r) = scored_row spec cost r

  unfoldable pub rows_of :
      XContext F → Text → List Message → AgentTrajectory → List Spec → Result (List (Row F))
  unfolding spec_context distortion_reward_messages compaction_tokens row_of
  rows_of x_ctx z partial_messages split [] = ok []
  rows_of x_ctx z partial_messages split (spec ∷ specs) =
      let rest = rows_of x_ctx z partial_messages split specs in
      let context = spec_context s.py z partial_messages spec in
      let result = distortion_reward_messages f s x_ctx context.0 context.1 in
      compaction_tokens split spec.keep_first spec.keep_last_turns >>= λ cost.
      rest >>= λ rows. ok (row_of spec cost result ∷ rows)

  unfoldable pub scored_unit :
      Option (XContext F)
      → Text
      → List Message
      → AgentTrajectory
      → List Spec
      → Result (List (Row F))
  unfolding rows_of
  scored_unit none z partial_messages split specs = ok (x_precompute_failed ∷ [])
  scored_unit (some x_ctx) z partial_messages split specs =
      rows_of x_ctx z partial_messages split specs

  unfoldable pub summarized_unit :
      Result Text → Message → List Message → AgentTrajectory → List Spec → Result (List (Row F))
  unfolding precompute_x_context scored_unit
  summarized_unit (err e) action partial_messages split specs =
      ok (summarize_failed (str_error e) ∷ [])
  summarized_unit (ok z) action partial_messages split specs =
      precompute_x_context s partial_messages action >>= λ x_ctx.
      scored_unit x_ctx z partial_messages split specs

  unfoldable pub unit_rows :
      (List TrajectoryStep → Result Text)
      → Text
      → AgentTrajectory
      → List Spec
      → Option TrajectoryStep
      → Result (List (Row F))
  unfolding steps_to_messages third_message summarized_unit
  unit_rows summarize sys_prompt split specs none = ok (no_next_action ∷ [])
  unit_rows summarize sys_prompt split specs (some a) =
      steps_to_messages reload split.steps split.task sys_prompt >>= λ partial_messages.
      steps_to_messages reload (a ∷ []) split.task sys_prompt >>= λ alone.
      third_message alone >>= λ action.
      summarized_unit
        (if any (λ spec. not (spec.max_size == 0)) specs then summarize split.steps else ok [])
        action partial_messages split specs

  unfoldable pub sweep_one :
      (List TrajectoryStep → Result Text) → AgentTrajectory → ℕ → List Spec → Result (List (Row F))
  unfolding unit_rows prompt_or first_assistant with_prefix
  sweep_one summarize t k_turns specs =
      let split = with_prefix t (k_turns * 2) in
      unit_rows summarize (prompt_or default_prompt t.agent_system_prompt) split specs
        (first_assistant split.continuation)
