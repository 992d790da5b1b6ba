-- ===== src/Reward/Distortion.antt =====
-- src/tts/reward/distortion_reward.py: the distortion of a compacted context and the reward made of
-- it. A scorer holds what the functions are passed besides: the server and its tokenizer, the tools
-- as the template takes them, and the settings of the penalty.
use tts_tokens_that_suffice.Prelude.{
  ℕ, Bool, true, Option, none, some, List, [], ◌∷◌, if◌then◌else◌, length, Text, codes, is_nonempty,
  Result, ◌>>=◌, ok,
}
use tts_tokens_that_suffice.Reward.Floats.{Floats}
use tts_tokens_that_suffice.Message.{Codec, Message}
use tts_tokens_that_suffice.Reward.Copying.{Components, copy_penalty, Penalties}
use tts_tokens_that_suffice.Rendering.{
  strip_reasoning, to_template_tool_calls, Generation, reconstruct_generation, Template,
}
use tts_tokens_that_suffice.Strategies.Model.{build_z_scoring_messages}
use tts_tokens_that_suffice.Mask.Tags.{Runtime}
use tts_tokens_that_suffice.Reward.Logprob.{XLogprobs, score_completion_z, precompute_x, Scored}

-- `usage` is the number of tokens in a message's usage, where it has one.
pub record Scorer (F : Type 0) : Type 0 where
  pub json : Codec
  pub py : Runtime
  pub lower : Text → Text
  pub render : Option Text → Template
  pub encode : Text → List ℕ
  pub score : Text → Result (Scored F)
  pub usage : Message → Option ℕ
  pub tools : Option Text
  pub penalties : Penalties F
  pub beta : F
  pub max_size : ℕ
  pub keep_first : ℕ

pub record XContext (F : Type 0) : Type 0 where
  pub x_messages : List Message
  pub y_text : Text
  pub x_logprobs : XLogprobs F
  pub generation : Generation

-- What compute_distortion_messages returns where it scores.
pub record Distortion (F : Type 0) : Type 0 where
  pub fidelity : F
  pub distortion : F
  pub n_tokens : ℕ
  pub n_x_messages : ℕ
  pub n_z_messages : ℕ
  pub n_z_ctx_tokens : ℕ
  pub fidelity_bounded : Option F

-- `unscored` is a dict with an "error".
pub data Computed (F : Type 0) : Type 0 where
  unscored : (error : Text) → Computed F
  computed : Distortion F → Computed F

-- What distortion_reward_messages returns; the components are missing where nothing was generated.
pub record Reward (F : Type 0) : Type 0 where
  pub result : Distortion F
  pub components : Option (Components F)
  pub base : F
  pub penalty : F
  pub reward : F

pub data Rewarded (F : Type 0) : Type 0 where
  no_reward : (error : Text) → Rewarded F
  rewarded : Reward F → Rewarded F

unfoldable pub build_x_scoring_messages : List Message → List Message
unfolding strip_reasoning
build_x_scoring_messages partial_messages = strip_reasoning partial_messages

module _ {F : Type 0} where
  -- The context of x, scored: none where the server fails.
  unfoldable pub x_context_of :
      List Message → Generation → Option (XLogprobs F) → Option (XContext F)
  x_context_of x_messages gen none = none
  x_context_of x_messages gen (some x) =
      some (record {
        x_messages = x_messages;
        y_text = gen.generated;
        x_logprobs = x;
        generation = gen;
      })

  -- result["reward"]
  unfoldable pub reward_in : Rewarded F → Option F
  reward_in (no_reward e) = none
  reward_in (rewarded r) = some r.reward

module _ {F : Type 0} (s : Scorer F) where
  unfoldable pub precompute_x_context : List Message → Message → Result (Option (XContext F))
  unfolding build_x_scoring_messages to_template_tool_calls reconstruct_generation precompute_x
      x_context_of
  precompute_x_context partial_messages next_action =
      let x_messages = to_template_tool_calls s.json (build_x_scoring_messages partial_messages) in
      reconstruct_generation s.json (s.render s.tools) s.encode (s.usage next_action) x_messages
        next_action
      >>= λ gen. ok (
          x_context_of x_messages gen
            (precompute_x s.render s.encode s.score s.tools x_messages gen.generated))

module _ {F : Type 0} (f : Floats F) where
  unfoldable pub squashed : F → List F → List F
  squashed beta [] = []
  squashed beta (d ∷ ds) = f.tanh (f.div (f.neg d) beta) ∷ squashed beta ds

  unfoldable pub bounded_fidelity : List F → F → F
  unfolding squashed
  bounded_fidelity kl_per_token beta = elim kl_per_token [
    | [] ↦ f.nought
    | d ∷ ds ↦ f.div (f.sum (squashed beta (d ∷ ds))) (f.of_int (length (d ∷ ds)))
  ]

  -- beta and beta > 0
  unfoldable pub is_bounded : F → Bool
  is_bounded beta = f.lt f.nought beta

  module _ (s : Scorer F) where
    unfoldable pub distortion_of : XContext F → List Message → List F → Computed F
    unfolding is_bounded bounded_fidelity
    distortion_of x_ctx z_messages [] = unscored (codes "No completion tokens scored")
    distortion_of x_ctx z_messages (d ∷ ds) =
        let n = length (d ∷ ds) in
        let mean = f.div (f.sum (d ∷ ds)) (f.of_int n) in
        computed (record {
          fidelity = f.neg mean;
          distortion = mean;
          n_tokens = n;
          n_x_messages = length x_ctx.x_messages;
          n_z_messages = length z_messages;
          n_z_ctx_tokens = length (s.encode (s.render s.tools z_messages true));
          fidelity_bounded =
              if is_bounded s.beta then some (bounded_fidelity (d ∷ ds) s.beta) else none;
        })

    unfoldable pub computed_from : XContext F → List Message → Option (List F) → Computed F
    unfolding distortion_of
    computed_from x_ctx z_messages none = unscored (codes "score_completion_z failed")
    computed_from x_ctx z_messages (some ds) = distortion_of x_ctx z_messages ds

    unfoldable pub compute_distortion_messages : XContext F → List Message → Computed F
    unfolding strip_reasoning to_template_tool_calls score_completion_z computed_from
    compute_distortion_messages x_ctx messages =
        let z_messages = strip_reasoning (to_template_tool_calls s.json messages) in
        computed_from x_ctx z_messages (
          score_completion_z s.render s.encode s.score f s.tools x_ctx.x_logprobs z_messages
            x_ctx.y_text)

    unfoldable pub compute_distortion_z : XContext F → Text → List Message → Computed F
    unfolding build_z_scoring_messages compute_distortion_messages
    compute_distortion_z x_ctx z partial_messages =
        compute_distortion_messages x_ctx
          (build_z_scoring_messages z partial_messages s.max_size s.keep_first)

    -- result["fidelity_bounded"] if beta and beta > 0 else result["fidelity"]
    unfoldable pub base_of : Distortion F → F
    base_of r = elim r.fidelity_bounded [ none ↦ r.fidelity | some b ↦ b ]

    -- The penalty on the generated text, of which there may be none.
    unfoldable pub penalty_of : Text → List Message → F × Option (Components F)
    unfolding copy_penalty
    penalty_of z x_messages =
        let charged = copy_penalty f s.py s.lower s.encode s.penalties z x_messages in
        if is_nonempty z then (charged.0, some charged.1) else (f.nought, none)

    unfoldable pub reward_from : XContext F → Text → Computed F → Rewarded F
    unfolding base_of penalty_of
    reward_from x_ctx z (unscored e) = no_reward e
    reward_from x_ctx z (computed r) =
        let charged = penalty_of z x_ctx.x_messages in
        rewarded (record {
          result = r;
          components = charged.1;
          base = base_of r;
          penalty = charged.0;
          reward = f.sub (base_of r) charged.0;
        })

    unfoldable pub distortion_reward_messages : XContext F → List Message → Text → Rewarded F
    unfolding compute_distortion_messages reward_from
    distortion_reward_messages x_ctx z_messages z =
        reward_from x_ctx z (compute_distortion_messages x_ctx z_messages)

    unfoldable pub distortion_reward_z : XContext F → Text → List Message → Option F
    unfolding build_z_scoring_messages distortion_reward_messages reward_in
    distortion_reward_z x_ctx z partial_messages = reward_in (
        distortion_reward_messages x_ctx
          (build_z_scoring_messages z partial_messages s.max_size s.keep_first) z)
