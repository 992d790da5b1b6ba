-- ===== src/Reward/Turns.antt =====
-- The reward over several turns of the continuation, src/tts/reward/distortion_reward.py, and that
-- over one turn it is the reward for the next action.
use tts_tokens_that_suffice.Prelude.{
  ℕ, suc, Option, none, some, List, [], ◌∷◌, ◌++◌, leb, if◌then◌else◌, length, Text, Result, ◌>>=◌,
  ok, ◌≡◌, ap, ◌∙◌, refl, append-nil, err, true,
}
use tts_tokens_that_suffice.Reward.Floats.{Floats, IsMeanOfOne}
use tts_tokens_that_suffice.Message.{Message, is_assistant}
use tts_tokens_that_suffice.Reward.Distortion.{
  Scorer, precompute_x_context, XContext, base_of, compute_distortion_messages, penalty_of,
  Computed, unscored, computed, distortion_reward_z, reward_from, reward_in,
}
use tts_tokens_that_suffice.Strategies.Model.{build_z_scoring_messages}

unfoldable pub next_agent_action : List Message → Option Message
next_agent_action [] = none
next_agent_action (m ∷ ms) =
    let rest = next_agent_action ms in if is_assistant m then some m else rest

-- The turns of the messages behind `before`, with those in `out` the number of turns found so far.
unfoldable pub turns_from : ℕ → ℕ → List Message → List Message → List (List Message × Message)
turns_from n_turns found before [] = []
turns_from n_turns found before (m ∷ ms) =
    let others = turns_from n_turns found (before ++ m ∷ []) ms in
    let more = turns_from n_turns (suc found) (before ++ m ∷ []) ms in
    if is_assistant m then (before, m) ∷ (if leb n_turns (suc found) then [] else more) else others

unfoldable pub continuation_turns : List Message → ℕ → List (List Message × Message)
unfolding turns_from
continuation_turns continuation_messages n_turns = turns_from n_turns 0 [] continuation_messages

module _ {F : Type 0} where
  unfoldable pub with_context :
      List Message
      → Result (List (List Message × XContext F))
      → Option (XContext F)
      → Result (List (List Message × XContext F))
  with_context history rest none = ok []
  with_context history rest (some x_ctx) = rest >>= λ ctxs. ok ((history, x_ctx) ∷ ctxs)

module _ {F : Type 0} (s : Scorer F) where
  -- The contexts of the turns, up to the first that the server does not score.
  unfoldable pub contexts_of :
      List Message → List (List Message × Message) → Result (List (List Message × XContext F))
  unfolding precompute_x_context with_context
  contexts_of partial_messages [] = ok []
  contexts_of partial_messages ((history, action) ∷ turns) =
      let rest = contexts_of partial_messages turns in
      precompute_x_context s (partial_messages ++ history) action >>= λ scored.
      with_context history rest scored

  unfoldable pub precompute_x_contexts :
      List Message → List Message → ℕ → Result (List (List Message × XContext F))
  unfolding contexts_of continuation_turns
  precompute_x_contexts partial_messages continuation_messages n_turns =
      contexts_of partial_messages (continuation_turns continuation_messages n_turns)

next_lem :
    (m : Message) (rest : List Message)
    → is_assistant m ≡ true
    → next_agent_action (m ∷ rest) ≡ some m
unfolding next_agent_action
next_lem m rest h = rw h

first_turn :
    (m : Message) (rest : List Message)
    → is_assistant m ≡ true
    → continuation_turns (m ∷ rest) 1 ≡ ([], m) ∷ []
unfolding continuation_turns
first_turn m rest h = rw h

one_turn :
    {F : Type 0} (s : Scorer F) (partial_messages : List Message) (m : Message)
    (rest : List Message)
    → is_assistant m ≡ true
    → precompute_x_contexts s partial_messages (m ∷ rest) 1
      ≡ (precompute_x_context s partial_messages m >>= λ c. with_context [] (ok []) c)
unfolding precompute_x_contexts
one_turn s partial_messages m rest h =
    ap (contexts_of s partial_messages) (first_turn m rest h)
    ∙ ap (λ ms. precompute_x_context s ms m >>= λ c. with_context [] (ok []) c)
        (append-nil partial_messages)

module _ {F : Type 0} (f : Floats F) where
  -- sum(r_ks) / len(r_ks), less the penalty
  unfoldable pub averaged : F → Option (List F) → Option F
  averaged penalty none = none
  averaged penalty (some r_ks) = some (f.sub (f.div (f.sum r_ks) (f.of_int (length r_ks))) penalty)

module _ {F : Type 0} (f : Floats F) (s : Scorer F) where
  unfoldable pub with_base : Option (List F) → Computed F → Option (List F)
  unfolding base_of
  with_base rest (unscored e) = none
  with_base none (computed r) = none
  with_base (some bases) (computed r) = some (base_of f s r ∷ bases)

  -- The base of each depth, or none where a depth is not scored.
  unfoldable pub bases : List Message → List (List Message × XContext F) → Option (List F)
  unfolding compute_distortion_messages with_base
  bases base_z [] = some []
  bases base_z ((history, x_ctx) ∷ ctxs) =
      with_base (bases base_z ctxs) (compute_distortion_messages f s x_ctx (base_z ++ history))

  unfoldable pub distortion_reward_z_multi :
      List (List Message × XContext F) → Text → List Message → Option F
  unfolding bases averaged penalty_of build_z_scoring_messages
  distortion_reward_z_multi [] z partial_messages = none
  distortion_reward_z_multi ((history, x_ctx) ∷ ctxs) z partial_messages =
      averaged f (penalty_of f s z x_ctx.x_messages).0 (
        bases (build_z_scoring_messages z partial_messages s.max_size s.keep_first)
          ((history, x_ctx) ∷ ctxs))

  -- The reward for one action, none where its context is not scored.
  abbrev pub reward_for : Text → List Message → Option (XContext F) → Option F
  reward_for z partial_messages none = none
  reward_for z partial_messages (some c) = distortion_reward_z f s c z partial_messages

  module _ (mean : IsMeanOfOne f) where
    one_averaged : (penalty x : F) → averaged f penalty (some (x ∷ [])) ≡ some (f.sub x penalty)
    unfolding averaged
    one_averaged penalty x =
        ap (λ y. some (f.sub y penalty))
          (ap (λ t. f.div t (f.of_int 1)) (mean.sum_one x) ∙ mean.div_one x)

    one_base :
        (c : XContext F) (z : Text) (o : Computed F)
        → averaged f (penalty_of f s z c.x_messages).0 (with_base (some []) o)
          ≡ reward_in (reward_from f s c z o)
    unfolding with_base reward_from reward_in averaged
    one_base c z (unscored e) = refl
    one_base c z (computed r) = one_averaged (penalty_of f s z c.x_messages).0 (base_of f s r)

    -- Over one context, with no turn before it.
    one_context :
        (c : XContext F) (z : Text) (partial_messages : List Message)
        → distortion_reward_z_multi (([], c) ∷ []) z partial_messages
          ≡ distortion_reward_z f s c z partial_messages
    unfolding distortion_reward_z_multi distortion_reward_z
    one_context c z partial_messages =
        let base_z = build_z_scoring_messages z partial_messages s.max_size s.keep_first in
        ap
          (λ ms.
            averaged f (penalty_of f s z c.x_messages).0
              (with_base (some []) (compute_distortion_messages f s c ms)))
          (append-nil base_z)
        ∙ one_base c z (compute_distortion_messages f s c base_z)

    rewarded_one :
        (z : Text) (partial_messages : List Message) (o : Result (Option (XContext F)))
        → ((o >>= λ c. with_context [] (ok []) c) >>= λ ctxs.
            ok (distortion_reward_z_multi ctxs z partial_messages))
          ≡ (o >>= λ c. ok (reward_for z partial_messages c))
    unfolding with_context distortion_reward_z_multi
    rewarded_one z partial_messages (err e) = refl
    rewarded_one z partial_messages (ok none) = refl
    rewarded_one z partial_messages (ok (some c)) = ap ok (one_context c z partial_messages)

    -- Where the continuation begins with an assistant turn, that turn is the next action, and the
    -- reward averaged over one turn is the reward for that action, if the mean of one number is the
    -- number: the same value, none where a context is not scored, and the same exception.
    pub distortion_reward_z_multi-one :
        (z : Text) (partial_messages : List Message) (m : Message) (rest : List Message)
        → is_assistant m ≡ true
        → (next_agent_action (m ∷ rest) ≡ some m)
          × ((precompute_x_contexts s partial_messages (m ∷ rest) 1 >>= λ ctxs.
                ok (distortion_reward_z_multi ctxs z partial_messages))
              ≡ (precompute_x_context s partial_messages m >>= λ c.
                  ok (reward_for z partial_messages c)))
    distortion_reward_z_multi-one z partial_messages m rest h = (
      next_lem m rest h,
      ap (λ o. o >>= λ ctxs. ok (distortion_reward_z_multi ctxs z partial_messages))
            (one_turn s partial_messages m rest h)
          ∙ rewarded_one z partial_messages (precompute_x_context s partial_messages m),
    )
