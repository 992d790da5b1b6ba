-- ===== src/Training/Window.antt =====
-- What the selection of src/tts/train_rl.py promises: one trigger window holds the compacted context
-- and the continuation, nothing that is held out is trained on, and a batch can be filled.
use tts_tokens_that_suffice.Prelude.{
  ℕ, ◌+◌, ◌-◌, ◌≤◌, ◌≡◌, Bool, true, false, not, Option, none, some, List, [], ◌∷◌, leb,
  if◌then◌else◌, Text, Error, Result, >>=-eq-ok, ok, err, arith, Each, Bool-cases, inl, inr, refl,
  subst, ok_injective,
}
use tts_tokens_that_suffice.Trajectory.{
  AgentTrajectory, TrajectoryStep, turn_token_lens, threshold_split,
}
use tts_tokens_that_suffice.Trajectory.Splits.{sum}
use tts_tokens_that_suffice.Trajectory.Threshold.{threshold_split-IsThresholdSplit}
use tts_tokens_that_suffice.Reward.Floats.{Floats}
use tts_tokens_that_suffice.Reward.Distortion.{Scorer}
use tts_tokens_that_suffice.Training.Pool.{
  PoolConfig, split_config, split_all, cost_of, keep_fitting, threshold_pool, with_split,
  leaves_room, keep_costed, any_left,
}
use tts_tokens_that_suffice.Message.{Json}

-- A guard that raises was passed.
pub not_raised {ℓ} :
    {V : Type ℓ} (b : Bool) (e : Error) (r : Result V) {v : V}
    → (if b then err e else r) ≡ ok v
    → (b ≡ false) × (r ≡ ok v)
not_raised true e r h = cc
not_raised false e r h = (refl, h)

module _ (tokens : List TrajectoryStep → ℕ) (cfg : PoolConfig) where
  -- The continuation keeps to what the budget leaves of the threshold.
  abbrev IsCapped : AgentTrajectory → Type 0
  IsCapped t =
      sum (turn_token_lens tokens t.continuation)
      ≤ cfg.split_at_tokens - cfg.compaction_token_budget

  with_split-Each :
      (o : Option AgentTrajectory) (rest : List AgentTrajectory)
      → ((t : AgentTrajectory) → o ≡ some t → IsCapped t)
      → Each IsCapped rest
      → Each IsCapped (with_split o rest)
  unfolding with_split
  with_split-Each none rest h hs = hs
  with_split-Each (some t) rest h hs = (h t refl, hs)

  split_all-IsCapped :
      leb cfg.split_at_tokens cfg.compaction_token_budget ≡ false
      → (ts : List AgentTrajectory) → Each IsCapped (split_all tokens (split_config cfg) ts)
  unfolding split_all split_config
  split_all-IsCapped h [] = tt
  split_all-IsCapped h (t ∷ ts) =
      with_split-Each (threshold_split tokens (split_config cfg) t) _
        (λ s e.
          elim ((threshold_split-IsThresholdSplit tokens (split_config cfg) t s e).within_budget) [
            | inl none_left ↦ absurd (ground (arith, h, none_left))
            | inr within ↦ within
          ])
        (split_all-IsCapped h ts)

module _ {F : Type 0} (f : Floats F) (s : Scorer F) (reload : Text → Result Json)
    (default_prompt : Text) (str_error : Error → Text) (tokens : List TrajectoryStep → ℕ)
    (cfg : PoolConfig) where
  -- The compacted context, the least summary and the continuation are within the trigger's threshold.
  pub record FitsWindow (t : AgentTrajectory) : Type 0 where
    pub cost : ℕ
    pub cost_is : cost_of f s reload default_prompt str_error tokens cfg t ≡ ok cost
    pub fits :
        cost + cfg.min_summary_tokens + sum (turn_token_lens tokens t.continuation)
        ≤ cfg.split_at_tokens

  abbrev EachFits : List AgentTrajectory → Type 0
  EachFits ts = Each FitsWindow ts

  keep_costed-FitsWindow :
      (t : AgentTrajectory) (c : Result ℕ) (rest : Result (List AgentTrajectory))
      (kept : List AgentTrajectory)
      → leb cfg.split_at_tokens cfg.compaction_token_budget ≡ false
      → IsCapped tokens cfg t
      → cost_of f s reload default_prompt str_error tokens cfg t ≡ c
      → ((ks : List AgentTrajectory) → rest ≡ ok ks → EachFits ks)
      → keep_costed cfg t c rest ≡ ok kept
      → EachFits kept
  unfolding keep_costed leaves_room
  keep_costed-FitsWindow t (err e) rest kept room capped cost_is hs h = cc
  keep_costed-FitsWindow t (ok c) (err e) kept room capped cost_is hs h = cc
  keep_costed-FitsWindow t (ok c) (ok ks) kept room capped cost_is hs h =
      subst EachFits (ok_injective _ _ h) (elim (Bool-cases (leaves_room cfg c)) [
        | inl e ↦ rw e (
          record { cost = c; cost_is = cost_is; fits = ground (arith, e, room, capped) },
          hs ks refl,
        )
        | inr e ↦ rw e (hs ks refl)
      ])

  keep_fitting-FitsWindow :
      (ts kept : List AgentTrajectory)
      → leb cfg.split_at_tokens cfg.compaction_token_budget ≡ false
      → Each (IsCapped tokens cfg) ts
      → keep_fitting f s reload default_prompt str_error tokens cfg ts ≡ ok kept
      → EachFits kept
  unfolding keep_fitting
  keep_fitting-FitsWindow [] kept room h e = subst EachFits (ok_injective _ _ e) tt
  keep_fitting-FitsWindow (t ∷ ts) kept room (capped, h) e =
      keep_costed-FitsWindow t _ _ kept room capped refl
        (λ ks r. keep_fitting-FitsWindow ts ks room h r) e

  any_left-same : (ts kept : List AgentTrajectory) → any_left ts ≡ ok kept → ts ≡ kept
  unfolding any_left
  any_left-same [] kept h = cc
  any_left-same (t ∷ ts) kept h = ok_injective _ _ h

  pub threshold_pool-FitsWindow :
      (splits : Bool) (ts kept : List AgentTrajectory)
      → threshold_pool f s reload default_prompt str_error tokens cfg splits ts ≡ ok kept
      → EachFits kept
  unfolding threshold_pool
  threshold_pool-FitsWindow splits ts kept h =
      let (full, h') = not_raised (not splits) _ _ h in
      let (room, h'') = not_raised (leb cfg.split_at_tokens cfg.compaction_token_budget) _ _ h' in
      let split = split_all tokens (split_config cfg) ts in
      let (fitting, fitting_is, left) =
        >>=-eq-ok (keep_fitting f s reload default_prompt str_error tokens cfg split) any_left
          h'' in
      subst EachFits (any_left-same fitting kept left) (
        keep_fitting-FitsWindow split fitting room (split_all-IsCapped tokens cfg room ts)
          fitting_is)
