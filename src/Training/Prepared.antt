-- ===== src/Training/Prepared.antt =====
-- The selection of src/tts/train_rl.py as a whole: what a plan that is made holds.
use tts_tokens_that_suffice.Prelude.{
  ℕ, suc, ◌≡◌, Bool, true, false, List, [], ◌∷◌, ltb, Text, Error, Result, ◌>>=◌, >>=-eq-ok, ok,
  Each, inl, inr, refl, subst, if-cases, ap, sym, ◌∙◌,
}
use tts_tokens_that_suffice.Trajectory.{AgentTrajectory, TrajectoryStep}
use tts_tokens_that_suffice.Reward.Floats.{Floats}
use tts_tokens_that_suffice.Reward.Distortion.{Scorer}
use tts_tokens_that_suffice.Training.Pool.{
  PoolConfig, Plan, Pool, reserve, split_eval, batch_plan, prepare, threshold_pool,
}
use tts_tokens_that_suffice.Training.Window.{FitsWindow, threshold_pool-FitsWindow}
use tts_tokens_that_suffice.Message.{Json}
use tts_tokens_that_suffice.Training.HeldOut.{
  IsReserved, IsReserved-Each, reserve-IsReserved, IsCounted, batch_plan-IsCounted,
}

-- A plan made of a set of trajectories: a pool of them, and its counts.
pub record IsPrepared (draws : ℕ → ℕ → ℕ → ℕ) (cfg : PoolConfig) (splits : Bool)
    (ts : List AgentTrajectory) (plan : Plan) : Type 0 where
  pub pool : Pool
  pub reserved : IsReserved cfg ts splits pool
  pub counted_from : IsCounted draws cfg pool plan

module _ {F : Type 0} (f : Floats F) (s : Scorer F) (reload : Text → Result Json)
    (default_prompt : Text) (str_error : Error → Text) (tokens : List TrajectoryStep → ℕ)
    (draws : ℕ → ℕ → ℕ → ℕ) (cfg : PoolConfig) where
  finished :
      (splits : Bool) (ts : List AgentTrajectory) (plan : Plan)
      → (reserve cfg ts splits >>= batch_plan draws cfg) ≡ ok plan
      → IsPrepared draws cfg splits ts plan
  finished splits ts plan h =
      let (p, p_is, e) = >>=-eq-ok (reserve cfg ts splits) (batch_plan draws cfg) h in
      record {
        pool = p;
        reserved = reserve-IsReserved cfg ts splits p p_is;
        counted_from = batch_plan-IsCounted draws cfg p plan e;
      }

  split_eval-same : (i : ℕ) (ts : List AgentTrajectory) → split_eval draws cfg false i ts ≡ ts
  unfolding split_eval
  split_eval-same i [] = refl
  split_eval-same i (t ∷ ts) = ap (λ r. t ∷ r) (split_eval-same (suc i) ts)

  abbrev pub EachFits : List AgentTrajectory → Type 0
  EachFits ts = Each (FitsWindow f s reload default_prompt str_error tokens cfg) ts

  -- Without a threshold, the trajectories of a plan and those held out make up the set, in order, unless
  -- the run evaluates on its own data; the held-out ones are those asked for, and the batches of an epoch
  -- are at least one and as many as the trajectories fill.
  pub prepare-IsPrepared :
      (splits : Bool) (ts : List AgentTrajectory) (plan : Plan)
      → ltb 0 cfg.split_at_tokens ≡ false
      → prepare f s reload default_prompt str_error tokens draws cfg splits ts ≡ ok plan
      → IsPrepared draws cfg splits ts plan
  unfolding prepare
  prepare-IsPrepared splits ts plan off h = elim (if-cases (ltb 0 cfg.split_at_tokens) _ _ h) [
    | inl (on, e) ↦ absurd (cc)
    | inr (same, e) ↦ finished splits ts plan e
  ]

  pub prepare-FitsWindow :
      (splits : Bool) (ts : List AgentTrajectory) (plan : Plan)
      → ltb 0 cfg.split_at_tokens ≡ true
      → prepare f s reload default_prompt str_error tokens draws cfg splits ts ≡ ok plan
      → EachFits plan.trajectories × EachFits plan.eval_trajs
  unfolding prepare
  prepare-FitsWindow splits ts plan on h = elim (if-cases (ltb 0 cfg.split_at_tokens) _ _ h) [
    | inl (same, e) ↦
        let pooled = threshold_pool f s reload default_prompt str_error tokens cfg splits ts in
        let (kept, kept_is, e') =
          >>=-eq-ok pooled (λ k. reserve cfg k false >>= batch_plan draws cfg) e in
        let fits =
          threshold_pool-FitsWindow f s reload default_prompt str_error tokens cfg splits ts kept
            kept_is in
        let made = finished false kept plan e' in
        let both =
          IsReserved-Each (FitsWindow f s reload default_prompt str_error tokens cfg) made.reserved
            fits in
        let c = made.counted_from in
        let evaluated : plan.eval_trajs ≡ made.pool.eval_raw =
          c.evaluated
          ∙ ap (λ b. split_eval draws cfg b 0 made.pool.eval_raw) made.reserved.same_split
          ∙ split_eval-same 0 made.pool.eval_raw in
        (subst EachFits (sym c.same) both.0, subst EachFits (sym evaluated) both.1)
    | inr (off, e) ↦ absurd (cc)
  ]
