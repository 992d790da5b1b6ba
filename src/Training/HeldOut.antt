-- ===== src/Training/HeldOut.antt =====
-- What the selection of src/tts/train_rl.py holds out, and the batches that it leaves room for.
use tts_tokens_that_suffice.Prelude.{
  ℕ, suc, ◌+◌, ◌-◌, ◌*◌, ◌/◌, ◌≤◌, ◌<◌, ◌≡◌, Bool, true, false, ◌&&◌, List, [], ◌∷◌, ◌++◌, leb, ltb,
  ◌==◌, if◌then◌else◌, length, take, drop, >>=-eq-ok, ok, arith, Each, inl, inr, take-append-drop,
  refl, append-nil, length-drop, zero, subst, ok_injective, if-cases, ◌%◌, sym, ◌⊎◌,
}
use native.Mathlib.Omega.{div_fact, mod_fact}
use tts_tokens_that_suffice.Trajectory.{AgentTrajectory}
use tts_tokens_that_suffice.Training.Pool.{
  PoolConfig, Plan, Pool, reserve, reserve_from, with_workers, split_eval, batch_plan,
}
use tts_tokens_that_suffice.Training.Window.{not_raised}

Each-split {ℓ κ} :
    {A : Type ℓ} (P : A → Type κ) (xs ys : List A) → Each P (xs ++ ys) → Each P xs × Each P ys
Each-split P [] ys h = (tt, h)
Each-split P (x ∷ xs) ys (h, hs) = let r = Each-split P xs ys hs in ((h, r.0), r.1)

-- How many trajectories are held out.
abbrev held_out : PoolConfig → ℕ
held_out cfg = if ltb 0 cfg.eval_size && ltb 0 cfg.eval_every then cfg.eval_size else 0

-- The pool is cut in two, of which the second is held out, unless the run evaluates on its own data.
pub record IsReserved (cfg : PoolConfig) (ts : List AgentTrajectory) (splits : Bool) (p : Pool)
    : Type 0 where
  pub same_split : p.split_at_train_time ≡ splits
  pub parts :
      ((p.trajectories ++ p.eval_raw ≡ ts) × (length p.eval_raw ≡ held_out cfg))
      ⊎ ((cfg.eval_on_train ≡ true) × (p.trajectories ≡ ts) × (p.eval_raw ≡ take cfg.eval_size ts))

pub IsReserved-Each :
    (P : AgentTrajectory → Type 0) {cfg : PoolConfig} {ts : List AgentTrajectory} {splits : Bool}
    {p : Pool}
    → IsReserved cfg ts splits p
    → Each P ts
    → Each P p.trajectories × Each P p.eval_raw
IsReserved-Each P {cfg} {ts} {splits} {p} r h = elim r.parts [
  | inl (whole, n) ↦ Each-split P p.trajectories p.eval_raw (subst (Each P) (sym whole) h)
  | inr (own, same, first) ↦ (
    subst (Each P) (sym same) h,
    subst (Each P) (sym first)
        (Each-split P (take cfg.eval_size ts) (drop cfg.eval_size ts)
          (subst (Each P) (sym (take-append-drop cfg.eval_size ts)) h)).0,
  )
]

module _ (cfg : PoolConfig) (ts : List AgentTrajectory) (splits : Bool) where
  -- The three pools that `reserve` may return.
  whole :
      (ltb 0 cfg.eval_size && ltb 0 cfg.eval_every) ≡ false
      → IsReserved cfg ts splits
          (record { trajectories = ts; eval_raw = []; split_at_train_time = splits })
  whole off = record { same_split = refl; parts = inl (append-nil ts, ground (arith, off)) }

  trained_on :
      cfg.eval_on_train ≡ true
      → IsReserved cfg ts splits (record {
        trajectories = ts;
        eval_raw = take cfg.eval_size ts;
        split_at_train_time = splits;
      })
  trained_on h = record { same_split = refl; parts = inr (h, refl, refl) }

  cut_off :
      (ltb 0 cfg.eval_size && ltb 0 cfg.eval_every) ≡ true
      → leb (length ts) cfg.eval_size ≡ false
      → IsReserved cfg ts splits (record {
        trajectories = take (length ts - cfg.eval_size) ts;
        eval_raw = drop (length ts - cfg.eval_size) ts;
        split_at_train_time = splits;
      })
  cut_off on h = record {
    same_split = refl;
    parts = inl (
      take-append-drop (length ts - cfg.eval_size) ts,
      ground (arith, on, h, length-drop (length ts - cfg.eval_size) ts),
    );
  }

  with_workers-same : (p q : Pool) → with_workers p ≡ ok q → p ≡ q
  unfolding with_workers
  with_workers-same p q h = elim (if-cases (ltb 0 (length p.eval_raw)) _ _ h) [
    | inl (some_held, e) ↦ ok_injective _ _ e
    | inr (none_held, e) ↦ absurd (cc)
  ]

  reserve_from-IsReserved :
      (p : Pool)
      → (ltb 0 cfg.eval_size && ltb 0 cfg.eval_every) ≡ true
      → reserve_from cfg ts splits ≡ ok p
      → IsReserved cfg ts splits p
  unfolding reserve_from
  reserve_from-IsReserved p on h = elim (if-cases cfg.eval_on_train _ _ h) [
    | inl (own, e) ↦ subst (IsReserved cfg ts splits) (ok_injective _ _ e) (trained_on own)
    | inr (other, e) ↦
        let (large, e') = not_raised (leb (length ts) cfg.eval_size) _ _ e in
        subst (IsReserved cfg ts splits) (ok_injective _ _ e') (cut_off on large)
  ]

  pub reserve-IsReserved : (p : Pool) → reserve cfg ts splits ≡ ok p → IsReserved cfg ts splits p
  unfolding reserve
  reserve-IsReserved p h = elim (if-cases (ltb 0 cfg.eval_size && ltb 0 cfg.eval_every) _ _ h) [
    | inl (on, e) ↦
        let (q, q_is, same) = >>=-eq-ok (reserve_from cfg ts splits) with_workers e in
        subst (IsReserved cfg ts splits) (with_workers-same q p same)
          (reserve_from-IsReserved q on q_is)
    | inr (off, e) ↦ subst (IsReserved cfg ts splits) (ok_injective _ _ e) (whole off)
  ]

-- What the loop is handed, made of a pool.
pub record IsCounted (draws : ℕ → ℕ → ℕ → ℕ) (cfg : PoolConfig) (p : Pool) (plan : Plan)
    : Type 0 where
  pub same : plan.trajectories ≡ p.trajectories
  pub same_split : plan.split_at_train_time ≡ p.split_at_train_time
  pub evaluated : plan.eval_trajs ≡ split_eval draws cfg p.split_at_train_time 0 p.eval_raw
  pub total : plan.total_batches ≡ plan.n_batches_per_epoch * cfg.num_epochs
  -- the batches of an epoch can be filled, and there is one
  pub one : 1 ≤ plan.n_batches_per_epoch
  pub filled : plan.n_batches_per_epoch * cfg.batch_size ≤ length plan.trajectories
  -- less than a batch is left over
  pub left_over :
      length plan.trajectories < plan.n_batches_per_epoch * cfg.batch_size + cfg.batch_size

quotient_bounds :
    (n k q r : ℕ)
    → suc k * q + r ≡ n
    → r < suc k
    → ltb n (suc k) ≡ false
    → (1 ≤ q) × (q * suc k ≤ n) × (n < q * suc k + suc k)
quotient_bounds n k zero r e lt h = absurd (ground (arith, h))
quotient_bounds n k (suc q) r e lt h = (omega arith, omega arith, omega arith)

div_bounds :
    (n b : ℕ)
    → ltb n b ≡ false
    → (b == 0) ≡ false
    → (1 ≤ n / b) × (n / b * b ≤ n) × (n < n / b * b + b)
div_bounds n zero h positive = absurd (cc)
div_bounds n (suc k) h positive =
    quotient_bounds n k (n / suc k) (n % suc k) (div_fact n k) (mod_fact n k) h

module _ (draws : ℕ → ℕ → ℕ → ℕ) (cfg : PoolConfig) where
  pub batch_plan-IsCounted :
      (p : Pool) (plan : Plan) → batch_plan draws cfg p ≡ ok plan → IsCounted draws cfg p plan
  unfolding batch_plan
  batch_plan-IsCounted p plan h =
      let (enough, h') = not_raised (ltb (length p.trajectories) cfg.batch_size) _ _ h in
      let (positive, h'') = not_raised (cfg.batch_size == 0) _ _ h' in
      let (least, fill, rest) = div_bounds (length p.trajectories) cfg.batch_size enough positive in
      subst (IsCounted draws cfg p) (ok_injective _ _ h'') (record {
        same = refl;
        same_split = refl;
        evaluated = refl;
        total = refl;
        one = least;
        filled = fill;
        left_over = rest;
      })
