-- ===== src/Training/Batches.antt =====
-- The batches of a training run, the loop of `main` of src/tts/train_rl.py. `shuffle e` is the shuffle
-- with the generator of epoch e, and `draws b i` the draw number i of the generator of batch b.
use tts_tokens_that_suffice.Prelude.{
  ℕ, zero, suc, ◌+◌, ◌*◌, ◌%◌, ◌≡◌, Bool, false, ◌&&◌, List, [], ◌∷◌, ◌++◌, ltb, ◌==◌,
  if◌then◌else◌, length, take, drop, map, arith, refl, ap, ◌∙◌, sym, map-append, ap₂, length-append,
  length-map,
}
use tts_tokens_that_suffice.Trajectory.{AgentTrajectory}
use tts_tokens_that_suffice.Training.Pool.{PoolConfig, split_eval}

pub record Loop : Type 0 where
  pub pool : PoolConfig
  pub save_every : ℕ
  -- `if eval_set`
  pub has_eval_set : Bool
  pub split_at_train_time : Bool
  pub n_batches_per_epoch : ℕ

-- One turn of the loop, up to the sampling: whether it saves a checkpoint and evaluates, and its batch
-- before and after the splits.
pub record Turn : Type 0 where
  pub global_batch_idx : ℕ
  pub epoch : ℕ
  pub saves : Bool
  pub evaluates : Bool
  pub raw_batch : List AgentTrajectory
  pub batch_trajectories : List AgentTrajectory

module _ (cfg : Loop) (draws : ℕ → ℕ → ℕ → ℕ → ℕ) where
  unfoldable pub turn_at : ℕ → ℕ → List AgentTrajectory → Turn
  unfolding split_eval
  turn_at idx epoch raw = record {
    global_batch_idx = idx;
    epoch = epoch;
    saves = ltb 0 cfg.save_every && (idx % cfg.save_every == 0) && ltb 0 idx;
    evaluates = cfg.has_eval_set && (idx % cfg.pool.eval_every == 0);
    raw_batch = raw;
    batch_trajectories = split_eval (draws idx) cfg.pool cfg.split_at_train_time 0 raw;
  }

  -- shuffled[batch_start : batch_start + config.batch_size]
  unfoldable pub raw_of : List AgentTrajectory → ℕ → List AgentTrajectory
  raw_of shuffled b = take cfg.pool.batch_size (drop (b * cfg.pool.batch_size) shuffled)

  -- The inner loop, with the number of turns left, the batch in the epoch and `global_batch_idx`.
  unfoldable pub epoch_turns : ℕ → List AgentTrajectory → ℕ → ℕ → ℕ → ℕ → List Turn
  unfolding turn_at raw_of
  epoch_turns start shuffled epoch zero b idx = []
  epoch_turns start shuffled epoch (suc n) b idx =
      let rest = epoch_turns start shuffled epoch n (suc b) (suc idx) in
      if ltb idx start then rest else turn_at idx epoch (raw_of shuffled b) ∷ rest

  -- The outer loop, with the number of epochs left; it ends with the number of the final checkpoint.
  unfoldable pub epochs_from :
      (ℕ → List AgentTrajectory → List AgentTrajectory)
      → ℕ
      → List AgentTrajectory
      → ℕ
      → ℕ
      → ℕ
      → List Turn × ℕ
  unfolding epoch_turns
  epochs_from shuffle start ts zero epoch idx = ([], idx)
  epochs_from shuffle start ts (suc n) epoch idx =
      let here = epoch_turns start (shuffle epoch ts) epoch cfg.n_batches_per_epoch 0 idx in
      let rest = epochs_from shuffle start ts n (suc epoch) (idx + cfg.n_batches_per_epoch) in
      (here ++ rest.0, rest.1)

  -- The loop starts at the batch of the checkpoint, or at 0.
  unfoldable pub train_turns :
      (ℕ → List AgentTrajectory → List AgentTrajectory) → List AgentTrajectory → ℕ → List Turn × ℕ
  unfolding epochs_from
  train_turns shuffle ts start = epochs_from shuffle start ts cfg.pool.num_epochs 0 start

  -- A turn of a run from batch 0, taken `start` batches later.
  abbrev pub later : ℕ → Turn → Turn
  later start t = turn_at (start + t.global_batch_idx) t.epoch t.raw_batch

  epoch_turns-later :
      (start : ℕ) (shuffled : List AgentTrajectory) (epoch n b idx : ℕ)
      → epoch_turns start shuffled epoch n b (start + idx)
        ≡ map (later start) (epoch_turns 0 shuffled epoch n b idx)
  unfolding epoch_turns turn_at
  epoch_turns-later start shuffled epoch zero b idx = refl
  epoch_turns-later start shuffled epoch (suc n) b idx =
      let e : ltb (start + idx) start ≡ false = ground arith in
      let z : ltb idx 0 ≡ false = ground arith in
      rw (e, z)
        (ap (λ r. turn_at (start + idx) epoch (raw_of shuffled b) ∷ r)
          (ap (epoch_turns start shuffled epoch n (suc b)) (omega arith)
            ∙ epoch_turns-later start shuffled epoch n (suc b) (suc idx)))

  epochs_from-later :
      (shuffle : ℕ → List AgentTrajectory → List AgentTrajectory) (start : ℕ)
      (ts : List AgentTrajectory) (n epoch idx : ℕ)
      → epochs_from shuffle start ts n epoch (start + idx) ≡ (
        map (later start) (epochs_from shuffle 0 ts n epoch idx).0,
        start + (epochs_from shuffle 0 ts n epoch idx).1,
      )
  unfolding epochs_from
  epochs_from-later shuffle start ts zero epoch idx = refl
  epochs_from-later shuffle start ts (suc n) epoch idx =
      let per_epoch = cfg.n_batches_per_epoch in
      let shuffled = shuffle epoch ts in
      ap₂ (λ h r. (h ++ r.0, r.1)) (epoch_turns-later start shuffled epoch per_epoch 0 idx)
        (ap (epochs_from shuffle start ts n (suc epoch)) (omega arith)
          ∙ epochs_from-later shuffle start ts n (suc epoch) (idx + per_epoch))
      ∙ ap (λ l. (l, start + (epochs_from shuffle 0 ts n (suc epoch) (idx + per_epoch)).1))
          (sym (map-append (later start) (epoch_turns 0 shuffled epoch per_epoch 0 idx) _))

  length-epoch_turns :
      (shuffled : List AgentTrajectory) (epoch n b idx : ℕ)
      → length (epoch_turns 0 shuffled epoch n b idx) ≡ n
  unfolding epoch_turns
  length-epoch_turns shuffled epoch zero b idx = refl
  length-epoch_turns shuffled epoch (suc n) b idx =
      ground (arith, length-epoch_turns shuffled epoch n (suc b) (suc idx))

  length-epochs_from :
      (shuffle : ℕ → List AgentTrajectory → List AgentTrajectory) (ts : List AgentTrajectory)
      (n epoch idx : ℕ)
      → (length (epochs_from shuffle 0 ts n epoch idx).0 ≡ n * cfg.n_batches_per_epoch)
        × ((epochs_from shuffle 0 ts n epoch idx).1 ≡ idx + n * cfg.n_batches_per_epoch)
  unfolding epochs_from
  length-epochs_from shuffle ts zero epoch idx = (omega arith, omega arith)
  length-epochs_from shuffle ts (suc n) epoch idx =
      let per_epoch = cfg.n_batches_per_epoch in
      let ih = length-epochs_from shuffle ts n (suc epoch) (idx + per_epoch) in
      (
        length-append (epoch_turns 0 (shuffle epoch ts) epoch per_epoch 0 idx) _
            ∙ omega (arith, ih.0, length-epoch_turns (shuffle epoch ts) epoch per_epoch 0 idx),
        omega (arith, ih.1),
      )

  -- A run that resumes at a batch takes the turns of a run from batch 0 all over again, each as that
  -- many batches later, and ends that many batches later: it skips none.
  pub train_turns-later :
      (shuffle : ℕ → List AgentTrajectory → List AgentTrajectory) (ts : List AgentTrajectory)
      (start : ℕ)
      → ((train_turns shuffle ts start).0 ≡ map (later start) (train_turns shuffle ts 0).0)
        × (length (train_turns shuffle ts start).0 ≡ cfg.pool.num_epochs * cfg.n_batches_per_epoch)
        × ((train_turns shuffle ts start).1 ≡ start + cfg.pool.num_epochs * cfg.n_batches_per_epoch)
  unfolding train_turns
  train_turns-later shuffle ts start =
      let at_start : start ≡ start + 0 = omega arith in
      let same =
        ap (epochs_from shuffle start ts cfg.pool.num_epochs 0) at_start
        ∙ epochs_from-later shuffle start ts cfg.pool.num_epochs 0 0 in
      let counts = length-epochs_from shuffle ts cfg.pool.num_epochs 0 0 in
      (
        ap (λ r. r.0) same,
        ap (λ r. length r.0) same
            ∙ length-map (later start) (epochs_from shuffle 0 ts cfg.pool.num_epochs 0 0).0
            ∙ counts.0,
        ap (λ r. r.1) same ∙ ap (λ n. start + n) (counts.1 ∙ omega arith),
      )
