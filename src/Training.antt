-- ===== src/Training.antt =====
-- src/tts/train_rl.py: from the scored summaries of a batch to the datums of a gradient step, in the
-- loop of `main`, and the reward by coverage. A prompt holds a token, as a generation prompt does.
pub mod Aligned
pub mod Order
pub mod Coverage
pub mod Pool
pub mod Window
pub mod HeldOut
pub mod Prepared
pub mod Batches
pub mod Slices
use tts_tokens_that_suffice.Prelude.{
  ℕ, zero, suc, ◌-◌, Bool, false, not, ◌&&◌, Option, none, some, List, [], ◌∷◌, ◌++◌, map, ltb, leb,
  if◌then◌else◌, length, any, keep_if,
}
use tts_tokens_that_suffice.Reward.Floats.{Floats}

pub record PromptTokens : Type 0 where
  pub first : ℕ
  pub rest : List ℕ

-- One entry of a group: a sampled summary with its reward, none where scoring failed.
pub record Sample (F : Type 0) : Type 0 where
  pub seq_idx : ℕ
  pub reward : Option F
  pub tokens : List ℕ
  pub logprobs : List (Option F)

pub record Tuning (F : Type 0) : Type 0 where
  pub reward_snap : F
  pub min_reward_spread : F
  pub normalize_advantage : Bool
  pub advantage_eps : F

pub record Datum (F : Type 0) : Type 0 where
  pub model_input : List ℕ
  pub target_tokens : List ℕ
  pub logprobs : List F
  pub advantages : List F

-- [x] * n
unfoldable pub repeat {ℓ} : {A : Type ℓ} → A → ℕ → List A
repeat x zero = []
repeat x (suc n) = x ∷ repeat x n

-- xs[:-1]
unfoldable pub but_last {ℓ} : {A : Type ℓ} → List A → List A
but_last [] = []
but_last (x ∷ []) = []
but_last (x ∷ y ∷ r) = x ∷ but_last (y ∷ r)

module _ {F : Type 0} where
  -- sorted(group, key=lambda x: x[0]), one element at a time; the sort is stable
  unfoldable pub insert_sorted : Sample F → List (Sample F) → List (Sample F)
  insert_sorted s [] = s ∷ []
  insert_sorted s (t ∷ ts) =
      let rest = insert_sorted s ts in if leb s.seq_idx t.seq_idx then s ∷ t ∷ ts else t ∷ rest

  unfoldable pub sort_group : List (Sample F) → List (Sample F)
  unfolding insert_sorted
  sort_group [] = []
  sort_group (s ∷ ss) = insert_sorted s (sort_group ss)

  -- The numbers among the entries.
  unfoldable pub present : List (Option F) → List F
  present [] = []
  present (none ∷ xs) = present xs
  present (some x ∷ xs) = x ∷ present xs

module _ {F : Type 0} (f : Floats F) where
  unfoldable pub finite_number : Option F → Bool
  finite_number none = false
  finite_number (some x) = f.is_finite x

  unfoldable pub scored_samples : List (Sample F) → List (Sample F)
  unfolding finite_number
  scored_samples group = keep_if (λ s. finite_number s.reward) group

  unfoldable pub mean : List F → F
  mean xs = f.div (f.sum xs) (f.of_int (length xs))

  unfoldable pub snapped : F → List F → List F
  snapped snap rewards =
      if f.lt f.nought snap then map (λ r. f.mul (f.round (f.div r snap)) snap) rewards else rewards

  unfoldable pub normalized : Tuning F → List F → List F
  unfolding mean
  normalized cfg advantages =
      if cfg.normalize_advantage
      then (let std = f.sqrt (mean (map (λ a. f.mul a a) advantages)) in
          map (λ a. f.div a (f.add std cfg.advantage_eps)) advantages)
      else advantages

  unfoldable pub advantages_of : Tuning F → List F → List F
  unfolding mean normalized
  advantages_of cfg values = normalized cfg (map (λ r. f.sub r (mean values)) values)

  unfoldable pub datum_of : PromptTokens → Sample F → F → Datum F
  unfolding repeat but_last present
  datum_of p s advantage =
      let ob_len = length p.rest in
      let model_input = p.first ∷ (p.rest ++ but_last s.tokens) in
      record {
        model_input = model_input;
        target_tokens = repeat 0 ob_len ++ s.tokens;
        logprobs = repeat f.nought ob_len ++ present s.logprobs;
        advantages = repeat f.nought ob_len ++ repeat advantage (length model_input - ob_len);
      }

  -- Whether a sample and its advantage may go into the gradient.
  unfoldable pub is_usable : Sample F → F → Bool
  unfolding finite_number
  is_usable s advantage = f.is_finite advantage && not (any (λ l. not (finite_number l)) s.logprobs)

  unfoldable pub datums_of : PromptTokens → List (Sample F) → List F → List (Datum F)
  unfolding is_usable datum_of
  datums_of p [] advantages = []
  datums_of p (s ∷ ss) [] = []
  datums_of p (s ∷ ss) (a ∷ as') =
      let rest = datums_of p ss as' in if is_usable s a then datum_of p s a ∷ rest else rest

  -- The mean reward of a group, where it counts, and its datums.
  unfoldable pub group_datums : Tuning F → PromptTokens → List (Sample F) → List F × List (Datum F)
  unfolding mean snapped advantages_of datums_of
  group_datums cfg p group =
      let rewards = present (map (λ s. s.reward) group) in
      let values = snapped cfg.reward_snap rewards in
      if ltb (length group) 2
      then ([], [])
      else if f.lt (f.sub (f.largest values) (f.smallest values)) cfg.min_reward_spread
      then (mean rewards ∷ [], [])
      else (mean rewards ∷ [], datums_of p group (advantages_of cfg values))

  -- The groups of a batch, each with the prompt of its trajectory and in the order of completion.
  unfoldable pub assemble :
      Tuning F → List (PromptTokens × List (Sample F)) → List F × List (Datum F)
  unfolding group_datums sort_group scored_samples
  assemble cfg [] = ([], [])
  assemble cfg ((p, scored) ∷ groups) =
      let here = group_datums cfg p (scored_samples (sort_group scored)) in
      let there = assemble cfg groups in (here.0 ++ there.0, here.1 ++ there.1)
