-- ===== src/Tests/Trainings.antt =====
-- The laws of the training batches, applied to a group of three samples.
use tts_tokens_that_suffice.Prelude.{
  ℕ, ◌≡◌, refl, false, Option, none, some, List, [], ◌∷◌, arith, Each,
}
use tts_tokens_that_suffice.Training.{Sample, Tuning, PromptTokens, assemble}
use tts_tokens_that_suffice.Training.Aligned.{IsAligned, assemble-IsAligned}
use tts_tokens_that_suffice.Tests.Rewards.{whole}
use tts_tokens_that_suffice.Training.Order.{assemble-AllReordered, group_too, swap, none_left}

abbrev tuning : Tuning ℕ
tuning = record {
  reward_snap = 0;
  min_reward_spread = 1;
  normalize_advantage = false;
  advantage_eps = 0;
}

-- Two tokens, of which the second is the index again.
abbrev sample : ℕ → Option ℕ → Sample ℕ
sample i r = record {
  seq_idx = i;
  reward = r;
  tokens = 7 ∷ i ∷ [];
  logprobs = some 1 ∷ some 2 ∷ [];
}

abbrev prompt : PromptTokens
prompt = record { first = 4; rest = 5 ∷ [] }

-- The third sample could not be scored.
abbrev groups : List (PromptTokens × List (Sample ℕ))
groups = (prompt, sample 1 (some 9) ∷ sample 0 (some 3) ∷ sample 2 none ∷ []) ∷ []

abbrev groups_again : List (PromptTokens × List (Sample ℕ))
groups_again = (prompt, sample 0 (some 3) ∷ sample 1 (some 9) ∷ sample 2 none ∷ []) ∷ []

-- The mean reward is 6, and the second sample is 3 above it.
groups_run : assemble whole tuning groups ≡ (
  6 ∷ [],
  record {
    model_input = 4 ∷ 5 ∷ 7 ∷ [];
    target_tokens = 0 ∷ 7 ∷ 0 ∷ [];
    logprobs = 0 ∷ 1 ∷ 2 ∷ [];
    advantages = 0 ∷ 0 ∷ 0 ∷ [];
  }
      ∷ record {
        model_input = 4 ∷ 5 ∷ 7 ∷ [];
        target_tokens = 0 ∷ 7 ∷ 1 ∷ [];
        logprobs = 0 ∷ 1 ∷ 2 ∷ [];
        advantages = 0 ∷ 3 ∷ 3 ∷ [];
      }
      ∷ [],
)
unfolding assemble
groups_run = refl

assemble-IsAligned_example : Each (IsAligned whole) (assemble whole tuning groups).1
assemble-IsAligned_example =
    assemble-IsAligned whole refl tuning groups
      (((omega arith, refl), ((omega arith, refl), ((omega arith, refl), tt))), tt)

assemble-AllReordered_example : assemble whole tuning groups ≡ assemble whole tuning groups_again
assemble-AllReordered_example = assemble-AllReordered whole tuning (
    group_too prompt
      (swap (sample 1 (some 9)) (sample 0 (some 3)) (sample 2 none ∷ []) (omega arith)) none_left)
