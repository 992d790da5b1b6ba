-- ===== src/Reward/Floats.antt =====
-- Python's `float`, as far as the rewards compute with it, src/tts/reward and src/tts/utils/logprob.py.
use tts_tokens_that_suffice.Prelude.{ℕ, ◌≡◌, Bool, List, [], ◌∷◌}

pub record Floats (F : Type 0) : Type 0 where
  pub nought : F
  pub one : F
  pub of_int : ℕ → F
  pub add : F → F → F
  pub sub : F → F → F
  pub mul : F → F → F
  pub div : F → F → F
  pub neg : F → F
  pub tanh : F → F
  pub lt : F → F → Bool
  pub is_finite : F → Bool
  -- round(x), as a float
  pub round : F → F
  -- x ** 0.5
  pub sqrt : F → F
  -- the builtins `max`, `min` and `sum` of a list
  pub largest : List F → F
  pub smallest : List F → F
  pub sum : List F → F

-- The sum of one number and its division by one are that number, but for the sign of a zero.
pub record IsMeanOfOne {F : Type 0} (f : Floats F) : Type 0 where
  pub sum_one : (x : F) → f.sum (x ∷ []) ≡ x
  pub div_one : (x : F) → f.div x (f.of_int 1) ≡ x
