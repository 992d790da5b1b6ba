-- ===== src/Tests/Rewards.antt =====
-- The laws of the rewards, applied to a server that scores every token alike.
use tts_tokens_that_suffice.Prelude.{
  ℕ, ◌+◌, ◌-◌, ◌*◌, ◌/◌, ◌≡◌, refl, Option, none, some, List, [], ◌∷◌, ◌++◌, arith, ltb, length,
  drop, Text, codes, Result, ok, ◌+ℤ◌, false, ◌>>=◌, min, max, true,
}
use tts_tokens_that_suffice.Reward.Floats.{Floats, IsMeanOfOne}
use tts_tokens_that_suffice.Message.{Message}
use tts_tokens_that_suffice.Rendering.{Template}
use tts_tokens_that_suffice.Reward.Logprob.{Scored, score_completion, precompute_x}
use tts_tokens_that_suffice.Tests.Samples.{preamble, history, blind_codec, act}
use tts_tokens_that_suffice.Reward.Rescoring.{after_x, score_completion-precompute_x}
use tts_tokens_that_suffice.Mask.Tags.{Runtime}
use tts_tokens_that_suffice.Reward.Distortion.{Scorer, precompute_x_context, distortion_reward_z}
use tts_tokens_that_suffice.Reward.Copying.{copy_penalty}
use tts_tokens_that_suffice.Reward.Turns.{
  next_agent_action, reward_for, precompute_x_contexts, distortion_reward_z_multi,
  distortion_reward_z_multi-one,
}

-- Whole numbers in place of floats; a difference stops at zero.
abbrev pub add_all : List ℕ → ℕ
add_all [] = 0
add_all (x ∷ xs) = x + add_all xs

abbrev largest_of : List ℕ → ℕ
largest_of [] = 0
largest_of (x ∷ xs) = max x (largest_of xs)

abbrev smallest_of : List ℕ → ℕ
smallest_of [] = 9999
smallest_of (x ∷ xs) = min x (smallest_of xs)

abbrev pub whole : Floats ℕ
whole = record {
  nought = 0;
  one = 1;
  of_int = λ n. n;
  add = λ a b. a + b;
  sub = λ a b. a - b;
  mul = λ a b. a * b;
  div = λ a b. a / b;
  neg = λ a. a;
  tanh = λ a. a;
  lt = ltb;
  is_finite = λ a. true;
  round = λ a. a;
  sqrt = λ a. a;
  largest = largest_of;
  smallest = smallest_of;
  sum = add_all;
}

whole-IsMeanOfOne : IsMeanOfOne whole
whole-IsMeanOfOne = record { sum_one = λ x. omega arith; div_one = λ x. omega arith }

-- A letter for each message, and one behind them for the prompt's end.
abbrev letter_each : List Message → Text
letter_each [] = []
letter_each (m ∷ ms) = 97 ∷ letter_each ms

abbrev letters_of : Option Text → Template
letters_of tools ms generate = letter_each ms

-- The log-probabilities 9, 8, 7, … of the tokens of a prompt, which are its characters; the first
-- token has none.
abbrev falling : ℕ → Text → List (Option ℕ)
falling n [] = []
falling n (c ∷ t) = some n ∷ falling (n - 1) t

abbrev even_score : Text → Result (Scored ℕ)
even_score t =
    ok (record { prompt_tokens = length t; token_logprobs = none ∷ falling 8 (drop 1 t) })

abbrev long_history : List Message
long_history = preamble ++ history 2

-- The completion's two tokens have 3 and 2 behind the history, and 7 and 6 behind the preamble.
two_tokens :
    score_completion letters_of (λ t. t) even_score whole preamble long_history (codes "ls")
    ≡ some (4 ∷ 4 ∷ [])
unfolding score_completion ◌+ℤ◌
two_tokens = refl

score_completion-precompute_x_example :
    score_completion letters_of (λ t. t) even_score whole preamble long_history (codes "ls")
    ≡ after_x whole letters_of
        (λ t. t)
        even_score
        long_history
        (codes "ls")
        (precompute_x letters_of (λ t. t) even_score none preamble (codes "ls"))
score_completion-precompute_x_example =
    score_completion-precompute_x whole letters_of (λ t. t) even_score preamble long_history
      (codes "ls") (λ x h z. (_, refl))

abbrev pub latin : Runtime
latin = record { word_beyond_ascii = λ c. false; repr = λ ps. [] }

abbrev pub scorer : Scorer ℕ
scorer = record {
  json = blind_codec;
  py = latin;
  lower = λ t. t;
  render = letters_of;
  encode = λ t. t;
  score = even_score;
  usage = λ m. some 1;
  tools = none;
  penalties = record { lambda_len = 0; lambda_copy = 0; copy_threshold = 0; marker_penalty = 3 };
  beta = 1;
  max_size = 4;
  keep_first = 1;
}

-- The next action is one token, of 7 behind the history and of 6 behind the summary and its frame.
one_reward :
    (precompute_x_context scorer preamble act >>= λ c.
    ok (reward_for whole scorer (codes "z") preamble c))
    ≡ ok (some 1)
unfolding precompute_x_context distortion_reward_z ◌+ℤ◌
one_reward = refl

-- A summary that echoes the markup of its input pays for it.
one_marked :
    (copy_penalty whole latin (λ t. t) (λ t. t) scorer.penalties (codes "<EVENT z") preamble).0 ≡ 3
unfolding copy_penalty
one_marked = refl

distortion_reward_z_multi-one_example :
    (next_agent_action (act ∷ history 1) ≡ some act)
    × ((precompute_x_contexts scorer preamble (act ∷ history 1) 1 >>= λ ctxs.
          ok (distortion_reward_z_multi whole scorer ctxs (codes "z") preamble))
        ≡ (precompute_x_context scorer preamble act >>= λ c.
            ok (reward_for whole scorer (codes "z") preamble c)))
distortion_reward_z_multi-one_example =
    distortion_reward_z_multi-one whole scorer whole-IsMeanOfOne (codes "z") preamble act
      (history 1) refl
