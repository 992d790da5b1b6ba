-- ===== src/Tests/Sweeps.antt =====
-- The laws of the sweep, applied to a history of three turns.
use tts_tokens_that_suffice.Prelude.{
  ℕ, ◌≡◌, refl, true, false, Option, none, [], ◌∷◌, ◌++◌, codes, ◌>>=◌, value_error, err, ok,
}
use tts_tokens_that_suffice.Sweep.Specs.{number, read_digits, parse_spec, digit, spec_context}
use tts_tokens_that_suffice.Compaction.{split_head_tail}
use tts_tokens_that_suffice.Sweep.{split_turns}
use tts_tokens_that_suffice.Tests.Samples.{preamble, history}
use tts_tokens_that_suffice.Sweep.Layout.{spec_text, parse_spec-spec_context}
use tts_tokens_that_suffice.Mask.Tags.{ascii_runtime}
use tts_tokens_that_suffice.Strategies.Model.{recall_turn}
use tts_tokens_that_suffice.Mask.{mask_env_messages, default_config}

abbrev no_digit : ℕ → Option ℕ
no_digit c = none

spec_run :
    parse_spec no_digit (codes " h4t13\n")
    ≡ ok (record { keep_first = 4; keep_last_turns = 13; max_size = 60 })
unfolding parse_spec digit number read_digits
spec_run = refl

spec_refused : parse_spec no_digit (codes "h4t") ≡ err value_error
unfolding parse_spec digit number read_digits
spec_refused = refl

-- Without head and tail the size is 0, which stands for a masked spec.
spec_empty : parse_spec no_digit (codes "h0t0") ≡ parse_spec no_digit (codes "maskenv-h0t0")
unfolding parse_spec digit number read_digits
spec_empty = refl

parse_spec-spec_context_example :
    let parts = split_head_tail (preamble ++ history 3) 2 1 in
    ((parse_spec no_digit (spec_text false 2 1) >>= λ spec.
    ok (spec_context ascii_runtime (codes "z") (preamble ++ history 3) spec))
      ≡ ok (parts.head ++ (recall_turn (codes "z") ++ parts.tail), codes "z"))
    × ((parse_spec no_digit (spec_text true 2 1) >>= λ spec.
          ok (spec_context ascii_runtime (codes "z") (preamble ++ history 3) spec))
        ≡ ok (
          parts.head ++ (mask_env_messages ascii_runtime default_config parts.middle ++ parts.tail),
          [],
        ))
parse_spec-spec_context_example =
    parse_spec-spec_context no_digit ascii_runtime (codes "z") (preamble ++ history 3) 2 1

-- Turns of 10 tokens, of which the second and the third come within the bounds.
split_turns_run :
    split_turns
      (record { min_tokens = 15; max_tokens = 35; min_prefix = 1; min_suffix = 1 })
      4
      0
      0
      (10 ∷ 10 ∷ 10 ∷ 10 ∷ [])
    ≡ (2, 20) ∷ (3, 30) ∷ []
unfolding split_turns
split_turns_run = refl
