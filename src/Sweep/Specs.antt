-- ===== src/Sweep/Specs.antt =====
-- `parse_spec` of src/tts/sweep_reward.py, and the context that `sweep_one` builds for a spec. `beyond`
-- is the value of a decimal digit beyond ASCII; a spec that does not parse raises.
use tts_tokens_that_suffice.Prelude.{
  ℕ, ◌+◌, ◌-◌, ◌*◌, Bool, true, false, ◌&&◌, Option, none, some, List, [], ◌∷◌, ltb, leb, ◌==◌,
  if◌then◌else◌, drop, Text, codes, starts_with, is_nonempty, Result, value_error, err, ok,
}
use tts_tokens_that_suffice.Strategies.Subtask.Themes.{lstrip, rstrip}
use tts_tokens_that_suffice.Mask.{build_maskenv_scoring_messages, default_config}
use tts_tokens_that_suffice.Strategies.Model.{build_z_scoring_messages}
use tts_tokens_that_suffice.Mask.Tags.{Runtime}
use tts_tokens_that_suffice.Message.{Message}

pub record Spec : Type 0 where
  pub keep_first : ℕ
  pub keep_last_turns : ℕ
  pub max_size : ℕ

unfoldable pub settings_of : Bool → ℕ → ℕ → Spec
settings_of masked x y = record {
  keep_first = x;
  keep_last_turns = y;
  max_size = if masked then 0 else 2 * (x + 2 * y);
}

module _ (beyond : ℕ → Option ℕ) where
  -- the value of a digit, `\d`
  unfoldable pub digit : ℕ → Option ℕ
  digit c = if ltb c 128 then (if leb 48 c && leb c 57 then some (c - 48) else none) else beyond c

  -- The digits in front of a text, read behind `acc`, and what follows them.
  unfoldable pub read_digits : ℕ → Text → ℕ × Text
  read_digits acc [] = (acc, [])
  read_digits acc (c ∷ s) = elim (digit c) [
    | none ↦ (acc, c ∷ s)
    | some d ↦ read_digits (acc * 10 + d) s
  ]

  -- `(\d+)`
  unfoldable pub number : Text → Option (ℕ × Text)
  number [] = none
  number (c ∷ s) = elim (digit c) [ none ↦ none | some d ↦ some (read_digits 0 (c ∷ s)) ]

  -- What follows the head's number: `t(\d+)$`
  unfoldable pub parse_tail : Bool → ℕ → Text → Result Spec
  unfolding settings_of
  parse_tail masked x [] = err value_error
  parse_tail masked x (c ∷ s) =
      if c == 116
      then elim (number s) [
        | none ↦ err value_error
        | some r ↦ if is_nonempty r.1 then err value_error else ok (settings_of masked x r.0)
      ]
      else err value_error

  -- `h(\d+)t(\d+)$`
  unfoldable pub parse_head : Bool → Text → Result Spec
  unfolding parse_tail
  parse_head masked [] = err value_error
  parse_head masked (c ∷ s) =
      if c == 104
      then elim (number s) [ none ↦ err value_error | some r ↦ parse_tail masked r.0 r.1 ]
      else err value_error

  unfoldable pub parse_spec : Text → Result Spec
  unfolding parse_head lstrip rstrip starts_with
  parse_spec spec =
      let stripped = rstrip (lstrip spec) in
      if starts_with stripped (codes "maskenv-")
      then parse_head true (drop 8 stripped)
      else parse_head false stripped

-- The messages scored for a spec, and the text that the penalty is for: a size of 0 stands for a
-- compaction that deletes outputs and generates nothing.
unfoldable pub spec_context : Runtime → Text → List Message → Spec → List Message × Text
unfolding build_maskenv_scoring_messages build_z_scoring_messages
spec_context py z partial_messages spec =
    if spec.max_size == 0
    then (
      build_maskenv_scoring_messages py default_config partial_messages spec.keep_first
          spec.keep_last_turns,
      [],
    )
    else (build_z_scoring_messages z partial_messages spec.max_size spec.keep_first, z)
