-- ===== src/Strategies/Factory.antt =====
-- src/tts/summarization/__init__.py: `make_compactor`, from the name of a strategy and its settings, and
-- `get_summary_prompt` of src/tts/data/agent_trajectory.py.
use tts_tokens_that_suffice.Mask.Compact
use tts_tokens_that_suffice.Prelude.{
  ℕ, ◌+◌, max, Bool, not, ◌&&◌, Option, none, some, List, [], ◌∷◌, leb, ◌==◌, if◌then◌else◌, any,
  Text, codes, text_eq, is_nonempty, Result, ◌>>=◌, value_error, err, ok,
}
use tts_tokens_that_suffice.Mask.{MaskConfig, default_config}
use tts_tokens_that_suffice.Strategies.Subtask.Themes.{lstrip, rstrip}

-- `summarizer_style` as a prompt.
pub data Prompt : Type 0 where
  sectioned unconstrained by_subtask : Prompt

-- What a litellm backend is built with.
pub record Backend : Type 0 where
  pub model : Text
  pub api_base : Text
  pub api_key : Text
  pub max_tokens : ℕ

-- The compactor built.
pub data Choice : Type 0 where
  by_mask : MaskConfig → Choice
  by_truncation : Choice
  by_model : Backend → Prompt → Choice
  by_subtasks : Backend → Choice
  by_cliff : Choice

-- The keyword arguments.
pub record Settings : Type 0 where
  pub backend : Backend
  pub style : Text
  pub mask_output : Bool
  pub mask_thinking : Bool
  pub mask_keep_n : ℕ
  pub mask_tagged_keep : Bool
  pub mask_long_output_chars : ℕ
  pub mask_descriptive_placeholder : Bool

-- `str.lower` as far as an ASCII letter can come of it; U+212A is the Kelvin sign. Any other character
-- beyond ASCII stays beyond ASCII, and so outside every name below.
unfoldable pub lower : Text → Text
lower [] = []
lower (c ∷ s) = (if leb 65 c && leb c 90 then c + 32 else if c == 0x212a then 107 else c) ∷ lower s

-- (name or default).strip().lower()
unfoldable pub normalize : Text → Text → Text
unfolding lower lstrip rstrip
normalize default [] = default
normalize default (c ∷ s) = lower (rstrip (lstrip (c ∷ s)))

-- name in (…)
abbrev pub is_one_of : Text → List Text → Bool
is_one_of name names = any (λ n. text_eq name n) names

unfoldable pub get_summary_prompt : Text → Result Prompt
unfolding normalize text_eq
get_summary_prompt style =
    let key = normalize (codes "sectioned") style in
    if text_eq key (codes "sectioned")
    then ok sectioned
    else if text_eq key (codes "unconstrained")
    then ok unconstrained
    else if text_eq key (codes "subtask")
    then ok by_subtask
    else err value_error

-- MaskBasedSummarizer(...), the other arguments at their defaults
unfoldable pub mask_choice : Settings → Result (Option Choice)
unfolding Compact.new
mask_choice s =
    Compact.new (record default_config {
      mask_output = s.mask_output;
      mask_thinking = s.mask_thinking;
      keep_n = s.mask_keep_n;
      tagged_keep = s.mask_tagged_keep;
      long_output_chars = s.mask_long_output_chars;
      descriptive_placeholder = s.mask_descriptive_placeholder;
    })
    >>= λ cfg. ok (some (by_mask cfg))

unfoldable pub model_choice : Settings → Result (Option Choice)
unfolding get_summary_prompt
model_choice s =
    if not (is_nonempty s.backend.model)
    then err value_error
    else (get_summary_prompt s.style >>= λ p. ok (some (by_model s.backend p)))

unfoldable pub subtask_choice : Settings → Result (Option Choice)
subtask_choice s =
    if not (is_nonempty s.backend.model)
    then err value_error
    else ok (some (by_subtasks (record s.backend { max_tokens = max s.backend.max_tokens 1024 })))

unfoldable pub choose : Text → Settings → Result (Option Choice)
unfolding mask_choice model_choice subtask_choice text_eq
choose name s =
    if is_one_of name (codes "none" ∷ codes "off" ∷ [] ∷ [])
    then ok none
    else if text_eq name (codes "mask")
    then mask_choice s
    else if is_one_of name (codes "truncation" ∷ codes "truncate" ∷ [])
    then ok (some by_truncation)
    else if is_one_of name (codes "model" ∷ codes "summary" ∷ [])
    then model_choice s
    else if is_one_of name (codes "subtask" ∷ codes "theme_model" ∷ [])
    then subtask_choice s
    else if is_one_of name (codes "cliff" ∷ codes "cliffcompaction" ∷ [])
    then ok (some by_cliff)
    else err value_error

unfoldable pub make_compactor : Text → Settings → Result (Option Choice)
unfolding normalize choose
make_compactor name s = choose (normalize (codes "mask") name) s
