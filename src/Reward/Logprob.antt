-- ===== src/Reward/Logprob.antt =====
-- src/tts/utils/logprob.py: the log-probabilities of a completion behind two contexts, and their
-- difference at each token. `score` is a call of `_text_completion` with the model, the address and
-- the constants of the module, which echoes a prompt with the log-probability of each token;
-- `render` is the tokenizer's chat template with its tools, and `encode` its encoding.
use tts_tokens_that_suffice.Prelude.{
  ℕ, suc, ◌-◌, Bool, true, false, not, ◌&&◌, ◌||◌, Option, none, some, List, [], ◌∷◌, ◌++◌, ltb,
  if◌then◌else◌, ℤ, sub_ℕ, ◌+ℤ◌, is_zero, pos, negsuc, length, take, drop, Text, codes, text_eq,
  starts_with, Result, err, ok,
}
use tts_tokens_that_suffice.Reward.Floats.{Floats}
use tts_tokens_that_suffice.Strategies.Model.{think_close}
use tts_tokens_that_suffice.Mask.Tags.{is_space}
use tts_tokens_that_suffice.Rendering.{Template}
use tts_tokens_that_suffice.Message.{Message}

-- The parts of a server's answer that are read; one in which they cannot be read is an error.
pub record Scored (F : Type 0) : Type 0 where
  pub prompt_tokens : ℕ
  pub token_logprobs : List (Option F)

pub record XLogprobs (F : Type 0) : Type 0 where
  pub n_x_ctx : ℕ
  pub n_completion : ℤ
  pub x_tok : List (Option F)

-- s.find(p)
unfoldable pub find : Text → Text → Option ℕ
unfolding starts_with
find [] p = if starts_with [] p then some 0 else none
find (c ∷ s) p =
    let rest = find s p in
    if starts_with (c ∷ s) p then some 0 else elim rest [ none ↦ none | some i ↦ some (suc i) ]

abbrev pub think_start : Text
think_start = codes "<think>"

abbrev pub think_open : Text
think_open = codes "<think>\n"

abbrev pub think_closed : Text
think_closed = codes "<think>\n\n</think>\n\n"

-- _completion_opens_in_think
unfoldable pub completion_opens_in_think : Text → Bool
unfolding find
completion_opens_in_think completion = elim (find completion think_close) [
  | none ↦ false
  | some close ↦ elim (find completion think_start) [ none ↦ true | some begin ↦ ltb close begin ]
]

-- s.endswith(p)
unfoldable pub ends_with : Text → Text → Bool
unfolding text_eq
ends_with s p = text_eq (drop (length s - length p) s) p

-- _close_think_block
unfoldable pub close_think_block : Text → Text → Text
unfolding completion_opens_in_think ends_with
close_think_block t completion =
    if ends_with t think_open && not (completion_opens_in_think completion)
    then take (length t - length think_open) t ++ think_closed
    else t

-- not s.strip()
unfoldable pub is_blank : Text → Bool
unfolding is_space
is_blank [] = true
is_blank (c ∷ s) = is_space c && is_blank s

-- xs[a:b], where a negative end counts from the end of the list
unfoldable pub slice {ℓ} : {A : Type ℓ} → ℕ → ℤ → List A → List A
slice a (pos b) xs = take (b - a) (drop a xs)
slice a (negsuc b) xs = take (length xs - suc b - a) (drop a xs)

module _ {F : Type 0} where
  unfoldable pub x_logprobs : ℕ → Result (Scored F) → Option (XLogprobs F)
  unfolding slice
  x_logprobs n_x_ctx (err e) = none
  x_logprobs n_x_ctx (ok r) = some (record {
    n_x_ctx = n_x_ctx;
    n_completion = sub_ℕ r.prompt_tokens n_x_ctx;
    x_tok = slice n_x_ctx (pos r.prompt_tokens) r.token_logprobs;
  })

module _ {F : Type 0} (f : Floats F) where
  -- The differences at the positions where both lists have a number.
  unfoldable pub differences : List (Option F) → List (Option F) → List F
  differences [] zs = []
  differences (x ∷ xs) [] = []
  differences (some x ∷ xs) (some z ∷ zs) = f.sub x z ∷ differences xs zs
  differences (some x ∷ xs) (none ∷ zs) = differences xs zs
  differences (none ∷ xs) (z ∷ zs) = differences xs zs

  -- The differences to the tokens of the z-context, from `n_z_ctx` on.
  unfoldable pub against : XLogprobs F → ℕ → Result (Scored F) → Option (List F)
  unfolding slice differences
  against x n_z_ctx (err e) = none
  against x n_z_ctx (ok r) =
      some (differences x.x_tok (slice n_z_ctx (pos n_z_ctx +ℤ x.n_completion) r.token_logprobs))

  -- Both calls are made, and the answer for x is read first.
  unfoldable pub score_both : ℕ → ℕ → Result (Scored F) → Result (Scored F) → Option (List F)
  unfolding x_logprobs against
  score_both n_x_ctx n_z_ctx x_resp z_resp = elim (x_logprobs n_x_ctx x_resp) [
    | none ↦ none
    | some x ↦ against x n_z_ctx z_resp
  ]

-- The text of a context, as the completion is appended to it.
unfoldable pub context_text : (Option Text → Template) → Option Text → List Message → Text → Text
unfolding close_think_block
context_text render tools messages completion =
    close_think_block (render tools messages true) completion

module _ {F : Type 0} (render : Option Text → Template) (encode : Text → List ℕ)
    (score : Text → Result (Scored F)) where
  unfoldable pub precompute_x : Option Text → List Message → Text → Option (XLogprobs F)
  unfolding is_blank context_text x_logprobs
  precompute_x tools x_messages completion =
      if is_blank completion
      then some (record { n_x_ctx = 0; n_completion = pos 0; x_tok = [] })
      else let x_text = context_text render tools x_messages completion in
        x_logprobs (length (encode x_text)) (score (x_text ++ completion))

  unfoldable pub score_completion_z :
      Floats F → Option Text → XLogprobs F → List Message → Text → Option (List F)
  unfolding is_blank context_text against
  score_completion_z f tools x z_messages completion =
      if is_blank completion || is_zero x.n_completion
      then some []
      else let z_text = context_text render tools z_messages completion in
        against f x (length (encode z_text)) (score (z_text ++ completion))

  unfoldable pub score_completion : Floats F → List Message → List Message → Text → Option (List F)
  unfolding is_blank context_text score_both
  score_completion f x_messages z_messages completion =
      if is_blank completion
      then some []
      else let x_text = context_text render none x_messages completion in
        let z_text = context_text render none z_messages completion in
        score_both f (length (encode x_text)) (length (encode z_text))
          (score (x_text ++ completion)) (score (z_text ++ completion))
