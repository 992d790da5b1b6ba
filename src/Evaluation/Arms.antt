-- ===== src/Evaluation/Arms.antt =====
-- `build_compactor` of src/tts/eval_swebench.py, and what an agent built with an arm keeps. The
-- summarizer behind the generating arms is a parameter, which raises or can be called.
use tts_tokens_that_suffice.Mask.Compact
use tts_tokens_that_suffice.Strategies.Truncation
use tts_tokens_that_suffice.Strategies.Model
use tts_tokens_that_suffice.Prelude.{
  not, ◌&&◌, ◌||◌, Option, none, some, if◌then◌else◌, Text, codes, text_eq, is_nonempty, Error,
  Result, value_error, err, ok, ◌>>=◌, ◌≤◌, ◌≡◌, ap, subst, ◌∙◌, Bool, true, false, length,
}
use tts_tokens_that_suffice.Mask.Tags.{Runtime}
use tts_tokens_that_suffice.Message.{Codec}
use tts_tokens_that_suffice.Compaction.{Compactor}
use tts_tokens_that_suffice.Mask.{default_config}
use tts_tokens_that_suffice.Compaction.Ends.{KeepsEnds}
use tts_tokens_that_suffice.Strategies.Ends.{truncation-KeepsEnds, mask-KeepsEnds, model-KeepsEnds}
use tts_tokens_that_suffice.Agent.State.{AgentConfig, Agent}
use tts_tokens_that_suffice.Agent.Query.{Reach}
use tts_tokens_that_suffice.Agent.Head.{SameHead, Reach-SameHead}

module _ (py : Runtime) (json : Codec) (str_error : Error → Text)
    (build_summarizer : Result Model.Summarizer) where
  unfoldable pub generating : Result (Option Compactor)
  generating = do s ← build_summarizer; ok (some (Model.compact json str_error s))

  -- `checkpoint` is empty where none is given.
  unfoldable pub build_compactor : Text → Text → Result (Option Compactor)
  unfolding generating text_eq
  build_compactor mode checkpoint =
      if text_eq mode (codes "full")
      then ok none
      else if text_eq mode (codes "truncation")
      then ok (some Truncation.compact)
      else if text_eq mode (codes "mask")
      then ok (some (Compact.compact py default_config))
      else if text_eq mode (codes "base") || text_eq mode (codes "trained")
      then if text_eq mode (codes "trained") && not (is_nonempty checkpoint)
        then err value_error
        else if text_eq mode (codes "base") && is_nonempty checkpoint
        then err value_error
        else generating
      else err value_error

  -- Whatever compactor came out keeps the ends of a history.
  abbrev Built : Result (Option Compactor) → Type 0
  Built (err e) = Unit
  Built (ok none) = Unit
  Built (ok (some c)) = KeepsEnds c

  if-Built :
      (b : Bool) (x y : Result (Option Compactor)) → Built x → Built y → Built (if b then x else y)
  if-Built true x y p q = p
  if-Built false x y p q = q

  generating-Built :
      (r : Result Model.Summarizer) → Built (do s ← r; ok (some (Model.compact json str_error s)))
  generating-Built (err e) = tt
  generating-Built (ok s) = model-KeepsEnds json str_error s

  build_compactor-Built : (mode checkpoint : Text) → Built (build_compactor mode checkpoint)
  unfolding build_compactor
  build_compactor-Built mode checkpoint = if-Built (text_eq mode (codes "full")) _ _ tt (
      if-Built (text_eq mode (codes "truncation")) _ _ truncation-KeepsEnds (
        if-Built (text_eq mode (codes "mask")) _ _ (mask-KeepsEnds py default_config) (
          if-Built (text_eq mode (codes "base") || text_eq mode (codes "trained")) _ _
            (if-Built (text_eq mode (codes "trained") && not (is_nonempty checkpoint)) _ _ tt (
              if-Built (text_eq mode (codes "base") && is_nonempty checkpoint) _ _ tt
                (generating-Built build_summarizer)))
            tt)))

  -- An agent that is given what `build_compactor` returns for any mode keeps the first `keep_first`
  -- messages of its history through any queries, whether these return or raise.
  pub build_compactor-SameHead :
      (cfg : AgentConfig) (mode checkpoint : Text) (a : Agent) {b : Agent}
      → build_compactor mode checkpoint ≡ ok cfg.compactor
      → Reach cfg a b
      → cfg.keep_first ≤ length a.messages
      → SameHead cfg.keep_first a.messages b.messages
  build_compactor-SameHead cfg mode checkpoint a returned reached long =
      Reach-SameHead cfg keeps a reached long
    where
      keeps : (c : Compactor) → cfg.compactor ≡ some c → KeepsEnds c
      keeps c h = subst Built (returned ∙ ap ok h) (build_compactor-Built mode checkpoint)
