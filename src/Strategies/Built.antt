-- ===== src/Strategies/Built.antt =====
-- What `make_compactor` of src/tts/summarization/__init__.py builds, as a compactor.
use tts_tokens_that_suffice.Mask.Compact
use tts_tokens_that_suffice.Strategies.Truncation
use tts_tokens_that_suffice.Strategies.Model
use tts_tokens_that_suffice.Strategies.Cliff
use tts_tokens_that_suffice.Strategies.Subtask.Compactor
use tts_tokens_that_suffice.Prelude.{
  ℕ, ◌≡◌, sym, ap, ◌∙◌, Option, some, List, ◌++◌, take, Text, Error, ok_injective, ok, refl, subst,
  inl, inr, Bool, true, false, not, ◌&&◌, ◌||◌, arith, leb, if◌then◌else◌, Bool-cases, is_nonempty,
  Result, ◌>>=◌, err, none, value_error,
}
use tts_tokens_that_suffice.Mask.Tags.{Runtime}
use tts_tokens_that_suffice.Strategies.Factory.{
  Choice, Backend, mask_choice, model_choice, subtask_choice, make_compactor, by_mask, Settings,
  choose, by_model, Prompt, by_truncation, by_subtasks, by_cliff, get_summary_prompt,
}
use tts_tokens_that_suffice.Compaction.{Compactor, CompactionResult}
use tts_tokens_that_suffice.Message.{Codec, Message, Role}
use tts_tokens_that_suffice.Compaction.Ends.{KeepsEnds}
use tts_tokens_that_suffice.Strategies.Subtask.Themes.{Answer}
use tts_tokens_that_suffice.Strategies.Ends.{
  mask-KeepsEnds, truncation-KeepsEnds, model-KeepsEnds, cliff-KeepsEnds,
}
use tts_tokens_that_suffice.Strategies.Subtask.Head.{compact-KeepsHead}

-- The code that the strategies call and that is not of this repository.
pub record Outside : Type 0 where
  pub runtime : Runtime
  pub json : Codec
  pub str_error : Error → Text
  pub loads : Text → Option Answer
  pub model_backend : Backend → Prompt → Model.Summarizer
  pub subtask_backend : Backend → Model.Summarizer
  pub cliff_compact : List Message → Option (Role × Text)

module _ (py : Outside) where
  -- The `compact` of the object built.
  abbrev pub compactor_of : Choice → Compactor
  compactor_of (by_mask cfg) = Compact.compact py.runtime cfg
  compactor_of by_truncation = Truncation.compact
  compactor_of (by_model b p) = Model.compact py.json py.str_error (py.model_backend b p)
  compactor_of (by_subtasks b) =
      Compactor.compact py.json py.str_error py.loads (py.subtask_backend b) 30
  compactor_of by_cliff = Cliff.compact py.cliff_compact

  -- A compaction with any strategy starts with the first `f` messages, where it returns.
  abbrev StartsWith : Compactor → ℕ → Type 0
  StartsWith c f =
      (ms : List Message) (n : ℕ) (r : CompactionResult)
      → c ms f n ≡ ok r
      → (rest : List Message) × (r.messages ≡ take f ms ++ rest)

  from_ends : (c : Compactor) (f : ℕ) → KeepsEnds c → StartsWith c f
  from_ends c f k ms n r h = let (middle, same) = k.ends ms f n r h in (_, same)

  subtask_head :
      (b : Backend) (ms : List Message) (f n : ℕ) (r : CompactionResult)
      → compactor_of (by_subtasks b) ms f n ≡ ok r
      → (rest : List Message) × (r.messages ≡ take 2 ms ++ rest)
  subtask_head b ms f n r h =
      elim (compact-KeepsHead py.json py.str_error py.loads (py.subtask_backend b) ms 30 f n) [
        | inl k ↦
            let same : k.result ≡ r = ok_injective k.result r (sym k.returned ∙ h) in
            (k.rest, ap (λ x. x.messages) (sym same) ∙ k.head)
        | inr (e, answered, raised) ↦ let bad : err e ≡ ok r = sym raised ∙ h in absurd (cc)
      ]

  -- With a head of the first two messages, the system prompt and the task, the compaction of every
  -- strategy that can be built begins with that head where it returns.
  pub compactor_of-head :
      (choice : Choice) (ms : List Message) (n : ℕ) (r : CompactionResult)
      → compactor_of choice ms 2 n ≡ ok r
      → (rest : List Message) × (r.messages ≡ take 2 ms ++ rest)
  compactor_of-head (by_mask cfg) ms n r h =
      from_ends (Compact.compact py.runtime cfg) 2 (mask-KeepsEnds py.runtime cfg) ms n r h
  compactor_of-head by_truncation ms n r h =
      from_ends Truncation.compact 2 truncation-KeepsEnds ms n r h
  compactor_of-head (by_model b p) ms n r h =
      from_ends (Model.compact py.json py.str_error (py.model_backend b p)) 2
        (model-KeepsEnds py.json py.str_error (py.model_backend b p)) ms n r h
  compactor_of-head (by_subtasks b) ms n r h = subtask_head b ms 2 n r h
  compactor_of-head by_cliff ms n r h =
      from_ends (Cliff.compact py.cliff_compact) 2 (cliff-KeepsEnds py.cliff_compact) ms n r h

-- A strategy that has what it needs: something to mask, a model, and tokens enough for the themes.
abbrev pub is_usable : Choice → Bool
is_usable (by_mask cfg) = cfg.mask_output || cfg.mask_thinking
is_usable by_truncation = true
is_usable (by_model b p) = is_nonempty b.model
is_usable (by_subtasks b) = is_nonempty b.model && leb 1024 b.max_tokens
is_usable by_cliff = true

abbrev Usable : Result (Option Choice) → Type 0
Usable r = (choice : Choice) → r ≡ ok (some choice) → is_usable choice ≡ true

Usable-if :
    (b : Bool) (x y : Result (Option Choice)) → Usable x → Usable y → Usable (if b then x else y)
Usable-if true x y h g = h
Usable-if false x y h g = g

Usable-ok : (c : Choice) → is_usable c ≡ true → Usable (ok (some c))
Usable-ok c h choice e = let same : c ≡ choice = cc in subst (λ x. is_usable x ≡ true) same h

Usable-none : Usable (ok none)
Usable-none choice e = cc

Usable-err : (e : Error) → Usable (err e)
Usable-err e choice h = cc

mask_choice-Usable : (s : Settings) → Usable (mask_choice s)
unfolding mask_choice Compact.new
mask_choice-Usable s = elim (Bool-cases (not s.mask_output && not s.mask_thinking)) [
  | inl nothing ↦ rw nothing (λ choice e. cc)
  | inr something ↦ rw something (Usable-ok _ (ground arith))
]

model_choice-Usable : (s : Settings) → Usable (model_choice s)
unfolding model_choice
model_choice-Usable s = elim (Bool-cases (is_nonempty s.backend.model)) [
  | inr unset ↦ rw unset (λ choice e. cc)
  | inl set ↦ rw set (with_prompt set (get_summary_prompt s.style))
]
  where
    with_prompt :
        is_nonempty s.backend.model ≡ true
        → (p : Result Prompt) → Usable (p >>= λ q. ok (some (by_model s.backend q)))
    with_prompt set (err e) = Usable-err e
    with_prompt set (ok q) = Usable-ok (by_model s.backend q) set

subtask_choice-Usable : (s : Settings) → Usable (subtask_choice s)
unfolding subtask_choice
subtask_choice-Usable s = elim (Bool-cases (is_nonempty s.backend.model)) [
  | inr unset ↦ rw unset (λ choice e. cc)
  | inl set ↦ rw set (Usable-ok _ (ground arith))
]

-- What `make_compactor` builds has something to mask, or a model, and for the themes tokens enough:
-- any other settings raise.
pub make_compactor-usable :
    (name : Text) (s : Settings) (choice : Choice)
    → make_compactor name s ≡ ok (some choice)
    → is_usable choice ≡ true
unfolding make_compactor choose
make_compactor-usable name s = Usable-if _ _ _ Usable-none (
    Usable-if _ _ _ (mask_choice-Usable s) (
      Usable-if _ _ _ (Usable-ok by_truncation refl) (
        Usable-if _ _ _ (model_choice-Usable s) (
          Usable-if _ _ _ (subtask_choice-Usable s)
            (Usable-if _ _ _ (Usable-ok by_cliff refl) (Usable-err value_error))))))
