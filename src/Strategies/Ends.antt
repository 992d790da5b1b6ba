-- ===== src/Strategies/Ends.antt =====
-- Every strategy but the one by subtasks keeps the contract of `Compactor`: the head and the last
-- turns of the history survive, src/tts/summarization/*.py.
use tts_tokens_that_suffice.Prelude.{
  sym, ap, [], ok_injective, ℕ, ◌≡◌, refl, ◌∙◌, Option, none, some, List, ◌∷◌, ◌++◌, take, drop,
  Text, Error, Result, >>=-eq-ok, ok, err,
}
use tts_tokens_that_suffice.Compaction.Ends.{KeepsEnds}
use tts_tokens_that_suffice.Compaction.{CompactionResult, last_n_turns, Split, split_head_tail}
use tts_tokens_that_suffice.Message.{Message, Codec, Role, plain, user}
use tts_tokens_that_suffice.Mask.Tags.{Runtime}
use tts_tokens_that_suffice.Mask.{MaskConfig, mask_env_messages}
use tts_tokens_that_suffice.Trajectory.{messages_to_steps}
use tts_tokens_that_suffice.Compaction.Partition.{split_head_tail-append}
use tts_tokens_that_suffice.Mask.Compact
use tts_tokens_that_suffice.Strategies.Truncation
use tts_tokens_that_suffice.Strategies.Model
use tts_tokens_that_suffice.Strategies.Cliff

truncation_ends :
    (ms : List Message) (f n : ℕ) (r : CompactionResult)
    → Truncation.compact ms f n ≡ ok r
    → r.messages ≡ take f ms ++ last_n_turns (drop f ms) n
unfolding Truncation.compact
truncation_ends ms f n r h = ap (λ x. x.messages) (sym (ok_injective _ r h))

pub truncation-KeepsEnds : KeepsEnds Truncation.compact
truncation-KeepsEnds = record { ends = λ ms f n r h. ([], truncation_ends ms f n r h) }

module _ (py : Runtime) (cfg : MaskConfig) where
  -- A mask-based compaction that returns is the head, the masked middle and the last turns of the
  -- history.
  pub mask_ends :
      (ms : List Message) (f n : ℕ) (r : CompactionResult)
      → Compact.compact py cfg ms f n ≡ ok r
      → r.messages
        ≡ take f ms
          ++ (mask_env_messages py cfg (split_head_tail ms f n).middle
              ++ last_n_turns (drop f ms) n)
  unfolding Compact.compact
  mask_ends ms f n r h =
      let s = split_head_tail ms f n in
      let middle = mask_env_messages py cfg s.middle in
      let (k, e, g) =
        >>=-eq-ok (Compact.outputs_masked cfg middle)
          (λ n. ok (Compact.mask_result s middle (Compact.thoughts_masked cfg s.middle) n)) h in
      ap (λ x. x.messages) (sym (ok_injective _ r g))

  pub mask-KeepsEnds : KeepsEnds (Compact.compact py cfg)
  mask-KeepsEnds = record { ends = λ ms f n r h. (_, mask_ends ms f n r h) }

module _ (json : Codec) (str_error : Error → Text) (summarize : Model.Summarizer) where
  abbrev pub model_middle : Result Text → List Message
  model_middle (ok z) = Model.recall_turn z
  model_middle (err e) = []

  model_messages :
      (s : Split) (z : Result Text)
      → (Model.around_summary json str_error summarize s z).messages
        ≡ s.head ++ (model_middle z ++ s.tail)
  unfolding Model.around_summary
  model_messages s (ok z) = refl
  model_messages s (err e) = refl

  -- A model-based compaction that returns is the head of the history, the turn that recalls the
  -- summary of its steps, or nothing where the backend raised, and the last turns.
  pub model_ends :
      (ms : List Message) (f n : ℕ) (r : CompactionResult)
      → Model.compact json str_error summarize ms f n ≡ ok r
      → r.messages
        ≡ take f ms
          ++ (model_middle (summarize (messages_to_steps json ms)) ++ last_n_turns (drop f ms) n)
  unfolding Model.compact
  model_ends ms f n r h =
      ap (λ x. x.messages) (sym (ok_injective _ r h))
      ∙ model_messages (split_head_tail ms f n) (summarize (messages_to_steps json ms))

  -- Whether the backend returns a summary or raises.
  pub model-KeepsEnds : KeepsEnds (Model.compact json str_error summarize)
  model-KeepsEnds = record { ends = λ ms f n r h. (_, model_ends ms f n r h) }

module _ (cliff_compact : List Message → Option (Role × Text)) where
  abbrev Between : Split → CompactionResult → Type 0
  Between s r = (middle : List Message) × (r.messages ≡ s.head ++ (middle ++ s.tail))

  around_summary-Between :
      (s : Split) (role : Role) (z : Text) (r : CompactionResult)
      → Cliff.around_summary s role z ≡ ok r
      → Between s r
  unfolding Cliff.around_summary
  around_summary-Between s user z r h =
      (plain user z ∷ [], ap (λ x. x.messages) (sym (ok_injective _ r h)))
  around_summary-Between s _ z r h = absurd (cc)

  unchanged-Between :
      (ms : List Message) (s : Split) (r : CompactionResult)
      → s.head ++ (s.middle ++ s.tail) ≡ ms
      → Cliff.unchanged ms ≡ ok r
      → Between s r
  unfolding Cliff.unchanged
  unchanged-Between ms s r e h = (s.middle, ap (λ x. x.messages) (sym (ok_injective _ r h)) ∙ sym e)

  gained-Between :
      (ms : List Message) (s : Split) (o : Option (Role × Text)) (r : CompactionResult)
      → s.head ++ (s.middle ++ s.tail) ≡ ms
      → elim o [ none ↦ Cliff.unchanged ms | some (role, z) ↦ Cliff.around_summary s role z ] ≡ ok r
      → Between s r
  gained-Between ms s none r e h = unchanged-Between ms s r e h
  gained-Between ms s (some (role, z)) r e h = around_summary-Between s role z r h

  middle-Between :
      (ms : List Message) (s : Split) (middle : List Message) (r : CompactionResult)
      → s.head ++ (s.middle ++ s.tail) ≡ ms
      → Cliff.compact_middle cliff_compact ms s middle ≡ ok r
      → Between s r
  unfolding Cliff.compact_middle
  middle-Between ms s [] r e h = unchanged-Between ms s r e h
  middle-Between ms s (x ∷ xs) r e h = gained-Between ms s (cliff_compact (x ∷ xs)) r e h

  -- A compaction with cliffcompaction that returns is the head of the history, some messages and the
  -- last turns, whatever the package answers.
  pub cliff_ends :
      (ms : List Message) (f n : ℕ) (r : CompactionResult)
      → Cliff.compact cliff_compact ms f n ≡ ok r
      → (middle : List Message) × (r.messages ≡ take f ms ++ (middle ++ last_n_turns (drop f ms) n))
  unfolding Cliff.compact
  cliff_ends ms f n r h =
      middle-Between ms (split_head_tail ms f n) _ r (split_head_tail-append ms f n) h

  -- Whatever the package answers.
  pub cliff-KeepsEnds : KeepsEnds (Cliff.compact cliff_compact)
  cliff-KeepsEnds = record { ends = cliff_ends }
