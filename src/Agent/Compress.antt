-- ===== src/Agent/Compress.antt =====
-- The books that `SummarizingAgent` of src/tts/agent/summarization_agent.py keeps of its compactions
-- stay right, whatever is raised on the way.
use tts_tokens_that_suffice.Prelude.{
  ℕ, suc, ◌+◌, ◌<◌, ◌≡◌, ◌⊎◌, some, List, [], ◌∷◌, ◌++◌, arith, length, ok, refl, sym, ap, subst,
  Bool, true, false, Option, none, if◌then◌else◌, Result, >>=-eq-ok, err, inl, inr, Bool-cases,
}
use tts_tokens_that_suffice.Agent.State.{Compression, Agent, AgentConfig, File, compaction_file}
use tts_tokens_that_suffice.Compaction.{Compactor, CompactionResult}
use tts_tokens_that_suffice.Message.{Message}
use tts_tokens_that_suffice.Agent.{
  plan, tokens_of, is_no_op, register, save_and_replace, apply_plan, compress_if, maybe_compress,
  compression_record, should_compact,
}

-- The compactions are numbered from `i` on.
abbrev pub IsNumbered : ℕ → List Compression → Type 0
IsNumbered i [] = Unit
IsNumbered i (c ∷ cs) = (c.index ≡ i) × IsNumbered (suc i) cs

-- It made the context smaller, in messages or in tokens.
abbrev pub Shrinks : Compression → Type 0
Shrinks c = (c.n_msgs_after < c.n_msgs_before) ⊎ (c.tokens_after < c.tokens_before)

abbrev pub AllShrink : List Compression → Type 0
AllShrink [] = Unit
AllShrink (c ∷ cs) = Shrinks c × AllShrink cs

pub record IsSound (a : Agent) : Type 0 where
  pub counted : a.n_compressions ≡ length a.compressions
  pub numbered : IsNumbered 0 a.compressions
  pub shrinking : AllShrink a.compressions

IsNumbered-append :
    (i : ℕ) (cs : List Compression) (c : Compression)
    → IsNumbered i cs
    → c.index ≡ i + length cs
    → IsNumbered i (cs ++ c ∷ [])
IsNumbered-append i [] c h e = (omega arith, tt)
IsNumbered-append i (d ∷ cs) c h e = (h.0, IsNumbered-append (suc i) cs c h.1 (omega arith))

AllShrink-append :
    (cs : List Compression) (c : Compression) → AllShrink cs → Shrinks c → AllShrink (cs ++ c ∷ [])
AllShrink-append [] c h s = (s, tt)
AllShrink-append (d ∷ cs) c h s = (h.0, AllShrink-append cs c h.1 s)

if_none-some {ℓ} :
    {A : Type ℓ} (b : Bool) (x y : A)
    → ◌≡◌ {A = Result (Option A)} (ok (if b then none else some x)) (ok (some y))
    → (b ≡ false) × (x ≡ y)
if_none-some true x y h = cc
if_none-some false x y h = (refl, cc)

-- Where a plan holds a compaction: the compactor returned its messages, and they are no no-op.
pub record IsPlanned (cfg : AgentConfig) (compactor : Compactor) (a : Agent) (c : Compression)
    (ms : List Message) : Type 0 where
  pub result : CompactionResult
  pub tokens_before : ℕ
  pub tokens_after : ℕ
  pub returned : compactor a.messages cfg.keep_first cfg.keep_last_turns ≡ ok result
  pub recorded : c ≡ compression_record a tokens_before tokens_after result
  pub replaced : ms ≡ result.messages
  pub reduces :
      is_no_op (length a.messages) tokens_before (length result.messages) tokens_after ≡ false

pub plan-IsPlanned :
    (cfg : AgentConfig) (compactor : Compactor) (a : Agent) (c : Compression) (ms : List Message)
    → plan cfg compactor a ≡ ok (some (c, ms))
    → IsPlanned cfg compactor a c ms
unfolding plan
plan-IsPlanned cfg compactor a c ms h =
    let (before, e1, h1) = >>=-eq-ok (tokens_of cfg a.messages) _ h in
    let (r, e2, h2) = >>=-eq-ok (compactor a.messages cfg.keep_first cfg.keep_last_turns) _ h1 in
    let (after, e3, h3) = >>=-eq-ok (tokens_of cfg r.messages) _ h2 in
    let (guard, same) = if_none-some _ _ (c, ms) h3 in
    record {
      result = r;
      tokens_before = before;
      tokens_after = after;
      returned = e2;
      recorded = sym (ap (λ p. p.0) same);
      replaced = sym (ap (λ p. p.1) same);
      reduces = guard;
    }

compression_record-Shrinks :
    (a : Agent) (before after : ℕ) (r : CompactionResult)
    → is_no_op (length a.messages) before (length r.messages) after ≡ false
    → Shrinks (compression_record a before after r)
unfolding is_no_op compression_record
compression_record-Shrinks a before after r h = ground arith

-- Registering the record that a plan holds keeps the books.
register-IsSound :
    (a : Agent) (before after : ℕ) (r : CompactionResult)
    → is_no_op (length a.messages) before (length r.messages) after ≡ false
    → IsSound a
    → IsSound (register (compression_record a before after r) a)
unfolding register
register-IsSound a before after r h s = record {
  counted = refl;
  numbered =
      IsNumbered-append 0 a.compressions _ s.numbered (unfold compression_record in omega arith);
  shrinking =
      AllShrink-append a.compressions _ s.shrinking (compression_record-Shrinks a before after r h);
}

save_and_replace-IsSound :
    (cfg : AgentConfig) (writes : File → Bool) (c : Compression) (ms : List Message) (a : Agent)
    → IsSound a
    → IsSound (save_and_replace cfg writes c ms a).1
unfolding save_and_replace
save_and_replace-IsSound cfg writes c ms a s = elim (Bool-cases cfg.saves) [
  | inr off ↦ rw off (moved _ _)
  | inl on ↦ elim (Bool-cases (writes (compaction_file c))) [
    | inl written ↦ rw (on, written) (moved _ _)
    | inr failed ↦ rw (on, failed) s
  ]
]
  where
    moved : (ms : List Message) (fs : List File) → IsSound (record a { messages = ms; files = fs })
    moved ms fs = record { counted = s.counted; numbered = s.numbered; shrinking = s.shrinking }

apply_plan-IsSound :
    (cfg : AgentConfig) (writes : File → Bool) (compactor : Compactor) (a : Agent)
    (p : Result (Option (Compression × List Message)))
    → plan cfg compactor a ≡ p
    → IsSound a
    → IsSound (apply_plan cfg writes p a).1
unfolding apply_plan
apply_plan-IsSound cfg writes compactor a (err e) h s = s
apply_plan-IsSound cfg writes compactor a (ok none) h s = s
apply_plan-IsSound cfg writes compactor a (ok (some (c, ms))) h s =
    let p = plan-IsPlanned cfg compactor a c ms h in
    save_and_replace-IsSound cfg writes c ms (register c a) (
      subst (λ d. IsSound (register d a)) (sym p.recorded)
        (register-IsSound a p.tokens_before p.tokens_after p.result p.reduces s))

compress_if-IsSound :
    (cfg : AgentConfig) (writes : File → Bool) (o : Option Compactor) (b : Result Bool) (a : Agent)
    → IsSound a
    → IsSound (compress_if cfg writes o b a).1
unfolding compress_if
compress_if-IsSound cfg writes o (err e) a s = s
compress_if-IsSound cfg writes o (ok false) a s = s
compress_if-IsSound cfg writes none (ok true) a s = s
compress_if-IsSound cfg writes (some c) (ok true) a s =
    apply_plan-IsSound cfg writes c a (plan cfg c a) refl s

pub maybe_compress-IsSound :
    (cfg : AgentConfig) (writes : File → Bool) (a : Agent)
    → IsSound a
    → IsSound (maybe_compress cfg writes a).1
unfolding maybe_compress
maybe_compress-IsSound cfg writes a s =
    compress_if-IsSound cfg writes cfg.compactor (should_compact cfg a) a s
