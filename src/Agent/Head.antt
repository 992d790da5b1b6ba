-- ===== src/Agent/Head.antt =====
-- What a compaction of `SummarizingAgent`, src/tts/agent/summarization_agent.py, does to the
-- messages, and that the head of the history outlives every query.
use tts_tokens_that_suffice.Prelude.{
  ◌+◌, ◌<◌, ◌≡◌, ◌⊎◌, Bool, true, some, [], ◌∷◌, ◌++◌, length, ok, ℕ, ◌≤◌, refl, ap, ◌∙◌, inl, inr,
  false, Option, none, List, arith, Bool-cases, take, length-take_append, Result, err,
  length-append, take-append_left,
}
use tts_tokens_that_suffice.Agent.State.{AgentConfig, Agent, File, Compression, compaction_file}
use tts_tokens_that_suffice.Agent.{
  should_compact, maybe_compress, save_and_replace, apply_plan, compress_if, register, plan,
  note_usage, ask_model, query_after, query, Ask, tokens_of,
}
use tts_tokens_that_suffice.Compaction.{Compactor}
use tts_tokens_that_suffice.Agent.Compress.{IsPlanned, plan-IsPlanned}
use tts_tokens_that_suffice.Message.{Message}
use tts_tokens_that_suffice.Compaction.Ends.{KeepsEnds, take-KeepsEnds}
use tts_tokens_that_suffice.Agent.Query.{Reach, Appends, next, here}
use tts_tokens_that_suffice.Agent.Due.{IsDue, should_compact-IsDue}

-- The messages after `_maybe_compress`: those of a compaction that was due.
pub record IsCompacted (cfg : AgentConfig) (a b : Agent) : Type 0 where
  pub compactor : Compactor
  pub recorded : Compression
  pub configured : cfg.compactor ≡ some compactor
  pub long_enough : cfg.keep_first + 2 < length a.messages
  pub due : IsDue cfg a
  pub planned : IsPlanned cfg compactor a recorded b.messages
  pub appended : b.compressions ≡ a.compressions ++ recorded ∷ []

-- The messages stay, or they are the new ones and the records have been kept.
save_and_replace_cases :
    (cfg : AgentConfig) (writes : File → Bool) (c : Compression) (ms : List Message) (a : Agent)
    → let b = (save_and_replace cfg writes c ms a).1 in
      (b.messages ≡ a.messages) ⊎ ((b.messages ≡ ms) × (b.compressions ≡ a.compressions))
unfolding save_and_replace
save_and_replace_cases cfg writes c ms a = elim (Bool-cases cfg.saves) [
  | inr off ↦ inr (rw off refl, rw off refl)
  | inl on ↦ elim (Bool-cases (writes (compaction_file c))) [
    | inl written ↦ inr (rw (on, written) refl, rw (on, written) refl)
    | inr failed ↦ inl (rw (on, failed) refl)
  ]
]

apply_plan_cases :
    (cfg : AgentConfig) (writes : File → Bool) (compactor : Compactor) (a : Agent)
    (p : Result (Option (Compression × List Message)))
    → cfg.compactor ≡ some compactor
    → (cfg.keep_first + 2 < length a.messages) × IsDue cfg a
    → plan cfg compactor a ≡ p
    → let b = (apply_plan cfg writes p a).1 in (b.messages ≡ a.messages) ⊎ IsCompacted cfg a b
unfolding apply_plan register
apply_plan_cases cfg writes compactor a (err e) set is_due h = inl refl
apply_plan_cases cfg writes compactor a (ok none) set is_due h = inl refl
apply_plan_cases cfg writes compactor a (ok (some (c, ms))) set (long, is_due) h =
    elim (save_and_replace_cases cfg writes c ms (register c a)) [
      | inl same ↦ inl same
      | inr (new, kept) ↦ inr (record {
        compactor = compactor;
        recorded = c;
        configured = set;
        long_enough = long;
        due = is_due;
        planned = rw new (plan-IsPlanned cfg compactor a c ms h);
        appended = kept;
      })
    ]

compress_if_cases :
    (cfg : AgentConfig) (writes : File → Bool) (o : Option Compactor) (due : Result Bool)
    (a : Agent)
    → cfg.compactor ≡ o
    → should_compact cfg a ≡ due
    → let b = (compress_if cfg writes o due a).1 in (b.messages ≡ a.messages) ⊎ IsCompacted cfg a b
unfolding compress_if
compress_if_cases cfg writes o (err e) a set h = inl refl
compress_if_cases cfg writes o (ok false) a set h = inl refl
compress_if_cases cfg writes none (ok true) a set h = inl refl
compress_if_cases cfg writes (some c) (ok true) a set h =
    apply_plan_cases cfg writes c a (plan cfg c a) set (should_compact-IsDue cfg a h) refl

pub maybe_compress_cases :
    (cfg : AgentConfig) (writes : File → Bool) (a : Agent)
    → let b = (maybe_compress cfg writes a).1 in (b.messages ≡ a.messages) ⊎ IsCompacted cfg a b
unfolding maybe_compress
maybe_compress_cases cfg writes a =
    compress_if_cases cfg writes cfg.compactor (should_compact cfg a) a refl refl

-- The first `f` messages of the second history are those of the first.
abbrev pub SameHead : ℕ → List Message → List Message → Type 0
SameHead f ms ns = (f ≤ length ns) × (take f ns ≡ take f ms)

module _ (cfg : AgentConfig) (keeps : (c : Compactor) → cfg.compactor ≡ some c → KeepsEnds c) where
  SameHead-compacted :
      (a b : Agent)
      → cfg.keep_first ≤ length a.messages
      → IsCompacted cfg a b
      → SameHead cfg.keep_first a.messages b.messages
  SameHead-compacted a b h c =
      let p = c.planned in
      let k = keeps c.compactor c.configured in
      let (middle, same) =
        k.ends a.messages cfg.keep_first cfg.keep_last_turns p.result p.returned in
      (
        rw (p.replaced ∙ same) (length-take_append cfg.keep_first a.messages _ h),
        ap (take cfg.keep_first) p.replaced
            ∙ take-KeepsEnds c.compactor k a.messages _ _ p.result h p.returned,
      )

  SameHead-maybe_compress :
      (writes : File → Bool) (a : Agent)
      → cfg.keep_first ≤ length a.messages
      → SameHead cfg.keep_first a.messages (maybe_compress cfg writes a).1.messages
  SameHead-maybe_compress writes a h = elim (maybe_compress_cases cfg writes a) [
    | inl same ↦ (rw same h, rw same refl)
    | inr c ↦ SameHead-compacted a _ h c
  ]

messages-note_usage :
    (r : Result (Message × Option ℕ)) (a : Agent) → (note_usage r a).1.messages ≡ a.messages
unfolding note_usage
messages-note_usage (err e) a = refl
messages-note_usage (ok (m, none)) a = refl
messages-note_usage (ok (m, some n)) a = refl

messages-ask_model :
    (ask : Ask) (t : Result ℕ) (a : Agent)
    → ((ask_model ask t a).1.messages ≡ a.messages)
      ⊎ ((ask_model ask t a).1.messages ≡ (ask a.messages a.n_calls).1.0)
unfolding ask_model
messages-ask_model ask (err e) a = inl refl
messages-ask_model ask (ok n) a = inr (messages-note_usage (ask a.messages a.n_calls).0 _)

SameHead-query_after :
    (f : ℕ) (cfg : AgentConfig) (ask : Ask) (r : Result (Unit {0})) (a : Agent)
    → Appends ask
    → f ≤ length a.messages
    → SameHead f a.messages (query_after cfg ask r a).1.messages
unfolding query_after
SameHead-query_after f cfg ask (err e) a appends h = (h, refl)
SameHead-query_after f cfg ask (ok u) a appends h =
    elim (messages-ask_model ask (tokens_of cfg a.messages) a) [
      | inl same ↦ (rw same h, rw same refl)
      | inr new ↦
          let (more, e) = appends a.messages a.n_calls in
          (
            rw (new ∙ e) (omega (arith, length-append a.messages more)),
            rw (new ∙ e) (take-append_left f a.messages more h),
          )
    ]

module _ (cfg : AgentConfig) (keeps : (c : Compactor) → cfg.compactor ≡ some c → KeepsEnds c) where
  SameHead-query :
      (writes : File → Bool) (ask : Ask) (a : Agent)
      → Appends ask
      → cfg.keep_first ≤ length a.messages
      → SameHead cfg.keep_first a.messages (query cfg writes ask a).1.messages
  unfolding query
  SameHead-query writes ask a appends h =
      let (long, same) = SameHead-maybe_compress cfg keeps writes a h in
      let (long', same') =
        SameHead-query_after cfg.keep_first cfg ask (maybe_compress cfg writes a).0
          (maybe_compress cfg writes a).1 appends long in
      (long', same' ∙ same)

  -- With a compactor that keeps the ends of a history, the first `keep_first` messages (the system
  -- prompt and the task among them) are the same after any queries, whether these return or raise.
  pub Reach-SameHead :
      (a : Agent) {b : Agent}
      → Reach cfg a b
      → cfg.keep_first ≤ length a.messages
      → SameHead cfg.keep_first a.messages b.messages
  Reach-SameHead a here h = (h, refl)
  Reach-SameHead a (next {b = c} writes ask appends r) h =
      let (long, same) = Reach-SameHead a r h in
      let (long', same') = SameHead-query writes ask c appends long in (long', same' ∙ same)
