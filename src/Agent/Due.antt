-- ===== src/Agent/Due.antt =====
-- When `SummarizingAgent`, src/tts/agent/summarization_agent.py, compacts: its budget is used up.
use tts_tokens_that_suffice.Prelude.{
  ℕ, Option, ◌+◌, ◌≤◌, ◌<◌, ◌≡◌, refl, ◌∙◌, ◌⊎◌, inl, inr, Bool, true, false, none, some, arith,
  ltb, leb, if◌then◌else◌, Bool-cases, length, count, Result, ok_injective, ◌>>=◌, err, ok,
}
use tts_tokens_that_suffice.Agent.State.{AgentConfig, Agent}
use tts_tokens_that_suffice.Agent.{
  context_tokens_now, over_budget, should_compact, context_turns, tokens_of,
}
use tts_tokens_that_suffice.Message.{is_tool}
use tts_tokens_that_suffice.Compaction.{Compactor}

-- The budget of a history is used up: its turns, where the trigger is a number of turns, and else the
-- tokens that the server reported, or that were estimated before its first reply.
abbrev pub IsDue : AgentConfig → Agent → Type 0
IsDue cfg a =
    ((0 < cfg.compress_at_turns) × (cfg.compress_at_turns ≤ count is_tool a.messages))
    ⊎ ((cfg.compress_at_turns ≡ 0)
        × (n : ℕ) × (elim a.last_prompt_tokens [ some k ↦ ok k | none ↦ tokens_of cfg a.messages ]
            ≡ ok n)
        × (cfg.compress_at_tokens ≤ n))

tokens-IsDue :
    (cfg : AgentConfig) (a : Agent) (r : Result ℕ)
    → cfg.compress_at_turns ≡ 0
    → context_tokens_now cfg a ≡ r
    → (r >>= λ n. ok (leb cfg.compress_at_tokens n)) ≡ ok true
    → IsDue cfg a
unfolding context_tokens_now
tokens-IsDue cfg a (err e) off now h = absurd (cc)
tokens-IsDue cfg a (ok n) off now h = inr (off, n, now, ground (arith, ok_injective _ true h))

over_budget-IsDue : (cfg : AgentConfig) (a : Agent) → over_budget cfg a ≡ ok true → IsDue cfg a
unfolding over_budget context_turns
over_budget-IsDue cfg a h = elim (Bool-cases (ltb 0 cfg.compress_at_turns)) [
  | inl by_turns ↦ inl (
    ground (arith, by_turns),
    (let reached : ok (leb cfg.compress_at_turns (count is_tool a.messages)) ≡ ok true =
          rw by_turns at h in
        ground (arith, ok_injective _ true reached)),
  )
  | inr by_tokens ↦
      tokens-IsDue cfg a (context_tokens_now cfg a) (ground (arith, by_tokens)) refl
        (rw by_tokens at h)
]

due_if_should :
    (cfg : AgentConfig) (a : Agent) (o : Option Compactor) (r : Result Bool)
    → over_budget cfg a ≡ r
    → elim o [
      | none ↦ ok false
      | some c ↦ if leb (length a.messages) (cfg.keep_first + 2) then ok false else r
    ]
      ≡ ok true
    → (cfg.keep_first + 2 < length a.messages) × IsDue cfg a
due_if_should cfg a none r e h = absurd (cc)
due_if_should cfg a (some c) r e h =
    elim (Bool-cases (leb (length a.messages) (cfg.keep_first + 2))) [
      | inl short ↦ let bad : ok false ≡ ok true = rw short at h in absurd (cc)
      | inr long ↦ (ground (arith, long), over_budget-IsDue cfg a (e ∙ (rw long at h)))
    ]

pub should_compact-IsDue :
    (cfg : AgentConfig) (a : Agent)
    → should_compact cfg a ≡ ok true
    → (cfg.keep_first + 2 < length a.messages) × IsDue cfg a
unfolding should_compact
should_compact-IsDue cfg a h = due_if_should cfg a cfg.compactor (over_budget cfg a) refl h
