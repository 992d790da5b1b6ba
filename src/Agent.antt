-- ===== src/Agent.antt =====
-- `SummarizingAgent`, src/tts/agent/summarization_agent.py: when an agent compacts its context, and
-- what it records of it. The laws are in the modules below.
pub mod State
pub mod Compress
pub mod Query
pub mod Due
pub mod Head
use tts_tokens_that_suffice.Prelude.{
  ℕ, ◌+◌, ◌*◌, ◌/◌, Bool, true, false, not, ◌&&◌, Option, none, some, List, [], ◌∷◌, ◌++◌, ltb, leb,
  if◌then◌else◌, length, count, codes, join, Result, ◌>>=◌, os_error, ok, err,
}
use tts_tokens_that_suffice.Agent.State.{
  message_texts, AgentConfig, Agent, Compression, Exec, File, compaction_file, count_file,
}
use tts_tokens_that_suffice.Message.{Message, is_tool}
use tts_tokens_that_suffice.Compaction.{CompactionResult, Compactor}

-- `_tokens_of`
unfoldable pub tokens_of : AgentConfig → List Message → Result ℕ
unfolding message_texts join
tokens_of cfg messages = message_texts cfg.json messages >>= λ ts. ok (elim cfg.tokenizer [
  | none ↦ length (join (codes "\n") ts) / 3 + 4 * length messages
  | some encode ↦ encode (join (codes "\n") ts)
])

-- `_context_tokens`: the count that the server reported, and before the first reply an estimate
unfoldable pub context_tokens_now : AgentConfig → Agent → Result ℕ
unfolding tokens_of
context_tokens_now cfg a = elim a.last_prompt_tokens [
  | some n ↦ ok n
  | none ↦ tokens_of cfg a.messages
]

-- `_context_turns`
unfoldable pub context_turns : Agent → ℕ
context_turns a = count is_tool a.messages

-- `_over_budget`
unfoldable pub over_budget : AgentConfig → Agent → Result Bool
unfolding context_turns context_tokens_now
over_budget cfg a =
    if ltb 0 cfg.compress_at_turns
    then ok (leb cfg.compress_at_turns (context_turns a))
    else context_tokens_now cfg a >>= λ n. ok (leb cfg.compress_at_tokens n)

-- `_should_compact`
unfoldable pub should_compact : AgentConfig → Agent → Result Bool
unfolding over_budget
should_compact cfg a = elim cfg.compactor [
  | none ↦ ok false
  | some c ↦ if leb (length a.messages) (cfg.keep_first + 2) then ok false else over_budget cfg a
]

-- The no-reduction guard of `_maybe_compress`.
unfoldable pub is_no_op : ℕ → ℕ → ℕ → ℕ → Bool
is_no_op msgs_before tokens_before msgs_after tokens_after =
    leb msgs_before msgs_after && leb tokens_before tokens_after

-- The record of a compaction.
unfoldable pub compression_record : Agent → ℕ → ℕ → CompactionResult → Compression
compression_record a tokens_before tokens_after r = record {
  index = length a.compressions;
  kind = r.kind;
  n_calls_at = a.n_calls;
  n_msgs_before = length a.messages;
  n_msgs_after = length r.messages;
  tokens_before = tokens_before;
  tokens_after = tokens_after;
  summary = r.summary;
  metadata = r.metadata;
  input_messages = a.messages;
}

-- `_maybe_compress` up to its first assignment: the record and the new messages, or `none` where it
-- returns early. It changes nothing.
unfoldable pub plan : AgentConfig → Compactor → Agent → Result (Option (Compression × List Message))
unfolding tokens_of is_no_op compression_record
plan cfg compactor a = tokens_of cfg a.messages >>= λ tokens_before.
    compactor a.messages cfg.keep_first cfg.keep_last_turns >>= λ r.
    tokens_of cfg r.messages >>= λ tokens_after. ok (
      if is_no_op (length a.messages) tokens_before (length r.messages) tokens_after
      then none
      else some (compression_record a tokens_before tokens_after r, r.messages))

-- The assignments to `compressions` and `n_compressions`.
unfoldable pub register : Compression → Agent → Agent
register c a = record a {
  compressions = a.compressions ++ c ∷ [];
  n_compressions = length (a.compressions ++ c ∷ []);
}

-- `_save_compaction`, after which `_maybe_compress` assigns the messages. `writes` tells which files
-- can be written. A failure on the compaction's own file is raised, one on the count is not.
unfoldable pub save_and_replace :
    AgentConfig → (File → Bool) → Compression → List Message → Exec (Unit {0})
save_and_replace cfg writes c messages a =
    if not cfg.saves
    then (ok tt, record a { messages = messages })
    else if not (writes (compaction_file c))
    then (err os_error, a)
    else (
      ok tt,
      record a {
        messages = messages;
        files =
            a.files
            ++ compaction_file c
              ∷ (if writes (count_file a.n_compressions)
                  then count_file a.n_compressions ∷ []
                  else []);
      },
    )

unfoldable pub apply_plan :
    AgentConfig → (File → Bool) → Result (Option (Compression × List Message)) → Exec (Unit {0})
unfolding register save_and_replace
apply_plan cfg writes (err e) a = (err e, a)
apply_plan cfg writes (ok none) a = (ok tt, a)
apply_plan cfg writes (ok (some (c, messages))) a =
    save_and_replace cfg writes c messages (register c a)

unfoldable pub compress_if :
    AgentConfig → (File → Bool) → Option Compactor → Result Bool → Exec (Unit {0})
unfolding apply_plan plan
compress_if cfg writes compactor (err e) a = (err e, a)
compress_if cfg writes compactor (ok false) a = (ok tt, a)
compress_if cfg writes none (ok true) a = (ok tt, a)
compress_if cfg writes (some c) (ok true) a = apply_plan cfg writes (plan cfg c a) a

unfoldable pub maybe_compress : AgentConfig → (File → Bool) → Exec (Unit {0})
unfolding compress_if should_compact
maybe_compress cfg writes a = compress_if cfg writes cfg.compactor (should_compact cfg a) a

-- What the base class's `query` does to the messages and the number of calls, with its reply and the
-- prompt tokens that the server reported.
abbrev pub Ask : Type 0
Ask = List Message → ℕ → Result (Message × Option ℕ) × (List Message × ℕ)

-- `self.last_prompt_tokens` is assigned when the usage has a number.
unfoldable pub note_usage : Result (Message × Option ℕ) → Exec Message
note_usage (err e) a = (err e, a)
note_usage (ok (m, none)) a = (ok m, a)
note_usage (ok (m, some n)) a = (ok m, record a { last_prompt_tokens = some n })

-- `query` behind `_maybe_compress`
unfoldable pub ask_model : Ask → Result ℕ → Exec Message
unfolding note_usage
ask_model ask (err e) a = (err e, a)
ask_model ask (ok tokens) a =
    let (reply, (messages, calls)) = ask a.messages a.n_calls in
    note_usage reply (record a {
      context_tokens = a.context_tokens ++ tokens ∷ [];
      messages = messages;
      n_calls = calls;
    })

unfoldable pub query_after : AgentConfig → Ask → Result (Unit {0}) → Exec Message
unfolding ask_model tokens_of
query_after cfg ask (err e) a = (err e, a)
query_after cfg ask (ok u) a = ask_model ask (tokens_of cfg a.messages) a

unfoldable pub query : AgentConfig → (File → Bool) → Ask → Exec Message
unfolding query_after maybe_compress
query cfg writes ask a = let (r, a') = maybe_compress cfg writes a in query_after cfg ask r a'
