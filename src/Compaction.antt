-- ===== src/Compaction.antt =====
-- The compaction interface of src/tts/summarization/base.py: the split of a history into a head, a
-- middle and a tail, and what a compactor returns. The laws are in the modules below.
pub mod Turns
pub mod Partition
pub mod Ends
use tts_tokens_that_suffice.Prelude.{
  ℕ, zero, suc, ◌-◌, ◌+◌, Bool, true, false, ◌&&◌, Option, List, [], ◌∷◌, Text, Result, length,
  take, drop, test_at, if◌then◌else◌, ◌==◌,
}
use tts_tokens_that_suffice.Message.{Message, is_tool}

-- `messages[i].get("role") == "tool"`
abbrev pub tool_at : List Message → ℕ → Bool
tool_at = test_at is_tool

-- The inner loop of `last_n_turns`, from `j = k - 1` down: the index after the tool message before
-- `k`, or 0.
unfoldable pub turn_start : List Message → ℕ → ℕ
turn_start messages zero = 0
turn_start messages (suc j) =
    let rest = turn_start messages j in if tool_at messages j then suc j else rest

-- The outer loop, from `i = k - 1` down.
unfoldable pub last_turns_from : List Message → ℕ → ℕ → ℕ → List Message
unfolding turn_start
last_turns_from messages n zero tool_count = messages
last_turns_from messages n (suc i) tool_count =
    let seen = if tool_at messages i then tool_count + 1 else tool_count in
    let rest = last_turns_from messages n i seen in
    if tool_at messages i && seen == n then drop (turn_start messages i) messages else rest

unfoldable pub last_n_turns : List Message → ℕ → List Message
unfolding last_turns_from
last_n_turns messages zero = []
last_n_turns messages (suc n) = last_turns_from messages (suc n) (length messages) 0

pub record Split : Type 0 where
  pub head : List Message
  pub middle : List Message
  pub tail : List Message

-- `end`: the whole length when the tail is empty
unfoldable pub middle_end : List Message → List Message → ℕ
middle_end messages [] = length messages
middle_end messages (m ∷ tail) = length messages - length (m ∷ tail)

unfoldable pub split_head_tail : List Message → ℕ → ℕ → Split
unfolding last_n_turns middle_end
split_head_tail messages keep_first keep_last_turns =
    let tail = last_n_turns (drop keep_first messages) keep_last_turns in
    record {
      head = take keep_first messages;
      middle = drop keep_first (take (middle_end messages tail) messages);
      tail = tail;
    }

-- "summary" | "mask" | "truncation" | "summary_failed"
pub data Kind : Type 0 where
  summary mask truncation summary_failed : Kind

-- What the strategies record for an audit.
pub data Metadata : Type 0 where
  no_metadata : Metadata
  failed_with : Text → Metadata
  dropped : ℕ → Metadata
  -- the two numbers of a mask: outputs and thoughts masked
  masked : ℕ → ℕ → Metadata
  -- cliff: head, middle and summary lengths
  cliff : ℕ → ℕ → ℕ → Metadata
  -- subtask: themes, messages compressed, messages of the theme in progress kept
  themes : ℕ → ℕ → ℕ → Metadata

pub record CompactionResult : Type 0 where
  pub messages : List Message
  pub kind : Kind
  pub summary : Option Text
  pub metadata : Metadata

-- `base.Compactor`: a history, `keep_first` and `keep_last_turns`. A call may raise.
abbrev pub Compactor : Type 0
Compactor = List Message → ℕ → ℕ → Result CompactionResult
