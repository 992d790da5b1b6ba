-- ===== src/Agent/Query.antt =====
-- `query` of `SummarizingAgent`, src/tts/agent/summarization_agent.py, over any run of an agent: the
-- books, and what a compactor that keeps the head means for the agent.
use tts_tokens_that_suffice.Prelude.{ℕ, Bool, none, List, [], ◌≡◌, ◌∷◌, ◌++◌, ◌&&◌, if◌then◌else◌}
use tts_tokens_that_suffice.Agent.{query, Ask}
use tts_tokens_that_suffice.Message.{Message}
use tts_tokens_that_suffice.Agent.State.{AgentConfig, Agent, File, count_file}

-- `__init__` with no compaction yet. Where compactions are saved, it writes their number, if it can.
unfoldable pub start : AgentConfig → (File → Bool) → List Message → Agent
start cfg writes messages = record {
  messages = messages;
  n_calls = 0;
  n_compressions = 0;
  compressions = [];
  context_tokens = [];
  last_prompt_tokens = none;
  files = if cfg.saves && writes (count_file 0) then count_file 0 ∷ [] else [];
}

-- What the base class's `query` documents: it appends to the messages.
abbrev pub Appends : Ask → Type 0
Appends ask = (ms : List Message) (n : ℕ) → (more : List Message) × ((ask ms n).1.0 ≡ ms ++ more)

-- An agent after any number of queries, each with a file system and a model of its own, whether the
-- queries returned or raised.
pub data Reach (cfg : AgentConfig) (a : Agent) : Agent → Type 0 where
  here : Reach cfg a a
  next :
      {b : Agent} (writes : File → Bool) (ask : Ask)
      → Appends ask
      → Reach cfg a b
      → Reach cfg a (query cfg writes ask b).1
