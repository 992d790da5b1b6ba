-- ===== src/Tests/Samples.antt =====
-- The sample histories of the tests.
use tts_tokens_that_suffice.Prelude.{Text, ℕ, List, [], some, suc, codes, ◌∷◌, decimal, zero, none}
use tts_tokens_that_suffice.Message.{
  Message, ToolCall, plain, assistant, tool, system, json_text, user, Codec,
}

abbrev pub call : Text → ToolCall
call i = record {
  id = some i;
  name = some (codes "bash");
  arguments = some (json_text (codes "{}"));
}

abbrev pub act : Message
act = record (plain assistant (codes "run")) { tool_calls = call (codes "c1") ∷ [] }

abbrev pub observe : Text → Message
observe t = record (plain tool t) { tool_call_id = some (codes "c1") }

-- `n` turns of the agent, whose outputs are the decimal numbers downwards
abbrev pub history : ℕ → List Message
history zero = []
history (suc n) = act ∷ observe (decimal n) ∷ history n

abbrev pub preamble : List Message
preamble = plain system (codes "sys") ∷ plain user (codes "task") ∷ []

-- A JSON module that reads and writes nothing.
abbrev pub blind_codec : Codec
blind_codec = record { loads = λ t. none; dumps = λ j. [] }
