-- ===== src/Tests/Agents.antt =====
-- The laws of the agent, applied to a run of two queries.
use tts_tokens_that_suffice.Strategies.Truncation
use tts_tokens_that_suffice.Prelude.{
  ◌+◌, ◌≡◌, refl, subst, Bool, true, none, some, List, [], ◌∷◌, ◌++◌, arith, decimal, ok, codes,
  value_error, err,
}
use tts_tokens_that_suffice.Agent.State.{AgentConfig, File, Agent}
use tts_tokens_that_suffice.Agent.{Ask, query}
use tts_tokens_that_suffice.Agent.Query.{Appends, Reach, start, next, here}
use tts_tokens_that_suffice.Message.{Message}
use tts_tokens_that_suffice.Compaction.{Compactor}
use tts_tokens_that_suffice.Agent.Head.{SameHead, Reach-SameHead}
use tts_tokens_that_suffice.Tests.Samples.{blind_codec, act, preamble, history}
use tts_tokens_that_suffice.Compaction.Ends.{KeepsEnds}
use tts_tokens_that_suffice.Strategies.Ends.{truncation-KeepsEnds}
use tts_tokens_that_suffice.Evaluation.Arms.{build_compactor, build_compactor-SameHead}
use tts_tokens_that_suffice.Mask.Tags.{ascii_runtime}

-- An agent that truncates from three turns on and keeps one.
abbrev truncating : AgentConfig
truncating = record {
  json = blind_codec;
  compactor = some Truncation.compact;
  tokenizer = none;
  compress_at_tokens = 1000;
  compress_at_turns = 3;
  keep_first = 2;
  keep_last_turns = 1;
  saves = true;
}

abbrev all_written : File → Bool
all_written f = true

-- A model that always runs the same command.
abbrev same_reply : Ask
same_reply ms n = (ok (act, some 7), (ms ++ act ∷ [], n + 1))

same_reply-Appends : Appends same_reply
same_reply-Appends ms n = (act ∷ [], refl)

abbrev three_turns : List Message
three_turns = preamble ++ history 3

abbrev after_two : Agent
after_two =
    (query truncating all_written same_reply
      (query truncating all_written same_reply (start truncating all_written three_turns)).1).1

two_queries : Reach truncating (start truncating all_written three_turns) after_two
two_queries =
    next all_written same_reply same_reply-Appends
      (next all_written same_reply same_reply-Appends here)

-- One compaction has been made, and it has dropped two turns.
one_compaction :
    (after_two.n_compressions ≡ 1)
    × (after_two.messages ≡ preamble ++ (history 1 ++ act ∷ act ∷ []))
unfolding query start Truncation.compact decimal
one_compaction = (refl, refl)

keeps_ends : (c : Compactor) → truncating.compactor ≡ some c → KeepsEnds c
keeps_ends c h = let same : Truncation.compact ≡ c = cc in subst KeepsEnds same truncation-KeepsEnds

Reach-SameHead_example :
    SameHead 2 (start truncating all_written three_turns).messages after_two.messages
Reach-SameHead_example =
    Reach-SameHead truncating keeps_ends (start truncating all_written three_turns) two_queries
      (unfold start in omega arith)

-- The arm "truncation" builds the compactor of the agent above.
arm_kept : SameHead 2 (start truncating all_written three_turns).messages after_two.messages
arm_kept =
    build_compactor-SameHead ascii_runtime blind_codec (λ e. []) (err value_error) truncating
      (codes "truncation") [] (start truncating all_written three_turns) built two_queries
      (unfold start in omega arith)
  where
    built :
        build_compactor ascii_runtime blind_codec
          (λ e. [])
          (err value_error)
          (codes "truncation")
          []
        ≡ ok truncating.compactor
    built = unfold build_compactor in refl
