-- ===== src/Tests/Branches.antt =====
-- The laws of branch points and verdicts, applied to sample histories.
use tts_tokens_that_suffice.Prelude.{
  ℕ, ◌≡◌, refl, none, some, List, [], ◌∷◌, ◌++◌, length, take, Text, codes, decimal, ok,
}
use tts_tokens_that_suffice.Message.{Message}
use tts_tokens_that_suffice.Rollouts.{
  chain, get_before_traj_for_step, create_partial_trajectories, validate_messages, expected_ids,
  chunk_by_assistant, valid, unanswered, missing_ids, responded_ids,
}
use tts_tokens_that_suffice.Rollouts.Chunks.{
  IsBranchPrefix, get_before_traj_for_step-IsBranchPrefix, chain-chunk_by_assistant,
}
use tts_tokens_that_suffice.Rollouts.Branches.{All, IsCutAt, create_partial_trajectories-All}
use tts_tokens_that_suffice.Rollouts.Verdicts.{
  IsUnanswered, validate_messages-unanswered, validate_messages-valid,
}
use tts_tokens_that_suffice.Tests.Samples.{preamble, history, act, observe}

abbrev two_turns : List Message
two_turns = preamble ++ history 2

two_chunked : chain (chunk_by_assistant two_turns) ≡ two_turns
two_chunked = chain-chunk_by_assistant two_turns

-- In front of the second action.
abbrev prefix : List Message
prefix = preamble ++ act ∷ observe (codes "1") ∷ []

prefix_run : get_before_traj_for_step two_turns 1 ≡ some prefix
unfolding get_before_traj_for_step decimal
prefix_run = refl

two_prefixed : IsBranchPrefix two_turns prefix 1
two_prefixed = get_before_traj_for_step-IsBranchPrefix two_turns 1 prefix prefix_run

-- Sampling that keeps the first indices.
abbrev first_ones : ℕ → List ℕ → List ℕ
first_ones = take

-- Twelve turns have two branch points, and one is asked for, with two rollouts.
branches_run :
    length
      (create_partial_trajectories first_ones (preamble ++ history 12) (codes "u") 2 (some 1) none)
    ≡ 3
unfolding create_partial_trajectories decimal
branches_run = refl

create_partial_trajectories-All_example :
    All
      (IsCutAt (preamble ++ history 12))
      (create_partial_trajectories first_ones (preamble ++ history 12) (codes "u") 2 (some 1) none)
create_partial_trajectories-All_example =
    create_partial_trajectories-All first_ones (preamble ++ history 12) (codes "u") 2 (some 1) none

valid_run : validate_messages two_turns ≡ ok valid
unfolding validate_messages decimal
valid_run = refl

-- The first action of that history has its answer.
two_valid :
    (ids : List Text) × (expected_ids act.tool_calls ≡ ok ids)
    × (missing_ids ids (responded_ids (observe (decimal 1) ∷ history 1)) ≡ [])
two_valid = validate_messages-valid preamble act (observe (decimal 1) ∷ history 1) valid_run refl

-- An action whose output is cut off.
abbrev cut_off : List Message
cut_off = preamble ++ history 1 ++ act ∷ []

unanswered_run : validate_messages cut_off ≡ ok (unanswered 4 (codes "c1" ∷ []))
unfolding validate_messages decimal
unanswered_run = refl

cut_off_messages : IsUnanswered cut_off 4 (codes "c1" ∷ [])
cut_off_messages = validate_messages-unanswered cut_off 4 (codes "c1" ∷ []) unanswered_run
