-- ===== src/Rollouts.antt =====
-- Branch points of a trajectory and the check of its tool calls, src/tts/utils/trajectory.py. The
-- laws are in the modules below.
pub mod Chunks
pub mod Answers
pub mod Verdicts
pub mod Branches
pub mod Files
pub mod Missing
pub mod Scanned
pub mod Answered
pub mod Bases
pub mod Incomplete
pub mod InitFiles
pub mod Tallied
pub mod Counted
use tts_tokens_that_suffice.Prelude.{
  ℕ, zero, suc, ◌+◌, ◌-◌, Bool, true, false, not, ◌&&◌, ◌||◌, Option, none, some, List, [], ◌∷◌,
  ◌++◌, ltb, leb, if◌then◌else◌, length, take, keep_if, contains, Text, codes, text_eq, decimal,
  Result, ◌>>=◌, key_error, ok, err,
}
use tts_tokens_that_suffice.Message.{Message, ToolCall, is_assistant, is_tool, has_tool_calls}

-- What the loop leaves over: `if current_chunk: chunks.append(current_chunk)`
unfoldable pub last_chunk : List Message → List (List Message)
last_chunk [] = []
last_chunk (c ∷ current) = (c ∷ current) ∷ []

-- `chunk_trajectory_by_assistant`: the loop, with the current chunk.
unfoldable pub chunk_from : List Message → List Message → List (List Message)
unfolding last_chunk
chunk_from current [] = last_chunk current
chunk_from current (m ∷ ms) =
    let closed = (current ++ m ∷ []) ∷ chunk_from [] ms in
    let longer = chunk_from (current ++ m ∷ []) ms in if is_assistant m then closed else longer

unfoldable pub chunk_by_assistant : List Message → List (List Message)
unfolding chunk_from
chunk_by_assistant trajectory = chunk_from [] trajectory

-- xs[:-1]
unfoldable pub drop_last {ℓ} : {A : Type ℓ} → List A → List A
drop_last [] = []
drop_last (x ∷ []) = []
drop_last (x ∷ y ∷ xs) = x ∷ drop_last (y ∷ xs)

-- list(chain.from_iterable(chunks))
unfoldable pub chain : List (List Message) → List Message
chain [] = []
chain (c ∷ cs) = c ++ chain cs

unfoldable pub get_before_traj_for_step : List Message → ℕ → Option (List Message)
unfolding chunk_by_assistant drop_last chain
get_before_traj_for_step messages step =
    let chunks = chunk_by_assistant messages in
    if leb (length chunks) step then none else some (drop_last (chain (take (step + 1) chunks)))

-- {tc["id"] for tc in msg["tool_calls"]}, the set as a list
unfoldable pub expected_ids : List ToolCall → Result (List Text)
expected_ids [] = ok []
expected_ids (tc ∷ tcs) =
    let rest = expected_ids tcs in
    elim tc.id [ none ↦ err key_error | some i ↦ (rest >>= λ is. ok (i ∷ is)) ]

-- The inner loop: the ids of the tool messages that follow.
unfoldable pub responded_ids : List Message → List (Option Text)
responded_ids [] = []
responded_ids (m ∷ ms) =
    let rest = responded_ids ms in if is_tool m then m.tool_call_id ∷ rest else []

-- `i in responded`
unfoldable pub responds : Text → List (Option Text) → Bool
unfolding text_eq
responds i [] = false
responds i (none ∷ rs) = responds i rs
responds i (some j ∷ rs) = text_eq i j || responds i rs

-- expected - responded
unfoldable pub missing_ids : List Text → List (Option Text) → List Text
unfolding responds
missing_ids expected responded = keep_if (λ i. not (responds i responded)) expected

-- (True, None, None) is `valid`
pub data Verdict : Type 0 where
  valid : Verdict
  unanswered : ℕ → List Text → Verdict

unfoldable pub verdict_at : ℕ → List Text → Result Verdict → Result Verdict
verdict_at i [] rest = rest
verdict_at i (t ∷ ts) rest = ok (unanswered i (t ∷ ts))

-- The loop over the messages, from the index `i` on.
unfoldable pub validate_from : ℕ → List Message → Result Verdict
unfolding expected_ids responded_ids missing_ids verdict_at
validate_from i [] = ok valid
validate_from i (m ∷ ms) =
    let rest = validate_from (suc i) ms in
    if is_assistant m && has_tool_calls m
    then (expected_ids m.tool_calls >>= λ expected.
        verdict_at i (missing_ids expected (responded_ids ms)) rest)
    else rest

unfoldable pub validate_messages : List Message → Result Verdict
unfolding validate_from
validate_messages messages = validate_from 0 messages

-- One partial trajectory: its name, its messages and the step at which it starts.
pub record Partial : Type 0 where
  pub uid : Text
  pub trajectory : List Message
  pub step : ℕ

-- `eligible_indices`, before sampling: those from 5 up to 5 before the limit.
unfoldable pub eligible_from : ℕ → ℕ → ℕ → List ℕ
eligible_from zero i upper = []
eligible_from (suc n) i upper =
    let rest = eligible_from n (suc i) upper in if leb 5 i && ltb i upper then i ∷ rest else rest

-- {uid}:{i}:{label}
unfoldable pub branch_uid : Text → ℕ → Text → Text
unfolding decimal
branch_uid uid i label = uid ++ (codes ":" ++ (decimal i ++ (codes ":" ++ label)))

-- for n in range(n_rollouts): the continuations of the original action
unfoldable pub after_rollouts : Text → ℕ → List Message → ℕ → ℕ → List Partial
unfolding branch_uid
after_rollouts uid i after_traj n zero = []
after_rollouts uid i after_traj n (suc left) =
    record {
      uid = branch_uid uid i (codes "after:" ++ decimal n);
      trajectory = after_traj;
      step = i + 1;
    }
    ∷ after_rollouts uid i after_traj (suc n) left

-- What the loop appends at an eligible chunk, with the chunks behind it.
unfoldable pub branches_at : Text → ℕ → ℕ → List Message → List (List Message) → List Partial
unfolding after_rollouts drop_last
branches_at uid n_rollouts i current [] =
    record {
      uid = branch_uid uid i (codes "before_init");
      trajectory = drop_last current;
      step = i;
    }
    ∷ []
branches_at uid n_rollouts i current (next_chunk ∷ chunks) =
    record {
      uid = branch_uid uid i (codes "before_init");
      trajectory = drop_last current;
      step = i;
    }
    ∷ after_rollouts uid i (current ++ drop_last next_chunk) 0 n_rollouts

-- The loop over the chunks from the index `i` on, with `current_traj`.
unfoldable pub branch_from :
    Text → ℕ → List ℕ → ℕ → List Message → List (List Message) → List Partial
unfolding branches_at
branch_from uid n_rollouts eligible i current [] = []
branch_from uid n_rollouts eligible i current (chunk ∷ chunks) =
    (if contains eligible i then branches_at uid n_rollouts i (current ++ chunk) chunks else [])
    ++ branch_from uid n_rollouts eligible (suc i) (current ++ chunk) chunks

-- `sample` is `sorted(random.Random(uid).sample(eligible, max_branch_points))`, where that many are
-- eligible; a limit of `none` keeps all.
unfoldable pub create_partial_trajectories :
    (ℕ → List ℕ → List ℕ) → List Message → Text → ℕ → Option ℕ → Option ℕ → List Partial
unfolding chunk_by_assistant eligible_from branch_from
create_partial_trajectories sample messages uid n_rollouts max_branch_points sample_limit =
    let chunks = chunk_by_assistant messages in
    let upper : ℕ = elim sample_limit [ some l ↦ l - 5 | none ↦ length chunks - 5 ] in
    let all = eligible_from (length chunks) 0 upper in
    let eligible : List ℕ = elim max_branch_points [
      | none ↦ all
      | some k ↦ if ltb k (length all) then sample k all else all
    ] in
    branch_from uid n_rollouts eligible 0 [] chunks
