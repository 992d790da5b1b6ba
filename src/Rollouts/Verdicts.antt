-- ===== src/Rollouts/Verdicts.antt =====
-- What the two verdicts of `validate_messages`, src/tts/utils/trajectory.py, say of a history.
use tts_tokens_that_suffice.Prelude.{
  ℕ, suc, ◌+◌, ◌≡◌, refl, ◌∙◌, ◌≢◌, ◌⊎◌, inl, inr, true, ◌&&◌, List, [], ◌∷◌, ◌++◌, Bool-cases,
  length, Text, Result, >>=-eq-ok, ok, ap, subst, arith,
}
use tts_tokens_that_suffice.Message.{Message, is_assistant, has_tool_calls}
use tts_tokens_that_suffice.Rollouts.{
  verdict_at, validate_from, validate_messages, Verdict, valid, unanswered, expected_ids,
  missing_ids, responded_ids,
}

-- A message whose calls have no answer among the tool messages right behind it.
pub record IsUnanswered (ms : List Message) (i : ℕ) (ids : List Text) : Type 0 where
  pub before : List Message
  pub message : Message
  pub after : List Message
  pub whole : ms ≡ before ++ message ∷ after
  pub at : i ≡ length before
  pub calls : (is_assistant message && has_tool_calls message) ≡ true
  pub expected : List Text
  pub all_ids : expected_ids message.tool_calls ≡ ok expected
  pub left : missing_ids expected (responded_ids after) ≡ ids
  pub some_left : ids ≢ []

verdict_at-valid :
    (i : ℕ) (missing : List Text) (rest : Result Verdict)
    → verdict_at i missing rest ≡ ok valid
    → (missing ≡ []) × (rest ≡ ok valid)
unfolding verdict_at
verdict_at-valid i [] rest h = (refl, h)
verdict_at-valid i (t ∷ ts) rest h = absurd (cc)

verdict_at-unanswered :
    (i j : ℕ) (missing ids : List Text) (rest : Result Verdict)
    → verdict_at i missing rest ≡ ok (unanswered j ids)
    → ((i ≡ j) × (missing ≡ ids) × (ids ≢ [])) ⊎ (rest ≡ ok (unanswered j ids))
unfolding verdict_at
verdict_at-unanswered i j [] ids rest h = inr h
verdict_at-unanswered i j (t ∷ ts) ids rest h =
    inl (cc, cc, λ e. let same : t ∷ ts ≡ ids = cc in let bad : t ∷ ts ≡ [] = same ∙ e in cc)

-- The verdict at a message, and what it leaves to the messages behind it.
valid_cons :
    (i : ℕ) (m : Message) (ms : List Message)
    → validate_from i (m ∷ ms) ≡ ok valid
    → (validate_from (suc i) ms ≡ ok valid)
      × ((is_assistant m && has_tool_calls m) ≡ true
          → (ids : List Text) × (expected_ids m.tool_calls ≡ ok ids)
            × (missing_ids ids (responded_ids ms) ≡ []))
unfolding validate_from
valid_cons i m ms h = elim (Bool-cases (is_assistant m && has_tool_calls m)) [
  | inr f ↦ (rw f at h, λ t. cc)
  | inl t ↦
      let (ids, e, g) = >>=-eq-ok (expected_ids m.tool_calls) _ (rw t at h) in
      let (none_left, rest) = verdict_at-valid i _ _ g in (rest, λ _. (ids, e, none_left))
]

valid_from_sound :
    (i : ℕ) (before : List Message) (m : Message) (after : List Message)
    → validate_from i (before ++ m ∷ after) ≡ ok valid
    → (is_assistant m && has_tool_calls m) ≡ true
    → (ids : List Text) × (expected_ids m.tool_calls ≡ ok ids)
      × (missing_ids ids (responded_ids after) ≡ [])
valid_from_sound i [] m after h t = (valid_cons i m after h).1 t
valid_from_sound i (b ∷ before) m after h t =
    valid_from_sound (suc i) before m after (valid_cons i b (before ++ m ∷ after) h).0 t

-- A history with the verdict (True, None, None) has, for every call of every assistant message, an
-- answer among the tool messages right behind that message.
pub validate_messages-valid :
    (before : List Message) (m : Message) (after : List Message)
    → validate_messages (before ++ m ∷ after) ≡ ok valid
    → (is_assistant m && has_tool_calls m) ≡ true
    → (ids : List Text) × (expected_ids m.tool_calls ≡ ok ids)
      × (missing_ids ids (responded_ids after) ≡ [])
unfolding validate_messages
validate_messages-valid before m after h t = valid_from_sound 0 before m after h t

behind :
    (i j : ℕ) (ids : List Text) (m : Message) (ms : List Message)
    → (k : ℕ) × (j ≡ suc i + k) × IsUnanswered ms k ids
    → (k : ℕ) × (j ≡ i + k) × IsUnanswered (m ∷ ms) k ids
behind i j ids m ms (k, e, u) = (
  suc k,
  omega arith,
  record {
    before = m ∷ u.before;
    message = u.message;
    after = u.after;
    whole = ap (λ l. m ∷ l) u.whole;
    at = ap suc u.at;
    calls = u.calls;
    expected = u.expected;
    all_ids = u.all_ids;
    left = u.left;
    some_left = u.some_left;
  },
)

unanswered_from :
    (i : ℕ) (j : ℕ) (ids : List Text) (ms : List Message)
    → validate_from i ms ≡ ok (unanswered j ids)
    → (k : ℕ) × (j ≡ i + k) × IsUnanswered ms k ids
unfolding validate_from
unanswered_from i j ids [] h = absurd (cc)
unanswered_from i j ids (m ∷ ms) h = elim (Bool-cases (is_assistant m && has_tool_calls m)) [
  | inr f ↦ behind i j ids m ms (unanswered_from (suc i) j ids ms (rw f at h))
  | inl t ↦
      let (expected, e, g) = >>=-eq-ok (expected_ids m.tool_calls) _ (rw t at h) in
      elim (verdict_at-unanswered i j (missing_ids expected (responded_ids ms)) ids
        (validate_from (suc i) ms) g) [
          | inr rest ↦ behind i j ids m ms (unanswered_from (suc i) j ids ms rest)
          | inl (here, left, some_left) ↦ (
            0,
            omega arith,
            record {
              before = [];
              message = m;
              after = ms;
              whole = refl;
              at = refl;
              calls = t;
              expected = expected;
              all_ids = e;
              left = left;
              some_left = some_left;
            },
          )
        ]
]

-- The other verdict gives the index of an assistant message, and the ids of its calls that have no
-- answer among the tool messages right behind it, at least one.
pub validate_messages-unanswered :
    (ms : List Message) (j : ℕ) (ids : List Text)
    → validate_messages ms ≡ ok (unanswered j ids)
    → IsUnanswered ms j ids
unfolding validate_messages
validate_messages-unanswered ms j ids h =
    let (k, e, u) = unanswered_from 0 j ids ms h in
    subst (λ (n : ℕ). IsUnanswered ms n ids) (omega arith) u
