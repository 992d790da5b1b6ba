-- ===== src/Compaction/Turns.antt =====
-- `last_n_turns` of src/tts/summarization/base.py: how many turns it returns, and where it cuts.
use tts_tokens_that_suffice.Prelude.{
  ℕ, zero, suc, ◌+◌, ◌≤◌, ◌<◌, min, ◌≡◌, refl, ◌⊎◌, inl, inr, true, List, arith, drop, count,
  count-drop, Bool-cases, ◌==◌, count-drop_le, length, drop_all, ◌&&◌, if◌then◌else◌, ◌-◌, ap, ◌∙◌,
  [], ◌∷◌, sym, subst, false,
}
use tts_tokens_that_suffice.Message.{Message, is_tool}
use tts_tokens_that_suffice.Compaction.{tool_at, turn_start, last_turns_from, last_n_turns}

-- the complete turns of a history: each ends on a tool message
abbrev pub turns : List Message → ℕ
turns = count is_tool

-- The inner loop passes over no tool message.
turns-turn_start :
    (ms : List Message) (k : ℕ) → turns (drop (turn_start ms k) ms) ≡ turns (drop k ms)
unfolding turn_start
turns-turn_start ms zero = refl
turns-turn_start ms (suc j) = ground (arith, count-drop is_tool ms j, turns-turn_start ms j)

turn_start-le : (ms : List Message) (k : ℕ) → turn_start ms k ≤ k
unfolding turn_start
turn_start-le ms zero = omega arith
turn_start-le ms (suc j) = ground (arith, turn_start-le ms j)

-- It stops at the start, or behind a tool message.
abbrev pub IsBoundary : List Message → ℕ → Type 0
IsBoundary ms k = (k ≡ 0) ⊎ ((j : ℕ) × (k ≡ suc j) × (tool_at ms j ≡ true))

turn_start-IsBoundary : (ms : List Message) (k : ℕ) → IsBoundary ms (turn_start ms k)
unfolding turn_start
turn_start-IsBoundary ms zero = inl refl
turn_start-IsBoundary ms (suc j) = elim (Bool-cases (tool_at ms j)) [
  | inl t ↦ inr (j, ground arith, t)
  | inr f ↦
      let e : turn_start ms (suc j) ≡ turn_start ms j = ground arith in
      rw f (turn_start-IsBoundary ms j)
]

last_turns_from-turns :
    (ms : List Message) (n k c : ℕ)
    → c < n
    → c ≡ turns (drop k ms)
    → turns (last_turns_from ms n k c) ≡ min n (turns ms)
unfolding last_turns_from
last_turns_from-turns ms n zero c h e = omega arith
last_turns_from-turns ms n (suc i) c h e = elim (Bool-cases (tool_at ms i)) [
  | inl t ↦ rw t (
      ground (
        arith,
        count-drop is_tool ms i,
        count-drop_le is_tool i ms,
        turns-turn_start ms i,
        last_turns_from-turns ms n i (c + 1),
      ))
  | inr f ↦ rw f (ground (arith, count-drop is_tool ms i, last_turns_from-turns ms n i c))
]

-- What `last_n_turns` returns has `n` turns, or all of them if there are fewer.
pub turns-last_n_turns : (ms : List Message) (n : ℕ) → turns (last_n_turns ms n) ≡ min n (turns ms)
unfolding last_n_turns
turns-last_n_turns ms zero = omega arith
turns-last_n_turns ms (suc n) =
    last_turns_from-turns ms (suc n) (length ms) 0 (omega arith)
      (rw (drop_all (length ms) ms (omega arith)))

-- A history without a prefix that is empty or ends on a tool message.
abbrev pub IsCut : List Message → List Message → Type 0
IsCut ms tail = (k : ℕ) × (tail ≡ drop k ms) × (k ≤ length ms) × IsBoundary ms k

last_turns_from-IsCut :
    (ms : List Message) (n k c : ℕ) → k ≤ length ms → IsCut ms (last_turns_from ms n k c)
unfolding last_turns_from
last_turns_from-IsCut ms n zero c h = (0, refl, omega arith, inl refl)
last_turns_from-IsCut ms n (suc i) c h =
    elim (Bool-cases (tool_at ms i && (if tool_at ms i then c + 1 else c) == n)) [
      | inl t ↦
          rw t
            (turn_start ms i, refl, omega (arith, turn_start-le ms i), turn_start-IsBoundary ms i)
      | inr f ↦ rw f (last_turns_from-IsCut ms n i _ (omega arith))
    ]

-- For at least one turn, `last_n_turns` drops a prefix of the history that is empty or ends on a tool
-- message.
pub last_n_turns-IsCut : (ms : List Message) (n : ℕ) → 0 < n → IsCut ms (last_n_turns ms n)
unfolding last_n_turns
last_n_turns-IsCut ms zero h = absurd (omega arith)
last_n_turns-IsCut ms (suc n) h = last_turns_from-IsCut ms (suc n) (length ms) 0 (omega arith)

-- A history without its first `k` turns, each with what stands in front of its tool message.
unfoldable pub drop_turns : ℕ → List Message → List Message
drop_turns zero ms = ms
drop_turns (suc k) [] = []
drop_turns (suc k) (m ∷ ms) =
    let ended = drop_turns k ms in
    let going = drop_turns (suc k) ms in if is_tool m then ended else going

drop_turns-tool :
    (m : Message) (ms : List Message) (k : ℕ)
    → is_tool m ≡ true
    → drop_turns (suc k) (m ∷ ms) ≡ drop_turns k ms
unfolding drop_turns
drop_turns-tool m ms k h = rw h refl

drop_turns-no_tool :
    (m : Message) (ms : List Message) (k : ℕ)
    → is_tool m ≡ false
    → 0 < k
    → drop_turns k (m ∷ ms) ≡ drop_turns k ms
unfolding drop_turns
drop_turns-no_tool m ms zero h some_left = absurd (omega arith)
drop_turns-no_tool m ms (suc k) h some_left = rw h refl

-- The turns in front of a cut behind a tool message are those that it drops.
drop-tool_at :
    (ms : List Message) (j : ℕ)
    → tool_at ms j ≡ true
    → drop (suc j) ms ≡ drop_turns (turns ms - turns (drop (suc j) ms)) ms
unfolding drop_turns
drop-tool_at [] j t = absurd (cc)
drop-tool_at (m ∷ ms) zero t =
    let one : turns (m ∷ ms) - turns ms ≡ 1 = ground (arith, t) in
    sym (ap (λ i. drop_turns i (m ∷ ms)) one ∙ drop_turns-tool m ms 0 t)
drop-tool_at (m ∷ ms) (suc j) t =
    let fewer : turns (drop (suc j) ms) < turns ms =
      ground (arith, t, count-drop is_tool ms j, count-drop_le is_tool j ms) in
    let before = turns ms - turns (drop (suc j) ms) in
    drop-tool_at ms j t
    ∙ sym (elim (Bool-cases (is_tool m)) [
      | inl e ↦
          let more : turns (m ∷ ms) - turns (drop (suc j) ms) ≡ suc before =
            ground (arith, e, fewer) in
          ap (λ i. drop_turns i (m ∷ ms)) more ∙ drop_turns-tool m ms before e
      | inr e ↦
          let same : turns (m ∷ ms) - turns (drop (suc j) ms) ≡ before = ground (arith, e, fewer) in
          ap (λ i. drop_turns i (m ∷ ms)) same
          ∙ drop_turns-no_tool m ms before e (omega (arith, fewer))
    ])

drop-IsBoundary :
    (ms : List Message) (k : ℕ)
    → IsBoundary ms k
    → drop k ms ≡ drop_turns (turns ms - turns (drop k ms)) ms
unfolding drop_turns
drop-IsBoundary ms k (inl start) =
    let none_left : turns ms - turns ms ≡ 0 = omega arith in
    rw start (sym (ap (λ i. drop_turns i ms) none_left))
drop-IsBoundary ms k (inr (j, behind, t)) =
    subst (λ i. drop i ms ≡ drop_turns (turns ms - turns (drop i ms)) ms) (sym behind)
      (drop-tool_at ms j t)

-- For at least one turn, `last_n_turns` returns the history without its first turns, so many that
-- `n` are left, or the whole history if it has no more than `n`: a turn is what stands up to a tool
-- message and behind the one before it, so that each of several results in a row is one.
pub last_n_turns-drop_turns :
    (ms : List Message) (n : ℕ) → 0 < n → last_n_turns ms n ≡ drop_turns (turns ms - n) ms
last_n_turns-drop_turns ms n h =
    let (k, same, inside, boundary) = last_n_turns-IsCut ms n h in
    same
    ∙ drop-IsBoundary ms k boundary
    ∙ ap (λ i. drop_turns i ms)
        (let kept : turns (drop k ms) ≡ min n (turns ms) =
            sym (ap turns same) ∙ turns-last_n_turns ms n in
          omega (arith, kept))
