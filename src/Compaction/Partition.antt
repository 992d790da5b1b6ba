-- ===== src/Compaction/Partition.antt =====
-- `split_head_tail` of src/tts/summarization/base.py cuts a history into three parts and loses
-- nothing, so that what a strategy leaves of the middle is all that a compaction can lose.
use tts_tokens_that_suffice.Prelude.{
  ℕ, zero, suc, ◌-◌, ◌≤◌, min, ◌≡◌, refl, sym, List, [], ◌∷◌, ◌++◌, arith, length, take, drop,
  length-take, length-drop, take-append-drop, drop_all,
}
use tts_tokens_that_suffice.Message.{Message}
use tts_tokens_that_suffice.Compaction.{last_n_turns, middle_end, split_head_tail}
use tts_tokens_that_suffice.Compaction.Turns.{turns, turns-last_n_turns, last_n_turns-IsCut}

-- The tail is what is left of the history behind the first `k` of its messages.
last_n_turns-drop :
    (ms : List Message) (n : ℕ) → (k : ℕ) × (last_n_turns ms n ≡ drop k ms) × (k ≤ length ms)
unfolding last_n_turns
last_n_turns-drop ms zero = (length ms, sym (drop_all (length ms) ms (omega arith)), omega arith)
last_n_turns-drop ms (suc n) =
    let (k, e, h, b) = last_n_turns-IsCut ms (suc n) (omega arith) in (k, e, h)

-- `end` counts the messages in front of the tail.
middle_end_lem : (ms tail : List Message) → middle_end ms tail ≡ length ms - length tail
unfolding middle_end
middle_end_lem ms [] = omega arith
middle_end_lem ms (m ∷ tail) = refl

-- What lies between the first `f` messages and the place where the tail begins.
between {ℓ} :
    {A : Type ℓ} (f e k : ℕ) (xs : List A)
    → k ≤ length (drop f xs)
    → e ≡ length xs - (length (drop f xs) - k)
    → drop f (take e xs) ≡ take k (drop f xs)
between zero e k xs h q = let same : e ≡ k = omega arith in rw same
between (suc f) zero zero [] h q = refl
between (suc f) zero (suc k) [] h q = refl
between (suc f) (suc e) k [] h q = absurd (omega arith)
between (suc f) zero k (x ∷ xs) h q = absurd (omega (arith, length-drop f xs))
between (suc f) (suc e) k (x ∷ xs) h q = between f e k xs h (omega (arith, length-drop f xs))

-- Head, middle and tail make up the history again, in order, whatever the two bounds.
pub split_head_tail-append :
    (ms : List Message) (keep_first keep_last : ℕ)
    → let s = split_head_tail ms keep_first keep_last in s.head ++ (s.middle ++ s.tail) ≡ ms
unfolding split_head_tail
split_head_tail-append ms f n =
    let (k, e, h) = last_n_turns-drop (drop f ms) n in
    rw (e, middle_end_lem, length-drop k (drop f ms))
      (rw (between f _ k ms h refl, take-append-drop k (drop f ms)) (take-append-drop f ms))

-- The head is as long as was asked for, or the whole history; the tail holds the last complete
-- turns behind the head.
pub split_head_tail_sizes :
    (ms : List Message) (keep_first keep_last : ℕ)
    → let s = split_head_tail ms keep_first keep_last in
      (length s.head ≡ min keep_first (length ms))
      × (turns s.tail ≡ min keep_last (turns (drop keep_first ms)))
unfolding split_head_tail
split_head_tail_sizes ms f n = (length-take f ms, turns-last_n_turns (drop f ms) n)
