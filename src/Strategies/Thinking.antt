-- ===== src/Strategies/Thinking.antt =====
-- `strip_thinking` of src/tts/summarization/model_based.py: nothing of the reasoning is left behind.
use tts_tokens_that_suffice.Strategies.Model.{
  after_last, lstrip_newlines, think_close, strip_thinking,
}
use tts_tokens_that_suffice.Prelude.{
  ℕ, zero, suc, ◌≡◌, refl, inl, inr, false, Option, none, some, [], ◌∷◌, arith, ◌==◌, if◌then◌else◌,
  Bool-cases, length, drop, Text, codes, starts_with, occurs_in,
}

-- A text that starts with no more of `p` has none in its rest.
occurs_in-tail : (p : Text) (c : ℕ) (s : Text) → occurs_in p (c ∷ s) ≡ false → occurs_in p s ≡ false
unfolding occurs_in
occurs_in-tail p c s h = ground arith

occurs_in-cons :
    (p : Text) (c : ℕ) (s : Text)
    → starts_with (c ∷ s) p ≡ false
    → occurs_in p s ≡ false
    → occurs_in p (c ∷ s) ≡ false
unfolding occurs_in
occurs_in-cons p c s apart h = rw (apart, h) refl

occurs_in-drop :
    (p : Text) (k : ℕ) (s : Text) → occurs_in p s ≡ false → occurs_in p (drop k s) ≡ false
occurs_in-drop p zero s h = h
occurs_in-drop p (suc k) [] h = h
occurs_in-drop p (suc k) (c ∷ s) h = occurs_in-drop p k s (occurs_in-tail p c s h)

occurs_in-lstrip_newlines :
    (p s : Text) → occurs_in p s ≡ false → occurs_in p (lstrip_newlines s) ≡ false
unfolding lstrip_newlines
occurs_in-lstrip_newlines p [] h = h
occurs_in-lstrip_newlines p (c ∷ s) h = elim (Bool-cases (c == 10)) [
  | inl newline ↦ rw newline (occurs_in-lstrip_newlines p s (occurs_in-tail p c s h))
  | inr other ↦ rw other h
]

-- What `after_last` says of a text.
abbrev IsLast : Text → Text → Option Text → Type 0
IsLast p s none = occurs_in p s ≡ false
IsLast p s (some t) = occurs_in p t ≡ false

IsLast-one :
    (d : ℕ) (p : Text) (c : ℕ) (s : Text) (o : Option Text)
    → IsLast (d ∷ p) s o
    → IsLast (d ∷ p) (c ∷ s) (elim o [
      | some t ↦ some t
      | none ↦ if starts_with (c ∷ s) (d ∷ p) then some (drop (length (d ∷ p)) (c ∷ s)) else none
    ])
IsLast-one d p c s (some t) h = h
IsLast-one d p c s none h = elim (Bool-cases (starts_with (c ∷ s) (d ∷ p))) [
  | inl here ↦ rw here (occurs_in-drop (d ∷ p) (length p) s h)
  | inr apart ↦ rw apart (occurs_in-cons (d ∷ p) c s apart h)
]

after_last-IsLast : (d : ℕ) (p s : Text) → IsLast (d ∷ p) s (after_last (d ∷ p) s)
unfolding after_last occurs_in
after_last-IsLast d p [] = refl
after_last-IsLast d p (c ∷ s) = IsLast-one d p c s (after_last (d ∷ p) s) (after_last-IsLast d p s)

stripped_last :
    (t : Text) (o : Option Text)
    → IsLast think_close t o
    → occurs_in think_close (elim o [ none ↦ t | some tail ↦ lstrip_newlines tail ]) ≡ false
stripped_last t none h = h
stripped_last t (some tail) h = occurs_in-lstrip_newlines think_close tail h

-- A stripped summary holds no `</think>`, whatever the model wrote.
pub occurs_in-strip_thinking : (t : Text) → occurs_in think_close (strip_thinking t) ≡ false
unfolding strip_thinking
occurs_in-strip_thinking t =
    stripped_last t (after_last think_close t) (after_last-IsLast 60 (codes "/think>") t)
