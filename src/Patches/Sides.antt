-- ===== src/Patches/Sides.antt =====
-- `reverse_hunk` of src/tts/utils/patch.py swaps the two sides of a hunk.
use tts_tokens_that_suffice.Prelude.{
  ℕ, ◌≤◌, ◌≡◌, refl, ap, Bool, true, false, ◌||◌, List, [], ◌∷◌, ◌++◌, arith, ◌==◌, if◌then◌else◌,
  length, Text, inl, inr, Bool-cases,
}
use tts_tokens_that_suffice.Patches.{
  first_is, Run, backslash, cut_first, stopped, add_line, take_signed, signed,
}

-- The lines of the side that `sign` marks; `other` marks the other side. The "no newline" markers are
-- on no side.
abbrev pub side : ℕ → ℕ → List Text → List Text
side sign other [] = []
side sign other (l ∷ ls) =
    if first_is sign l
    then cut_first l ∷ side sign other ls
    else if first_is other l || first_is backslash l
    then side sign other ls
    else l ∷ side sign other ls

pub side-append : (c d : ℕ) (ls ks : List Text) → side c d (ls ++ ks) ≡ side c d ls ++ side c d ks
side-append c d [] ks = refl
side-append c d (l ∷ ls) ks = rw (side-append c d ls ks) (ground arith)

-- A run of signed lines is one side, and on the other side it is nothing.
pub record IsRun (c d : ℕ) (ls : List Text) (r : Run) : Type 0 where
  pub mine : side c d ls ≡ r.texts ++ side c d r.rest
  pub others : side d c ls ≡ side d c r.rest
  pub shorter : length r.rest ≤ length ls

first_is-marker :
    (c : ℕ) (l : Text)
    → (c == backslash) ≡ false
    → first_is backslash l ≡ true
    → first_is c l ≡ false
first_is-marker c [] e h = absurd (cc)
first_is-marker c (x ∷ s) e h = ground arith

module _ (c d : ℕ) (apart : (d == c) ≡ false) (no_marker : (c == backslash) ≡ false)
    (no_marker' : (d == backslash) ≡ false) where
  stopped-IsRun : (ls : List Text) → IsRun c d ls (stopped ls)
  stopped-IsRun ls = record { mine = refl; others = refl; shorter = omega arith }

  first_is-other : (l : Text) → first_is c l ≡ true → first_is d l ≡ false
  first_is-other [] h = absurd (cc)
  first_is-other (x ∷ s) h = ground arith

  add_line-IsRun :
      (l : Text) (b : Bool) (ls : List Text) (r : Run)
      → first_is c l ≡ true
      → IsRun c d ls r
      → IsRun c d (l ∷ ls) (add_line (cut_first l) b r)
  add_line-IsRun l b ls r h run = record {
    mine = rw h (ap (λ x. cut_first l ∷ x) run.mine);
    others = rw (first_is-other l h, h) run.others;
    shorter = omega (arith, run.shorter);
  }

  skip-IsRun :
      (k : Text) (ls : List Text) (r : Run)
      → first_is backslash k ≡ true
      → IsRun c d ls r
      → IsRun c d (k ∷ ls) r
  skip-IsRun k ls r h run = record {
    mine = rw (first_is-marker c k no_marker h, first_is-marker d k no_marker' h, h) run.mine;
    others = rw (first_is-marker d k no_marker' h, first_is-marker c k no_marker h, h) run.others;
    shorter = omega (arith, run.shorter);
  }

  pub take_signed-IsRun : (ls : List Text) → IsRun c d ls (take_signed c ls)
  unfolding take_signed
  take_signed-IsRun [] = stopped-IsRun []
  take_signed-IsRun (l ∷ []) = elim (Bool-cases (first_is c l)) [
    | inl h ↦ rw h (add_line-IsRun l false [] (stopped []) h (stopped-IsRun []))
    | inr h ↦ rw h (stopped-IsRun (l ∷ []))
  ]
  take_signed-IsRun (l ∷ k ∷ ls) = elim (Bool-cases (first_is c l)) [
    | inr h ↦ rw h (stopped-IsRun (l ∷ k ∷ ls))
    | inl h ↦ elim (Bool-cases (first_is backslash k)) [
      | inl marked ↦
          rw (h, marked)
            (add_line-IsRun l true (k ∷ ls) (take_signed c ls) h
              (skip-IsRun k ls (take_signed c ls) marked (take_signed-IsRun ls)))
      | inr bare ↦
          rw (h, bare)
            (add_line-IsRun l false (k ∷ ls) (take_signed c (k ∷ ls)) h
              (take_signed-IsRun (k ∷ ls)))
    ]
  ]

  -- A run that begins with its sign takes a line.
  pub take_signed-shorter :
      (l : Text) (ls : List Text)
      → first_is c l ≡ true
      → length (take_signed c (l ∷ ls)).rest ≤ length ls
  unfolding take_signed
  take_signed-shorter l [] h = rw h (omega arith)
  take_signed-shorter l (k ∷ ls) h = elim (Bool-cases (first_is backslash k)) [
    | inl marked ↦ rw (h, marked) (omega (arith, (take_signed-IsRun ls).shorter))
    | inr bare ↦ rw (h, bare) (take_signed-IsRun (k ∷ ls)).shorter
  ]

-- A group of lines, on the two sides.
pub side-signed : (c d : ℕ) (ts ls : List Text) → side c d (signed c ts ++ ls) ≡ ts ++ side c d ls
side-signed c d [] ls = refl
side-signed c d (t ∷ ts) ls = ground (arith, side-signed c d ts ls)

pub side-signed_other :
    (c d : ℕ) (ts ls : List Text) → (d == c) ≡ false → side c d (signed d ts ++ ls) ≡ side c d ls
side-signed_other c d [] ls h = refl
side-signed_other c d (t ∷ ts) ls h = ground (arith, side-signed_other c d ts ls h)
