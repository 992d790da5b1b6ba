-- ===== src/Patches/Hunks.antt =====
-- `reverse_hunk` of src/tts/utils/patch.py: the reversed hunk has the new side of the hunk as its old
-- side, and the old side as its new one.
use tts_tokens_that_suffice.Prelude.{
  ℕ, zero, suc, ◌≤◌, ◌≡◌, refl, sym, ap, ◌∙◌, inl, inr, Bool, true, false, ◌||◌, List, [], ◌∷◌,
  ◌++◌, append_assoc, arith, Bool-cases, length, Text,
}
use tts_tokens_that_suffice.Patches.Sides.{
  side, IsRun, take_signed-IsRun, take_signed-shorter, side-signed, side-signed_other,
}
use tts_tokens_that_suffice.Patches.{
  Run, take_signed, first_is, hunk_from, reverse_hunk, minus, plus, marker, group_lines, signed,
}

side-marker :
    (b : Bool) (ls : List Text)
    → (side minus plus (marker b ++ ls) ≡ side minus plus ls)
      × (side plus minus (marker b ++ ls) ≡ side plus minus ls)
side-marker true ls = (refl, refl)
side-marker false ls = (refl, refl)

group_lines-minus :
    (old new : Run) (ls : List Text)
    → side minus plus (group_lines old new ++ ls) ≡ new.texts ++ side minus plus ls
group_lines-minus old new ls =
    ap (side minus plus) (
      append_assoc (signed minus new.texts)
        (marker new.marked ++ (signed plus old.texts ++ marker old.marked)) ls)
    ∙ (side-signed minus plus new.texts _
        ∙ ap (λ x. new.texts ++ x)
            (ap (side minus plus)
                (append_assoc (marker new.marked) (signed plus old.texts ++ marker old.marked) ls)
              ∙ ((side-marker new.marked _).0
                  ∙ (ap (side minus plus)
                        (append_assoc (signed plus old.texts) (marker old.marked) ls)
                      ∙ (side-signed_other minus plus old.texts _ refl
                          ∙ (side-marker old.marked ls).0)))))

group_lines-plus :
    (old new : Run) (ls : List Text)
    → side plus minus (group_lines old new ++ ls) ≡ old.texts ++ side plus minus ls
group_lines-plus old new ls =
    ap (side plus minus) (
      append_assoc (signed minus new.texts)
        (marker new.marked ++ (signed plus old.texts ++ marker old.marked)) ls)
    ∙ (side-signed_other plus minus new.texts _ refl
        ∙ (ap (side plus minus)
              (append_assoc (marker new.marked) (signed plus old.texts ++ marker old.marked) ls)
            ∙ ((side-marker new.marked _).1
                ∙ (ap (side plus minus)
                      (append_assoc (signed plus old.texts) (marker old.marked) ls)
                    ∙ (side-signed plus minus old.texts _
                        ∙ ap (λ x. old.texts ++ x) (side-marker old.marked ls).1)))))

old-IsRun : (ls : List Text) → IsRun minus plus ls (take_signed minus ls)
old-IsRun ls = take_signed-IsRun minus plus refl refl refl ls

new-IsRun : (ls : List Text) → IsRun plus minus ls (take_signed plus ls)
new-IsRun ls = take_signed-IsRun plus minus refl refl refl ls

stops :
    (l : Text) (ls : List Text)
    → first_is minus l ≡ false
    → (take_signed minus (l ∷ ls)).rest ≡ l ∷ ls
unfolding take_signed
stops l [] h = rw h refl
stops l (k ∷ ls) h = rw h refl

-- A change group takes a line.
group_shorter :
    (l : Text) (ls : List Text)
    → (first_is minus l || first_is plus l) ≡ true
    → length (take_signed plus (take_signed minus (l ∷ ls)).rest).rest ≤ length ls
group_shorter l ls h = elim (Bool-cases (first_is minus l)) [
  | inl by_minus ↦ omega (
    arith,
    (new-IsRun (take_signed minus (l ∷ ls)).rest).shorter,
    take_signed-shorter minus plus refl refl refl l ls by_minus,
  )
  | inr by_plus ↦
      rw (stops l ls by_plus) (take_signed-shorter plus minus refl refl refl l ls (ground arith))
]

hunk_from-side :
    (n : ℕ) (ls : List Text)
    → length ls ≤ n
    → (side minus plus (hunk_from n ls) ≡ side plus minus ls)
      × (side plus minus (hunk_from n ls) ≡ side minus plus ls)
unfolding hunk_from
hunk_from-side zero [] h = (refl, refl)
hunk_from-side zero (l ∷ ls) h = absurd (omega arith)
hunk_from-side (suc n) [] h = (refl, refl)
hunk_from-side (suc n) (l ∷ ls) h = elim (Bool-cases (first_is minus l || first_is plus l)) [
  | inl in_group ↦
      let old = take_signed minus (l ∷ ls) in
      let new = take_signed plus old.rest in
      let (later, later') =
        hunk_from-side n new.rest (omega (arith, group_shorter l ls in_group)) in
      rw in_group (
        group_lines-minus old new (hunk_from n new.rest)
            ∙ (ap (λ x. new.texts ++ x) later
                ∙ (sym (new-IsRun old.rest).mine ∙ sym (old-IsRun (l ∷ ls)).others)),
        group_lines-plus old new (hunk_from n new.rest)
            ∙ (ap (λ x. old.texts ++ x) (later' ∙ sym (new-IsRun old.rest).others)
                ∙ sym (old-IsRun (l ∷ ls)).mine),
      )
  | inr outside ↦
      let (later, later') = hunk_from-side n ls (omega arith) in
      let no_minus : first_is minus l ≡ false = ground arith in
      let no_plus : first_is plus l ≡ false = ground arith in
      rw outside (rw (no_minus, no_plus, later) refl, rw (no_minus, no_plus, later') refl)
]

-- Reversing a hunk swaps its sides: what stood on the new side stands on the old one, line by line,
-- and the other way round.
pub reverse_hunk-side :
    (ls : List Text)
    → (side minus plus (reverse_hunk ls) ≡ side plus minus ls)
      × (side plus minus (reverse_hunk ls) ≡ side minus plus ls)
unfolding reverse_hunk
reverse_hunk-side ls = hunk_from-side (length ls) ls (omega arith)
