-- ===== src/Patches.antt =====
-- Reversing a diff, src/tts/utils/patch.py: the lines of a hunk here, the headers and the loop over
-- the lines of a diff in `Patches.Diff`.
pub mod Diff
pub mod Sides
pub mod Hunks
use tts_tokens_that_suffice.Prelude.{
  ℕ, zero, suc, Bool, true, false, ◌||◌, List, [], ◌∷◌, ◌++◌, map, ◌==◌, if◌then◌else◌, length,
  Text, codes,
}

-- line.startswith(c), for one character
abbrev pub first_is : ℕ → Text → Bool
first_is c [] = false
first_is c (d ∷ s) = d == c

-- '-', '+', '\\' and ' '
abbrev pub minus : ℕ
minus = 45

abbrev pub plus : ℕ
plus = 43

abbrev pub backslash : ℕ
backslash = 92

-- line[1:]
abbrev pub cut_first : Text → Text
cut_first [] = []
cut_first (c ∷ s) = s

-- What an inner loop collects: the lines without their sign, whether a "no newline" marker stood
-- behind one of them, and the lines that are left.
pub record Run : Type 0 where
  pub texts : List Text
  pub marked : Bool
  pub rest : List Text

abbrev pub add_line : Text → Bool → Run → Run
add_line t b r = record { texts = t ∷ r.texts; marked = b || r.marked; rest = r.rest }

abbrev pub stopped : List Text → Run
stopped ls = record { texts = []; marked = false; rest = ls }

-- while i < len(hunk_lines) and hunk_lines[i].startswith(sign)
unfoldable pub take_signed : ℕ → List Text → Run
take_signed sign [] = stopped []
take_signed sign (l ∷ []) =
    if first_is sign l then add_line (cut_first l) false (stopped []) else stopped (l ∷ [])
take_signed sign (l ∷ k ∷ ls) =
    let behind_marker = take_signed sign ls in
    let behind = take_signed sign (k ∷ ls) in
    let taken : Run =
      if first_is backslash k
      then add_line (cut_first l) true behind_marker
      else add_line (cut_first l) false behind in
    if first_is sign l then taken else stopped (l ∷ k ∷ ls)

abbrev pub signed : ℕ → List Text → List Text
signed sign ts = map (λ t. sign ∷ t) ts

abbrev pub marker : Bool → List Text
marker b = if b then codes "\\ No newline at end of file" ∷ [] else []

-- The lines that a change group becomes: the new '-' lines come first.
abbrev pub group_lines : Run → Run → List Text
group_lines old new =
    signed minus new.texts ++ (marker new.marked ++ (signed plus old.texts ++ marker old.marked))

-- The outer loop, on fuel; each turn takes a line, so that as much fuel as lines is enough.
unfoldable pub hunk_from : ℕ → List Text → List Text
unfolding take_signed
hunk_from zero ls = []
hunk_from (suc n) [] = []
hunk_from (suc n) (l ∷ ls) =
    let old = take_signed minus (l ∷ ls) in
    let new = take_signed plus old.rest in
    let group = group_lines old new ++ hunk_from n new.rest in
    let kept = l ∷ hunk_from n ls in if first_is minus l || first_is plus l then group else kept

unfoldable pub reverse_hunk : List Text → List Text
unfolding hunk_from
reverse_hunk hunk_lines = hunk_from (length hunk_lines) hunk_lines
