-- ===== src/Prelude/Texts.antt =====
-- Python's `str` as the list of its code points, with the string methods that the program uses.
use Prim.Native.Nat.{ℕ, zero, suc, ◌+◌, ◌/◌, ◌%◌}
use Prim.Native.Char.{code}
use Prim.Native.String.{String}
use mathlib.Core.Path.{◌≡◌, refl}
use mathlib.Core.Logic.{◌↔◌}
use mathlib.Core.Bool.{Bool, true, false, not, ◌&&◌, ◌||◌}
use mathlib.Core.List.{List, [], ◌∷◌, ◌++◌}
use native.Mathlib.Omega.{arith}
use tts_tokens_that_suffice.Prelude.Tests.{if◌then◌else◌, ◌==◌, ltb, leb}

abbrev pub Text : Type 0
Text = List ℕ

-- the code points of a literal
abbrev pub codes : String → Text
codes String.[] = []
codes (String.◌∷◌ c s) = code c ∷ codes s

-- s == t
unfoldable pub text_eq : Text → Text → Bool
text_eq [] [] = true
text_eq [] (d ∷ t) = false
text_eq (c ∷ s) [] = false
text_eq (c ∷ s) (d ∷ t) = c == d && text_eq s t

-- s.startswith(p)
unfoldable pub starts_with : Text → Text → Bool
starts_with s [] = true
starts_with [] (d ∷ p) = false
starts_with (c ∷ s) (d ∷ p) = c == d && starts_with s p

-- p in s
unfoldable pub occurs_in : Text → Text → Bool
unfolding starts_with
occurs_in p [] = starts_with [] p
occurs_in p (c ∷ s) = starts_with (c ∷ s) p || occurs_in p s

-- sep.join(xs)
unfoldable pub join : Text → List Text → Text
join sep [] = []
join sep (x ∷ []) = x
join sep (x ∷ y ∷ r) = x ++ (sep ++ join sep (y ∷ r))

-- bool(s)
abbrev pub is_nonempty : Text → Bool
is_nonempty [] = false
is_nonempty (c ∷ s) = true

-- The code points that end a line for `str.splitlines`, besides `\r`.
unfoldable pub ends_line : ℕ → Bool
ends_line c =
    (leb 10 c && leb c 12) || (leb 28 c && leb c 30) || c == 0x85 || c == 0x2028 || c == 0x2029

-- len(s.splitlines()): `open` tells that the current line has a character, and `cr` that the
-- character before was a carriage return, so that "\r\n" ends one line.
unfoldable pub count_lines_from : Bool → Bool → Text → ℕ
unfolding ends_line
count_lines_from opened cr [] = if opened then 1 else 0
count_lines_from opened cr (c ∷ s) =
    (if (c == 13 || ends_line c) && not (cr && c == 10) then 1 else 0)
    + count_lines_from (not (c == 13 || ends_line c)) (c == 13) s

unfoldable pub count_lines : Text → ℕ
unfolding count_lines_from
count_lines = count_lines_from false false

-- str(n): the decimal digits, on fuel that `decimal` gives
unfoldable pub decimal_from : ℕ → ℕ → Text → Text
decimal_from zero n rest = rest
decimal_from (suc f) n rest =
    let more = decimal_from f (n / 10) ((48 + n % 10) ∷ rest) in
    if ltb n 10 then (48 + n) ∷ rest else more

unfoldable pub decimal : ℕ → Text
unfolding decimal_from
decimal n = decimal_from (suc n) n []

pub text_eq_iff : (s t : Text) → (text_eq s t ≡ true) ↔ (s ≡ t)
unfolding text_eq
text_eq_iff [] [] = ground arith
text_eq_iff [] (d ∷ t) = ground arith
text_eq_iff (c ∷ s) [] = ground arith
text_eq_iff (c ∷ s) (d ∷ t) = ground (arith, text_eq_iff s t)

pub starts_with-append : (p s : Text) → starts_with (p ++ s) p ≡ true
unfolding starts_with
starts_with-append [] s = refl
starts_with-append (c ∷ p) s = ground (arith, starts_with-append p s)
