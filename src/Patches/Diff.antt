-- ===== src/Patches/Diff.antt =====
-- `reverse_diff` of src/tts/utils/patch.py. `is_digit` is `\d`, and `unescape` takes the quotes off a
-- text and decodes its escapes.
use tts_tokens_that_suffice.Patches.{reverse_hunk}
use tts_tokens_that_suffice.Prelude.{
  ℕ, zero, suc, Bool, not, ◌&&◌, ◌||◌, Option, none, some, List, [], ◌∷◌, ◌++◌, leb, ◌==◌,
  if◌then◌else◌, length, drop, count, Text, codes, starts_with, occurs_in, join, is_nonempty,
}

-- '\n'.join(…) and text.split('\n')
unfoldable pub lines_of : Text → List Text
lines_of [] = [] ∷ []
lines_of (c ∷ s) =
    let more = lines_of s in
    let longer : List Text = elim more [ [] ↦ (c ∷ []) ∷ [] | l ∷ ls ↦ (c ∷ l) ∷ ls ] in
    if c == 10 then [] ∷ more else longer

-- The longest start of a text whose characters pass, and what is left of it.
unfoldable pub span : (ℕ → Bool) → Text → Text × Text
span p [] = ([], [])
span p (c ∷ s) = let (start, rest) = span p s in if p c then (c ∷ start, rest) else ([], c ∷ s)

-- The rest of a text behind a start that it must have.
unfoldable pub behind : Text → Text → Option Text
unfolding starts_with
behind start s = if starts_with s start then some (drop (length start) s) else none

-- [a-f0-9]
abbrev pub is_hex : ℕ → Bool
is_hex c = (leb 97 c && leb c 102) || (leb 48 c && leb c 57)

-- A match of one part of an expression: the text matched, and what is left.
abbrev pub Matched : Type 0
Matched = Option (Text × Text)

-- One character or more that pass.
unfoldable pub some_of : (ℕ → Bool) → Text → Matched
unfolding span
some_of p s = let (start, rest) = span p s in if is_nonempty start then some (start, rest) else none

abbrev pub then_match {ℓ} : {A : Type ℓ} → Option A → (A → Option Text) → Option Text
then_match none f = none
then_match (some a) f = f a

-- The index line with its hashes swapped, if it has the form of one.
unfoldable pub swap_index : Text → Option Text
unfolding behind some_of
swap_index line = then_match (behind (codes "index ") line) (λ s.
    then_match (some_of is_hex s) (λ old. then_match (behind (codes "..") old.1) (λ t.
      then_match (some_of is_hex t)
        (λ new. some (codes "index " ++ (new.0 ++ (codes ".." ++ (old.0 ++ new.1))))))))

-- (\d+),?(\d*)
unfoldable pub range : (ℕ → Bool) → Text → Option (Text × Text × Text)
unfolding some_of span
range is_digit s = elim (some_of is_digit s) [
  | none ↦ none
  | some (start, rest) ↦
      let (count, left) =
        span is_digit (elim (behind (codes ",") rest) [ none ↦ rest | some t ↦ t ]) in
      some (start, count, left)
]

abbrev pub with_count : Text → Text → Text
with_count start count = start ++ (if is_nonempty count then codes "," ++ count else [])

-- The header of a hunk with its two ranges swapped, if it has the form of one.
unfoldable pub swap_ranges : (ℕ → Bool) → Text → Option Text
unfolding behind range
swap_ranges is_digit line = then_match (behind (codes "@@ -") line) (λ s.
    then_match (range is_digit s) (λ old. then_match (behind (codes " +") old.2) (λ t.
      then_match (range is_digit t) (λ new. then_match (behind (codes " @@") new.2) (λ rest. some (
        codes "@@ -"
        ++ (with_count new.0 new.1
            ++ (codes " +" ++ (with_count old.0 old.1 ++ (codes " @@" ++ rest))))))))))

abbrev pub or_line : Option Text → Text → Text
or_line none l = l
or_line (some t) l = t

-- The lines of a hunk, up to the next hunk or file, and the others.
unfoldable pub hunk_of : List Text → List Text × List Text
unfolding starts_with
hunk_of [] = ([], [])
hunk_of (l ∷ ls) =
    let (hunk, rest) = hunk_of ls in
    if starts_with l (codes "@@") || starts_with l (codes "diff ")
    then ([], l ∷ ls)
    else (l ∷ hunk, rest)

-- The loop over the lines, on fuel; each turn takes a line.
unfoldable pub diff_from : (ℕ → Bool) → ℕ → List Text → List Text
unfolding swap_index swap_ranges hunk_of reverse_hunk
diff_from is_digit zero ls = []
diff_from is_digit (suc n) [] = []
diff_from is_digit (suc n) (l ∷ ls) =
    let next = diff_from is_digit n ls in
    let (hunk, left) = hunk_of ls in
    let behind_hunk = diff_from is_digit n left in
    if starts_with l (codes "index ")
    then or_line (swap_index l) l ∷ next
    else if starts_with l (codes "@@")
    then or_line (swap_ranges is_digit l) l ∷ (reverse_hunk hunk ++ behind_hunk)
    else l ∷ next

-- diff_text.strip('\'"')
unfoldable pub strip_quotes : Text → Text
strip_quotes [] = []
strip_quotes (c ∷ s) = let rest = strip_quotes s in if c == 39 || c == 34 then rest else c ∷ s

unfoldable pub strip_last_quotes : Text → Text
strip_last_quotes [] = []
strip_last_quotes (c ∷ s) =
    let rest = strip_last_quotes s in
    if (c == 39 || c == 34) && not (is_nonempty rest) then [] else c ∷ rest

-- The text to reverse, where a diff with escaped newlines is decoded.
unfoldable pub unescaped : (Text → Text) → Text → Text
unfolding strip_quotes strip_last_quotes occurs_in
unescaped unescape diff_text =
    let stripped = strip_last_quotes (strip_quotes diff_text) in
    if occurs_in (codes "\\n") diff_text && not (occurs_in (codes "\n") stripped)
    then unescape stripped
    else diff_text

unfoldable pub reverse_diff : (ℕ → Bool) → (Text → Text) → Text → Text
unfolding lines_of diff_from unescaped join
reverse_diff is_digit unescape diff_text =
    let ls = lines_of (unescaped unescape diff_text) in
    join (codes "\n") (diff_from is_digit (length ls) ls)
