-- ===== src/Mask/Tags.antt =====
-- `_KEEP_OUTPUT_RE` and `should_keep_tool_output` of src/tts/summarization/mask_based.py: a search
-- for any of the alternatives, which ignores case.
-- `\w` beyond ASCII is a table of Unicode that the program does not hold: it is the parameter
-- `word_beyond_ascii`. So is `repr`, the text that Python's `str` gives for a list of parts.
use tts_tokens_that_suffice.Message.{
  Content, missing, null, text, parts, Part, text_part, other_part,
}
use tts_tokens_that_suffice.Prelude.{
  ℕ, starts_with, List, Text, occurs_in, join, count_lines, false, codes, Bool, [], if◌then◌else◌,
  ◌∷◌, ◌≡◌, leb, true, not, any, ◌||◌, map, ◌&&◌, drop, ◌+◌, ◌==◌, refl,
}

pub record Runtime : Type 0 where
  pub word_beyond_ascii : ℕ → Bool
  pub repr : List Part → Text

-- Under `re.IGNORECASE` an ASCII letter also meets its upper case, and i, k and s meet one or two
-- more characters (U+0130, U+0131, U+212A, U+017F).
unfoldable pub fold_case : ℕ → ℕ
fold_case c =
    if leb 65 c && leb c 90
    then c + 32
    else if c == 0x130 || c == 0x131
    then 105
    else if c == 0x212a
    then 107
    else if c == 0x17f
    then 115
    else c

-- `\s`
unfoldable pub is_space : ℕ → Bool
is_space c =
    (leb 9 c && leb c 13)
    || (leb 28 c && leb c 32)
    || c == 0x85
    || c == 0xa0
    || c == 0x1680
    || (leb 0x2000 c && leb c 0x200a)
    || c == 0x2028
    || c == 0x2029
    || c == 0x202f
    || c == 0x205f
    || c == 0x3000

-- `^\s*(\+\+\+|---)`: at the start of the text only, since the expression is not multi-line
unfoldable pub opens_diff : Text → Bool
unfolding is_space starts_with
opens_diff [] = false
opens_diff (c ∷ s) =
    starts_with (c ∷ s) (codes "+++")
    || starts_with (c ∷ s) (codes "---")
    || (is_space c && opens_diff s)

-- The alternatives that are plain words, in the case that the search folds to.
abbrev pub keep_words : List Text
keep_words =
    codes "error"
    ∷ codes "traceback"
    ∷ codes "assertionerror"
    ∷ codes "exception"
    ∷ codes "failed"
    ∷ codes "fail"
    ∷ codes "=>"
    ∷ codes "unexpected"
    ∷ codes "typeerror"
    ∷ codes "keyerror"
    ∷ codes "valueerror"
    ∷ []

module _ (py : Runtime) where
  -- `\w`
  unfoldable pub is_word : ℕ → Bool
  is_word c =
      (leb 48 c && leb c 57)
      || (leb 65 c && leb c 90)
      || c == 95
      || (leb 97 c && leb c 122)
      || (leb 128 c && py.word_beyond_ascii c)

  -- the `\b` behind a word
  unfoldable pub word_ends : Text → Bool
  unfolding is_word
  word_ends [] = true
  word_ends (c ∷ s) = not (is_word c)

  -- `\bdiff\b`; `inside` tells whether the character before is a word character
  unfoldable pub has_word_diff : Bool → Text → Bool
  unfolding is_word word_ends starts_with fold_case
  has_word_diff inside [] = false
  has_word_diff inside (c ∷ s) =
      (not inside && starts_with (map fold_case (c ∷ s)) (codes "diff") && word_ends (drop 3 s))
      || has_word_diff (is_word c) s

  -- bool(_KEEP_OUTPUT_RE.search(s))
  unfoldable pub keep_output_search : Text → Bool
  unfolding has_word_diff opens_diff occurs_in fold_case
  keep_output_search s =
      any (λ w. occurs_in w (map fold_case s)) keep_words || has_word_diff false s || opens_diff s

  -- str(m.get("content", ""))
  abbrev pub content_str : Content → Text
  content_str missing = []
  content_str null = codes "None"
  content_str (text t) = t
  content_str (parts ps) = py.repr ps

  -- " ".join(x.get("text", "") for x in content if ... x.get("type") == "text")
  abbrev pub part_texts : List Part → List Text
  part_texts [] = []
  part_texts (text_part t ∷ ps) = t ∷ part_texts ps
  part_texts (other_part t ∷ ps) = part_texts ps

  unfoldable pub should_keep_tool_output : Content → Bool
  unfolding keep_output_search join
  should_keep_tool_output (parts ps) = keep_output_search (join (codes " ") (part_texts ps))
  should_keep_tool_output missing = keep_output_search []
  should_keep_tool_output null = keep_output_search (codes "None")
  should_keep_tool_output (text t) = keep_output_search t

  -- `_content_lines(messages, i)`, over the content of the message
  unfoldable pub content_lines : Content → ℕ
  unfolding count_lines join
  content_lines (parts ps) = count_lines (join (codes " ") (part_texts ps))
  content_lines missing = count_lines []
  content_lines null = count_lines (codes "None")
  content_lines (text t) = count_lines t

-- A runtime for tests: no word character beyond ASCII, and the text of an empty list.
abbrev pub ascii_runtime : Runtime
ascii_runtime = record { word_beyond_ascii = λ c. false; repr = λ ps. codes "[]" }

keeps_traceback :
    (should_keep_tool_output ascii_runtime (text (codes "x\nTraceBack (most")) ≡ true)
    × (should_keep_tool_output ascii_runtime (text (codes "git diff a")) ≡ true)
    × (should_keep_tool_output ascii_runtime (text (codes "different")) ≡ false)
    × (should_keep_tool_output ascii_runtime (text (codes "  --- a/x")) ≡ true)
    × (should_keep_tool_output ascii_runtime (text (codes "a\n--- a/x")) ≡ false)
    × (should_keep_tool_output ascii_runtime null ≡ false)
unfolding should_keep_tool_output
keeps_traceback = (refl, refl, refl, refl, refl, refl)
