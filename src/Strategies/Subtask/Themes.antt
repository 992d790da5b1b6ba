-- ===== src/Strategies/Subtask/Themes.antt =====
-- The model's answer in src/tts/summarization/subtask_based.py: a theme of the JSON object that the
-- tool asks for, and `_parse_subtasks`. `loads` is `json.loads` of a text and what stands under
-- "subtasks" in its value. An entry has the types of the tool's schema, or the answer is ill-typed and
-- reading its entries raises, behind the `try` of `compact`; an index that is a text or a fraction, but
-- that `int` reads, is left out.
use tts_tokens_that_suffice.Mask.Tags.{is_space}
use tts_tokens_that_suffice.Prelude.{
  ℕ, suc, ◌+◌, ◌-◌, Bool, not, ◌&&◌, Option, none, some, List, [], ◌∷◌, leb, ◌==◌, if◌then◌else◌, ℤ,
  take, drop, Text, codes, starts_with, is_nonempty, Result, value_error, err, ok, Error,
}

-- One entry; `none` is a missing key, and for the summary also null.
pub record Theme : Type 0 where
  pub start_idx : Option ℤ
  pub end_idx : Option ℤ
  pub in_progress : Bool
  pub name : Option Text
  pub summary : Option Text

-- `data.get("subtasks")`: a list of themes; a list that is not empty and of which `sorted`, the `get` of
-- an entry or `int` raises (an entry that is no object, or an index that is null), with what it
-- raises; or anything else (the value may also be no object).
pub data Answer : Type 0 where
  subtasks : List Theme → Answer
  ill_typed : Error → Answer
  no_subtasks : Answer

-- s.strip()
unfoldable pub lstrip : Text → Text
unfolding is_space
lstrip [] = []
lstrip (c ∷ s) = let rest = lstrip s in if is_space c then rest else c ∷ s

unfoldable pub rstrip : Text → Text
unfolding is_space
rstrip [] = []
rstrip (c ∷ s) =
    let rest = rstrip s in if is_space c && not (is_nonempty rest) then [] else c ∷ rest

-- text.split("\n", 1)[-1]: the text behind the first newline, if there is one
unfoldable pub after_newline : Text → Option Text
after_newline [] = none
after_newline (c ∷ s) = let rest = after_newline s in if c == 10 then some s else rest

abbrev pub fence : Text
fence = codes "```"

-- text.rsplit("```", 1)[0]: the text in front of the last fence, if there is one
unfoldable pub before_last_fence : Text → Option Text
unfolding starts_with
before_last_fence [] = none
before_last_fence (c ∷ s) = elim (before_last_fence s) [
  | some t ↦ some (c ∷ t)
  | none ↦ if starts_with (c ∷ s) fence then some [] else none
]

abbrev or_text : Option Text → Text → Text
or_text none t = t
or_text (some s) t = s

-- The answer without fences around it.
unfoldable pub strip_fences : Text → Text
unfolding lstrip rstrip after_newline before_last_fence starts_with
strip_fences raw =
    let t = rstrip (lstrip raw) in
    let inner = or_text (after_newline t) t in
    if starts_with t fence then rstrip (lstrip (or_text (before_last_fence inner) inner)) else t

-- text.find(c) and text.rfind(c)
unfoldable pub find : ℕ → Text → Option ℕ
find c [] = none
find c (d ∷ s) =
    let rest : Option ℕ = elim (find c s) [ none ↦ none | some i ↦ some (suc i) ] in
    if c == d then some 0 else rest

unfoldable pub rfind : ℕ → Text → Option ℕ
rfind c [] = none
rfind c (d ∷ s) = elim (rfind c s) [
  | some i ↦ some (suc i)
  | none ↦ if c == d then some 0 else none
]

-- The text from the first `{` to the last `}`.
unfoldable pub braces : Text → Option Text
unfolding find rfind
braces t = elim (find 123 t) [
  | none ↦ none
  | some first ↦ elim (rfind 125 t) [
    | none ↦ none
    | some last ↦ if leb last first then none else some (take (last + 1 - first) (drop first t))
  ]
]

-- The entries of a list, or what reading them raises, which happens only in `compact`.
abbrev pub Entries : Type 0
Entries = Result (List Theme)

-- The check at the end: a list that is not empty. `SubtaskParsingError` is a `ValueError`.
unfoldable pub themes_of : Answer → Result Entries
themes_of no_subtasks = err value_error
themes_of (ill_typed e) = ok (err e)
themes_of (subtasks []) = err value_error
themes_of (subtasks (t ∷ ts)) = ok (ok (t ∷ ts))

module _ (loads : Text → Option Answer) where
  -- The second attempt, on the text between the braces.
  unfoldable pub load_braces : Option Text → Result Entries
  unfolding themes_of
  load_braces none = err value_error
  load_braces (some t) = elim (loads t) [ none ↦ err value_error | some a ↦ themes_of a ]

  unfoldable pub parse_subtasks : Text → Result Entries
  unfolding strip_fences braces load_braces themes_of
  parse_subtasks raw = elim (loads (strip_fences raw)) [
    | some a ↦ themes_of a
    | none ↦ load_braces (braces (strip_fences raw))
  ]
