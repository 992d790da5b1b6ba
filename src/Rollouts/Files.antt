-- ===== src/Rollouts/Files.antt =====
-- The names of the files of branch runs, as the patterns of src/tts/utils/trajectory.py read them.
-- `beyond` is the value of a decimal digit beyond ASCII. No two parts of a pattern that stand side by
-- side take the same character, so a greedy reading without a step back is the match.
use tts_tokens_that_suffice.Prelude.{
  ℕ, Bool, true, false, ◌&&◌, ◌||◌, Option, none, some, [], ◌∷◌, ◌++◌, leb, ◌==◌, Text, codes,
  if◌then◌else◌, is_nonempty, ◌≡◌, refl, ◌⊎◌, inl, inr, Option-cases, Bool-cases, arith,
}
use tts_tokens_that_suffice.Sweep.Specs.{number}

-- `[a-f0-9-]`
unfoldable pub is_uid_char : ℕ → Bool
is_uid_char c = (leb 97 c && leb c 102) || ((leb 48 c && leb c 57) || c == 45)

-- The characters of a uid in front of a name, and what follows them.
unfoldable pub read_uid : Text → Text × Text
unfolding is_uid_char
read_uid [] = ([], [])
read_uid (c ∷ s) = let r = read_uid s in if is_uid_char c then (c ∷ r.0, r.1) else ([], c ∷ s)

-- What follows a literal.
unfoldable pub after_literal : Text → Text → Option Text
after_literal [] s = some s
after_literal (c ∷ literal) [] = none
after_literal (c ∷ literal) (d ∷ s) =
    let rest = after_literal literal s in if c == d then rest else none

-- `^([a-f0-9-]+:0)`
unfoldable pub read_base : Text → Option (Text × Text)
unfolding read_uid after_literal
read_base name =
    let r = read_uid name in
    elim (after_literal (codes ":0") (r.1)) [
      | none ↦ none
      | some rest ↦ if is_nonempty r.0 then some (r.0 ++ codes ":0", rest) else none
    ]

-- `\.json$`, which also matches in front of a last line feed
unfoldable pub ends_json : Text → Bool
unfolding after_literal
ends_json s = elim (after_literal (codes ".json") s) [
  | none ↦ false
  | some [] ↦ true
  | some (c ∷ []) ↦ c == 10
  | some (c ∷ d ∷ rest) ↦ false
]

module _ (beyond : ℕ → Option ℕ) where
  -- `^([a-f0-9-]+:0):(\d+)`
  unfoldable pub read_step : Text → Option (Text × (ℕ × Text))
  unfolding read_base after_literal
  read_step name = elim (read_base name) [
    | none ↦ none
    | some r ↦ elim (after_literal (codes ":") (r.1)) [
      | none ↦ none
      | some digits ↦ elim (number beyond digits) [ none ↦ none | some q ↦ some (r.0, (q.0, q.1)) ]
    ]
  ]

  -- `(?::\d+)?\.json$`
  unfoldable pub ends_run : Text → Bool
  unfolding ends_json after_literal
  ends_run s = elim (after_literal (codes ":") s) [
    | none ↦ ends_json s
    | some digits ↦ elim (number beyond digits) [ none ↦ false | some q ↦ ends_json (q.1) ]
  ]

  -- `(\d+)(?::\d+)?\.json$`, behind the marker
  unfoldable pub read_run : Text → Text → Option ℕ
  unfolding after_literal ends_run
  read_run marker s = elim (after_literal marker s) [
    | none ↦ none
    | some digits ↦ elim (number beyond digits) [
      | none ↦ none
      | some q ↦ if ends_run (q.1) then some (q.0) else none
    ]
  ]

  -- The base uid, the step and the number of the run.
  unfoldable pub read_name : Text → Text → Option (Text × (ℕ × ℕ))
  unfolding read_step read_run
  read_name marker name = elim (read_step name) [
    | none ↦ none
    | some r ↦ elim (read_run marker (r.1.1)) [ none ↦ none | some k ↦ some (r.0, (r.1.0, k)) ]
  ]

  unfoldable pub after_file : Text → Option (Text × (ℕ × ℕ))
  unfolding read_name
  after_file name = read_name (codes ":after:") name

  unfoldable pub before_file : Text → Option (Text × (ℕ × ℕ))
  unfolding read_name
  before_file name = read_name (codes ":before:") name

  after_literal-markers :
      (s : Text)
      → (after_literal (codes ":after:") s ≡ none) ⊎ (after_literal (codes ":before:") s ≡ none)
  unfolding after_literal
  after_literal-markers [] = inl refl
  after_literal-markers (c ∷ []) = ground (arith)
  after_literal-markers (c ∷ d ∷ s) = elim (Bool-cases (97 == d)) [
    | inl e ↦ inr (ground arith)
    | inr e ↦ inl (ground arith)
  ]

  pub read_name-no_run :
      (marker name : Text) (r : Text × (ℕ × Text))
      → read_step name ≡ some r
      → read_run marker (r.1.1) ≡ none
      → read_name marker name ≡ none
  unfolding read_name
  read_name-no_run marker name r e h = simp (read_name, e, h)

  -- No name is read both as a run behind an action and as one in front of it.
  pub after_file-before_file : (name : Text) → (after_file name ≡ none) ⊎ (before_file name ≡ none)
  unfolding after_file before_file read_run
  after_file-before_file name = elim (Option-cases (read_step name)) [
    | inl e ↦ inl (simp (read_name, e))
    | inr (r, e) ↦ elim (after_literal-markers (r.1.1)) [
      | inl a ↦ inl (read_name-no_run (codes ":after:") name r e (simp (read_run, a)))
      | inr b ↦ inr (read_name-no_run (codes ":before:") name r e (simp (read_run, b)))
    ]
  ]
