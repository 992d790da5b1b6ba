-- ===== src/Rollouts/InitFiles.antt =====
-- The names of initial runs in front of an action, of src/tts/utils/trajectory.py, next to those of
-- other runs.
use tts_tokens_that_suffice.Prelude.{
  ℕ, Option, ◌≡◌, refl, ap, ◌∙◌, ◌⊎◌, inl, inr, none, some, [], ◌∷◌, ◌++◌, arith, ◌==◌, Bool-cases,
  Option-cases, Text, codes,
}
use tts_tokens_that_suffice.Rollouts.Files.{
  after_literal, after_file, before_file, read_run, read_step, read_name-no_run,
}
use tts_tokens_that_suffice.Rollouts.Incomplete.{before_init_file}

after_literal-append :
    (l a s : Text)
    → after_literal (l ++ a) s
      ≡ (elim (after_literal l s) [ none ↦ none | some r ↦ after_literal a r ])
unfolding after_literal
after_literal-append [] a s = refl
after_literal-append (c ∷ l) a [] = refl
after_literal-append (c ∷ l) a (d ∷ s) = elim (Bool-cases (c == d)) [
  | inl e ↦ rw e (after_literal-append l a s)
  | inr e ↦ rw e refl
]

-- What may follow ":before" is not both.
after_before :
    (s : Text) → (after_literal (codes "_init") s ≡ none) ⊎ (after_literal (codes ":") s ≡ none)
unfolding after_literal
after_before [] = inl refl
after_before (c ∷ s) = elim (Bool-cases (58 == c)) [
  | inl e ↦ inl (ground (arith, e))
  | inr e ↦ inr (ground (arith, e))
]

after_or_before :
    (s : Text)
    → (after_literal (codes ":before") s ≡ none) ⊎ (after_literal (codes ":after:") s ≡ none)
unfolding after_literal
after_or_before [] = inl refl
after_or_before (c ∷ []) = ground arith
after_or_before (c ∷ d ∷ s) = elim (Bool-cases (98 == d)) [
  | inl e ↦ inr (ground arith)
  | inr e ↦ inl (ground arith)
]

abbrev behind_before : Text → Option Text → Option Text
behind_before a o = elim o [ none ↦ none | some r ↦ after_literal a r ]

init_marker-run_markers :
    (s : Text)
    → (after_literal (codes ":before_init") s ≡ none)
      ⊎ ((after_literal (codes ":after:") s ≡ none) × (after_literal (codes ":before:") s ≡ none))
init_marker-run_markers s =
    let behind_init = after_literal-append (codes ":before") (codes "_init") s in
    let behind_run = after_literal-append (codes ":before") (codes ":") s in
    elim (Option-cases (after_literal (codes ":before") s)) [
      | inl e ↦ inl (behind_init ∙ ap (behind_before (codes "_init")) e)
      | inr (r, e) ↦ elim (after_before r) [
        | inl a ↦ inl (behind_init ∙ ap (behind_before (codes "_init")) e ∙ a)
        | inr b ↦ elim (after_or_before s) [
          | inl o ↦ cc
          | inr o ↦ inr (o, behind_run ∙ ap (behind_before (codes ":")) e ∙ b)
        ]
      ]
    ]

module _ (beyond : ℕ → Option ℕ) where
  pub before_init_file-run_files :
      (name : Text)
      → (before_init_file beyond name ≡ none)
        ⊎ ((after_file beyond name ≡ none) × (before_file beyond name ≡ none))
  unfolding before_init_file after_file before_file read_run
  before_init_file-run_files name = elim (Option-cases (read_step beyond name)) [
    | inl e ↦ inl (simp (before_init_file, e))
    | inr (r, e) ↦ elim (init_marker-run_markers (r.1.1)) [
      | inl a ↦ inl (simp (before_init_file, e, a))
      | inr (a, b) ↦ inr (
        read_name-no_run beyond (codes ":after:") name r e (simp (read_run, a)),
        read_name-no_run beyond (codes ":before:") name r e (simp (read_run, b)),
      )
    ]
  ]
