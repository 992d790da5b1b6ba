-- ===== src/Rollouts/Scanned.antt =====
-- What `get_steps_missing_before` of src/tts/utils/trajectory.py answers, in terms of the files alone.
use tts_tokens_that_suffice.Prelude.{
  ℕ, Bool, ◌&&◌, ◌||◌, none, some, List, [], ◌∷◌, ◌++◌, ◌==◌, Text, text_eq, any, ◌≡◌, ==_iff,
  text_eq_iff, lookup-insert, arith, refl, inl, inr, Bool-cases, subst, if◌then◌else◌, Option,
  insert, IsDict, ◌⊎◌, insert-IsDict,
}
use tts_tokens_that_suffice.Rollouts.Missing.{
  add_step, has_step, steps_at, note_step, note_file, Scan, is_after, is_before, note_read,
  scan_files, names,
}
use tts_tokens_that_suffice.Rollouts.Files.{after_file, after_file-before_file, before_file}

pub any-append {ℓ} :
    {A : Type ℓ} (p : A → Bool) (xs ys : List A) → any p (xs ++ ys) ≡ (any p xs || any p ys)
any-append p [] ys = refl
any-append p (x ∷ xs) ys = ground (arith, any-append p xs ys)

has_step-add_step_same :
    (m : ℕ) (s : List ℕ) → has_step m (add_step m s) ≡ (has_step m s || (m == m))
unfolding has_step add_step
has_step-add_step_same m s = elim (Bool-cases (has_step m s)) [
  | inl e ↦ ground (arith, e)
  | inr e ↦ ground (arith, e, any-append (λ i. i == m) s (m ∷ []))
]

pub has_step-add_step :
    (n m : ℕ) (s : List ℕ) → has_step n (add_step m s) ≡ (has_step n s || (m == n))
unfolding has_step add_step
has_step-add_step n m s = elim (Bool-cases (m == n)) [
  | inl e ↦
      subst (λ x. has_step x (add_step m s) ≡ (has_step x s || (m == x))) ((==_iff m n).0 e)
        (has_step-add_step_same m s)
  | inr e ↦ ground (arith, e, any-append (λ i. i == n) s (m ∷ []))
]

pub steps_at-insert :
    (b c : Text) (v : List ℕ) (d : List (Text × List ℕ))
    → steps_at b (insert c v d) ≡ (if text_eq c b then v else steps_at b d)
unfolding steps_at
steps_at-insert b c v d = elim (Bool-cases (text_eq c b)) [
  | inl e ↦ ground (arith, e, lookup-insert c b v d)
  | inr e ↦ ground (arith, e, lookup-insert c b v d)
]

pub has_step-note_step :
    (b c : Text) (n m : ℕ) (d : List (Text × List ℕ))
    → has_step n (steps_at b (note_step c m d))
      ≡ (has_step n (steps_at b d) || (text_eq c b && (m == n)))
unfolding note_step
has_step-note_step b c n m d =
    let added = add_step m (steps_at c d) in
    elim (Bool-cases (text_eq c b)) [
      | inl e ↦
          subst
            (λ x.
              has_step n (steps_at x (note_step c m d))
              ≡ (has_step n (steps_at x d) || (text_eq c x && (m == n))))
            ((text_eq_iff c b).0 e)
            (ground (
              arith,
              steps_at-insert c c added d,
              has_step-add_step n m (steps_at c d),
              text_eq_iff c c,
            ))
      | inr e ↦ ground (arith, e, steps_at-insert b c added d)
    ]

note_read-after :
    (b : Text) (n : ℕ) (p q : Option (Text × (ℕ × ℕ))) (s : Scan)
    → has_step n (steps_at b (note_read p q s).after_steps)
      ≡ (has_step n (steps_at b s.after_steps) || names p b n)
unfolding note_read
note_read-after b n (some r) q s = has_step-note_step b (r.0) n (r.1.0) s.after_steps
note_read-after b n none (some r) s = ground arith
note_read-after b n none none s = ground arith

note_read-before :
    (b : Text) (n : ℕ) (p q : Option (Text × (ℕ × ℕ))) (s : Scan)
    → (p ≡ none) ⊎ (q ≡ none)
    → has_step n (steps_at b (note_read p q s).before_steps)
      ≡ (has_step n (steps_at b s.before_steps) || names q b n)
unfolding note_read
note_read-before b n none (some r) s h = has_step-note_step b (r.0) n (r.1.0) s.before_steps
note_read-before b n none none s h = ground arith
note_read-before b n (some r) none s h = ground arith
note_read-before b n (some r) (some q) s h = ground arith

note_read-IsDict :
    (p q : Option (Text × (ℕ × ℕ))) (s : Scan)
    → IsDict s.after_steps
    → IsDict (note_read p q s).after_steps
unfolding note_read note_step
note_read-IsDict (some r) q s h =
    insert-IsDict (r.0) (add_step (r.1.0) (steps_at (r.0) s.after_steps)) s.after_steps h
note_read-IsDict none (some r) s h = h
note_read-IsDict none none s h = h

module _ (beyond : ℕ → Option ℕ) where
  pub scan_files-after :
      (b : Text) (n : ℕ) (files : List Text) (s : Scan)
      → has_step n (steps_at b (scan_files beyond files s).after_steps)
        ≡ (has_step n (steps_at b s.after_steps) || any (is_after beyond b n) files)
  unfolding scan_files note_file
  scan_files-after b n [] s = ground arith
  scan_files-after b n (f ∷ files) s = ground (
    arith,
    scan_files-after b n files (note_file beyond f s),
    note_read-after b n (after_file beyond f) (before_file beyond f) s,
  )

  pub scan_files-before :
      (b : Text) (n : ℕ) (files : List Text) (s : Scan)
      → has_step n (steps_at b (scan_files beyond files s).before_steps)
        ≡ (has_step n (steps_at b s.before_steps) || any (is_before beyond b n) files)
  unfolding scan_files note_file
  scan_files-before b n [] s = ground arith
  scan_files-before b n (f ∷ files) s = ground (
    arith,
    scan_files-before b n files (note_file beyond f s),
    note_read-before b n (after_file beyond f) (before_file beyond f) s
        (after_file-before_file beyond f),
  )

  pub scan_files-IsDict :
      (files : List Text) (s : Scan)
      → IsDict s.after_steps
      → IsDict (scan_files beyond files s).after_steps
  unfolding scan_files note_file
  scan_files-IsDict [] s h = h
  scan_files-IsDict (f ∷ files) s h =
      scan_files-IsDict files (note_file beyond f s)
        (note_read-IsDict (after_file beyond f) (before_file beyond f) s h)
