-- ===== src/Grading/Updates.antt =====
-- What a run of scripts/eval/grade_preds.py makes of the saved trajectories.
use tts_tokens_that_suffice.Prelude.{
  ◌≡◌, Bool, true, false, ◌&&◌, Option, none, some, List, if◌then◌else◌, Text, text_eq, lookup,
  insert, lookup-insert, text_eq_iff, Result, ok, refl, ap, ◌∙◌, subst, Bool-cases, inl, inr, sym,
  ◌||◌, [], ◌∷◌, any, keep_if, ◌>>=◌,
}
use tts_tokens_that_suffice.Grading.{
  Grade, Evaluated, grade_of, update_found, score_of, cached_grade, grade_one, update_traj,
  grade_all,
}

abbrev pub Store : Type 0
Store = List (Text × Option Grade)

-- Whether a trajectory is there and does not parse.
abbrev pub is_broken : Option (Option Grade) → Bool
is_broken (some none) = true
is_broken _ = false

abbrev pub is_saved : Option (Option Grade) → Bool
is_saved none = false
is_saved (some g) = true

-- Every saved trajectory parses.
abbrev pub Parses : Store → Type 0
Parses trajs = (j : Text) → is_broken (lookup j trajs) ≡ false

-- What an update makes of one trajectory.
abbrev pub updated : Bool → Evaluated → Option (Option Grade) → Option (Option Grade)
updated b ev o = if b && is_saved o then some (some (grade_of ev)) else o

-- A trajectory store that differs from another by updates of some of its trajectories.
pub record Updates (trajs : Store) (r : Result Store) (hit : Text → Bool) (ev : Text → Evaluated)
    : Type 0 where
  pub after : Store
  pub returned : r ≡ ok after
  pub each : (j : Text) → lookup j after ≡ updated (hit j) (ev j) (lookup j trajs)

update_found-Updates :
    (i : Text) (ev : Text → Evaluated) (trajs : Store) (o : Option (Option Grade))
    → lookup i trajs ≡ o
    → is_broken o ≡ false
    → Updates trajs (update_found i (ev i) trajs o) (λ j. text_eq i j) ev
unfolding update_found
update_found-Updates i ev trajs none e h = record {
  after = trajs;
  returned = refl;
  each = λ j. elim (Bool-cases (text_eq i j)) [
    | inl same ↦
        let gone : lookup j trajs ≡ none =
          subst (λ x. lookup x trajs ≡ none) ((text_eq_iff i j).0 same) e in
        rw (same, gone) refl
    | inr other ↦ rw other refl
  ];
}
update_found-Updates i ev trajs (some none) e h = cc
update_found-Updates i ev trajs (some (some g)) e h = record {
  after = insert i (some (grade_of (ev i))) trajs;
  returned = refl;
  each = λ j. lookup-insert i j (some (grade_of (ev i))) trajs ∙ elim (Bool-cases (text_eq i j)) [
    | inl same ↦
        let is_same = (text_eq_iff i j).0 same in
        let held : lookup j trajs ≡ some (some g) =
          subst (λ x. lookup x trajs ≡ some (some g)) is_same e in
        rw (same, held) (ap (λ x. some (some (grade_of (ev x)))) is_same)
    | inr other ↦ rw other refl
  ];
}

abbrev pub cached_of : Option (Option Grade) → Option Bool
cached_of none = none
cached_of (some none) = none
cached_of (some (some g)) = score_of g

pub cached_grade-cached_of :
    (trajs : Store) (j : Text) → cached_grade trajs j ≡ cached_of (lookup j trajs)
unfolding cached_grade
cached_grade-cached_of trajs j = elim (lookup j trajs) [
  | none ↦ refl
  | some none ↦ refl
  | some (some g) ↦ refl
]

updated-twice :
    (b c : Bool) (ev : Evaluated) (o : Option (Option Grade))
    → updated b ev (updated c ev o) ≡ updated (c || b) ev o
updated-twice true true ev none = refl
updated-twice true true ev (some g) = refl
updated-twice true false ev none = refl
updated-twice true false ev (some g) = refl
updated-twice false true ev none = refl
updated-twice false true ev (some g) = refl
updated-twice false false ev o = refl

pub updated-parses :
    (b : Bool) (ev : Evaluated) (o : Option (Option Grade))
    → is_broken o ≡ false
    → is_broken (updated b ev o) ≡ false
updated-parses true ev none h = h
updated-parses true ev (some g) h = refl
updated-parses false ev o h = h

module _ (evaluate : Text → Result Evaluated) where
  abbrev pub graded_as : Text → Evaluated
  graded_as i = grade_one (evaluate i)

  update_traj-Updates :
      (i : Text) (trajs : Store)
      → Parses trajs
      → Updates trajs (update_traj i (graded_as i) trajs) (λ j. text_eq i j) graded_as
  unfolding update_traj
  update_traj-Updates i trajs h = update_found-Updates i graded_as trajs (lookup i trajs) refl (h i)

  -- The updates of a batch, in whatever order they come.
  pub grade_all-Updates :
      (ids : List Text) (trajs : Store)
      → Parses trajs
      → Updates trajs (grade_all evaluate ids trajs) (λ j. any (λ i. text_eq i j) ids) graded_as
  unfolding grade_all
  grade_all-Updates [] trajs h = record { after = trajs; returned = refl; each = λ j. refl }
  grade_all-Updates (i ∷ ids) trajs h =
      let first = update_traj-Updates i trajs h in
      let rest = grade_all-Updates ids first.after (λ j.
        subst (λ o. is_broken o ≡ false) (sym (first.each j))
          (updated-parses (text_eq i j) (graded_as j) (lookup j trajs) (h j))) in
      record {
        after = rest.after;
        returned = ap (λ r. r >>= λ s. grade_all evaluate ids s) first.returned ∙ rest.returned;
        each = λ j.
            rest.each j
            ∙ ap (updated (any (λ k. text_eq k j) ids) (graded_as j)) (first.each j)
            ∙ updated-twice (any (λ k. text_eq k j) ids) (text_eq i j) (graded_as j)
                (lookup j trajs);
      }

pub any-keep_if :
    (p : Text → Bool) (xs : List Text) (j : Text)
    → any (λ i. text_eq i j) (keep_if p xs) ≡ (p j && any (λ i. text_eq i j) xs)
any-keep_if p [] j = elim (Bool-cases (p j)) [ inl e ↦ rw e | inr e ↦ rw e ]
any-keep_if p (x ∷ xs) j = elim (Bool-cases (text_eq x j)) [
  | inl same ↦
      let is_same : x ≡ j = (text_eq_iff x j).0 same in
      elim (Bool-cases (p x)) [
        | inl e ↦ let held : p j ≡ true = sym (ap p is_same) ∙ e in rw (e, held, same) refl
        | inr e ↦
            let gone : p j ≡ false = sym (ap p is_same) ∙ e in rw (e, any-keep_if p xs j, gone) refl
      ]
  | inr other ↦ elim (Bool-cases (p x)) [
    | inl e ↦ rw (e, other) (any-keep_if p xs j)
    | inr e ↦ rw (e, other) (any-keep_if p xs j)
  ]
]
