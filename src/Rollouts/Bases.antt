-- ===== src/Rollouts/Bases.antt =====
-- `get_uids_without_branches` of src/tts/utils/trajectory.py: the base runs of a directory that no branch
-- run belongs to. A set is a list of its elements.
use tts_tokens_that_suffice.Prelude.{
  ℕ, Bool, true, false, not, ◌&&◌, ◌||◌, Option, none, some, List, [], ◌∷◌, ◌++◌, ◌==◌, Text, codes,
  text_eq, if◌then◌else◌, is_nonempty, keep_if, any, ◌≡◌, refl, Bool-cases, text_eq_iff, inl, inr,
  arith, ap, subst, ap₂, ◌∙◌,
}
use tts_tokens_that_suffice.Rollouts.Files.{read_uid, after_literal, ends_json}
use tts_tokens_that_suffice.Rollouts.Scanned.{any-append}
use tts_tokens_that_suffice.Sweep.Specs.{number}

-- `^([a-f0-9-]+):0\.json$`
unfoldable pub base_file : Text → Option Text
unfolding read_uid after_literal ends_json
base_file name =
    let r = read_uid name in
    elim (after_literal (codes ":0") (r.1)) [
      | none ↦ none
      | some rest ↦ if is_nonempty r.0 && ends_json rest then some (r.0) else none
    ]

-- `.+\.json$`: the first character is any but a line feed.
unfoldable pub ends_some_json : Text → Bool
unfolding ends_json
ends_some_json [] = false
ends_some_json (c ∷ s) = not (c == 10) && (ends_json s || ends_some_json s)

module _ (beyond : ℕ → Option ℕ) where
  -- `\d+:.+\.json$`
  unfoldable pub ends_branch : Text → Bool
  unfolding ends_some_json after_literal
  ends_branch s = elim (number beyond s) [
    | none ↦ false
    | some q ↦ elim (after_literal (codes ":") (q.1)) [
      | none ↦ false
      | some rest ↦ ends_some_json rest
    ]
  ]

  -- `^([a-f0-9-]+):0:\d+:.+\.json$`
  unfoldable pub branch_file : Text → Option Text
  unfolding read_uid after_literal ends_branch
  branch_file name =
      let r = read_uid name in
      elim (after_literal (codes ":0:") (r.1)) [
        | none ↦ none
        | some rest ↦ if is_nonempty r.0 && ends_branch rest then some (r.0) else none
      ]

-- `uid in uids`
unfoldable pub has_uid : Text → List Text → Bool
unfolding text_eq
has_uid uid uids = any (λ u. text_eq u uid) uids

-- `if m: uids.add(m.group(1))`
unfoldable pub add_uid : Option Text → List Text → List Text
unfolding has_uid
add_uid none uids = uids
add_uid (some u) uids = if has_uid u uids then uids else uids ++ u ∷ []

module _ (beyond : ℕ → Option ℕ) where
  -- The loop, with the two sets.
  unfoldable pub uids_from : List Text → List Text × List Text → List Text × List Text
  unfolding add_uid base_file branch_file
  uids_from [] sets = sets
  uids_from (f ∷ files) sets =
      uids_from files (add_uid (base_file f) (sets.0), add_uid (branch_file beyond f) (sets.1))

  unfoldable pub get_uids_without_branches : List Text → List Text
  unfolding uids_from has_uid
  get_uids_without_branches files =
      let sets = uids_from files ([], []) in keep_if (λ u. not (has_uid u (sets.1))) (sets.0)

-- Whether what a pattern read is a uid.
abbrev pub is_uid : Option Text → Text → Bool
is_uid none uid = false
is_uid (some u) uid = text_eq u uid

has_uid-add_uid :
    (uid : Text) (o : Option Text) (uids : List Text)
    → has_uid uid (add_uid o uids) ≡ (has_uid uid uids || is_uid o uid)
unfolding has_uid add_uid
has_uid-add_uid uid none uids = ground arith
has_uid-add_uid uid (some u) uids = elim (Bool-cases (has_uid u uids)) [
  | inl e ↦ elim (Bool-cases (text_eq u uid)) [
    | inl same ↦
        ground (arith, e, same, subst (λ x. has_uid x uids ≡ true) ((text_eq_iff u uid).0 same) e)
    | inr other ↦ ground (arith, e, other)
  ]
  | inr e ↦ ground (arith, e, any-append (λ x. text_eq x uid) uids (u ∷ []))
]

module _ (beyond : ℕ → Option ℕ) where
  uids_from-base :
      (uid : Text) (files : List Text) (sets : List Text × List Text)
      → has_uid uid ((uids_from beyond files sets).0)
        ≡ (has_uid uid (sets.0) || any (λ f. is_uid (base_file f) uid) files)
  unfolding uids_from
  uids_from-base uid [] sets = ground arith
  uids_from-base uid (f ∷ files) sets = ground (
    arith,
    uids_from-base uid files
        (add_uid (base_file f) (sets.0), add_uid (branch_file beyond f) (sets.1)),
    has_uid-add_uid uid (base_file f) (sets.0),
  )

  uids_from-branch :
      (uid : Text) (files : List Text) (sets : List Text × List Text)
      → has_uid uid ((uids_from beyond files sets).1)
        ≡ (has_uid uid (sets.1) || any (λ f. is_uid (branch_file beyond f) uid) files)
  unfolding uids_from
  uids_from-branch uid [] sets = ground arith
  uids_from-branch uid (f ∷ files) sets = ground (
    arith,
    uids_from-branch uid files
        (add_uid (base_file f) (sets.0), add_uid (branch_file beyond f) (sets.1)),
    has_uid-add_uid uid (branch_file beyond f) (sets.1),
  )

has_uid-keep_if :
    (uid : Text) (uids others : List Text)
    → has_uid uid (keep_if (λ u. not (has_uid u others)) uids)
      ≡ (has_uid uid uids && not (has_uid uid others))
unfolding has_uid
has_uid-keep_if uid [] others = refl
has_uid-keep_if uid (u ∷ uids) others = elim (Bool-cases (text_eq u uid)) [
  | inl e ↦ ground (
    arith,
    e,
    ap (λ x. has_uid x others) ((text_eq_iff u uid).0 e),
    has_uid-keep_if uid uids others,
  )
  | inr e ↦ ground (arith, e, has_uid-keep_if uid uids others)
]

-- A uid is in the answer exactly when some name is that of its base run, and none is that of a branch run.
pub has_uid-get_uids_without_branches :
    (beyond : ℕ → Option ℕ) (files : List Text) (uid : Text)
    → has_uid uid (get_uids_without_branches beyond files) ≡ (
        any (λ f. is_uid (base_file f) uid) files
        && not (any (λ f. is_uid (branch_file beyond f) uid) files))
unfolding get_uids_without_branches
has_uid-get_uids_without_branches beyond files uid =
    let sets = uids_from beyond files ([], []) in
    has_uid-keep_if uid (sets.0) (sets.1)
    ∙ ap₂ (λ x y. x && not y) (uids_from-base beyond uid files ([], []))
        (uids_from-branch beyond uid files ([], []))
