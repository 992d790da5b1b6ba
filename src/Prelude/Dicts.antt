-- ===== src/Prelude/Dicts.antt =====
-- Python's `dict` with texts as keys, in the order of insertion.
use mathlib.Core.Path.{◌≡◌, refl, sym, ap, subst, ◌∙◌}
use mathlib.Core.Logic.{inl, inr}
use mathlib.Core.List.{List, [], ◌∷◌}
use mathlib.Core.Option.{Option, none, some}
use native.Mathlib.Omega.{arith}
use mathlib.Core.Bool.{Bool, false, ◌&&◌}
use tts_tokens_that_suffice.Prelude.Lists.{any, count, keep_if}
use tts_tokens_that_suffice.Prelude.Tests.{if◌then◌else◌, Bool-cases}
use tts_tokens_that_suffice.Prelude.Texts.{Text, text_eq, text_eq_iff}

module _ {ℓ} {V : Type ℓ} where
  -- d.get(k)
  unfoldable pub lookup : Text → List (Text × V) → Option V
  unfolding text_eq
  lookup k [] = none
  lookup k ((j, v) ∷ d) = if text_eq j k then some v else lookup k d

  -- d[k] = v
  unfoldable pub insert : Text → V → List (Text × V) → List (Text × V)
  unfolding text_eq
  insert k v [] = (k, v) ∷ []
  insert k v ((j, w) ∷ d) = if text_eq j k then (j, v) ∷ d else (j, w) ∷ insert k v d

  -- del d[k], where k may be missing
  unfoldable pub remove : Text → List (Text × V) → List (Text × V)
  unfolding text_eq
  remove k [] = []
  remove k ((j, w) ∷ d) = let rest = remove k d in if text_eq j k then rest else (j, w) ∷ rest

  pub lookup-insert :
      (k j : Text) (v : V) (d : List (Text × V))
      → lookup j (insert k v d) ≡ (if text_eq k j then some v else lookup j d)
  unfolding lookup insert
  lookup-insert k j v [] = refl
  lookup-insert k j v ((i, w) ∷ d) =
      ground (arith, text_eq_iff k j, text_eq_iff i k, text_eq_iff i j, lookup-insert k j v d)

  pub lookup-remove :
      (k j : Text) (d : List (Text × V))
      → lookup j (remove k d) ≡ (if text_eq k j then none else lookup j d)
  unfolding lookup remove
  lookup-remove k j [] = elim (Bool-cases (text_eq k j)) [ inl e ↦ rw e | inr e ↦ rw e ]
  lookup-remove k j ((i, w) ∷ d) =
      ground (arith, text_eq_iff k j, text_eq_iff i k, text_eq_iff i j, lookup-remove k j d)

  -- A dictionary holds a key once.
  unfoldable pub IsDict : List (Text × V) → Type ℓ
  unfolding lookup
  IsDict [] = Unit {ℓ}
  IsDict ((k, v) ∷ d) = (lookup k d ≡ none) × IsDict d

  pub insert-IsDict : (k : Text) (v : V) (d : List (Text × V)) → IsDict d → IsDict (insert k v d)
  unfolding IsDict insert lookup
  insert-IsDict k v [] h = (refl, h)
  insert-IsDict k v ((j, w) ∷ d) (h, hs) = elim (Bool-cases (text_eq j k)) [
    | inl e ↦ rw e (h, hs)
    | inr e ↦ rw e (
      ground (arith, h, lookup-insert k j v d, text_eq_iff j k, text_eq_iff k j),
      insert-IsDict k v d hs,
    )
  ]

-- No text stands twice in a list.
unfoldable pub IsDistinct : List Text → Type 0
unfolding text_eq
IsDistinct [] = Unit {0}
IsDistinct (x ∷ xs) = (any (λ y. text_eq x y) xs ≡ false) × IsDistinct xs

text_eq_comm : (x y : Text) → text_eq x y ≡ text_eq y x
text_eq_comm x y = elim (Bool-cases (text_eq x y)) [
  | inl e ↦ ground (arith, e, text_eq_iff x y, text_eq_iff y x)
  | inr e ↦ ground (arith, e, text_eq_iff x y, text_eq_iff y x)
]

pub any-text_eq_comm :
    (x : Text) (xs : List Text) → any (λ y. text_eq x y) xs ≡ any (λ y. text_eq y x) xs
any-text_eq_comm x [] = refl
any-text_eq_comm x (y ∷ ys) = rw (text_eq_comm x y, any-text_eq_comm x ys)

-- Of distinct texts that pass one test, at most one is a given text and passes another.
pub count-keep_if_one :
    (p q : Text → Bool) (x : Text) (xs : List Text)
    → IsDistinct xs
    → count (λ y. text_eq y x && q y) (keep_if p xs)
      ≡ (if any (λ y. text_eq y x) xs && (p x && q x) then 1 else 0)
unfolding IsDistinct
count-keep_if_one p q x [] h = refl
count-keep_if_one p q x (y ∷ ys) (alone, h) = elim (Bool-cases (text_eq y x)) [
  | inl e ↦
      let same = (text_eq_iff y x).0 e in
      let none_left : any (λ z. text_eq z x) ys ≡ false =
        sym (any-text_eq_comm x ys) ∙ subst (λ z. any (λ k. text_eq z k) ys ≡ false) same alone in
      ground (arith, e, none_left, count-keep_if_one p q x ys h, ap p same, ap q same)
  | inr e ↦ ground (arith, e, count-keep_if_one p q x ys h)
]
