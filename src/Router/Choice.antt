-- ===== src/Router/Choice.antt =====
-- Which backend `min(range(len(BACKENDS)), key=...)` chooses, in scripts/serve/router.py.
use tts_tokens_that_suffice.Prelude.{
  ℕ, zero, suc, ◌+◌, ◌<◌, ◌≡◌, refl, subst, ◌⊎◌, true, false, some, List, ◌∷◌, arith, ℤ, leb_int,
  leb_int_refl, leb_int_total, get_elem?, sym, inl, inr, [], Bool-cases, leb_int_above_left,
  leb_int_above_right, ok, ok_injective,
}
use tts_tokens_that_suffice.Router.{least_from, least}

-- The entry at an index, `low`, is no larger than any, and smaller than those before it.
pub record IsLeast (counts : List ℤ) (idx : ℕ) (low : ℤ) : Type 0 where
  pub stands : get_elem? counts idx ≡ some low
  pub smallest : (j : ℕ) (x : ℤ) → get_elem? counts j ≡ some x → leb_int low x ≡ true
  pub first : (j : ℕ) (x : ℤ) → j < idx → get_elem? counts j ≡ some x → leb_int x low ≡ false

abbrev NotBelow : ℤ → List ℤ → Type 0
NotBelow low xs = (j : ℕ) (x : ℤ) → get_elem? xs j ≡ some x → leb_int low x ≡ true

-- What the rest of the scan comes to: the best so far stays, or the least of the rest is below it.
abbrev Scanned : ℕ → ℤ → ℕ → List ℤ → ℕ → Type 0
Scanned best low i xs r =
    ((r ≡ best) × NotBelow low xs)
    ⊎ ((k : ℕ) × (m : ℤ) × (r ≡ i + k) × IsLeast xs k m × (leb_int low m ≡ false))

NotBelow-cons :
    (low y : ℤ) (xs : List ℤ) → leb_int low y ≡ true → NotBelow low xs → NotBelow low (y ∷ xs)
NotBelow-cons low y xs h below zero x e =
    let same : y ≡ x = cc in subst (λ t. leb_int low t ≡ true) same h
NotBelow-cons low y xs h below (suc j) x e = below j x e

IsLeast-head : (y : ℤ) (xs : List ℤ) → NotBelow y xs → IsLeast (y ∷ xs) 0 y
IsLeast-head y xs below = record {
  stands = refl;
  smallest = NotBelow-cons y y xs (leb_int_refl y) below;
  first = λ j x lt e. absurd (omega arith);
}

before_tail :
    (y m : ℤ) (xs : List ℤ) (k : ℕ)
    → IsLeast xs k m
    → leb_int y m ≡ false
    → (j : ℕ) (x : ℤ) → j < suc k
    → get_elem? (y ∷ xs) j ≡ some x
    → leb_int x m ≡ false
before_tail y m xs k l above zero x lt e =
    let same : y ≡ x = cc in subst (λ t. leb_int t m ≡ false) same above
before_tail y m xs k l above (suc j) x lt e = l.first j x (omega arith) e

IsLeast-tail :
    (y m : ℤ) (xs : List ℤ) (k : ℕ)
    → IsLeast xs k m
    → leb_int y m ≡ false
    → IsLeast (y ∷ xs) (suc k) m
IsLeast-tail y m xs k l above = record {
  stands = l.stands;
  smallest = NotBelow-cons m y xs (leb_int_total y m above) l.smallest;
  first = before_tail y m xs k l above;
}

lower_next :
    (best : ℕ) (low x : ℤ) (i : ℕ) (xs : List ℤ) (r : ℕ)
    → leb_int low x ≡ false
    → Scanned i x (suc i) xs r
    → Scanned best low i (x ∷ xs) r
lower_next best low x i xs r h (inl (e, below)) =
    inr (0, x, omega arith, IsLeast-head x xs below, h)
lower_next best low x i xs r h (inr (k, m, e, l, above)) = inr (
  suc k,
  m,
  omega arith,
  IsLeast-tail x m xs k l above,
  leb_int_above_right low x m (leb_int_total x m above) h,
)

keep_next :
    (best : ℕ) (low x : ℤ) (i : ℕ) (xs : List ℤ) (r : ℕ)
    → leb_int low x ≡ true
    → Scanned best low (suc i) xs r
    → Scanned best low i (x ∷ xs) r
keep_next best low x i xs r h (inl (e, below)) = inl (e, NotBelow-cons low x xs h below)
keep_next best low x i xs r h (inr (k, m, e, l, above)) =
    inr (suc k, m, omega arith, IsLeast-tail x m xs k l (leb_int_above_left low x m h above), above)

least_from_scans :
    (best : ℕ) (low : ℤ) (i : ℕ) (xs : List ℤ) → Scanned best low i xs (least_from best low i xs)
unfolding least_from
least_from_scans best low i [] = inl (refl, λ j x e. cc)
least_from_scans best low i (x ∷ xs) = elim (Bool-cases (leb_int low x)) [
  | inl h ↦ rw h (keep_next best low x i xs _ h (least_from_scans best low (suc i) xs))
  | inr h ↦ rw h (lower_next best low x i xs _ h (least_from_scans i x (suc i) xs))
]

IsLeast-of_all :
    (x : ℤ) (xs : List ℤ) (r : ℕ) → Scanned 0 x 1 xs r → (low : ℤ) × IsLeast (x ∷ xs) r low
IsLeast-of_all x xs r (inl (e, below)) =
    (x, subst (λ i. IsLeast (x ∷ xs) i x) (sym e) (IsLeast-head x xs below))
IsLeast-of_all x xs r (inr (k, m, e, l, above)) =
    (m, subst (λ i. IsLeast (x ∷ xs) i m) (omega arith) (IsLeast-tail x m xs k l above))

pub least-IsLeast :
    (counts : List ℤ) {idx : ℕ} → least counts ≡ ok idx → (low : ℤ) × IsLeast counts idx low
unfolding least
least-IsLeast [] e = cc
least-IsLeast (x ∷ xs) {idx} e =
    subst (λ i. (low : ℤ) × IsLeast (x ∷ xs) i low) (ok_injective _ idx e)
      (IsLeast-of_all x xs _ (least_from_scans 0 x 1 xs))
