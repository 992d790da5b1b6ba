-- ===== src/Prelude/Ints.antt =====
-- Python's `int` where it can be negative: the order, and the clamp to a range of indices.
use Prim.Native.Nat.{ℕ, suc, ◌+◌, ◌-◌, min}
use mathlib.Core.Path.{◌≡◌, refl}
use mathlib.Core.Logic.{inl, inr}
use native.Mathlib.Omega.{arith}
use mathlib.Core.Bool.{Bool, true, false, not}
use tts_tokens_that_suffice.Prelude.Tests.{leb, Bool-cases, if◌then◌else◌}

-- `negsuc n` is -(n + 1)
pub data ℤ : Type 0 where
  pos negsuc : ℕ → ℤ

-- x <= y
abbrev pub leb_int : ℤ → ℤ → Bool
leb_int (pos x) (pos y) = leb x y
leb_int (pos x) (negsuc y) = false
leb_int (negsuc x) (pos y) = true
leb_int (negsuc x) (negsuc y) = leb y x

-- max(0, min(n - 1, x)), for a positive n
abbrev pub clamp : ℕ → ℤ → ℕ
clamp n (pos x) = min (n - 1) x
clamp n (negsuc x) = 0

-- x < y
abbrev pub ltb_int : ℤ → ℤ → Bool
ltb_int x y = not (leb_int y x)

abbrev pub pos_part : ℤ → ℕ
pos_part (pos n) = n
pos_part (negsuc n) = 0

abbrev pub neg_part : ℤ → ℕ
neg_part (pos n) = 0
neg_part (negsuc n) = suc n

-- a - b, as an integer
abbrev pub sub_ℕ : ℕ → ℕ → ℤ
sub_ℕ a b = if leb b a then pos (a - b) else negsuc (b - a - 1)

infixl 65 ◌+ℤ◌
unfoldable pub ◌+ℤ◌ : ℤ → ℤ → ℤ
a +ℤ b = sub_ℕ (pos_part a + pos_part b) (neg_part a + neg_part b)

pub leb_int_refl : (x : ℤ) → leb_int x x ≡ true
leb_int_refl (pos x) = ground arith
leb_int_refl (negsuc x) = ground arith

pub leb_int_trans : (x y z : ℤ) → leb_int x y ≡ true → leb_int y z ≡ true → leb_int x z ≡ true
leb_int_trans (pos x) (pos y) (pos z) h k = ground arith
leb_int_trans (pos x) (pos y) (negsuc z) h k = cc
leb_int_trans (pos x) (negsuc y) z h k = cc
leb_int_trans (negsuc x) (pos y) (pos z) h k = refl
leb_int_trans (negsuc x) (pos y) (negsuc z) h k = cc
leb_int_trans (negsuc x) (negsuc y) (pos z) h k = refl
leb_int_trans (negsuc x) (negsuc y) (negsuc z) h k = ground arith

pub leb_int_total : (x y : ℤ) → leb_int x y ≡ false → leb_int y x ≡ true
leb_int_total (pos x) (pos y) h = ground arith
leb_int_total (pos x) (negsuc y) h = refl
leb_int_total (negsuc x) (pos y) h = cc
leb_int_total (negsuc x) (negsuc y) h = ground arith

pub leb_int_above_left :
    (x y z : ℤ) → leb_int x y ≡ true → leb_int x z ≡ false → leb_int y z ≡ false
leb_int_above_left x y z h k = elim (Bool-cases (leb_int y z)) [
  | inl e ↦ let t : leb_int x z ≡ true = leb_int_trans x y z h e in cc
  | inr e ↦ e
]

pub leb_int_above_right :
    (x y z : ℤ) → leb_int z y ≡ true → leb_int x y ≡ false → leb_int x z ≡ false
leb_int_above_right x y z h k = elim (Bool-cases (leb_int x z)) [
  | inl e ↦ let t : leb_int x y ≡ true = leb_int_trans x z y e h in cc
  | inr e ↦ e
]

-- x == 0
abbrev pub is_zero : ℤ → Bool
is_zero (pos n) = leb n 0
is_zero (negsuc n) = false
