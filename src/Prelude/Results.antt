-- ===== src/Prelude/Results.antt =====
-- A Python call that may raise: the value, or the exception with its message.
use mathlib.Core.Path.{◌≡◌, refl}
use mathlib.Core.List.{List}
use Prim.Native.Nat.{ℕ}

-- The classes of exceptions that the modelled code raises.
pub data Error : Type 0 where
  type_error attribute_error key_error index_error value_error os_error : Error
  -- an exception of a backend, with its `str(exc)`
  other_error : List ℕ → Error

-- What a call comes to: the exception that left it, or the value that it returned.
pub data Result {ℓ} (V : Type ℓ) : Type ℓ where
  err : (raised : Error) → Result V
  ok : (returned : V) → Result V

pub ok_injective {ℓ} : {V : Type ℓ} (x y : V) → ok x ≡ ok y → x ≡ y
ok_injective x y same = cc

infixl 5 ◌>>=◌
-- The next statement runs only where the one before it has returned.
abbrev pub ◌>>=◌ {ℓ κ} : {V : Type ℓ} → {W : Type κ} → Result V → (V → Result W) → Result W
err raised >>= next = err raised
ok returned >>= next = next returned

-- A block that returned passed each of its statements.
pub >>=-eq-ok {ℓ κ} :
    {V : Type ℓ} {W : Type κ} (first : Result V) (next : V → Result W) {w : W}
    → (first >>= next) ≡ ok w
    → (v : V) × (first ≡ ok v) × (next v ≡ ok w)
>>=-eq-ok (err raised) next same = cc
>>=-eq-ok (ok returned) next same = (returned, refl, same)
