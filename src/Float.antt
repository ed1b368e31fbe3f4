-- ===== src/Float.antt =====
-- What the program does with a Python `float`, over any type of floats. A `double` has these
-- operations with IEEE 754 rounding; nothing is assumed of them but what a statement names.
pub mod Fixed
pub mod Order
use hyperliquid_smart_wallet.Prelude.{ℕ, List, [], ◌∷◌, Bool, true, false, ◌≡◌, ◌⊎◌, if◌then◌else◌}
use hyperliquid_smart_wallet.Prelude.Int.{ℤ, pos}

pub record Float (F : Type 0) : Type 0 where
  pub add : F → F → F
  pub sub : F → F → F
  pub mul : F → F → F
  -- Python's `/`, where the divisor is not zero.
  pub div : F → F → F
  pub neg : F → F
  pub abs : F → F
  pub lt : F → F → Bool
  pub le : F → F → Bool
  pub feq : F → F → Bool
  -- `float(n)`, which Python also applies where it mixes an `int` into an expression.
  pub of_int : ℤ → F
  -- The literal m · 10 ^ -k, as `decimal 15 1` for `1.5`.
  pub decimal : ℕ → ℕ → F
  -- `round(x, k)`
  pub round : F → ℕ → F
  -- `int(x)`
  pub trunc : F → ℤ

module _ {F : Type 0} ⦃f : Float F⦄ where
  -- The literal of a whole number.
  abbrev pub whole : ℕ → F
  whole n = f.of_int (pos n)

  -- Python's `max(a, b)` and `min(a, b)`: the first unless the second is strictly better.
  abbrev pub max_of : F → F → F
  max_of a b = if f.lt a b then b else a

  abbrev pub min_of : F → F → F
  min_of a b = if f.lt b a then b else a

  -- `sum(...)` adds from the left and begins at the integer 0.
  abbrev pub sum_onto : F → List F → F
  sum_onto acc [] = acc
  sum_onto acc (x ∷ xs) = sum_onto (f.add acc x) xs

  abbrev pub sum : List F → F
  sum = sum_onto (whole 0)

-- The order of the floats that are not NaN: a float is not NaN exactly if it is `<=` itself.
pub record IsOrdered (F : Type 0) ⦃f : Float F⦄ : Type 0 where
  pub refl_of_lt : (x y : F) → f.lt x y ≡ true → (f.le x x ≡ true) × (f.le y y ≡ true)
  pub refl_of_le : (x y : F) → f.le x y ≡ true → (f.le x x ≡ true) × (f.le y y ≡ true)
  pub lt_irrefl : (x : F) → f.lt x x ≡ false
  pub le_of_lt : (x y : F) → f.lt x y ≡ true → f.le x y ≡ true
  pub le_trans : (x y z : F) → f.le x y ≡ true → f.le y z ≡ true → f.le x z ≡ true
  pub lt_of_lt_of_le : (x y z : F) → f.lt x y ≡ true → f.le y z ≡ true → f.lt x z ≡ true
  pub lt_of_le_of_lt : (x y z : F) → f.le x y ≡ true → f.lt y z ≡ true → f.lt x z ≡ true
  pub le_or_lt :
      (x y : F) → f.le x x ≡ true → f.le y y ≡ true → (f.le x y ≡ true) ⊎ (f.lt y x ≡ true)
  pub le_of_feq : (x y : F) → f.feq x y ≡ true → (f.le x y ≡ true) × (f.le y x ≡ true)
  pub feq_of_le : (x y : F) → f.le x y ≡ true → f.le y x ≡ true → f.feq x y ≡ true
  -- `0.0` and the integer 0 are one float, which is not NaN.
  pub zero_literal : f.decimal 0 1 ≡ f.of_int (pos 0)
  pub zero_refl : f.le (f.of_int (pos 0)) (f.of_int (pos 0)) ≡ true
