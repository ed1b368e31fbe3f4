-- ===== src/Float/Order.antt =====
-- Consequences of the order of the floats that are not NaN.
use hyperliquid_smart_wallet.Prelude.{◌≡◌, ◌⊎◌, true, false, arith}
use hyperliquid_smart_wallet.Float.{Float, IsOrdered, max_of, min_of}

module _ {F : Type 0} ⦃f : Float F⦄ where
  open f use {lt, le, feq}

  -- The float is not NaN.
  abbrev pub IsNumber : F → Type 0
  IsNumber x = le x x ≡ true

  -- The answers of all comparisons of two numbers.
  abbrev pub Less : F → F → Type 0
  Less x y =
      (lt x y ≡ true)
      × (le x y ≡ true)
      × (lt y x ≡ false)
      × (le y x ≡ false)
      × (feq x y ≡ false)
      × (feq y x ≡ false)

  abbrev pub Same : F → F → Type 0
  Same x y =
      (lt x y ≡ false)
      × (le x y ≡ true)
      × (lt y x ≡ false)
      × (le y x ≡ true)
      × (feq x y ≡ true)
      × (feq y x ≡ true)

  module _ (laws : IsOrdered F) where
    pub Less-of_lt : (x y : F) → lt x y ≡ true → Less x y
    Less-of_lt x y h = ground (
      arith,
      laws.le_of_lt x y h,
      laws.lt_of_lt_of_le x y x h,
      laws.lt_irrefl x,
      laws.le_of_lt y x,
      laws.le_of_feq x y,
      laws.le_of_feq y x,
    )

    pub compare : (x y : F) → IsNumber x → IsNumber y → Less x y ⊎ Same x y ⊎ Less y x
    compare x y hx hy = ground (
      arith,
      laws.le_or_lt x y hx hy,
      laws.le_or_lt y x hy hx,
      Less-of_lt x y,
      Less-of_lt y x,
      laws.feq_of_le x y,
      laws.feq_of_le y x,
    )

    pub le_of_not_lt : (x y : F) → IsNumber x → IsNumber y → lt x y ≡ false → le y x ≡ true
    le_of_not_lt x y hx hy h = ground (arith, laws.le_or_lt y x hy hx)

    pub max_of-bounds : (a b : F) → IsNumber a → IsNumber (max_of a b) × (le a (max_of a b) ≡ true)
    max_of-bounds a b h = ground (arith, h, laws.le_of_lt a b, laws.refl_of_lt a b)

    pub min_of-bounds :
        (a b : F)
        → IsNumber a
        → IsNumber b
        → IsNumber (min_of a b) × (le (min_of a b) a ≡ true) × (le (min_of a b) b ≡ true)
    min_of-bounds a b ha hb = ground (arith, ha, hb, laws.le_of_lt b a, le_of_not_lt b a hb ha)
