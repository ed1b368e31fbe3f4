-- ===== src/Wallets/Delta/Classify.antt =====
-- src/hl_observer/wallets/position_delta_engine.py: what `classify_action` answers.
use hyperliquid_smart_wallet.Prelude.{◌≡◌, ◌↔◌, ◌⊎◌, Bool, true, false, arith}
use hyperliquid_smart_wallet.Float.{Float, IsOrdered, whole}
use hyperliquid_smart_wallet.Float.Order.{IsNumber, compare}
use hyperliquid_smart_wallet.Wallets.Delta.{
  PositionAction, is_flat, side_of_size, classify_action, is_held,
}

-- The absolute values of numbers of one sign are ordered as the numbers, or the other way.
pub record HasAbs (F : Type 0) ⦃f : Float F⦄ : Type 0 where
  pub lt_abs_positive :
      (x y : F)
      → f.lt (whole 0) x ≡ true
      → f.lt (whole 0) y ≡ true
      → f.lt (f.abs x) (f.abs y) ≡ f.lt x y
  pub lt_abs_negative :
      (x y : F)
      → f.lt x (whole 0) ≡ true
      → f.lt y (whole 0) ≡ true
      → f.lt (f.abs x) (f.abs y) ≡ f.lt y x

module _ {F : Type 0} ⦃f : Float F⦄ where
  open f use {lt, feq}

  -- The actions as orders between signed sizes.
  pub record ClassifiesAction (prev new : F) (action : PositionAction) : Type 0 where
    pub opened :
        (action ≡ PositionAction.opens)
        ↔ ((feq prev (whole 0) ≡ true) × (feq new (whole 0) ≡ false))
    pub closed :
        (action ≡ PositionAction.closes)
        ↔ ((feq prev (whole 0) ≡ false) × (feq new (whole 0) ≡ true))
    pub flipped : (action ≡ PositionAction.flips) ↔ (
        ((lt prev (whole 0) ≡ true) × (lt (whole 0) new ≡ true))
        ⊎ ((lt new (whole 0) ≡ true) × (lt (whole 0) prev ≡ true)))
    pub added : (action ≡ PositionAction.adds) ↔ (
        ((lt (whole 0) prev ≡ true) × (lt prev new ≡ true))
        ⊎ ((lt new prev ≡ true) × (lt prev (whole 0) ≡ true)))
    pub reduced : (action ≡ PositionAction.reduces) ↔ (
        ((lt (whole 0) new ≡ true) × (lt new prev ≡ true))
        ⊎ ((lt prev new ≡ true) × (lt new (whole 0) ≡ true)))
    pub unclear : (action ≡ PositionAction.unknown_action) ↔ (feq prev new ≡ true)

  module _ (laws : IsOrdered F) (absolute : HasAbs F) where
    pub classify_action-ClassifiesAction :
        (prev new : F)
        → IsNumber prev
        → IsNumber new
        → ClassifiesAction prev new (classify_action prev new false)
    unfolding classify_action side_of_size
    classify_action-ClassifiesAction prev new hp hn = ground (
      arith,
      compare laws (whole 0) prev laws.zero_refl hp,
      compare laws (whole 0) new laws.zero_refl hn,
      compare laws prev new hp hn,
      laws.lt_of_le_of_lt prev (whole 0) new,
      laws.lt_of_le_of_lt new (whole 0) prev,
      laws.le_trans prev (whole 0) new,
      laws.le_trans new (whole 0) prev,
      laws.lt_of_le_of_lt prev new (whole 0),
      laws.lt_of_le_of_lt new prev (whole 0),
      laws.lt_of_lt_of_le (whole 0) prev new,
      laws.lt_of_lt_of_le (whole 0) new prev,
      absolute.lt_abs_positive prev new,
      absolute.lt_abs_positive new prev,
      absolute.lt_abs_negative prev new,
      absolute.lt_abs_negative new prev,
    )

  -- A flat size is reported as a close, or not classified at all.
  pub classify_action-flat :
      (prev new : F) (unclear : Bool)
      → is_flat (side_of_size new) ≡ true
      → let a = classify_action prev new unclear in
        (a ≡ PositionAction.unknown_action) ⊎ (a ≡ PositionAction.closes)
  unfolding classify_action
  classify_action-flat prev new unclear h = ground (arith, h)

  pub side_of_size-known :
      (size : F) → is_held (side_of_size size) ≡ false → is_flat (side_of_size size) ≡ true
  unfolding side_of_size
  side_of_size-known size h = ground (arith, h)
