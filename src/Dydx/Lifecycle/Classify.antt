-- ===== src/Dydx/Lifecycle/Classify.antt =====
-- What `infer_lifecycle` answers, over sizes that are numbers of zero or more.
use hyperliquid_smart_wallet.Prelude.{◌≡◌, ◌↔◌, true, arith}
use hyperliquid_smart_wallet.Float.{Float, IsOrdered, whole}
use hyperliquid_smart_wallet.Float.Order.{IsNumber, compare}
use hyperliquid_smart_wallet.Dydx.Models.{LifecycleEvent}
use hyperliquid_smart_wallet.Dydx.Lifecycle.{infer_lifecycle}

module _ {F : Type 0} ⦃f : Float F⦄ where
  open f use {lt, le}

  -- The cases of the source's comment, as orders between the sizes.
  pub record Classifies (prev new : F) (event : LifecycleEvent) : Type 0 where
    pub opens :
        (event ≡ LifecycleEvent.opened) ↔ ((le prev (whole 0) ≡ true) × (lt (whole 0) new ≡ true))
    pub adds : (event ≡ LifecycleEvent.added) ↔ ((lt (whole 0) prev ≡ true) × (lt prev new ≡ true))
    pub reduces :
        (event ≡ LifecycleEvent.reduced) ↔ ((lt (whole 0) new ≡ true) × (lt new prev ≡ true))
    pub closes :
        (event ≡ LifecycleEvent.closed) ↔ ((lt (whole 0) prev ≡ true) × (le new (whole 0) ≡ true))
    pub unclear : (event ≡ LifecycleEvent.unknown) ↔ ((le prev new ≡ true) × (le new prev ≡ true))

  module _ (laws : IsOrdered F) where
    pub infer_lifecycle-Classifies :
        (prev new : F)
        → le (whole 0) prev ≡ true
        → le (whole 0) new ≡ true
        → Classifies prev new (infer_lifecycle prev new)
    unfolding infer_lifecycle
    infer_lifecycle-Classifies prev new hp hn =
        let p : IsNumber prev = (laws.refl_of_le (whole 0) prev hp).1 in
        let n : IsNumber new = (laws.refl_of_le (whole 0) new hn).1 in
        ground (
          arith,
          compare laws (whole 0) prev laws.zero_refl p,
          compare laws (whole 0) new laws.zero_refl n,
          compare laws prev new p n,
          laws.lt_of_le_of_lt prev (whole 0) new,
          laws.lt_of_le_of_lt new (whole 0) prev,
          laws.le_trans prev (whole 0) new,
          laws.le_trans new (whole 0) prev,
        )
