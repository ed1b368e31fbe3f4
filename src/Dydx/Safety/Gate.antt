-- ===== src/Dydx/Safety/Gate.antt =====
-- What a signal has to satisfy to pass the gate, and what a gate says of the configuration.
use hyperliquid_smart_wallet.Prelude.{String, ◌≡◌, ◌↔◌, true, false, Option, arith}
use hyperliquid_smart_wallet.Prelude.Int.{ℤ, ◌≤ℤ◌}
use hyperliquid_smart_wallet.Float.{Float, IsOrdered, whole}
use hyperliquid_smart_wallet.Dydx.Config.{Config}
use hyperliquid_smart_wallet.Dydx.Safety.{
  is_test_fixture_account, market_outside, market_inside, gate_signal_for_live,
}

module _ {F : Type 0} ⦃f : Float F⦄ where
  open f use {lt, le, mul}

  pub record IsEligible (c : Config F) (age : ℤ) (account market : Option String) (edge cost : F)
      : Type 0 where
    pub paper : c.paper_only ≡ true
    pub account_real : is_test_fixture_account account ≡ false
    pub fresh : age ≤ℤ c.hard_max_signal_age_ms
    pub listed : market_outside market c.market_whitelist ≡ false
    pub not_barred : market_inside market c.market_blacklist ≡ false
    pub edge_positive : le edge (whole 0) ≡ false
    pub edge_enough : lt edge c.min_edge_bps ≡ false
    pub edge_covers : lt edge (mul c.edge_safety_multiplier cost) ≡ false

  -- The gate allows a signal exactly if every condition holds; the edge is compared with the minimum
  -- and with the multiple of the cost separately, where the minimum is a number.
  pub gate_signal_for_live_iff :
      (laws : IsOrdered F) (c : Config F) (age : ℤ) (account market : Option String) (edge cost : F)
      → le c.min_edge_bps c.min_edge_bps ≡ true
      → ((gate_signal_for_live c age account market edge cost).allowed ≡ true)
        ↔ IsEligible c age account market edge cost
  unfolding gate_signal_for_live
  gate_signal_for_live_iff laws c age account market edge cost n =
      let multiple = mul c.edge_safety_multiplier cost in
      ground (
        arith,
        laws.refl_of_lt edge multiple,
        laws.le_or_lt multiple c.min_edge_bps,
        laws.lt_of_lt_of_le edge multiple c.min_edge_bps,
      )
