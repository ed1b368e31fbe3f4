-- ===== src/Dydx/Edge/Decision.antt =====
-- hyper_smart_observer/dydx_v4/edge_calculator.py: when a trade is accepted, and what its record shows.
use hyperliquid_smart_wallet.Prelude.{ℕ, ◌<◌, ◌≡◌, ◌↔◌, true, false, none, some, if◌then◌else◌}
use hyperliquid_smart_wallet.Prelude.Int.{ℤ, pos, leb_ℤ}
use hyperliquid_smart_wallet.Float.{Float, whole, min_of}
use hyperliquid_smart_wallet.Dydx.Edge.{
  EdgeReject, EdgeComponents, EdgeQuestion, leader_expected_edge_bps, leader_consistency_factor,
  consensus_factor,
}

-- The score of a signal younger than 15 seconds is above zero, as it is for doubles.
pub record HasFreshness (F : Type 0) ⦃f : Float F⦄ : Type 0 where
  pub zero_le : f.le (f.decimal 0 1) (f.decimal 0 1) ≡ true
  pub one_above : f.le (f.decimal 10 1) (f.decimal 0 1) ≡ false
  pub young_above :
      (n : ℕ)
      → 0 < n
      → n < 15_000
      → f.le (f.sub (f.decimal 10 1) (f.div (f.of_int (pos n)) (whole 15_000))) (f.decimal 0 1)
        ≡ false

module _ {F : Type 0} ⦃f : Float F⦄ where
  open f use {add, sub, mul, div, neg, le, of_int, decimal}

  -- The freshness of a signal younger than 15 seconds.
  abbrev pub freshness_of : ℤ → F
  freshness_of age =
      if leb_ℤ age (pos 0)
      then decimal 10 1
      else sub (decimal 10 1) (div (of_int age) (whole 15_000))

  -- The edge of a question, from its own terms: the gross edge is the product of the leader's edge and
  -- its three factors, and the costs are added up one by one.
  abbrev pub gross_of : EdgeQuestion F → F
  gross_of q =
      mul
        (mul
          (mul
            (leader_expected_edge_bps q.leader_expectancy_usdc q.paper_notional_usdc
              (decimal 150 1))
            (leader_consistency_factor q.leader_winrate q.leader_profit_factor
              q.leader_trade_count))
          (freshness_of q.signal_age_ms))
        (consensus_factor q.wallet_count)

  abbrev pub costs_of : EdgeQuestion F → F
  costs_of q =
      let delay =
        min_of (mul (div (of_int q.delay_ms) (decimal 10000 1)) (decimal 20 1)) (decimal 100 1) in
      let crowd = if leb_ℤ (pos 4) q.wallet_count then decimal 30 1 else decimal 0 1 in
      add
        (add
          (add
            (add (add (add (add delay q.spread_bps) q.slippage_bps) q.fee_bps)
              q.liquidity_penalty_bps)
            q.adverse_price_move_bps)
          crowd)
        q.funding_penalty_bps

  abbrev pub edge_of : EdgeQuestion F → F
  edge_of q = sub (gross_of q) (costs_of q)

  -- What the record says of the decision.
  pub record Explains (q : EdgeQuestion F) (c : EdgeComponents F) : Type 0 where
    pub accepts :
        (c.accepted ≡ true)
        ↔ ((leb_ℤ (pos 15_000) q.signal_age_ms ≡ false) × (le q.min_edge_bps (edge_of q) ≡ true))
    pub fresh_edge :
        c.edge_remaining_bps
        ≡ (if leb_ℤ (pos 15_000) q.signal_age_ms then neg (decimal 9990 1) else edge_of q)
    pub stale :
        (c.reject_reason ≡ some EdgeReject.stale_signal)
        ↔ (leb_ℤ (pos 15_000) q.signal_age_ms ≡ true)
    pub no_reason : (c.reject_reason ≡ none) ↔ (c.accepted ≡ true)
