-- ===== src/Dydx/Signals/Accepted.antt =====
-- When a delta becomes a candidate signal.
use hyperliquid_smart_wallet.Prelude.{
  ℕ, String, ◌≡◌, ◌≢◌, ◌↔◌, Bool, true, false, none, some, arith, contains, lookup, get_or,
}
use hyperliquid_smart_wallet.Prelude.Int.{ℤ, pos, ◌≤ℤ◌, leb_ℤ}
use hyperliquid_smart_wallet.Float.{Float, IsOrdered, whole}
use hyperliquid_smart_wallet.Dydx.Models.{SimulationMode, LifecycleEvent}
use hyperliquid_smart_wallet.Dydx.Safety.{is_test_fixture_account}
use hyperliquid_smart_wallet.Dydx.Safety.Gate.{IsEligible, gate_signal_for_live_iff}
use hyperliquid_smart_wallet.Dydx.Signals.{
  Engine, Delta, Verdict, is_ws_down, account_key, position_key, first_gates, consensus_gate,
  effective_spread, is_illiquid, later_gates, total_cost, edge_remaining, safety_gate, refusal,
  evaluate_delta,
}

module _ {F : Type 0} where
  -- Gates 1 to 6.
  pub record IsFollowed (e : Engine F) (d : Delta F) : Type 0 where
    pub real : is_test_fixture_account (some d.account_address) ≡ false
    pub connected : d.simulation_mode ≡ SimulationMode.live → is_ws_down e.ws_status ≡ false
    pub known : d.lifecycle ≢ LifecycleEvent.unknown
    pub followed : contains (account_key d) e.shortlisted_accounts ≡ true
    pub listed : contains d.market_id e.config.market_whitelist ≡ true
    pub not_barred : contains d.market_id e.config.market_blacklist ≡ false

  first_gates-IsFollowed : (e : Engine F) (d : Delta F) → (first_gates e d ≡ none) ↔ IsFollowed e d
  unfolding first_gates
  first_gates-IsFollowed e d = ground arith

module _ {F : Type 0} ⦃f : Float F⦄ where
  open f use {lt, le}

  -- Gates 7 to 11.
  pub record IsTimely (now_ms : ℤ) (e : Engine F) (d : Delta F) : Type 0 where
    pub fresh : d.signal_age_ms ≤ℤ e.config.hard_max_signal_age_ms
    pub tight : lt (whole 50) (effective_spread e d) ≡ false
    pub liquid : is_illiquid d.liquidity_usdc ≡ false
    pub cooled : get_or (lookup (position_key d) e.cooldowns) (pos 0) ≤ℤ now_ms
    pub room :
        d.lifecycle ≡ LifecycleEvent.opened
        → leb_ℤ e.config.max_open_paper_trades e.open_paper_trade_count ≡ false

  later_gates-IsTimely :
      (now_ms : ℤ) (e : Engine F) (d : Delta F)
      → (later_gates now_ms e d ≡ none) ↔ IsTimely now_ms e d
  unfolding later_gates
  later_gates-IsTimely now_ms e d = ground arith

  abbrev pub is_accepted : Verdict F → Bool
  is_accepted (Verdict.accepted c) = true
  is_accepted (Verdict.refused r) = false

  -- All that an accepted signal satisfies.
  pub record Passes (now_ms : ℤ) (e : Engine F) (d : Delta F) : Type 0 where
    pub followed : IsFollowed e d
    pub agreed : (consensus_gate now_ms e.config e.consensus d).1 ≡ true
    pub timely : IsTimely now_ms e d
    pub eligible :
        IsEligible e.config d.signal_age_ms
          (some d.account_address)
          (some d.market_id)
          (edge_remaining e d)
          (total_cost e d)

  safety_gate-IsEligible :
      (laws : IsOrdered F) (e : Engine F) (d : Delta F)
      → le e.config.min_edge_bps e.config.min_edge_bps ≡ true
      → ((safety_gate e d).allowed ≡ true)
        ↔ IsEligible e.config d.signal_age_ms
            (some d.account_address)
            (some d.market_id)
            (edge_remaining e d)
            (total_cost e d)
  unfolding safety_gate
  safety_gate-IsEligible laws e d n =
      gate_signal_for_live_iff laws e.config d.signal_age_ms (some d.account_address)
        (some d.market_id) (edge_remaining e d) (total_cost e d) n

  module _ (short_hash : ℕ → String → String) where
    evaluate_delta-gates :
        (now_ms : ℤ) (d : Delta F) (e : Engine F)
        → (is_accepted (evaluate_delta short_hash now_ms d e).1 ≡ true) ↔ (
            (first_gates e d ≡ none)
            × ((consensus_gate now_ms e.config e.consensus d).1 ≡ true)
            × (later_gates now_ms e d ≡ none)
            × ((safety_gate e d).allowed ≡ true))
    unfolding evaluate_delta refusal
    evaluate_delta-gates now_ms d e = ground arith

    -- A delta becomes a candidate exactly if it passes every gate: the followed account and market,
    -- the consensus, the freshness, spread, liquidity, cooldown and room, and the safety gate. The
    -- minimal edge of the configuration is a number.
    pub evaluate_delta_iff :
        (laws : IsOrdered F) (now_ms : ℤ) (d : Delta F) (e : Engine F)
        → le e.config.min_edge_bps e.config.min_edge_bps ≡ true
        → (is_accepted (evaluate_delta short_hash now_ms d e).1 ≡ true) ↔ Passes now_ms e d
    evaluate_delta_iff laws now_ms d e n =
        let all = evaluate_delta-gates now_ms d e in
        let first = first_gates-IsFollowed e d in
        let later = later_gates-IsTimely now_ms e d in
        let safe = safety_gate-IsEligible laws e d n in
        (
          λ h.
              let (a, b, c, s) = all.0 h in
              record { followed = first.0 a; agreed = b; timely = later.0 c; eligible = safe.0 s },
          λ p. all.1 (first.1 p.followed, p.agreed, later.1 p.timely, safe.1 p.eligible),
        )
