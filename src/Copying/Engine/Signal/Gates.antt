-- ===== src/Copying/Engine/Signal/Gates.antt =====
-- src/hl_observer/copying/viral_bot_engine.py: one call of `evaluate_signal`.
use hyperliquid_smart_wallet.Prelude.{
  ◌+◌, ◌≡◌, ◌↔◌, String, true, false, contains, lower, arith, some, none,
}
use hyperliquid_smart_wallet.Prelude.Int.{ℤ}
use hyperliquid_smart_wallet.Float.{Float, whole}
use hyperliquid_smart_wallet.CircuitBreaker.Limits.{Blocks, evaluate-Blocks}
use hyperliquid_smart_wallet.Copying.Engine.{
  ViralEngine, SignalRequest, Clock, TradeDecision, is_accept,
}
use hyperliquid_smart_wallet.Copying.Engine.Signal.{
  is_blocking, score_of, breaker_of, kelly_of, or_zero, evaluate_signal,
}

module _ {F : Type 0} ⦃f : Float F⦄ where
  open f use {mul, le, decimal, round}

  -- The leader is not ejected, the score accepts, the breaker as evaluated now neither pauses nor
  -- halts, and the size is above 0.
  unfoldable pub PassesGates : Clock F → SignalRequest F → ViralEngine F → Type 0
  PassesGates c q e =
      (contains (lower q.leader_address) e.ejected_leaders ≡ false)
      × ((score_of q e).accepted ≡ true)
      × (is_blocking (breaker_of c e) ≡ false)
      × (le (kelly_of q e).position_size_usdt (whole 0) ≡ false)

  module _ {Plan : Type 0} (select_exit_plan : String → F → ℤ → F → Plan) where
    -- A signal is accepted exactly if it passes the gates. If it is, its size is the Kelly size times
    -- the multiplier that the breaker gives now, rounded, and it has the exit plan for what remains of
    -- the edge; if not, its size is 0 and it has none. Either way one counter goes up, and neither the
    -- results of the leaders nor the ejected leaders change.
    pub evaluate_signal-PassesGates :
        (c : Clock F) (q : SignalRequest F) (e : ViralEngine F)
        → let after = (evaluate_signal select_exit_plan c q e).0 in
          let signal = (evaluate_signal select_exit_plan c q e).1 in
          let i = q.score_input in
          ((is_accept signal.decision ≡ true) ↔ PassesGates c q e)
          × (is_accept signal.decision ≡ true
              → (signal.position_size_usdt
                  ≡ round
                      (mul (kelly_of q e).position_size_usdt (breaker_of c e).sizing_multiplier)
                      2)
                × (signal.exit_plan
                    ≡ some (
                        select_exit_plan q.signal_id
                          (or_zero (score_of q e).edge_remaining_bps)
                          i.consensus_wallets
                          i.leader_score))
                × (after.total_accepted ≡ e.total_accepted + 1)
                × (after.total_rejected ≡ e.total_rejected))
          × (is_accept signal.decision ≡ false
              → (signal.position_size_usdt ≡ decimal 0 1)
                × (signal.exit_plan ≡ none)
                × (after.total_accepted ≡ e.total_accepted)
                × (after.total_rejected ≡ e.total_rejected + 1))
          × (after.leader_tracker ≡ e.leader_tracker)
          × (after.ejected_leaders ≡ e.ejected_leaders)
    unfolding evaluate_signal PassesGates kelly_of
    evaluate_signal-PassesGates c q e = ground arith

    -- The gate of the breaker looks at its state only: a breaker that refuses every trade, as after the
    -- last trade that its hour allows, but neither pauses nor halts lets the signal pass, and the
    -- accepted trade has the Kelly size times 0.0.
    pub evaluate_signal-Blocks :
        (c : Clock F) (q : SignalRequest F) (e : ViralEngine F)
        → Blocks c.now e.circuit_config e.circuit_state
        → PassesGates c q e
        → let signal = (evaluate_signal select_exit_plan c q e).1 in
          (signal.decision ≡ TradeDecision.accept_paper_simulation)
          × (signal.position_size_usdt
              ≡ round (mul (kelly_of q e).position_size_usdt (decimal 0 1)) 2)
    unfolding evaluate_signal PassesGates kelly_of
    evaluate_signal-Blocks c q e blocks gates =
        ground (arith, evaluate-Blocks c.now e.circuit_config e.circuit_state blocks, gates)
