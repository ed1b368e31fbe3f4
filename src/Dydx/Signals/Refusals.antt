-- ===== src/Dydx/Signals/Refusals.antt =====
-- What a refusal records, what a call leaves alone, and the edges that are never enough.
use hyperliquid_smart_wallet.Prelude.{
  ℕ, String, ◌≡◌, ◌≢◌, ◌⊎◌, Bool, true, false, List, [], ◌∷◌, ◌++◌, none, some, arith,
}
use hyperliquid_smart_wallet.Prelude.Int.{ℤ, ltb_ℤ}
use hyperliquid_smart_wallet.Float.{Float, whole}
use hyperliquid_smart_wallet.Dydx.Models.{LifecycleEvent}
use hyperliquid_smart_wallet.Dydx.Safety.{
  gate_signal_for_live, deny, is_test_fixture_account, market_outside, market_inside,
}
use hyperliquid_smart_wallet.Dydx.Signals.{
  NoTradeReason, NoTradeDecision, Engine, Delta, Verdict, first_gates, consensus_gate, later_gates,
  edge_remaining, safety_gate, refusal, evaluate_delta, mapped_reason, decision,
}
use hyperliquid_smart_wallet.Dydx.Signals.Accepted.{is_accepted}

module _ {F : Type 0} ⦃f : Float F⦄ where
  open f use {le}

  -- The log after a verdict.
  abbrev pub logged : List NoTradeDecision → Verdict F → List NoTradeDecision
  logged log (Verdict.accepted c) = log
  logged log (Verdict.refused r) = log ++ (r ∷ [])

  first_gates-market :
      (e : Engine F) (d : Delta F)
      → first_gates e d ≡ none
      → (is_test_fixture_account (some d.account_address) ≡ false)
        × (market_outside (some d.market_id) e.config.market_whitelist ≡ false)
        × (market_inside (some d.market_id) e.config.market_blacklist ≡ false)
  unfolding first_gates
  first_gates-market e d h = ground arith

  later_gates-fresh :
      (now_ms : ℤ) (e : Engine F) (d : Delta F)
      → later_gates now_ms e d ≡ none
      → ltb_ℤ e.config.hard_max_signal_age_ms d.signal_age_ms ≡ false
  unfolding later_gates
  later_gates-fresh now_ms e d h = ground arith

  safety_gate-no_edge :
      (now_ms : ℤ) (e : Engine F) (d : Delta F)
      → le (edge_remaining e d) (whole 0) ≡ true
      → e.config.paper_only ≡ true
      → first_gates e d ≡ none
      → later_gates now_ms e d ≡ none
      → safety_gate e d ≡ deny "EDGE_REMAINING_NEGATIVE_OR_ZERO"
  unfolding safety_gate gate_signal_for_live
  safety_gate-no_edge now_ms e d h paper first later =
      let (real, listed, free) = first_gates-market e d first in
      simp (paper, real, later_gates-fresh now_ms e d later, listed, free, h)

  refusal_of_deny :
      (now_ms : ℤ) (e : Engine F) (d : Delta F)
      → later_gates now_ms e d ≡ none
      → safety_gate e d ≡ deny "EDGE_REMAINING_NEGATIVE_OR_ZERO"
      → refusal now_ms true e d ≡ some NoTradeReason.safety_deny_by_default
  unfolding refusal mapped_reason
  refusal_of_deny now_ms e d later s = rw (later, s)

  refusal-no_edge :
      (now_ms : ℤ) (agreed : Bool) (e : Engine F) (d : Delta F)
      → le (edge_remaining e d) (whole 0) ≡ true
      → refusal now_ms agreed e d ≢ none
  unfolding refusal safety_gate gate_signal_for_live
  refusal-no_edge now_ms agreed e d h = ground arith

  module _ (short_hash : ℕ → String → String) where
    -- A refusal is logged once and an acceptance is not; nothing else of the engine changes but the
    -- consensus tracker.
    pub evaluate_delta-log :
        (now_ms : ℤ) (d : Delta F) (e : Engine F)
        → let (e', v) = evaluate_delta short_hash now_ms d e in
          e' ≡ record e { no_trade_log = logged e.no_trade_log v; consensus = e'.consensus }
    unfolding evaluate_delta
    evaluate_delta-log now_ms d e = ground arith

    -- A CLOSE or a REDUCE never waits for a consensus: the tracker stays, and the refusal, if there is
    -- one, has another reason.
    pub evaluate_delta_exit :
        (now_ms : ℤ) (d : Delta F) (e : Engine F)
        → (d.lifecycle ≡ LifecycleEvent.closed) ⊎ (d.lifecycle ≡ LifecycleEvent.reduced)
        → ((evaluate_delta short_hash now_ms d e).0.consensus ≡ e.consensus)
          × ((consensus_gate now_ms e.config e.consensus d).1 ≡ true)
    unfolding evaluate_delta consensus_gate
    evaluate_delta_exit now_ms d e h = ground arith

    evaluate_delta-refused :
        (now_ms : ℤ) (d : Delta F) (e : Engine F) (r : NoTradeReason)
        → first_gates e d ≡ none
        → refusal now_ms (consensus_gate now_ms e.config e.consensus d).1 e d ≡ some r
        → (evaluate_delta short_hash now_ms d e).1
          ≡ Verdict.refused (decision short_hash now_ms d r)
    unfolding evaluate_delta
    evaluate_delta-refused now_ms d e r first h = ground arith

    -- A remaining edge of zero or less is never accepted. Where a paper-only engine lets the delta
    -- through every gate before the edge, it is refused with the general SAFETY_DENY_BY_DEFAULT.
    pub evaluate_delta_no_edge :
        (now_ms : ℤ) (d : Delta F) (e : Engine F)
        → le (edge_remaining e d) (whole 0) ≡ true
        → (is_accepted (evaluate_delta short_hash now_ms d e).1 ≡ false)
          × (e.config.paper_only ≡ true
              → first_gates e d ≡ none
              → (consensus_gate now_ms e.config e.consensus d).1 ≡ true
              → later_gates now_ms e d ≡ none
              → (evaluate_delta short_hash now_ms d e).1
                ≡ Verdict.refused
                    (decision short_hash now_ms d NoTradeReason.safety_deny_by_default))
    unfolding evaluate_delta
    evaluate_delta_no_edge now_ms d e h = (
      ground (arith, refusal-no_edge now_ms (consensus_gate now_ms e.config e.consensus d).1 e d h),
      λ paper first agreed later.
          let denied = safety_gate-no_edge now_ms e d h paper first later in
          evaluate_delta-refused now_ms d e NoTradeReason.safety_deny_by_default first
            (rw agreed (refusal_of_deny now_ms e d later denied)),
    )
