-- ===== src/Dydx/Signals/Tests.antt =====
-- The signal engine, its gate and its consensus on a concrete delta.
use hyperliquid_smart_wallet.Prelude.{
  ℕ, String, ◌≡◌, refl, ◌↔◌, true, false, [], ◌∷◌, none, some, lower, print, upper,
}
use hyperliquid_smart_wallet.Prelude.Int.{ℤ, pos, ◌+ℤ◌, ◌-ℤ◌}
use hyperliquid_smart_wallet.Float.Fixed.{fixed, fixed-IsOrdered}
use hyperliquid_smart_wallet.Dydx.Models.{PositionSide, LifecycleEvent, SimulationMode}
use hyperliquid_smart_wallet.Dydx.Config.{Config, total_round_trip_cost_bps}
use hyperliquid_smart_wallet.Dydx.Samples.{default_config, eager_config}
use hyperliquid_smart_wallet.Dydx.Safety.{is_test_fixture_account, gate_signal_for_live}
use hyperliquid_smart_wallet.Dydx.Consensus.{
  Entry, Tracker, record_open, check, prune, by_account, index_onto,
}
use hyperliquid_smart_wallet.Dydx.Consensus.Counting.{check-distinct}
use hyperliquid_smart_wallet.Dydx.Signals.{
  NoTradeReason, Engine, Delta, Verdict, WsStatus, account_key, position_key, first_gates,
  consensus_gate, ask_consensus, later_gates, total_cost, edge_remaining, safety_gate,
  evaluate_delta, decision, refusal,
}
use hyperliquid_smart_wallet.Dydx.Signals.Accepted.{is_accepted, Passes, evaluate_delta_iff}
use hyperliquid_smart_wallet.Dydx.Signals.Refusals.{evaluate_delta_no_edge}

abbrev opening : Entry ℤ
opening = record {
  account_key = "dydx1abc/0";
  market_id = "BTC-USD";
  side = "LONG";
  ts_ms = pos 1_000_000;
  notional_usdc = fixed.decimal 100 0;
}

abbrev tracker : Tracker ℤ
tracker = record {
  min_wallets = pos 2;
  window_ms = pos 600_000;
  max_entries = 10_000;
  entries = opening ∷ [];
}

abbrev engine_of : Config ℤ → Engine ℤ
engine_of c = record {
  config = c;
  open_paper_trade_count = pos 0;
  shortlisted_accounts = "dydx1abc/0" ∷ "dydx1def/0" ∷ [];
  ws_status = WsStatus.subscribed;
  cooldowns = [];
  no_trade_log = [];
  consensus = some tracker;
}

abbrev delta : Delta ℤ
delta = record {
  account_address = "dydx1def";
  subaccount_number = 0;
  market_id = "BTC-USD";
  side = PositionSide.long;
  lifecycle = LifecycleEvent.opened;
  size = fixed.decimal 1 0;
  price = fixed.decimal 100 0;
  signal_age_ms = pos 900;
  source = "ws_fill";
  simulation_mode = SimulationMode.live;
  spread_bps = none;
  liquidity_usdc = none;
}

abbrev exit_delta : Delta ℤ
exit_delta = record delta { lifecycle = LifecycleEvent.closed }

abbrev short_hash : ℕ → String → String
short_hash n text = text

abbrev now : ℤ
now = pos 1_200_000

check-distinct_example :
    let r = (check "BTC-USD" "LONG" now (pos 2) tracker).1 in
    (r.distinct_accounts ≡ 1) × (r.met ≡ false)
unfolding upper ◌-ℤ◌
check-distinct_example = check-distinct "BTC-USD" "LONG" now (pos 2) tracker

evaluate_delta_iff_example :
    (is_accepted (evaluate_delta short_hash now delta (engine_of eager_config)).1 ≡ true)
    ↔ Passes now (engine_of eager_config) delta
evaluate_delta_iff_example =
    evaluate_delta_iff short_hash fixed-IsOrdered now delta (engine_of eager_config) refl

-- With a second account in the window and a high minimal edge the delta is accepted.
accepts : is_accepted (evaluate_delta short_hash now delta (engine_of eager_config)).1 ≡ true
unfolding evaluate_delta first_gates account_key print lower is_test_fixture_account consensus_gate
    ask_consensus record_open check prune by_account index_onto upper later_gates position_key
    safety_gate gate_signal_for_live edge_remaining total_cost total_round_trip_cost_bps refusal
    ◌+ℤ◌ ◌-ℤ◌
accepts = refl

-- Under the default values the edge is 10 - 25 basis points.
evaluate_delta_no_edge_example :
    (is_accepted (evaluate_delta short_hash now delta (engine_of default_config)).1 ≡ false)
    × (default_config.paper_only ≡ true
        → first_gates (engine_of default_config) delta ≡ none
        → (consensus_gate now default_config (some tracker) delta).1 ≡ true
        → later_gates now (engine_of default_config) delta ≡ none
        → (evaluate_delta short_hash now delta (engine_of default_config)).1
          ≡ Verdict.refused (decision short_hash now delta NoTradeReason.safety_deny_by_default))
unfolding edge_remaining total_cost total_round_trip_cost_bps ◌+ℤ◌ ◌-ℤ◌
evaluate_delta_no_edge_example =
    evaluate_delta_no_edge short_hash now delta (engine_of default_config) refl
