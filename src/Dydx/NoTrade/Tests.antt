-- ===== src/Dydx/NoTrade/Tests.antt =====
-- The log on concrete refusals.
use hyperliquid_smart_wallet.Prelude.{ℕ, zero, suc, ◌≡◌, String, true, [], Option, none, some, All}
use hyperliquid_smart_wallet.Prelude.Int.{pos}
use hyperliquid_smart_wallet.Dydx.Models.{SimulationMode}
use hyperliquid_smart_wallet.Dydx.NoTrade.{
  LoggedDecision, NoTradeEngine, Refused, report, count_by_reason, record_refusal,
}
use hyperliquid_smart_wallet.Dydx.NoTrade.Report.{count_of, sum_of, IsTop, is_within, report-counts}

abbrev stale : Refused
stale = record {
  reason = "STALE_SIGNAL";
  account_address = some "dydx1abc";
  market_id = none;
  detail = "";
  signal_candidate_id = none;
  simulation_mode = SimulationMode.live;
}

abbrev wide : Refused
wide = record stale { reason = "SPREAD_TOO_HIGH" }

abbrev short_hash : ℕ → String → String
short_hash n text = text

-- A storage that counts, and raises from the second decision on.
abbrev count_once : LoggedDecision → ℕ → Option ℕ
count_once d zero = some 1
count_once d (suc n) = none

abbrev log : NoTradeEngine ℕ
log =
    let e : NoTradeEngine ℕ = record { decisions = []; storage = some 0 } in
    let e1 = (record_refusal short_hash count_once (pos 3_000) stale e).1 in
    let e2 = (record_refusal short_hash count_once (pos 2_000) wide e1).1 in
    (record_refusal short_hash count_once (pos 4_000) wide e2).1

report-counts_example :
    let r = report log in
    ((v : String) → count_of r.by_reason v ≡ count_by_reason v log)
    × (sum_of r.by_reason ≡ r.total_refused)
    × IsTop r.by_reason r.top_reason
    × All
        (λ d. is_within r.oldest_decision_ms r.newest_decision_ms d.timestamp_ms ≡ true)
        log.decisions
report-counts_example = report-counts log
