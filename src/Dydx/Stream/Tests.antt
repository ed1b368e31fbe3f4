-- ===== src/Dydx/Stream/Tests.antt =====
-- The window and the consensus of a stream on concrete fills.
use hyperliquid_smart_wallet.Prelude.{
  ◌≡◌, refl, List, [], ◌∷◌, some, none, length, keep, arith, if◌then◌else◌,
}
use hyperliquid_smart_wallet.Prelude.Int.{pos, ◌-ℤ◌, leb_ℤ, max_ℤ}
use hyperliquid_smart_wallet.Prelude.Sort.{IsSortedBy}
use hyperliquid_smart_wallet.Prelude.Distinct.{distinct}
use hyperliquid_smart_wallet.Dydx.Stream.{
  StreamItem, FillWindow, prune_window, signal_of, fewest_last, detect_consensus,
}
use hyperliquid_smart_wallet.Dydx.Stream.Window.{IsInOrder, is_fresh}
use hyperliquid_smart_wallet.Dydx.Stream.Window.History.{Call, run, history, IsBefore, run-history}
use hyperliquid_smart_wallet.Dydx.Stream.Consensus.{
  item_for, signal_for, votes_onto, group_of, owners_of, detect_consensus-distinct,
}

abbrev calls : List Call
calls =
    Call.adds "w1" (some "BTC-USD") "LONG" (pos 1_000)
    ∷ Call.adds "" (some "BTC-USD") "LONG" (pos 1_500)
    ∷ Call.adds "w2" (some "BTC-USD") "LONG" (pos 2_000)
    ∷ Call.prunes (pos 3_000)
    ∷ Call.adds "w1" none "LONG" (pos 2_500)
    ∷ Call.adds "w1" (some "ETH-USD") "SHORT" (pos 4_000)
    ∷ []

abbrev empty_window : FillWindow
empty_window = record { window_ms = pos 4_000; maxlen = 10; items = [] }

run-history_example :
    (prune_window (pos 5_500) (run calls empty_window)).items
    ≡ keep (is_fresh (pos 5_500 -ℤ pos 4_000)) (history calls)
unfolding history IsInOrder IsBefore
run-history_example =
    run-history calls (pos 5_500) (pos 4_000) 10 (omega arith)
      (((refl, (refl, tt)), ((refl, tt), (tt, tt)))) (refl, tt)

abbrev items : List StreamItem
items =
    record { ts_ms = pos 1_000; owner = "w1"; market_key = "BTC-USD"; direction = "LONG" }
    ∷ record { ts_ms = pos 2_000; owner = "w2"; market_key = "BTC-USD"; direction = "LONG" }
    ∷ record { ts_ms = pos 3_000; owner = "w1"; market_key = "BTC-USD"; direction = "LONG" }
    ∷ record { ts_ms = pos 3_000; owner = "w1"; market_key = "BTC-USD"; direction = "SHORT" }
    ∷ []

detect_consensus-distinct_example :
    let own = keep (item_for "BTC-USD" "LONG") items in
    let n = distinct (owners_of own) in
    let signal = signal_of (group_of "BTC-USD" "LONG" (votes_onto [] own)) in
    (keep (signal_for "BTC-USD" "LONG") (detect_consensus items (pos 2))
      ≡ (if leb_ℤ (max_ℤ (pos 1) (pos 2)) (pos n) then signal ∷ [] else []))
    × (length signal.wallets ≡ n)
    × IsSortedBy fewest_last (detect_consensus items (pos 2))
detect_consensus-distinct_example = detect_consensus-distinct "BTC-USD" "LONG" (pos 2) items
