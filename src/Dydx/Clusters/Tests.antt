-- ===== src/Dydx/Clusters/Tests.antt =====
-- The detector on concrete positions and fills.
use hyperliquid_smart_wallet.Prelude.{
  ℕ, ◌≡◌, refl, String, List, [], ◌∷◌, some, none, lookup, keep, str_eq, false, Entries,
}
use hyperliquid_smart_wallet.Prelude.Int.{ℤ, pos, ◌+ℤ◌, ◌-ℤ◌}
use hyperliquid_smart_wallet.Float.Fixed.{fixed}
use hyperliquid_smart_wallet.Dydx.Clusters.{
  WalletPosition, EventType, RawPosition, ClusterDetector, FillUpdate, position_key, add_open,
  clear_stale_opens, drop_old_opens, is_current,
}
use hyperliquid_smart_wallet.Dydx.Clusters.Updates.{
  new_positions, changes, closings, record_opens, snapshot_of, update_positions, update_from_fill,
}
use hyperliquid_smart_wallet.Dydx.Clusters.Updates.Expected.{expected}
use hyperliquid_smart_wallet.Dydx.Clusters.Updates.Polled.{last_given}
use hyperliquid_smart_wallet.Dydx.Clusters.Updates.Changes.{IsOwn, is_at, update_positions-expected}
use hyperliquid_smart_wallet.Dydx.Clusters.Sessions.{
  Call, new_detector, run, detect_clusters-run, update_from_fill-run,
}
use hyperliquid_smart_wallet.Dydx.Clusters.Detect.{seen_onto, cluster_of, detect_clusters}
use hyperliquid_smart_wallet.Dydx.Clusters.Detect.Opens.{opens_for}
use hyperliquid_smart_wallet.Dydx.Clusters.Detect.Found.{is_cluster}

abbrev dollars : ℕ → ℤ
dollars n = fixed.decimal n 0

abbrev raw_of : String → String → ℕ → ℕ → RawPosition ℤ
raw_of market side size price = record {
  market = market;
  side = side;
  numbers = some (dollars size, dollars price);
}

abbrev fill_of : String → String → FillUpdate ℤ
fill_of address side = record {
  address = address;
  market_id = "ETH-USD";
  side = side;
  size = dollars 2;
  price = dollars 3_000;
  fill_id = none;
  fill_ts_ms = some (pos 9_000);
  clock_ms = pos 9_500;
}

abbrev calls : List (Call ℤ)
calls =
    Call.polls "dydx1a" (raw_of "ETH-USD" "LONG" 2 3_000 ∷ []) (some (pos 1_000)) (pos 1_100)
    ∷ Call.fills (fill_of "dydx1b" "BUY")
    ∷ Call.clears (pos 9_600) (pos 300_000)
    ∷ []

abbrev held : ClusterDetector ℤ
held = run (λ x. x) (λ n s. s) calls (new_detector (pos 60_000) (pos 2) (dollars 10_000))

-- The wallet is long and sells, and the event opens a short position.
update_from_fill-run_example :
    let r = (update_from_fill (fill_of "dydx1a" "SELL") held).0 in
    (r.event_type ≡ EventType.open_event) × (r.side ≡ "SHORT")
unfolding run update_positions new_positions position_key changes closings record_opens add_open
    update_from_fill clear_stale_opens
update_from_fill-run_example =
    update_from_fill-run (λ x. x) (λ n s. s) calls (pos 60_000) (pos 2) (dollars 10_000)
      (fill_of "dydx1a" "SELL")

abbrev long_eth : WalletPosition ℤ
long_eth = record {
  address = "dydx1a";
  market_id = "ETH-USD";
  side = "LONG";
  size = dollars 2;
  entry_price = dollars 3_000;
  opened_at_ms = pos 1_000;
  last_seen_ms = pos 1_000;
  notional_usdc = dollars 6_000;
}

abbrev tracked : ClusterDetector ℤ
tracked = record {
  consensus_window_ms = pos 60_000;
  min_wallets = pos 2;
  min_notional = dollars 10_000;
  positions = ("dydx1a", ("ETH-USD:LONG", long_eth) ∷ []) ∷ [];
  prev_positions = [];
  recent_opens = [];
}

abbrev later : List (RawPosition ℤ)
later = raw_of "ETH-USD" "LONG" 5 3_100 ∷ raw_of "BTC-USD" "SHORT" 1 60_000 ∷ []

update_positions-expected_example :
    let r = update_positions "dydx1a" later none (pos 5_000) tracked in
    let prev = snapshot_of "dydx1a" tracked in
    let new = snapshot_of "dydx1a" r.1 in
    ((key : String)
      → keep (is_at key) r.0 ≡ expected "dydx1a" (pos 5_000) (lookup key prev) (lookup key new))
    × ((key : String) → lookup key new ≡ last_given "dydx1a" (pos 5_000) key later)
    × Entries IsOwn new
    × ((other : String)
        → str_eq "dydx1a" other ≡ false
        → snapshot_of other r.1 ≡ snapshot_of other tracked)
unfolding position_key
update_positions-expected_example =
    update_positions-expected "dydx1a" later none (pos 5_000) tracked (refl, refl, tt)

-- Two wallets are long on one market, and together hold enough.
detect_clusters-run_example :
    let r = detect_clusters (λ x. x) (λ n s. s) (pos 9_600) none held in
    let own =
      keep (is_current (pos 9_600 -ℤ pos 60_000)) (opens_for "ETH-USD" "LONG" held.recent_opens) in
    let c =
      cluster_of (λ x. x) (λ n s. s) (pos 9_600) (pos 60_000) "ETH-USD" "LONG" (seen_onto [] own) in
    (opens_for "ETH-USD" "LONG" r.1.recent_opens ≡ own)
    × (keep (is_cluster "ETH-USD" "LONG") r.0 ≡ c ∷ [])
    × (c.wallet_count ≡ 2)
unfolding run update_positions new_positions position_key changes closings record_opens add_open
    update_from_fill clear_stale_opens drop_old_opens cluster_of ◌-ℤ◌ ◌+ℤ◌
detect_clusters-run_example =
    detect_clusters-run (λ x. x) (λ n s. s) calls (pos 60_000) (pos 2) (dollars 10_000) "ETH-USD"
      "LONG" (pos 9_600) none
