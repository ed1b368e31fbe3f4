-- ===== src/Dydx/Clusters/Sessions.antt =====
-- hyper_smart_observer/dydx_v4/cluster_detector.py: what fills are called in whole sessions of a detector.
use hyperliquid_smart_wallet.Prelude.{
  ℕ, ◌≡◌, String, List, [], ◌∷◌, Option, if◌then◌else◌, is_some, lookup, arith, Entries, keep,
  is_empty, contains, ◌||◌,
}
use hyperliquid_smart_wallet.Prelude.Int.{ℤ, pos, ◌-ℤ◌, ltb_ℤ}
use hyperliquid_smart_wallet.Float.{Float}
use hyperliquid_smart_wallet.Dydx.Clusters.{
  EventType, RawPosition, ClusterDetector, FillUpdate, position_key, int_or, clear_stale_opens,
  blocked_markets, is_current,
}
use hyperliquid_smart_wallet.Dydx.Clusters.Updates.{
  side_of_fill, snapshot_of, update_positions, update_from_fill,
}
use hyperliquid_smart_wallet.Dydx.Clusters.Updates.Changes.{
  IsOwn, new_positions-IsOwn, snapshot_of-update_positions,
}
use hyperliquid_smart_wallet.Dydx.Clusters.Updates.Kinds.{
  update_from_fill-own, positions-update_from_fill,
}
use hyperliquid_smart_wallet.Dydx.Clusters.Updates.Windows.{
  update_positions-IsKeyed, update_from_fill-IsKeyed,
}
use hyperliquid_smart_wallet.Dydx.Clusters.Detect.{seen_onto, cluster_of, detect_clusters}
use hyperliquid_smart_wallet.Dydx.Clusters.Detect.Opens.{
  opens_for, IsKeyed, drop_old_opens-IsKeyed, opens_for-drop_old_opens,
}
use hyperliquid_smart_wallet.Dydx.Clusters.Detect.Found.{
  is_cluster, openers_of, wallet_count-cluster_of, detect_clusters-found,
}
use hyperliquid_smart_wallet.Prelude.Distinct.{distinct}

pub data Call (F : Type 0) : Type 0 where
  polls : String → List (RawPosition F) → Option ℤ → ℤ → Call F
  fills : FillUpdate F → Call F
  detects : ℤ → Option ℤ → Call F
  clears : ℤ → ℤ → Call F

module _ {F : Type 0} where
  abbrev pub new_detector : ℤ → ℤ → F → ClusterDetector F
  new_detector window min_wallets min_notional = record {
    consensus_window_ms = window;
    min_wallets = min_wallets;
    min_notional = min_notional;
    positions = [];
    prev_positions = [];
    recent_opens = [];
  }

  abbrev pub IsOwned : ClusterDetector F → Type 0
  IsOwned d = (address : String) → Entries IsOwn (snapshot_of address d)

module _ {F : Type 0} ⦃f : Float F⦄ (log10 : F → F) (short_hash : ℕ → String → String) where
  open f use {lt}

  abbrev pub step : Call F → ClusterDetector F → ClusterDetector F
  step (Call.polls address raw fetched_at_ms clock_ms) d =
      (update_positions address raw fetched_at_ms clock_ms d).1
  step (Call.fills x) d = (update_from_fill x d).1
  step (Call.detects now_ms min_wallets) d =
      (detect_clusters log10 short_hash now_ms min_wallets d).1
  step (Call.clears now_ms max_age_ms) d = (clear_stale_opens now_ms max_age_ms d).1

  unfoldable pub run : List (Call F) → ClusterDetector F → ClusterDetector F
  run [] d = d
  run (c ∷ cs) d = run cs (step c d)

  step-IsOwned : (c : Call F) (d : ClusterDetector F) → IsOwned d → IsOwned (step c d)
  unfolding detect_clusters clear_stale_opens
  step-IsOwned (Call.polls address raw fetched_at_ms clock_ms) d h other =
      let now_ms = int_or fetched_at_ms clock_ms in
      ground (
        arith,
        h other,
        new_positions-IsOwn address now_ms raw [] tt,
        snapshot_of-update_positions address other raw fetched_at_ms clock_ms d,
      )
  step-IsOwned (Call.fills x) d h other = rw (positions-update_from_fill x d) (h other)
  step-IsOwned (Call.detects now_ms min_wallets) d h other = h other
  step-IsOwned (Call.clears now_ms max_age_ms) d h other = h other

  run-IsOwned : (cs : List (Call F)) (d : ClusterDetector F) → IsOwned d → IsOwned (run cs d)
  unfolding run
  run-IsOwned [] d h = h
  run-IsOwned (c ∷ cs) d h = run-IsOwned cs (step c d) (step-IsOwned c d h)

  step-IsKeyed :
      (c : Call F) (d : ClusterDetector F)
      → IsKeyed d.recent_opens
      → IsKeyed (step c d).recent_opens
  unfolding detect_clusters clear_stale_opens
  step-IsKeyed (Call.polls address raw fetched_at_ms clock_ms) d k =
      update_positions-IsKeyed address raw fetched_at_ms clock_ms d k
  step-IsKeyed (Call.fills x) d k = update_from_fill-IsKeyed x d k
  step-IsKeyed (Call.detects now_ms min_wallets) d k =
      drop_old_opens-IsKeyed (now_ms -ℤ d.consensus_window_ms) d.recent_opens k
  step-IsKeyed (Call.clears now_ms max_age_ms) d k =
      drop_old_opens-IsKeyed (now_ms -ℤ max_age_ms) d.recent_opens k

  run-IsKeyed :
      (cs : List (Call F)) (d : ClusterDetector F)
      → IsKeyed d.recent_opens
      → IsKeyed (run cs d).recent_opens
  unfolding run
  run-IsKeyed [] d k = k
  run-IsKeyed (c ∷ cs) d k = run-IsKeyed cs (step c d) (step-IsKeyed c d k)

  -- After any sequence of calls on a new detector, for each market and side: the call keeps the
  -- opens that are not older than the window and no others; it finds one cluster, made of the last of
  -- them of each wallet, if there is one, the market is not blocked, at least as many different wallets
  -- as required are among them, and the notional of the cluster is not below the minimum; and none
  -- otherwise. The number of wallets of that cluster is the number of these different wallets.
  pub detect_clusters-run :
      (cs : List (Call F)) (window min_wallets : ℤ) (least : F) (market side : String) (now : ℤ)
      (asked : Option ℤ)
      → let d = run cs (new_detector window min_wallets least) in
        let r = detect_clusters log10 short_hash now asked d in
        let own =
          keep (is_current (now -ℤ d.consensus_window_ms)) (opens_for market side d.recent_opens) in
        let n = distinct (openers_of own) in
        let c =
          cluster_of log10 short_hash now d.consensus_window_ms market side (seen_onto [] own) in
        (opens_for market side r.1.recent_opens ≡ own)
        × (keep (is_cluster market side) r.0 ≡ (
            if is_empty own
              || contains market blocked_markets
              || ltb_ℤ (pos n) (int_or asked d.min_wallets)
              || lt c.total_notional_usdc d.min_notional
            then []
            else c ∷ []))
        × (c.wallet_count ≡ n)
  unfolding detect_clusters IsKeyed
  detect_clusters-run cs window min_wallets least market side now asked =
      let new = new_detector window min_wallets least in
      let d = run cs new in
      let cutoff = now -ℤ d.consensus_window_ms in
      let own = keep (is_current cutoff) (opens_for market side d.recent_opens) in
      (
        opens_for-drop_old_opens market side cutoff d.recent_opens,
        detect_clusters-found log10 short_hash market side now asked d (run-IsKeyed cs new tt),
        wallet_count-cluster_of log10 short_hash market side now d.consensus_window_ms own,
      )

  -- After any sequence of calls on a new detector, a fill is an add where the wallet holds a position on
  -- the market and the side that the fill's own direction has, and an open of that side otherwise: it
  -- is never a close, whatever the wallet holds on the other side.
  pub update_from_fill-run :
      (cs : List (Call F)) (window min_wallets : ℤ) (min_notional : F) (x : FillUpdate F)
      → let d = run cs (new_detector window min_wallets min_notional) in
        let r = (update_from_fill x d).0 in
        let key = position_key x.market_id (side_of_fill x.side) in
        (r.event_type ≡ (
          if is_some (lookup key (snapshot_of x.address d))
          then EventType.add_event
          else EventType.open_event))
        × (r.side ≡ side_of_fill x.side)
  update_from_fill-run cs window min_wallets min_notional x =
      let d = new_detector window min_wallets min_notional in
      update_from_fill-own x (run cs d) (run-IsOwned cs d (λ a. tt) x.address)
