-- ===== src/Dydx/Clusters/Detect/Found.antt =====
-- hyper_smart_observer/dydx_v4/cluster_detector.py: which clusters `detect_clusters` finds.
use hyperliquid_smart_wallet.Prelude.{
  ℕ, ◌+◌, ◌≡◌, refl, ap, ◌∙◌, insert, String, Bool, true, ◌&&◌, ◌||◌, List, [], ◌∷◌, map, Option,
  if◌then◌else◌, str_eq, is_empty, keep, keep-append, contains, length, length-insert, leb, arith,
}
use hyperliquid_smart_wallet.Prelude.Int.{ℤ, pos, ◌-ℤ◌, ltb_ℤ}
use hyperliquid_smart_wallet.Prelude.Distinct.{
  distinct, count_new, count_new-distinct, count_new-seen, is_key, is_key-insert,
}
use hyperliquid_smart_wallet.Float.{Float}
use hyperliquid_smart_wallet.Dydx.Clusters.{
  RecentOpen, OpenGroup, ClusterDetector, ClusterSignal, int_or, blocked_markets, is_current,
  drop_old_opens,
}
use hyperliquid_smart_wallet.Dydx.Clusters.Detect.{
  seen_onto, insert_cluster, sort_clusters, cluster_of, cluster_in, clusters_in, detect_clusters,
}
use hyperliquid_smart_wallet.Dydx.Clusters.Detect.Opens.{
  is_group, opens_for, group_of, IsKeyed, keep-drop_old_opens,
}

module _ {F : Type 0} where
  abbrev pub is_cluster : String → String → ClusterSignal F → Bool
  is_cluster market side c = str_eq c.market_id market && str_eq c.side side

  abbrev pub openers_of : List (RecentOpen F) → List String
  openers_of = map (λ (x : RecentOpen F). x.address)

  length-seen_onto :
      (m : List (String × RecentOpen F)) (xs : List (RecentOpen F))
      → length (seen_onto m xs) ≡ length m + count_new (is_key m) (openers_of xs)
  length-seen_onto m [] = omega arith
  length-seen_onto m (x ∷ xs) =
      let k = x.address in
      let next = rw (is_key-insert k x m) at (length-seen_onto (insert k x m) xs) in
      ground (arith, next, length-insert k x m, count_new-seen (is_key m) k (openers_of xs))

  length-seen : (xs : List (RecentOpen F)) → length (seen_onto [] xs) ≡ distinct (openers_of xs)
  length-seen xs = omega (arith, length-seen_onto [] xs, count_new-distinct (openers_of xs))

  distinct-length : (xs : List (RecentOpen F)) → leb (distinct (openers_of xs)) (length xs) ≡ true
  distinct-length [] = refl
  distinct-length (x ∷ xs) = ground (arith, distinct-length xs)

module _ {F : Type 0} ⦃f : Float F⦄ where
  open f use {lt}

  keep-insert_cluster :
      (p : ClusterSignal F → Bool) (x : ClusterSignal F) (ys : List (ClusterSignal F))
      → leb (length (keep p (x ∷ ys))) 1 ≡ true
      → keep p (insert_cluster x ys) ≡ keep p (x ∷ ys)
  unfolding insert_cluster
  keep-insert_cluster p x [] h = refl
  keep-insert_cluster p x (y ∷ ys) h = ground (arith, h, keep-insert_cluster p x ys)

  keep-sort_clusters :
      (p : ClusterSignal F → Bool) (xs : List (ClusterSignal F))
      → leb (length (keep p xs)) 1 ≡ true
      → keep p (sort_clusters xs) ≡ keep p xs
  unfolding sort_clusters
  keep-sort_clusters p [] h = refl
  keep-sort_clusters p (x ∷ xs) h =
      ground (arith, h, keep-insert_cluster p x (sort_clusters xs), keep-sort_clusters p xs)

  module _ (log10 : F → F) (short_hash : ℕ → String → String) where
    keep-cluster_in :
        (m s : String) (now window min_w : ℤ) (least : F) (g : OpenGroup F)
        → let own = cluster_in log10 short_hash now window min_w least g in
          keep (is_cluster m s) own ≡ (if is_group m s g then own else [])
    unfolding cluster_in cluster_of
    keep-cluster_in m s now window min_w least g = ground arith

    keep-clusters_in :
        (m s : String) (now window min_w : ℤ) (least : F) (gs : List (OpenGroup F))
        → keep (is_cluster m s) (clusters_in log10 short_hash now window min_w least gs)
          ≡ clusters_in log10 short_hash now window min_w least (keep (is_group m s) gs)
    unfolding clusters_in
    keep-clusters_in m s now window min_w least [] = refl
    keep-clusters_in m s now window min_w least (g ∷ gs) =
        let own = cluster_in log10 short_hash now window min_w least g in
        let rest = clusters_in log10 short_hash now window min_w least gs in
        ground (
          arith,
          keep-append (is_cluster m s) own rest,
          keep-cluster_in m s now window min_w least g,
          keep-clusters_in m s now window min_w least gs,
        )

    -- The cluster of a market and side from its recent opens, if there is one.
    abbrev pub found :
        String → String → ℤ → ℤ → ℤ → F → List (RecentOpen F) → List (ClusterSignal F)
    found m s now window min_w least own =
        let c = cluster_of log10 short_hash now window m s (seen_onto [] own) in
        if is_empty own
          || contains m blocked_markets
          || ltb_ℤ (pos (distinct (openers_of own))) min_w
          || lt c.total_notional_usdc least
        then []
        else c ∷ []

    pub wallet_count-cluster_of :
        (m s : String) (now window : ℤ) (own : List (RecentOpen F))
        → (cluster_of log10 short_hash now window m s (seen_onto [] own)).wallet_count
          ≡ distinct (openers_of own)
    unfolding cluster_of
    wallet_count-cluster_of m s now window own = length-seen own

    clusters_in-found :
        (m s : String) (now window min_w : ℤ) (least : F) (own : List (RecentOpen F))
        → clusters_in log10 short_hash now window min_w least
            (if is_empty own then [] else group_of m s own ∷ [])
          ≡ found m s now window min_w least own
    unfolding clusters_in cluster_in
    clusters_in-found m s now window min_w least [] = refl
    clusters_in-found m s now window min_w least (x ∷ xs) =
        ground (arith, wallet_count-cluster_of m s now window (x ∷ xs), distinct-length (x ∷ xs))

    found-one :
        (m s : String) (now window min_w : ℤ) (least : F) (own : List (RecentOpen F))
        → leb (length (found m s now window min_w least own)) 1 ≡ true
    found-one m s now window min_w least own = ground arith

    pub detect_clusters-found :
        (m s : String) (now : ℤ) (min_wallets : Option ℤ) (d : ClusterDetector F)
        → IsKeyed d.recent_opens
        → let r = detect_clusters log10 short_hash now min_wallets d in
          let w = d.consensus_window_ms in
          let own = keep (is_current (now -ℤ w)) (opens_for m s d.recent_opens) in
          let min_w = int_or min_wallets d.min_wallets in
          keep (is_cluster m s) r.0 ≡ found m s now w min_w d.min_notional own
    unfolding detect_clusters
    detect_clusters-found m s now min_wallets d k =
        let w = d.consensus_window_ms in
        let left = drop_old_opens (now -ℤ w) d.recent_opens in
        let own = keep (is_current (now -ℤ w)) (opens_for m s d.recent_opens) in
        let min_w = int_or min_wallets d.min_wallets in
        let e =
          keep-clusters_in m s now w min_w d.min_notional left
          ∙ ap (clusters_in log10 short_hash now w min_w d.min_notional)
              (keep-drop_old_opens m s (now -ℤ w) d.recent_opens k)
          ∙ clusters_in-found m s now w min_w d.min_notional own in
        let all = clusters_in log10 short_hash now w min_w d.min_notional left in
        let one = found-one m s now w min_w d.min_notional own in
        keep-sort_clusters (is_cluster m s) all (rw e one) ∙ e
