-- ===== src/Dydx/Clusters/Detect.antt =====
-- hyper_smart_observer/dydx_v4/cluster_detector.py: `detect_clusters`. The logarithm and the digits of
-- SHA-256 are parameters.
pub mod Opens
pub mod Found
use hyperliquid_smart_wallet.Prelude.{
  ℕ, ◌+◌, ◌-◌, String, Bool, true, false, not, ◌&&◌, ◌||◌, List, [], ◌∷◌, ◌++◌, map, Option, none,
  some, if◌then◌else◌, get_or, is_some, is_empty, is_nonempty, str_eq, join, contains, lookup,
  insert, length, keep, keys, leb,
}
use hyperliquid_smart_wallet.Prelude.Int.{ℤ, pos, ◌-ℤ◌, eqb_ℤ, ltb_ℤ, leb_ℤ}
use hyperliquid_smart_wallet.Float.{Float, whole, max_of, min_of, sum}
use hyperliquid_smart_wallet.Dydx.Clusters.{
  WalletPosition, EventType, PositionEvent, RawPosition, RecentOpen, OpenGroup, Snapshot,
  ClusterDetector, FillUpdate, ClusterSignal, int_or, blocked_markets, position_key, add_open,
  drop_old_opens,
}
use hyperliquid_smart_wallet.Dydx.Signals.{print_ℤ}
use hyperliquid_smart_wallet.Dydx.Stream.{max_of_times, min_of_times}

module _ {F : Type 0} where
  -- `wallets_seen`: of each wallet the last open, in the place of its first.
  abbrev pub seen_onto :
      List (String × RecentOpen F) → List (RecentOpen F) → List (String × RecentOpen F)
  seen_onto m [] = m
  seen_onto m (x ∷ xs) = seen_onto (insert x.address x m) xs

  abbrev pub opens_of : List (String × RecentOpen F) → List (RecentOpen F)
  opens_of [] = []
  opens_of (e ∷ es) = e.1 ∷ opens_of es

module _ {F : Type 0} ⦃f : Float F⦄ where
  open f use {add, sub, mul, div, lt, of_int, decimal}

  -- `is_actionable`
  pub is_actionable : ClusterSignal F → Bool
  is_actionable c =
      leb 2 c.wallet_count
      && not (contains c.market_id blocked_markets)
      && ltb_ℤ c.signal_age_ms (pos 60_000)
      && lt (whole 0) c.market_priority

  abbrev pub market_priority_of : String → F
  market_priority_of market =
      if str_eq market "ETH-USD"
      then decimal 10 1
      else if str_eq market "BTC-USD"
      then decimal 9 1
      else if str_eq market "SOL-USD"
      then decimal 7 1
      else if str_eq market "TIA-USD"
      then decimal 6 1
      else if contains market ("AVAX-USD" ∷ "BNB-USD" ∷ [])
      then decimal 5 1
      else decimal 3 1

  -- `sort(key=signal_strength, reverse=True)`, stable.
  pub insert_cluster : ClusterSignal F → List (ClusterSignal F) → List (ClusterSignal F)
  insert_cluster x [] = x ∷ []
  insert_cluster x (y ∷ ys) =
      let rest = insert_cluster x ys in
      if lt x.signal_strength y.signal_strength then y ∷ rest else x ∷ y ∷ ys

  pub sort_clusters : List (ClusterSignal F) → List (ClusterSignal F)
  sort_clusters [] = []
  sort_clusters (x ∷ xs) = insert_cluster x (sort_clusters xs)

  module _ (log10 : F → F) (short_hash : ℕ → String → String) where
    abbrev pub strength : ℤ → ℤ → F → F → ℕ → F
    strength window_ms signal_age priority total n =
        let freshness =
          max_of (decimal 0 1) (sub (decimal 10 1) (div (of_int signal_age) (of_int window_ms))) in
        let notional_score =
          min_of (decimal 10 1) (div (log10 (max_of (whole 1) total)) (decimal 60 1)) in
        let wallet_score = min_of (decimal 10 1) (div (whole n) (decimal 50 1)) in
        add
          (add (add (mul (decimal 30 2) freshness) (mul (decimal 30 2) priority))
            (mul (decimal 25 2) wallet_score))
          (mul (decimal 15 2) notional_score)

    unfoldable pub cluster_of :
        ℤ → ℤ → String → String → List (String × RecentOpen F) → ClusterSignal F
    cluster_of now_ms window_ms market side seen =
        let opens = opens_of seen in
        let times = map (λ (x : RecentOpen F). x.opened_ms) opens in
        let first_ms = min_of_times times in
        let total = sum (map (λ (x : RecentOpen F). x.notional) opens) in
        let weighted = sum (map (λ (x : RecentOpen F). mul x.price x.notional) opens) in
        let signal_age = now_ms -ℤ first_ms in
        let priority = market_priority_of market in
        record {
          market_id = market;
          side = side;
          wallet_count = length seen;
          participating_wallets = keys seen;
          total_notional_usdc = total;
          first_wallet_opened_ms = first_ms;
          last_wallet_opened_ms = max_of_times times;
          signal_age_ms = signal_age;
          avg_entry_price = div weighted (max_of total (decimal 1 10));
          signal_strength = strength window_ms signal_age priority total (length seen);
          market_priority = priority;
          is_fresh = ltb_ℤ signal_age (pos 4_000);
          cluster_id = short_hash 16 (join (market ∷ ":" ∷ side ∷ ":" ∷ print_ℤ first_ms ∷ []));
          origin = "rest";
        }

    -- One round of the loop.
    pub cluster_in : ℤ → ℤ → ℤ → F → OpenGroup F → List (ClusterSignal F)
    cluster_in now_ms window_ms min_w min_notional g =
        let c = cluster_of now_ms window_ms g.market_id g.side (seen_onto [] g.entries) in
        if contains g.market_id blocked_markets
          || ltb_ℤ (pos (length g.entries)) min_w
          || ltb_ℤ (pos c.wallet_count) min_w
          || lt c.total_notional_usdc min_notional
        then []
        else c ∷ []

    pub clusters_in : ℤ → ℤ → ℤ → F → List (OpenGroup F) → List (ClusterSignal F)
    clusters_in now_ms window_ms min_w min_notional [] = []
    clusters_in now_ms window_ms min_w min_notional (g ∷ gs) =
        cluster_in now_ms window_ms min_w min_notional g
        ++ clusters_in now_ms window_ms min_w min_notional gs

    unfoldable pub detect_clusters :
        ℤ → Option ℤ → ClusterDetector F → List (ClusterSignal F) × ClusterDetector F
    detect_clusters now_ms min_wallets d =
        let left = drop_old_opens (now_ms -ℤ d.consensus_window_ms) d.recent_opens in
        let min_w = int_or min_wallets d.min_wallets in
        (
          sort_clusters (clusters_in now_ms d.consensus_window_ms min_w d.min_notional left),
          record d { recent_opens = left },
        )
