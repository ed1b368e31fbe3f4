-- ===== src/Dydx/Stream/Cluster.antt =====
-- hyper_smart_observer/dydx_v4/stream_consensus.py: a signal of the stream as a cluster.
use hyperliquid_smart_wallet.Prelude.{String, join, [], ◌∷◌, length}
use hyperliquid_smart_wallet.Prelude.Int.{ℤ, pos, ◌-ℤ◌, ltb_ℤ, max_ℤ}
use hyperliquid_smart_wallet.Float.{Float, whole, min_of}
use hyperliquid_smart_wallet.Dydx.Signals.{print_ℤ}
use hyperliquid_smart_wallet.Dydx.Stream.{StreamSignal}
use hyperliquid_smart_wallet.Dydx.Clusters.{ClusterSignal}

module _ {F : Type 0} ⦃f : Float F⦄ where
  open f use {div, decimal}

  build_cluster_signal : StreamSignal → String → F → ℤ → ClusterSignal F
  build_cluster_signal signal market mark_price now_ms =
      let age = max_ℤ (pos 0) (now_ms -ℤ signal.freshest_ts) in
      record {
        market_id = market;
        side = signal.direction;
        wallet_count = length signal.wallets;
        participating_wallets = signal.wallets;
        total_notional_usdc = whole 0;
        first_wallet_opened_ms = signal.oldest_ts;
        last_wallet_opened_ms = signal.freshest_ts;
        signal_age_ms = age;
        avg_entry_price = mark_price;
        signal_strength =
            min_of (decimal 10 1) (div (whole (length signal.wallets)) (decimal 50 1));
        market_priority = decimal 5 1;
        is_fresh = ltb_ℤ age (pos 4_000);
        cluster_id =
            join
              ("stream:" ∷ market ∷ ":" ∷ signal.direction ∷ ":" ∷ print_ℤ signal.freshest_ts ∷ []);
        origin = "stream";
      }
