-- ===== src/Dydx/Samples.antt =====
-- Configurations of hyper_smart_observer/dydx_v4/config.py for the tests.
use hyperliquid_smart_wallet.Prelude.{true, false, [], ◌∷◌}
use hyperliquid_smart_wallet.Prelude.Int.{ℤ, pos}
use hyperliquid_smart_wallet.Float.Fixed.{fixed}
use hyperliquid_smart_wallet.Dydx.Config.{Config, DydxNetwork}

-- The values of the dataclass; the lists are shortened.
abbrev pub default_config : Config ℤ
default_config = record {
  network = DydxNetwork.mainnet;
  require_testnet = false;
  read_only = true;
  paper_only = true;
  allow_trading = false;
  allow_private_key = false;
  allow_node_private_api = false;
  max_signal_age_ms = pos 15000;
  hard_max_signal_age_ms = pos 30000;
  min_edge_bps = fixed.decimal 50 1;
  edge_safety_multiplier = fixed.decimal 15 1;
  starting_balance_usdc = fixed.decimal 10000 1;
  max_open_paper_trades = pos 3;
  max_position_pct = fixed.decimal 10 2;
  taker_fee_bps = fixed.decimal 50 1;
  estimated_spread_bps = fixed.decimal 30 1;
  estimated_slippage_bps = fixed.decimal 50 1;
  estimated_latency_bps = fixed.decimal 20 1;
  copy_degradation_bps = fixed.decimal 50 1;
  market_whitelist = "BTC-USD" ∷ "ETH-USD" ∷ [];
  market_blacklist = [];
  consensus_required = true;
  consensus_min_wallets = pos 2;
}

abbrev pub eager_config : Config ℤ
eager_config = record default_config { min_edge_bps = fixed.decimal 200 0 }
