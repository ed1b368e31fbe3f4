-- ===== src/Dydx/Edge/Tests.antt =====
-- The edge of a concrete signal.
use hyperliquid_smart_wallet.Prelude.Int.{ℤ, pos}
use hyperliquid_smart_wallet.Float.Fixed.{fixed}
use hyperliquid_smart_wallet.Dydx.Edge.{EdgeQuestion}

abbrev asked : EdgeQuestion ℤ
asked = record {
  signal_age_ms = pos 1_500;
  wallet_count = pos 3;
  leader_winrate = fixed.decimal 60 2;
  leader_profit_factor = fixed.decimal 25 1;
  leader_trade_count = pos 60;
  leader_expectancy_usdc = fixed.decimal 3 1;
  paper_notional_usdc = fixed.decimal 50 0;
  spread_bps = fixed.decimal 3 0;
  slippage_bps = fixed.decimal 1 0;
  fee_bps = fixed.decimal 10 0;
  delay_ms = pos 500;
  liquidity_penalty_bps = pos 0;
  adverse_price_move_bps = pos 0;
  funding_penalty_bps = pos 0;
  min_edge_bps = fixed.decimal 5 0;
}
