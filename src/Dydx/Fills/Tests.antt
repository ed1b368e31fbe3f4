-- ===== src/Dydx/Fills/Tests.antt =====
-- Fills from a concrete book.
use hyperliquid_smart_wallet.Prelude.{◌≡◌, refl, true, [], ◌∷◌, some, none, upper, arith}
use hyperliquid_smart_wallet.Prelude.Int.{ℤ, ◌+ℤ◌, ◌-ℤ◌}
use hyperliquid_smart_wallet.Float.Fixed.{fixed, fixed-IsOrdered}
use hyperliquid_smart_wallet.Dydx.Fills.{
  RawBook, Order, parse_orderbook, simulate_market_fill, parse_levels, insert_level, sort_levels,
  walk_book, filled, fill_from, fill_in,
}
use hyperliquid_smart_wallet.Dydx.Fills.Book.{HasNeg, IsFillable, simulate_market_fill-IsFillable}

abbrev raw : RawBook ℤ
raw = record {
  bids =
      some (fixed.decimal 98 0, fixed.decimal 5 0)
      ∷ none
      ∷ some (fixed.decimal 99 0, fixed.decimal 5 0)
      ∷ [];
  asks =
      some (fixed.decimal 102 0, fixed.decimal 10 0)
      ∷ some (fixed.decimal 101 0, fixed.decimal 1 0)
      ∷ [];
}

abbrev order : Order ℤ
order = record {
  side = "buy";
  notional_usdc = fixed.decimal 110 0;
  max_participation = fixed.decimal 1 1;
  latency_extra_bps = fixed.decimal 2 0;
  depth_levels = 20;
  data_source = "FIXTURE";
}

fixed-HasNeg : HasNeg ℤ
unfolding ◌-ℤ◌
fixed-HasNeg = ground arith

-- The cheapest ask is used up, and the rest is taken from the next.
fills : (simulate_market_fill raw order).ok ≡ true
unfolding simulate_market_fill parse_orderbook parse_levels insert_level sort_levels walk_book
    filled fill_from fill_in upper ◌-ℤ◌ ◌+ℤ◌
fills = refl

simulate_market_fill-IsFillable_example :
    let r = simulate_market_fill raw order in
    let book = parse_orderbook raw in IsFillable order book.0 book.1 r.levels_consumed
simulate_market_fill-IsFillable_example =
    simulate_market_fill-IsFillable fixed-IsOrdered fixed-HasNeg raw order fills
