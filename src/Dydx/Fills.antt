-- ===== src/Dydx/Fills.antt =====
-- hyper_smart_observer/dydx_v4/fill_simulator.py: the fill of a paper order from an order book. What
-- `float` reads of a level is given, `none` where it raises; the synthetic book and a negative
-- number of levels are left out.
pub mod Sorted
pub mod Book
mod Tests
use hyperliquid_smart_wallet.Prelude.{
  ℕ, ◌+◌, String, Bool, true, false, not, ◌&&◌, ◌||◌, List, [], ◌∷◌, map, Option, none, some,
  if◌then◌else◌, str_eq, upper, contains, is_empty, take,
}
use hyperliquid_smart_wallet.Float.{Float, whole, min_of, sum}

pub record BookLevel (F : Type 0) : Type 0 where
  pub price : F
  pub size : F

pub data FillReason : Type 0 where
  no_orderbook crossed_book zero_notional insufficient_depth book_exhausted : FillReason

pub record FillResult (F : Type 0) : Type 0 where
  pub ok : Bool
  pub fill_price : F
  pub mid_price : F
  pub slippage_bps : F
  pub spread_bps : F
  pub depth_participation : F
  pub levels_consumed : ℕ
  pub data_source : String
  pub reason : Option FillReason

-- The answer of the order book service.
pub record RawBook (F : Type 0) : Type 0 where
  pub bids : List (Option (F × F))
  pub asks : List (Option (F × F))

pub record Order (F : Type 0) : Type 0 where
  pub side : String
  pub notional_usdc : F
  pub max_participation : F
  pub latency_extra_bps : F
  pub depth_levels : ℕ
  pub data_source : String

-- The variables of the walk through the book.
pub record Walk (F : Type 0) : Type 0 where
  pub remaining : F
  pub qty : F
  pub consumed : ℕ

abbrev pub is_buy : String → Bool
is_buy side = contains (upper side) ("BUY" ∷ "LONG" ∷ [])

module _ {F : Type 0} ⦃f : Float F⦄ where
  open f use {add, sub, mul, div, neg, lt, le, decimal}

  abbrev pub notional : BookLevel F → F
  notional lv = mul lv.price lv.size

  pub parse_levels : List (Option (F × F)) → List (BookLevel F)
  parse_levels [] = []
  parse_levels (none ∷ rest) = parse_levels rest
  parse_levels (some (p, s) ∷ rest) =
      let others = parse_levels rest in
      if lt (whole 0) p && lt (whole 0) s then record { price = p; size = s } ∷ others else others

  -- `sorted(levels, key=...)`, stable.
  pub insert_level : (BookLevel F → F) → BookLevel F → List (BookLevel F) → List (BookLevel F)
  insert_level key x [] = x ∷ []
  insert_level key x (y ∷ ys) =
      let rest = insert_level key x ys in if lt (key y) (key x) then y ∷ rest else x ∷ y ∷ ys

  pub sort_levels : (BookLevel F → F) → List (BookLevel F) → List (BookLevel F)
  sort_levels key [] = []
  sort_levels key (x ∷ xs) = insert_level key x (sort_levels key xs)

  abbrev pub bid_key : BookLevel F → F
  bid_key lv = neg lv.price

  abbrev pub ask_key : BookLevel F → F
  ask_key lv = lv.price

  pub parse_orderbook : RawBook F → List (BookLevel F) × List (BookLevel F)
  parse_orderbook raw =
      (sort_levels bid_key (parse_levels raw.bids), sort_levels ask_key (parse_levels raw.asks))

  -- `remaining <= 1e-9`
  abbrev pub is_done : F → Bool
  is_done remaining = le remaining (decimal 1 9)

  abbrev pub take_level : BookLevel F → Walk F → Walk F
  take_level lv w =
      let taken = min_of w.remaining (notional lv) in
      record {
        remaining = sub w.remaining taken;
        qty = add w.qty (div taken lv.price);
        consumed = w.consumed + 1;
      }

  pub walk_book : List (BookLevel F) → Walk F → Walk F
  walk_book [] w = w
  walk_book (lv ∷ rest) w =
      let next = take_level lv w in
      let later = walk_book rest next in if is_done next.remaining then next else later

  -- A refusal, with the defaults of the record.
  abbrev pub refuse_fill : Order F → F → F → FillReason → FillResult F
  refuse_fill o mid spread reason = record {
    ok = false;
    fill_price = decimal 0 1;
    mid_price = mid;
    slippage_bps = decimal 0 1;
    spread_bps = spread;
    depth_participation = decimal 0 1;
    levels_consumed = 0;
    data_source = o.data_source;
    reason = some reason;
  }

  pub filled : Order F → F → F → F → Walk F → FillResult F
  filled o mid spread total_depth w =
      let buys = is_buy o.side in
      let vwap = div o.notional_usdc w.qty in
      let latency_mult = div o.latency_extra_bps (whole 10_000) in
      let paid =
        if buys
        then mul vwap (add (whole 1) latency_mult)
        else mul vwap (sub (whole 1) latency_mult) in
      let worse = if buys then sub paid mid else sub mid paid in
      record {
        ok = true;
        fill_price = paid;
        mid_price = mid;
        slippage_bps = mul (div worse mid) (whole 10_000);
        spread_bps = spread;
        depth_participation = div o.notional_usdc total_depth;
        levels_consumed = w.consumed;
        data_source = o.data_source;
        reason = none;
      }

  -- The part of `simulate_market_fill` after the checks of the book, on the levels of the order's side.
  pub fill_from : Order F → F → F → List (BookLevel F) → FillResult F
  fill_from o mid spread levels =
      let total_depth = sum (map notional levels) in
      let start : Walk F = record {
        remaining = o.notional_usdc;
        qty = decimal 0 1;
        consumed = 0;
      } in
      let w = walk_book levels start in
      if le o.notional_usdc (whole 0)
      then refuse_fill o (decimal 0 1) (decimal 0 1) FillReason.zero_notional
      else if le total_depth (whole 0) || lt (mul o.max_participation total_depth) o.notional_usdc
      then refuse_fill o mid spread FillReason.insufficient_depth
      else if lt (decimal 1 9) w.remaining || le w.qty (whole 0)
      then refuse_fill o mid spread FillReason.book_exhausted
      else filled o mid spread total_depth w

  pub fill_in : Order F → List (BookLevel F) → List (BookLevel F) → FillResult F
  fill_in o [] asks = refuse_fill o (decimal 0 1) (decimal 0 1) FillReason.no_orderbook
  fill_in o (bid ∷ bids) [] = refuse_fill o (decimal 0 1) (decimal 0 1) FillReason.no_orderbook
  fill_in o (bid ∷ bids) (ask ∷ asks) =
      let mid = div (add bid.price ask.price) (whole 2) in
      let spread = mul (div (sub ask.price bid.price) mid) (whole 10_000) in
      let levels = if is_buy o.side then ask ∷ asks else bid ∷ bids in
      if le ask.price bid.price
      then refuse_fill o (decimal 0 1) (decimal 0 1) FillReason.crossed_book
      else fill_from o mid spread (take o.depth_levels levels)

  pub simulate_market_fill : RawBook F → Order F → FillResult F
  simulate_market_fill raw o = let book = parse_orderbook raw in fill_in o book.0 book.1
