-- ===== src/Dydx/Fills/Book.antt =====
-- hyper_smart_observer/dydx_v4/fill_simulator.py: in what books a fill is simulated, and how much of
-- them it takes.
use hyperliquid_smart_wallet.Prelude.{
  ℕ, zero, suc, ◌+◌, ◌≤◌, ◌≡◌, true, false, List, [], ◌∷◌, map, Option, none, some, if◌then◌else◌,
  length, take, All, arith, Bool-cases, inl, inr,
}
use hyperliquid_smart_wallet.Float.{Float, IsOrdered, whole, sum}
use hyperliquid_smart_wallet.Float.Order.{IsNumber}
use hyperliquid_smart_wallet.Dydx.Fills.Sorted.{HasKey, IsLed, sort_levels-IsLed}
use hyperliquid_smart_wallet.Dydx.Fills.{
  BookLevel, RawBook, Order, Walk, notional, parse_levels, sort_levels, bid_key, ask_key,
  parse_orderbook, is_buy, take_level, walk_book, filled, fill_from, fill_in, simulate_market_fill,
}

-- Negation turns the order around.
pub record HasNeg (F : Type 0) ⦃f : Float F⦄ : Type 0 where
  pub lt_neg : (x y : F) → f.lt (f.neg x) (f.neg y) ≡ f.lt y x
  pub le_neg : (x y : F) → f.le (f.neg x) (f.neg y) ≡ f.le y x

module _ {F : Type 0} ⦃f : Float F⦄ where
  open f use {mul, lt, le, neg}

  walk_book-length :
      (levels : List (BookLevel F)) (w : Walk F)
      → (walk_book levels w).consumed ≤ w.consumed + length levels
  unfolding walk_book
  walk_book-length [] w = omega arith
  walk_book-length (lv ∷ rest) w = ground (arith, walk_book-length rest (take_level lv w))

  length-take_level : (n : ℕ) (levels : List (BookLevel F)) → length (take n levels) ≤ n
  length-take_level zero levels = omega arith
  length-take_level (suc n) [] = omega arith
  length-take_level (suc n) (lv ∷ rest) = omega (arith, length-take_level n rest)

  -- The levels of the order's side that are looked at.
  abbrev pub side_levels : Order F → List (BookLevel F) → List (BookLevel F) → List (BookLevel F)
  side_levels o bids asks = take o.depth_levels (if is_buy o.side then asks else bids)

  -- Every bid is below every ask.
  abbrev pub IsUncrossed : List (BookLevel F) → List (BookLevel F) → Type 0
  IsUncrossed bids asks = All (λ bid. All (λ ask. lt bid.price ask.price ≡ true) asks) bids

  -- What holds of an order and the two sides of the book where it is filled.
  pub record IsFillable (o : Order F) (bids asks : List (BookLevel F)) (consumed : ℕ) : Type 0 where
    pub uncrossed : IsUncrossed bids asks
    pub asks_something : le o.notional_usdc (whole 0) ≡ false
    pub within_depth :
        lt (mul o.max_participation (sum (map notional (side_levels o bids asks)))) o.notional_usdc
        ≡ false
    pub levels_bounded : consumed ≤ o.depth_levels

  fill_from-ok :
      (o : Order F) (mid spread : F) (levels : List (BookLevel F))
      → let r = fill_from o mid spread levels in
        r.ok ≡ true
        → (le o.notional_usdc (whole 0) ≡ false)
          × (lt (mul o.max_participation (sum (map notional levels))) o.notional_usdc ≡ false)
          × (r.levels_consumed ≤ length levels)
  unfolding fill_from filled
  fill_from-ok o mid spread levels h =
      let start : Walk F = record {
        remaining = o.notional_usdc;
        qty = f.decimal 0 1;
        consumed = 0;
      } in
      ground (arith, h, walk_book-length levels start)

  fill_from-IsFillable :
      (o : Order F) (bids asks : List (BookLevel F)) (mid spread : F)
      → IsUncrossed bids asks
      → let r = fill_from o mid spread (side_levels o bids asks) in
        r.ok ≡ true → IsFillable o bids asks r.levels_consumed
  fill_from-IsFillable o bids asks mid spread u h =
      let side = if is_buy o.side then asks else bids in
      let found = fill_from-ok o mid spread (side_levels o bids asks) h in
      record {
        uncrossed = u;
        asks_something = found.0;
        within_depth = found.1;
        levels_bounded = omega (arith, found.2, length-take_level o.depth_levels side);
      }

  module _ (laws : IsOrdered F) (negs : HasNeg F) where
    above_each :
        (bid ask : BookLevel F) (asks : List (BookLevel F))
        → lt bid.price ask.price ≡ true
        → All (λ y. le ask.price y.price ≡ true) asks
        → All (λ y. lt bid.price y.price ≡ true) asks
    above_each bid ask [] h s = tt
    above_each bid ask (y ∷ ys) h s =
        (laws.lt_of_lt_of_le bid.price ask.price y.price h s.0, above_each bid ask ys h s.1)

    IsUncrossed-heads :
        (bid ask : BookLevel F) (bids asks : List (BookLevel F))
        → lt bid.price ask.price ≡ true
        → All (λ y. le (bid_key bid) (bid_key y) ≡ true) bids
        → All (λ y. le ask.price y.price ≡ true) asks
        → IsUncrossed bids asks
    IsUncrossed-heads bid ask [] asks h b a = tt
    IsUncrossed-heads bid ask (x ∷ xs) asks h b a =
        let below : le x.price bid.price ≡ true =
          ground (arith, b.0, negs.le_neg bid.price x.price) in
        (
          above_each x ask asks (laws.lt_of_le_of_lt x.price bid.price ask.price below h) a,
          IsUncrossed-heads bid ask xs asks h b.1 a,
        )

    fill_in-IsFillable :
        (o : Order F) (bids asks : List (BookLevel F))
        → IsLed bid_key bids
        → IsLed ask_key asks
        → let r = fill_in o bids asks in r.ok ≡ true → IsFillable o bids asks r.levels_consumed
    unfolding fill_in IsLed
    fill_in-IsFillable o [] asks b a h = cc
    fill_in-IsFillable o (bid ∷ bids) [] b a h = cc
    fill_in-IsFillable o (bid ∷ bids) (ask ∷ asks) b a h =
        let mid = f.div (f.add bid.price ask.price) (whole 2) in
        let spread = f.mul (f.div (f.sub ask.price bid.price) mid) (whole 10_000) in
        elim (Bool-cases (le ask.price bid.price)) [
          | inl e ↦ ground (arith, h, e)
          | inr e ↦
              let below : lt bid.price ask.price ≡ true = ground (
                arith,
                e,
                laws.le_or_lt ask.price bid.price a.0,
                negs.le_neg bid.price bid.price,
                b.0,
              ) in
              let u = IsUncrossed-heads bid ask (bid ∷ bids) (ask ∷ asks) below b a in
              ground (arith, h, e, fill_from-IsFillable o (bid ∷ bids) (ask ∷ asks) mid spread u)
        ]

    All-parse_levels :
        (raw : List (Option (F × F))) → All (λ lv. IsNumber lv.price) (parse_levels raw)
    unfolding parse_levels
    All-parse_levels [] = tt
    All-parse_levels (none ∷ rest) = All-parse_levels rest
    All-parse_levels (some (p, s) ∷ rest) =
        ground (arith, All-parse_levels rest, laws.refl_of_lt (whole 0) p)

    All-bid_key :
        (xs : List (BookLevel F)) → All (λ lv. IsNumber lv.price) xs → All (HasKey bid_key) xs
    All-bid_key [] h = tt
    All-bid_key (x ∷ xs) h = (ground (arith, h.0, negs.le_neg x.price x.price), All-bid_key xs h.1)

    -- A fill is only simulated in a book whose bids are all below all its asks, for a notional that is
    -- not zero or less and does not exceed the allowed part of the depth that is looked at on the
    -- order's side; it consumes at most as many levels as may be looked at.
    pub simulate_market_fill-IsFillable :
        (raw : RawBook F) (o : Order F)
        → let r = simulate_market_fill raw o in
          let book = parse_orderbook raw in
          r.ok ≡ true → IsFillable o book.0 book.1 r.levels_consumed
    unfolding simulate_market_fill parse_orderbook
    simulate_market_fill-IsFillable raw o h =
        let bids = parse_levels raw.bids in
        let asks = parse_levels raw.asks in
        fill_in-IsFillable o (sort_levels bid_key bids) (sort_levels ask_key asks)
          (sort_levels-IsLed laws bid_key bids (All-bid_key bids (All-parse_levels raw.bids)))
          (sort_levels-IsLed laws ask_key asks (All-parse_levels raw.asks)) h
