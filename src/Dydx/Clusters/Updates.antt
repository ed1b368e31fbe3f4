-- ===== src/Dydx/Clusters/Updates.antt =====
-- hyper_smart_observer/dydx_v4/cluster_detector.py: `update_positions` and `update_from_fill`.
pub mod Polled
pub mod Expected
pub mod Changes
pub mod Kinds
pub mod Windows
use hyperliquid_smart_wallet.Prelude.{
  ℕ, ◌+◌, ◌-◌, String, Bool, true, false, not, ◌&&◌, ◌||◌, List, [], ◌∷◌, ◌++◌, map, Option, none,
  some, if◌then◌else◌, get_or, is_some, is_empty, is_nonempty, str_eq, join, contains, lookup,
  insert, length, keep, keys, leb,
}
use hyperliquid_smart_wallet.Prelude.Int.{ℤ, pos, ◌-ℤ◌, eqb_ℤ, ltb_ℤ, leb_ℤ}
use hyperliquid_smart_wallet.Float.{Float, whole, max_of, min_of, sum}
use hyperliquid_smart_wallet.Dydx.Clusters.{
  WalletPosition, EventType, PositionEvent, RawPosition, RecentOpen, OpenGroup, Snapshot,
  ClusterDetector, FillUpdate, ClusterSignal, int_or, blocked_markets, position_key, add_open,
  drop_old_opens,
}

abbrev pub side_of_fill : String → String
side_of_fill side = if str_eq side "BUY" then "LONG" else "SHORT"

abbrev pub closes : String → String → Bool
closes held side =
    (str_eq held "LONG" && str_eq side "SELL") || (str_eq held "SHORT" && str_eq side "BUY")

abbrev pub is_opening : EventType → Bool
is_opening EventType.open_event = true
is_opening e = false

module _ {F : Type 0} where
  abbrev pub snapshot_of : String → ClusterDetector F → Snapshot F
  snapshot_of address d = get_or (lookup address d.positions) []

module _ {F : Type 0} ⦃f : Float F⦄ where
  open f use {sub, mul, abs, lt, le, decimal}

  abbrev pub position_of : String → ℤ → RawPosition F → F × F → WalletPosition F
  position_of address now_ms raw numbers = record {
    address = address;
    market_id = raw.market;
    side = raw.side;
    size = numbers.0;
    entry_price = numbers.1;
    opened_at_ms = now_ms;
    last_seen_ms = now_ms;
    notional_usdc = mul numbers.0 numbers.1;
  }

  abbrev pub is_named : RawPosition F → Bool
  is_named raw =
      is_nonempty raw.market && is_nonempty raw.side && not (contains raw.market blocked_markets)

  abbrev pub store_position : String → ℤ → RawPosition F → Option (F × F) → Snapshot F → Snapshot F
  store_position address now_ms raw none m = m
  store_position address now_ms raw (some numbers) m =
      if is_named raw && not (le numbers.0 (whole 0))
      then insert (position_key raw.market raw.side) (position_of address now_ms raw numbers) m
      else m

  unfoldable pub new_positions : String → ℤ → List (RawPosition F) → Snapshot F → Snapshot F
  new_positions address now_ms [] m = m
  new_positions address now_ms (raw ∷ rest) m =
      new_positions address now_ms rest (store_position address now_ms raw raw.numbers m)

  abbrev pub event_at : String → ℤ → EventType → F → F → WalletPosition F → PositionEvent F
  event_at address now_ms event_type size notional p = record {
    event_type = event_type;
    address = address;
    market_id = p.market_id;
    side = p.side;
    price = p.entry_price;
    size = size;
    notional_usdc = notional;
    fill_id = none;
    detected_at_ms = now_ms;
    signal_age_ms = pos 0;
  }

  -- The event of a position that is there now, against the one that was there before.
  abbrev pub change_of :
      String → ℤ → WalletPosition F → Option (WalletPosition F) → List (PositionEvent F)
  change_of address now_ms p none =
      event_at address now_ms EventType.open_event p.size p.notional_usdc p ∷ []
  change_of address now_ms p (some before) =
      let delta = sub p.size before.size in
      let kind = if lt (whole 0) delta then EventType.add_event else EventType.reduce_event in
      if lt (decimal 1 8) (abs delta)
      then event_at address now_ms kind (abs delta) (mul (abs delta) p.entry_price) p ∷ []
      else []

  unfoldable pub changes : String → ℤ → Snapshot F → Snapshot F → List (PositionEvent F)
  changes address now_ms prev [] = []
  changes address now_ms prev (e ∷ es) =
      change_of address now_ms e.1 (lookup e.0 prev) ++ changes address now_ms prev es

  -- The events of the positions that are gone.
  unfoldable pub closings : String → ℤ → Snapshot F → Snapshot F → List (PositionEvent F)
  closings address now_ms new [] = []
  closings address now_ms new (e ∷ es) =
      let rest = closings address now_ms new es in
      if is_some (lookup e.0 new)
      then rest
      else event_at address now_ms EventType.close_event e.1.size e.1.notional_usdc e.1 ∷ rest

  -- The loop over the new positions once more, for the window of opens.
  unfoldable pub record_opens :
      String → ℤ → Snapshot F → Snapshot F → List (OpenGroup F) → List (OpenGroup F)
  record_opens address now_ms prev [] gs = gs
  record_opens address now_ms prev (e ∷ es) gs =
      let x : RecentOpen F = record {
        address = address;
        opened_ms = now_ms;
        price = e.1.entry_price;
        notional = e.1.notional_usdc;
      } in
      let known = record_opens address now_ms prev es gs in
      let opened = record_opens address now_ms prev es (add_open e.1.market_id e.1.side x gs) in
      if is_some (lookup e.0 prev) then known else opened

  unfoldable pub update_positions :
      String
      → List (RawPosition F)
      → Option ℤ
      → ℤ
      → ClusterDetector F
      → List (PositionEvent F) × ClusterDetector F
  update_positions address raw fetched_at_ms clock_ms d =
      let now_ms = int_or fetched_at_ms clock_ms in
      let prev = snapshot_of address d in
      let new = new_positions address now_ms raw [] in
      (
        changes address now_ms prev new ++ closings address now_ms new prev,
        record d {
          positions = insert address new d.positions;
          prev_positions = insert address prev d.prev_positions;
          recent_opens = record_opens address now_ms prev new d.recent_opens;
        },
      )

  abbrev pub fill_time : FillUpdate F → ℤ
  fill_time x = int_or x.fill_ts_ms x.clock_ms

  -- The kind of the event and the side of the position.
  abbrev pub judge_fill : String → Option (WalletPosition F) → EventType × String
  judge_fill side none = (EventType.open_event, side_of_fill side)
  judge_fill side (some p) =
      if closes p.side side
      then (EventType.close_event, p.side)
      else (EventType.add_event, side_of_fill side)

  unfoldable pub update_from_fill :
      FillUpdate F → ClusterDetector F → PositionEvent F × ClusterDetector F
  update_from_fill x d =
      let now_ms = fill_time x in
      let key = position_key x.market_id (side_of_fill x.side) in
      let judged = judge_fill x.side (lookup key (snapshot_of x.address d)) in
      let open_entry : RecentOpen F = record {
        address = x.address;
        opened_ms = now_ms;
        price = x.price;
        notional = mul x.size x.price;
      } in
      let opened : ClusterDetector F = record d {
        recent_opens = add_open x.market_id judged.1 open_entry d.recent_opens;
      } in
      (
        record {
          event_type = judged.0;
          address = x.address;
          market_id = x.market_id;
          side = judged.1;
          price = x.price;
          size = x.size;
          notional_usdc = mul x.size x.price;
          fill_id = x.fill_id;
          detected_at_ms = now_ms;
          signal_age_ms = x.clock_ms -ℤ now_ms;
        },
        if is_opening judged.0 && not (contains x.market_id blocked_markets) then opened else d,
      )
