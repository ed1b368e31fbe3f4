-- ===== src/Dydx/Lifecycle.antt =====
-- hyper_smart_observer/dydx_v4/lifecycle.py, with `infer_lifecycle` of normalizer.py: the local
-- positions that the fills of an account build up. The log is left out, and the clock is the
-- argument `now_ms`.
pub mod Classify
pub mod Keeps
mod Tests
use hyperliquid_smart_wallet.Prelude.{
  ℕ, String, ◌≡◌, Bool, true, false, ◌&&◌, ◌||◌, not, List, [], ◌∷◌, ◌++◌, Option, none, some,
  if◌then◌else◌, join, print, lookup, insert, erase, is_nonempty, is_some, length,
}
use hyperliquid_smart_wallet.Prelude.Int.{ℤ}
use hyperliquid_smart_wallet.Float.{Float, whole, max_of}
use hyperliquid_smart_wallet.Dydx.Models.{
  PositionSide, LifecycleEvent, OrderSide, NormalizedFill, NormalizedPositionDelta, side_value,
  event_value, is_long, is_short, is_unknown_side, is_unknown, is_open, is_add, is_close, is_reduce,
  is_buy,
}

pub record LocalPosition (F : Type 0) : Type 0 where
  pub position_key : String
  pub account_address : String
  pub subaccount_number : ℕ
  pub market_id : String
  pub side : PositionSide
  pub size : F
  pub entry_price : F
  pub opened_at_ms : ℤ
  pub updated_at_ms : ℤ
  pub lifecycle_history : List LifecycleEvent
  pub fill_ids : List String

pub record LifecycleResult (F : Type 0) : Type 0 where
  pub event : LifecycleEvent
  pub position_key : String
  pub accepted : Bool
  pub reason : String
  pub size_before : F
  pub size_after : F
  pub is_orphan : Bool
  pub delta : Option (NormalizedPositionDelta F)

pub record Engine (F : Type 0) : Type 0 where
  pub network : String
  pub positions : List (String × LocalPosition F)
  pub orphan_events : List (LifecycleResult F)

-- A SELL against a LONG, or a BUY against a SHORT.
abbrev pub is_closing_direction : PositionSide → OrderSide → Bool
is_closing_direction side order =
    (is_long side && not (is_buy order)) || (is_short side && is_buy order)

abbrev pub fill_id_list : String → List String
fill_id_list i = if is_nonempty i then i ∷ [] else []

module _ {F : Type 0} ⦃f : Float F⦄ where
  open f use {add, sub, mul, div, lt, feq, decimal, round}

  -- The two sizes are floats; the fill's side, which the code ignores, is left out.
  pub infer_lifecycle : F → F → LifecycleEvent
  infer_lifecycle prev_size new_size =
      if lt prev_size (whole 0) || lt new_size (whole 0)
      then LifecycleEvent.unknown
      else if feq prev_size (whole 0) && lt (whole 0) new_size
      then LifecycleEvent.opened
      else if lt (whole 0) prev_size
      then if feq new_size (whole 0)
        then LifecycleEvent.closed
        else if lt prev_size new_size
        then LifecycleEvent.added
        else if lt (whole 0) new_size && lt new_size prev_size
        then LifecycleEvent.reduced
        else LifecycleEvent.unknown
      else LifecycleEvent.unknown

  pub position_key : Engine F → String → ℕ → String → PositionSide → String
  position_key e account_address subaccount_number market_id side = join (
      "dydx_v4|"
      ∷ e.network
      ∷ "|"
      ∷ account_address
      ∷ "|"
      ∷ print subaccount_number
      ∷ "|"
      ∷ market_id
      ∷ "|"
      ∷ side_value side
      ∷ [])

  abbrev pub fill_key : Engine F → NormalizedFill F → PositionSide → String
  fill_key e fill side =
      position_key e fill.account_address fill.subaccount_number fill.market_id side

  pub get_position : Engine F → String → ℕ → String → PositionSide → Option (LocalPosition F)
  get_position e account_address subaccount_number market_id side =
      lookup (position_key e account_address subaccount_number market_id side) e.positions

  abbrev pub size_of : Option (LocalPosition F) → F
  size_of none = decimal 0 1
  size_of (some p) = p.size

  -- The new size before rounding: the fill's size is added in the position's own direction.
  abbrev pub moved_size : PositionSide → OrderSide → F → F → F
  moved_size side order before size =
      if is_long side
      then if is_buy order then add before size else sub before size
      else if is_buy order
      then sub before size
      else add before size

  pub size_after_fill : PositionSide → NormalizedFill F → F → F
  size_after_fill side fill before =
      max_of (decimal 0 1) (round (moved_size side fill.side before fill.size) 8)

  -- A result that refuses the fill.
  abbrev pub refused : LifecycleEvent → String → String → F → F → Bool → LifecycleResult F
  refused event key reason before after is_orphan = record {
    event = event;
    position_key = key;
    accepted = false;
    reason = reason;
    size_before = before;
    size_after = after;
    is_orphan = is_orphan;
    delta = none;
  }

  abbrev pub add_orphan : Engine F → LifecycleResult F → Engine F × LifecycleResult F
  add_orphan e r = (record e { orphan_events = e.orphan_events ++ (r ∷ []) }, r)

  -- `LocalPosition(...)` for an OPEN.
  pub new_position : ℤ → NormalizedFill F → PositionSide → String → F → LocalPosition F
  new_position now_ms fill side key new_size = record {
    position_key = key;
    account_address = fill.account_address;
    subaccount_number = fill.subaccount_number;
    market_id = fill.market_id;
    side = side;
    size = new_size;
    entry_price = fill.price;
    opened_at_ms = fill.created_at_ms;
    updated_at_ms = now_ms;
    lifecycle_history = LifecycleEvent.opened ∷ [];
    fill_ids = fill_id_list fill.fill_id;
  }

  -- The mean entry price, weighted by the size held and the size of the fill.
  pub entry_after_add : LocalPosition F → NormalizedFill F → F
  entry_after_add p fill =
      let total_size = add p.size fill.size in
      if lt (whole 0) total_size
      then div (add (mul p.size p.entry_price) (mul fill.size fill.price)) total_size
      else p.entry_price

  pub touch : ℤ → NormalizedFill F → LifecycleEvent → F → LocalPosition F → LocalPosition F
  touch now_ms fill event new_size p = record p {
    size = new_size;
    updated_at_ms = now_ms;
    lifecycle_history = p.lifecycle_history ++ (event ∷ []);
    fill_ids = p.fill_ids ++ fill_id_list fill.fill_id;
  }

  -- The dictionary after an accepted event. An ADD, REDUCE or CLOSE has an existing position: the
  -- code asserts it.
  pub update_positions :
      ℤ
      → NormalizedFill F
      → PositionSide
      → String
      → Option (LocalPosition F)
      → LifecycleEvent
      → F
      → List (String × LocalPosition F)
      → List (String × LocalPosition F)
  update_positions now_ms fill side key existing LifecycleEvent.opened new_size ps =
      insert key (new_position now_ms fill side key new_size) ps
  update_positions now_ms fill side key (some p) LifecycleEvent.added new_size ps =
      let q = touch now_ms fill LifecycleEvent.added new_size p in
      insert key (record q { entry_price = entry_after_add p fill }) ps
  update_positions now_ms fill side key (some p) LifecycleEvent.reduced new_size ps =
      insert key (touch now_ms fill LifecycleEvent.reduced new_size p) ps
  update_positions now_ms fill side key (some p) LifecycleEvent.closed new_size ps = erase key ps
  update_positions now_ms fill side key existing event new_size ps = ps

  pub accept :
      ℤ
      → NormalizedFill F
      → PositionSide
      → Engine F
      → LifecycleEvent
      → F
      → F
      → Engine F × LifecycleResult F
  accept now_ms fill side e event before after =
      let key = fill_key e fill side in
      (
        record e {
          positions =
              update_positions now_ms fill side key (lookup key e.positions) event after
                e.positions;
        },
        record {
          event = event;
          position_key = key;
          accepted = true;
          reason = "LIFECYCLE_ACCEPTED";
          size_before = before;
          size_after = after;
          is_orphan = false;
          delta = some (record {
            account_address = fill.account_address;
            subaccount_number = fill.subaccount_number;
            market_id = fill.market_id;
            side = side;
            lifecycle = event;
            size_delta = sub after before;
            price = fill.price;
            timestamp_ms = fill.created_at_ms;
            fill_id = fill.fill_id;
          });
        },
      )

  -- `process_fill` from the call of `infer_lifecycle` on.
  pub apply_event :
      ℤ
      → NormalizedFill F
      → PositionSide
      → Engine F
      → LifecycleEvent
      → F
      → F
      → Engine F × LifecycleResult F
  apply_event now_ms fill side e event before after =
      let key = fill_key e fill side in
      let held = is_some (lookup key e.positions) in
      if is_unknown event
      then (e, refused LifecycleEvent.unknown key "LIFECYCLE_DELTA_UNKNOWN" before after false)
      else if (is_close event || is_reduce event) && not held
      then add_orphan e (
          refused event key (join ("ORPHAN_" ∷ event_value event ∷ "_NO_LOCAL_POSITION" ∷ []))
            (whole 0) (whole 0) true)
      else if is_add event && not held
      then (e, refused LifecycleEvent.unknown key "ADD_WITHOUT_OPEN" (whole 0) after false)
      else accept now_ms fill side e event before after

  pub process_fill : ℤ → NormalizedFill F → PositionSide → Engine F → Engine F × LifecycleResult F
  process_fill now_ms fill side e =
      let key = fill_key e fill side in
      let existing = lookup key e.positions in
      let before = size_of existing in
      let after = size_after_fill side fill before in
      if is_unknown_side side
      then (e, refused LifecycleEvent.unknown "" "UNKNOWN_SIDE" (whole 0) (whole 0) false)
      else if is_closing_direction side fill.side && not (is_some existing)
      then add_orphan e (
          refused LifecycleEvent.closed key "ORPHAN_CLOSE_NO_LOCAL_POSITION" (whole 0) (whole 0)
            true)
      else apply_event now_ms fill side e (infer_lifecycle before after) before after

  pub orphan_count : Engine F → ℕ
  orphan_count e = length e.orphan_events
