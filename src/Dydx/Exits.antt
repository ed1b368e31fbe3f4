-- ===== src/Dydx/Exits.antt =====
-- hyper_smart_observer/dydx_v4/adaptive_exits.py: the plan by which a paper position is left, and
-- its trailing stop. The average range is an argument; how it is computed from candles is left out.
pub mod Trailing
mod Tests
use hyperliquid_smart_wallet.Prelude.{
  String, Bool, true, false, not, ◌&&◌, ◌||◌, Option, none, some, if◌then◌else◌, str_eq, upper,
}
use hyperliquid_smart_wallet.Prelude.Int.{ℤ, pos, ◌-ℤ◌, ltb_ℤ, leb_ℤ}
use hyperliquid_smart_wallet.Float.{Float, whole, max_of}

pub data ExitMethod : Type 0 where
  atr fixed_pct_fallback : ExitMethod

pub record AdaptivePlan (F : Type 0) : Type 0 where
  pub stop_price : F
  pub take_profit_price : F
  pub trail_distance : F
  pub trail_arm_price : F
  pub max_holding_ms : ℤ
  pub atr_used : F
  pub method : ExitMethod

-- The arguments of `build_exit_plan` that have defaults.
pub record PlanSettings (F : Type 0) : Type 0 where
  pub stop_mult : F
  pub tp_mult : F
  pub trail_mult : F
  pub max_holding_hours : F
  pub funding_rate_hourly : F
  pub funding_adverse_threshold : F
  pub fallback_stop_pct : F
  pub fallback_tp_pct : F

pub record TrailingState (F : Type 0) : Type 0 where
  pub side : String
  pub trail_distance : F
  pub trail_arm_price : F
  pub armed : Bool
  pub best_price : F
  pub trail_stop_price : F

abbrev pub is_long_side : String → Bool
is_long_side side = str_eq (upper side) "LONG"

module _ {F : Type 0} ⦃f : Float F⦄ where
  open f use {add, sub, mul, div, lt, le, of_int, decimal, trunc}

  pub default_settings : PlanSettings F
  default_settings = record {
    stop_mult = decimal 15 1;
    tp_mult = decimal 30 1;
    trail_mult = decimal 10 1;
    max_holding_hours = decimal 480 1;
    funding_rate_hourly = decimal 0 1;
    funding_adverse_threshold = decimal 1 4;
    fallback_stop_pct = decimal 15 1;
    fallback_tp_pct = decimal 25 1;
  }

  -- `price - distance` for a LONG, `price + distance` otherwise; and the other way.
  abbrev pub against : Bool → F → F → F
  against is_long price distance = if is_long then sub price distance else add price distance

  abbrev pub along : Bool → F → F → F
  along is_long price distance = if is_long then add price distance else sub price distance

  -- The milliseconds to hold at most: half of them where the funding costs too much.
  pub holding_ms : PlanSettings F → ℤ
  holding_ms s =
      let hours =
        if lt s.funding_adverse_threshold s.funding_rate_hourly
        then div s.max_holding_hours (decimal 20 1)
        else s.max_holding_hours in
      trunc (mul (mul hours (whole 3_600)) (whole 1_000))

  abbrev pub atr_plan : F → Bool → F → PlanSettings F → AdaptivePlan F
  atr_plan entry_price is_long range s =
      let zero = decimal 0 1 in
      let trail = mul s.trail_mult range in
      record {
        stop_price = max_of zero (against is_long entry_price (mul s.stop_mult range));
        take_profit_price = max_of zero (along is_long entry_price (mul s.tp_mult range));
        trail_distance = trail;
        trail_arm_price = along is_long entry_price trail;
        max_holding_ms = holding_ms s;
        atr_used = range;
        method = ExitMethod.atr;
      }

  abbrev pub fallback_plan : F → Bool → F → PlanSettings F → AdaptivePlan F
  fallback_plan entry_price is_long range s =
      let zero = decimal 0 1 in
      let stop =
        mul entry_price (against is_long (whole 1) (div s.fallback_stop_pct (decimal 1_000 1))) in
      let target =
        mul entry_price (along is_long (whole 1) (div s.fallback_tp_pct (decimal 1_000 1))) in
      record {
        stop_price = max_of zero stop;
        take_profit_price = max_of zero target;
        trail_distance = zero;
        trail_arm_price = target;
        max_holding_ms = holding_ms s;
        atr_used = range;
        method = ExitMethod.fixed_pct_fallback;
      }

  pub build_exit_plan : F → String → F → PlanSettings F → AdaptivePlan F
  build_exit_plan entry_price side range s =
      if lt (whole 0) range && lt (whole 0) entry_price
      then atr_plan entry_price (is_long_side side) range s
      else fallback_plan entry_price (is_long_side side) range s

  -- The trailing stop of a position with this plan.
  pub new_trailing : String → AdaptivePlan F → TrailingState F
  new_trailing side p = record {
    side = side;
    trail_distance = p.trail_distance;
    trail_arm_price = p.trail_arm_price;
    armed = false;
    best_price = decimal 0 1;
    trail_stop_price = decimal 0 1;
  }

  -- `a` is at least as good as `b` for the position, or better.
  abbrev pub reaches : Bool → F → F → Bool
  reaches is_long a b = if is_long then le b a else le a b

  abbrev pub beats : Bool → F → F → Bool
  beats is_long a b = if is_long then lt b a else lt a b

  abbrev pub follow : F → TrailingState F → TrailingState F
  follow mark_price t = record t {
    best_price = mark_price;
    trail_stop_price = against (is_long_side t.side) mark_price t.trail_distance;
  }

  -- An armed stop follows the best price, then fires where the price has come back to it.
  unfoldable pub update_armed : F → TrailingState F → TrailingState F × Option F
  update_armed mark_price t =
      let long = is_long_side t.side in
      let n = if beats long mark_price t.best_price then follow mark_price t else t in
      (n, if reaches long n.trail_stop_price mark_price then some n.trail_stop_price else none)

  pub update : F → TrailingState F → TrailingState F × Option F
  update mark_price t =
      if le t.trail_distance (whole 0) || le mark_price (whole 0)
      then (t, none)
      else if t.armed
      then update_armed mark_price t
      else if reaches (is_long_side t.side) mark_price t.trail_arm_price
      then (record (follow mark_price t) { armed = true }, none)
      else (t, none)

pub is_time_stop_hit : ℤ → ℤ → ℤ → Bool
is_time_stop_hit opened_at_ms now_ms max_holding_ms =
    ltb_ℤ (pos 0) max_holding_ms && leb_ℤ max_holding_ms (now_ms -ℤ opened_at_ms)
