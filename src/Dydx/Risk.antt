-- ===== src/Dydx/Risk.antt =====
-- hyper_smart_observer/dydx_v4/risk_policy.py: the exits by volatility and the daily circuit breaker
-- of new entries; Holding has the tests on holding times and `rolling_atr`.
pub mod Exits
pub mod Holding
mod Tests
use hyperliquid_smart_wallet.Prelude.{
  ℕ, ◌+◌, ◌/◌, String, Bool, true, false, not, ◌&&◌, ◌||◌, Option, none, some, if◌then◌else◌,
  get_or, str_eq, upper, is_some,
}
use hyperliquid_smart_wallet.Prelude.Int.{ℤ, pos, negsuc, leb_ℤ, eqb_ℤ, max_ℤ}
use hyperliquid_smart_wallet.Float.{Float, whole, max_of, min_of}

pub record ExitSignal (F : Type 0) : Type 0 where
  pub exit : Bool
  pub reason : String
  pub peak : F
  pub armed : Bool

pub record AtrMultiples (F : Type 0) : Type 0 where
  pub stop_mult : F
  pub tp_mult : F
  pub trail_mult : F

-- `now_ms // _DAY_MS`, rounded down.
abbrev pub day_of : ℤ → ℤ
day_of (pos n) = pos (n / 86_400_000)
day_of (negsuc n) = negsuc (n / 86_400_000)

pub record DailyBreaker (F : Type 0) : Type 0 where
  pub max_consecutive_losses : ℤ
  pub starting_equity : F
  pub max_daily_drawdown_pct : F
  pub max_daily_loss_usdc : Option F
  pub consecutive_losses : ℕ
  pub daily_pnl : F
  pub day : Option ℤ

abbrev same_day : Option ℤ → ℤ → Bool
same_day none d = false
same_day (some c) d = eqb_ℤ c d

module _ {F : Type 0} ⦃f : Float F⦄ where
  open f use {add, sub, mul, neg, abs, lt, le, decimal}

  -- The best price so far: the larger for a LONG, the smaller otherwise.
  pub next_peak : Bool → Option F → F → F
  next_peak is_long peak mark =
      if is_long then max_of (get_or peak mark) mark else min_of (get_or peak mark) mark

  -- `mark <= level` for a LONG, `mark >= level` otherwise.
  abbrev pub fell_to : Bool → F → F → Bool
  fell_to is_long mark level = if is_long then le mark level else le level mark

  -- `entry - distance` for a LONG, `entry + distance` otherwise.
  abbrev pub below : Bool → F → F → F
  below is_long price distance = if is_long then sub price distance else add price distance

  abbrev pub above : Bool → F → F → F
  above is_long price distance = if is_long then add price distance else sub price distance

  abbrev pub profit_of : Bool → F → F → F
  profit_of is_long entry mark = if is_long then sub mark entry else sub entry mark

  pub atr_exit_decision : String → F → F → F → AtrMultiples F → Option F → Bool → ExitSignal F
  unfolding next_peak
  atr_exit_decision side entry mark atr m peak armed =
      let is_long = str_eq (upper side) "LONG" in
      let best = next_peak is_long peak mark in
      let armed_now = armed || le (mul m.trail_mult atr) (profit_of is_long entry mark) in
      if le atr (whole 0) || (le entry (whole 0) || le mark (whole 0))
      then record { exit = false; reason = "NO_ATR"; peak = get_or peak mark; armed = armed }
      else if fell_to is_long mark (below is_long entry (mul m.stop_mult atr))
      then record { exit = true; reason = "ATR_STOP"; peak = best; armed = armed }
      else if fell_to (not is_long) mark (above is_long entry (mul m.tp_mult atr))
      then record { exit = true; reason = "ATR_TAKE_PROFIT"; peak = best; armed = armed }
      else if armed_now && fell_to is_long mark (below is_long best (mul m.trail_mult atr))
      then record { exit = true; reason = "ATR_TRAILING"; peak = best; armed = true }
      else record { exit = false; reason = "HOLD"; peak = best; armed = armed_now }

  pub new_breaker : ℤ → F → F → Option F → DailyBreaker F
  new_breaker max_losses equity drawdown loss = record {
    max_consecutive_losses = max_ℤ (pos 1) max_losses;
    starting_equity = equity;
    max_daily_drawdown_pct = drawdown;
    max_daily_loss_usdc = loss;
    consecutive_losses = 0;
    daily_pnl = decimal 0 1;
    day = none;
  }

  pub roll_day : ℤ → DailyBreaker F → DailyBreaker F
  roll_day now_ms b =
      if same_day b.day (day_of now_ms)
      then b
      else record b { day = some (day_of now_ms); daily_pnl = decimal 0 1; consecutive_losses = 0 }

  abbrev limit_or : Option F → F → F
  limit_or none x = abs x
  limit_or (some l) x = abs l

  pub daily_loss_limit : DailyBreaker F → F
  daily_loss_limit b =
      limit_or b.max_daily_loss_usdc (mul b.starting_equity b.max_daily_drawdown_pct)

  pub record_trade : F → ℤ → DailyBreaker F → DailyBreaker F
  unfolding roll_day
  record_trade net_pnl now_ms b =
      let c = roll_day now_ms b in
      record c {
        daily_pnl = add c.daily_pnl net_pnl;
        consecutive_losses = if lt net_pnl (whole 0) then c.consecutive_losses + 1 else 0;
      }

  -- The breaker after the call, and the reason where it is tripped.
  pub status : ℤ → DailyBreaker F → DailyBreaker F × Option String
  unfolding roll_day daily_loss_limit
  status now_ms b =
      let c = roll_day now_ms b in
      if leb_ℤ c.max_consecutive_losses (pos c.consecutive_losses)
      then (c, some "CIRCUIT_MAX_CONSECUTIVE_LOSSES")
      else if le c.daily_pnl (neg (daily_loss_limit c))
      then (c, some "CIRCUIT_DAILY_LOSS_LIMIT")
      else (c, none)

  pub is_tripped : ℤ → DailyBreaker F → DailyBreaker F × Bool
  unfolding status
  is_tripped now_ms b = let r = status now_ms b in (r.0, is_some r.1)
