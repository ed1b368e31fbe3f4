-- ===== src/Dydx/Risk/Tests.antt =====
-- The risk policy on concrete prices.
use hyperliquid_smart_wallet.Prelude.{◌≡◌, refl, true, false, none, upper}
use hyperliquid_smart_wallet.Prelude.Int.{ℤ, pos, ◌+ℤ◌, ◌-ℤ◌}
use hyperliquid_smart_wallet.Float.Fixed.{fixed}
use hyperliquid_smart_wallet.Dydx.Risk.{
  AtrMultiples, DailyBreaker, new_breaker, atr_exit_decision, next_peak,
}

abbrev multiples : AtrMultiples ℤ
multiples = record {
  stop_mult = fixed.decimal 15 1;
  tp_mult = fixed.decimal 30 1;
  trail_mult = fixed.decimal 10 1;
}

abbrev breaker : DailyBreaker ℤ
breaker = new_breaker (pos 2) (fixed.decimal 1000 0) (fixed.decimal 5 2) none

-- A LONG entered at 100 with a range of 2 is left at 97, and its trailing stop is armed at 102.
atr_stop :
    ((atr_exit_decision "long"
        (fixed.decimal 100 0)
        (fixed.decimal 97 0)
        (fixed.decimal 2 0)
        multiples
        none
        false).reason
      ≡ "ATR_STOP")
    × ((atr_exit_decision "long"
          (fixed.decimal 100 0)
          (fixed.decimal 102 0)
          (fixed.decimal 2 0)
          multiples
          none
          false).armed
        ≡ true)
unfolding atr_exit_decision next_peak ◌+ℤ◌ ◌-ℤ◌ upper
atr_stop = (refl, refl)
