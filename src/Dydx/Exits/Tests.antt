-- ===== src/Dydx/Exits/Tests.antt =====
-- The exits on concrete prices.
use hyperliquid_smart_wallet.Prelude.{◌≡◌, refl, false, List, [], ◌∷◌, none, some, map, upper}
use hyperliquid_smart_wallet.Prelude.Int.{ℤ, pos, ◌-ℤ◌, ◌+ℤ◌}
use hyperliquid_smart_wallet.Float.Fixed.{fixed}
use hyperliquid_smart_wallet.Dydx.Exits.{TrailingState, update, update_armed}
use hyperliquid_smart_wallet.Dydx.Exits.Trailing.{
  Shows, IsPrices, run, answers, fires_from, best_from, run-fires,
}

abbrev trailing : TrailingState ℤ
trailing = record {
  side = "long";
  trail_distance = fixed.decimal 5 0;
  trail_arm_price = fixed.decimal 110 0;
  armed = false;
  best_price = pos 0;
  trail_stop_price = pos 0;
}

-- Armed at 111, best at 120, fired at 114.
abbrev prices : List ℤ
prices = map (λ n. fixed.decimal n 0) (100 ∷ 111 ∷ 120 ∷ 118 ∷ 114 ∷ [])

prices-answers :
    answers prices trailing ≡ none ∷ none ∷ none ∷ none ∷ some (fixed.decimal 115 0) ∷ []
unfolding answers update update_armed upper ◌-ℤ◌ ◌+ℤ◌
prices-answers = refl

abbrev short_trailing : TrailingState ℤ
short_trailing = record trailing { side = "Short" }

-- Armed at 109, best at 100, fired at 106.
abbrev falling : List ℤ
falling = map (λ n. fixed.decimal n 0) (120 ∷ 109 ∷ 100 ∷ 102 ∷ 106 ∷ [])

falling-answers :
    answers falling short_trailing ≡ none ∷ none ∷ none ∷ none ∷ some (fixed.decimal 105 0) ∷ []
unfolding answers update update_armed upper ◌-ℤ◌ ◌+ℤ◌
falling-answers = refl

run-fires_example :
    (answers falling short_trailing
      ≡ fires_from false short_trailing.trail_distance short_trailing.trail_arm_price falling)
    × Shows (best_from false short_trailing.trail_arm_price falling) (run falling short_trailing)
unfolding IsPrices upper
run-fires_example =
    run-fires falling short_trailing refl (refl, (refl, (refl, (refl, (refl, tt))))) refl
