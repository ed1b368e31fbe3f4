-- ===== src/Dydx/Exits/Trailing.antt =====
-- hyper_smart_observer/dydx_v4/adaptive_exits.py: `TrailingState.update` over a sequence of prices.
use hyperliquid_smart_wallet.Prelude.{
  ◌≡◌, refl, String, Bool, true, false, ◌&&◌, List, [], ◌∷◌, Option, none, some, if◌then◌else◌,
  arith, map, Bool-cases, inl, inr,
}
use hyperliquid_smart_wallet.Float.{Float, IsOrdered, whole}
use hyperliquid_smart_wallet.Dydx.Exits.{
  PlanSettings, ExitMethod, TrailingState, is_long_side, update_armed, update, new_trailing,
  build_exit_plan,
}

module _ {F : Type 0} ⦃f : Float F⦄ where
  open f use {add, sub, lt, le, decimal}

  pub run : List F → TrailingState F → TrailingState F
  run [] t = t
  run (m ∷ ms) t = run ms (update m t).0

  -- The answers of the calls.
  unfoldable pub answers : List F → TrailingState F → List (Option F)
  answers [] t = []
  answers (m ∷ ms) t = (update m t).1 ∷ answers ms (update m t).0

  -- The better of two prices: the higher one for a LONG, the lower one for a SHORT; of prices that are
  -- not ordered, the second.
  abbrev pub better : Bool → F → F → F
  better true m b = if lt b m then m else b
  better false m b = if lt m b then m else b

  -- A LONG's stop is the distance below its best price, a SHORT's above it.
  abbrev pub stop_for : Bool → F → F → F
  stop_for true best distance = sub best distance
  stop_for false best distance = add best distance

  -- The price has fallen to a LONG's stop, or risen to a SHORT's.
  abbrev pub comes_back : Bool → F → F → Bool
  comes_back true price stop = le price stop
  comes_back false price stop = le stop price

  -- The price has risen to a LONG's level, or fallen to a SHORT's.
  abbrev pub arms : Bool → F → F → Bool
  arms true price level = le level price
  arms false price level = le price level

  -- The best of a price and the later ones.
  abbrev pub best_of : Bool → F → List F → F
  best_of long b [] = b
  best_of long b (m ∷ ms) = best_of long (better long m b) ms

  -- What a stop answers that was armed at its best price `b`: it fires at the prices that have come
  -- back to the distance from the best price so far.
  abbrev pub fires : Bool → F → F → List F → List (Option F)
  fires long d b [] = []
  fires long d b (m ∷ ms) =
      let n = better long m b in
      let stop = stop_for long n d in
      (if comes_back long m stop then some stop else none) ∷ fires long d n ms

  -- The same from the start: nothing until a price reaches the level, and nothing at that one.
  abbrev pub fires_from : Bool → F → F → List F → List (Option F)
  fires_from long d level [] = []
  fires_from long d level (m ∷ ms) =
      none ∷ (if arms long m level then fires long d m ms else fires_from long d level ms)

  abbrev pub best_from : Bool → F → List F → Option F
  best_from long level [] = none
  best_from long level (m ∷ ms) =
      let later = best_from long level ms in
      if arms long m level then some (best_of long m ms) else later

  -- The stop that the state has is the one for this best price, or it is not armed.
  pub Shows : Option F → TrailingState F → Type 0
  Shows none t = t.armed ≡ false
  Shows (some b) t =
      (t.armed ≡ true)
      × (t.best_price ≡ b)
      × (t.trail_stop_price ≡ stop_for (is_long_side t.side) b t.trail_distance)

  unfoldable pub IsPrices : List F → Type 0
  IsPrices [] = Unit
  IsPrices (m ∷ ms) = (le m (whole 0) ≡ false) × IsPrices ms

  update-armed :
      (m b : F) (t : TrailingState F)
      → le t.trail_distance (whole 0) ≡ false
      → le m (whole 0) ≡ false
      → Shows (some b) t
      → let long = is_long_side t.side in
        let n = better long m b in
        let stop = stop_for long n t.trail_distance in
        Shows (some n) (update m t).0
        × ((update m t).1 ≡ (if comes_back long m stop then some stop else none))
        × ((update m t).0.side ≡ t.side)
        × ((update m t).0.trail_distance ≡ t.trail_distance)
  unfolding update update_armed Shows
  update-armed m b t d h s = ground (arith, d, h, s)

  armed_run :
      (ms : List F) (b : F) (t : TrailingState F)
      → le t.trail_distance (whole 0) ≡ false
      → IsPrices ms
      → Shows (some b) t
      → let long = is_long_side t.side in
        Shows (some (best_of long b ms)) (run ms t)
        × (answers ms t ≡ fires long t.trail_distance b ms)
  unfolding run answers IsPrices
  armed_run [] b t d h s = (s, refl)
  armed_run (m ∷ ms) b t d h s =
      let long = is_long_side t.side in
      let n = better long m b in
      let u = update-armed m b t d h.0 s in
      ground (arith, d, u, armed_run ms n (update m t).0 (ground (arith, d, u)) h.1 u.0)

  update-unarmed :
      (m : F) (t : TrailingState F)
      → le t.trail_distance (whole 0) ≡ false
      → le m (whole 0) ≡ false
      → t.armed ≡ false
      → let long = is_long_side t.side in
        ((update m t).1 ≡ none)
        × (arms long m t.trail_arm_price ≡ true → Shows (some m) (update m t).0)
        × (arms long m t.trail_arm_price ≡ false → (update m t).0 ≡ t)
        × ((update m t).0.side ≡ t.side)
        × ((update m t).0.trail_distance ≡ t.trail_distance)
  unfolding update Shows
  update-unarmed m t d h a = ground (arith, d, h, a)

  -- While the prices are above 0 and the distance is, a stop that is not armed answers nothing until
  -- the price has risen to its level, for a SHORT fallen to it, nor at that price; from then on it
  -- answers its stop, the distance below the highest price so far, for a SHORT above the lowest, at
  -- each price that has fallen to it, for a SHORT risen to it; and it shows the stop of that price.
  pub run-fires :
      (ms : List F) (t : TrailingState F)
      → le t.trail_distance (whole 0) ≡ false
      → IsPrices ms
      → t.armed ≡ false
      → let long = is_long_side t.side in
        (answers ms t ≡ fires_from long t.trail_distance t.trail_arm_price ms)
        × Shows (best_from long t.trail_arm_price ms) (run ms t)
  unfolding run answers IsPrices Shows
  run-fires [] t d h a = (refl, a)
  run-fires (m ∷ ms) t d h a =
      let u = update-unarmed m t d h.0 a in
      elim (Bool-cases (arms (is_long_side t.side) m t.trail_arm_price)) [
        | inl e ↦
            let n = (update m t).0 in
            let r = armed_run ms m n (ground (arith, d, u)) h.1 (u.1 e) in ground (arith, e, u, r)
        | inr e ↦ ground (arith, e, u, run-fires ms t d h.1 a)
      ]

  still_run :
      (ms : List F) (t : TrailingState F)
      → le t.trail_distance (whole 0) ≡ true
      → (run ms t ≡ t) × (answers ms t ≡ map (λ m. none) ms)
  unfolding run answers update
  still_run [] t d = (refl, refl)
  still_run (m ∷ ms) t d = ground (arith, d, still_run ms t d)

  -- Where the average range or the entry price is not above 0, the plan that falls back to fixed
  -- percentages has a trailing stop that no price changes and that never answers.
  pub build_exit_plan-still :
      (entry_price : F) (side : String) (range : F) (s : PlanSettings F) (ms : List F)
      → IsOrdered F
      → (lt (whole 0) range && lt (whole 0) entry_price) ≡ false
      → let t = new_trailing side (build_exit_plan entry_price side range s) in
        ((build_exit_plan entry_price side range s).method ≡ ExitMethod.fixed_pct_fallback)
        × (run ms t ≡ t)
        × (answers ms t ≡ map (λ m. none) ms)
  unfolding build_exit_plan new_trailing
  build_exit_plan-still entry_price side range s ms laws h =
      let t = new_trailing side (build_exit_plan entry_price side range s) in
      let zero : le (decimal 0 1) (whole 0) ≡ true =
        ground (arith, laws.zero_literal, laws.zero_refl) in
      let r = still_run ms t (ground (arith, h, zero)) in (ground (arith, h), r.0, r.1)
