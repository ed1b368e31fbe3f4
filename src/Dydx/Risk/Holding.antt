-- ===== src/Dydx/Risk/Holding.antt =====
-- hyper_smart_observer/dydx_v4/risk_policy.py: the tests on holding times, and the average range.
use hyperliquid_smart_wallet.Prelude.{
  ℕ, ◌-◌, ◌==◌, Bool, true, false, not, ◌&&◌, List, [], ◌∷◌, Option, none, some, if◌then◌else◌,
  length, drop, ltb,
}
use hyperliquid_smart_wallet.Prelude.Int.{ℤ, pos, ◌-ℤ◌}
use hyperliquid_smart_wallet.Float.{Float, whole, sum}

module _ {F : Type 0} ⦃f : Float F⦄ where
  open f use {sub, mul, div, abs, lt, le, of_int, decimal}

  -- `elapsed >= seconds * 1000.0`
  abbrev pub has_elapsed : ℤ → ℤ → F → Bool
  has_elapsed from_ms now_ms seconds =
      le (mul seconds (decimal 10_000 1)) (of_int (now_ms -ℤ from_ms))

  pub held_long_enough : ℤ → ℤ → F → Bool
  held_long_enough opened_at_ms now_ms min_hold_s =
      if le min_hold_s (whole 0) then true else has_elapsed opened_at_ms now_ms min_hold_s

  pub reopen_allowed : Option ℤ → ℤ → F → Bool
  reopen_allowed none now_ms cooldown_s = true
  reopen_allowed (some last_closed_at_ms) now_ms cooldown_s =
      if le cooldown_s (whole 0) then true else has_elapsed last_closed_at_ms now_ms cooldown_s

  pub is_scalper : Option F → F → Bool
  is_scalper none min_hold_seconds = false
  is_scalper (some median) min_hold_seconds = lt median min_hold_seconds

  -- The changes from each price to the next.
  abbrev pub deltas : F → List F → List F
  deltas previous [] = []
  deltas previous (p ∷ ps) = abs (sub p previous) ∷ deltas p ps

  -- `deltas[-period:]`, which is the whole list where the period is 0.
  abbrev pub recent_deltas : ℕ → List F → List F
  recent_deltas period ds =
      if ltb period (length ds) && not (period == 0) then drop (length ds - period) ds else ds

  abbrev pub average : List F → F
  average [] = decimal 0 1
  average (d ∷ ds) = div (sum (d ∷ ds)) (of_int (pos (length (d ∷ ds))))

  pub rolling_atr : List F → ℕ → F
  rolling_atr [] period = decimal 0 1
  rolling_atr (p ∷ ps) period = average (recent_deltas period (deltas p ps))
