-- ===== src/Dydx/Risk/Exits.antt =====
-- hyper_smart_observer/dydx_v4/risk_policy.py: when a position is left and when entries are blocked.
use hyperliquid_smart_wallet.Prelude.{
  ◌+◌, ◌≤◌, String, ◌≡◌, Bool, true, false, not, ◌&&◌, List, [], ◌∷◌, none, some, if◌then◌else◌,
  str_eq, upper, length, arith,
}
use hyperliquid_smart_wallet.Prelude.Int.{ℤ, pos, leb_ℤ, eqb_ℤ, ◌≤ℤ◌}
use hyperliquid_smart_wallet.Float.{Float, IsOrdered, whole}
use hyperliquid_smart_wallet.Dydx.Risk.{
  AtrMultiples, DailyBreaker, day_of, next_peak, atr_exit_decision, roll_day, daily_loss_limit,
  record_trade, status,
}

module _ {F : Type 0} ⦃f : Float F⦄ where
  open f use {neg, lt, le, decimal}

  -- Where the range and the prices are above zero and the old peak and the mark are numbers, the new
  -- peak is at least as good as both: above them for a LONG, below them otherwise. A trailing stop
  -- that is armed stays armed.
  pub atr_exit_decision-peak :
      IsOrdered F
      → (side : String) (entry mark atr : F) (m : AtrMultiples F) (p : F) (armed : Bool)
      → le atr (whole 0) ≡ false
      → le entry (whole 0) ≡ false
      → le mark (whole 0) ≡ false
      → le p p ≡ true
      → le mark mark ≡ true
      → let d = atr_exit_decision side entry mark atr m (some p) armed in
        let is_long = str_eq (upper side) "LONG" in
        ((if is_long then le p d.peak else le d.peak p) ≡ true)
        × ((if is_long then le mark d.peak else le d.peak mark) ≡ true)
        × ((armed && not d.armed) ≡ false)
  unfolding atr_exit_decision next_peak
  atr_exit_decision-peak laws side entry mark atr m p armed a b c n k = ground (
    arith,
    a,
    b,
    c,
    n,
    k,
    laws.le_of_lt p mark,
    laws.le_of_lt mark p,
    laws.le_or_lt p mark n k,
    laws.le_or_lt mark p k n,
  )

  -- Where the breaker last served on another day, admits at least one loss, and has zero above its
  -- negated loss limit, entries are free, whatever was recorded on that day.
  pub status_new_day :
      (now_ms : ℤ) (b : DailyBreaker F) (last : ℤ)
      → b.day ≡ some last
      → eqb_ℤ last (day_of now_ms) ≡ false
      → pos 1 ≤ℤ b.max_consecutive_losses
      → le (decimal 0 1) (neg (daily_loss_limit b)) ≡ false
      → (status now_ms b).1 ≡ none
  unfolding status roll_day daily_loss_limit
  status_new_day now_ms b last e n m l = ground (arith, e, n, m, l)

  -- Recording results, each with its time.
  pub record_all : List (ℤ × F) → DailyBreaker F → DailyBreaker F
  record_all [] b = b
  record_all (x ∷ xs) b = record_all xs (record_trade x.1 x.0 b)

  -- AllLost of one day.
  abbrev pub AllLost : ℤ → List (ℤ × F) → Type 0
  AllLost d [] = Unit
  AllLost d (x ∷ xs) = (day_of x.0 ≡ d) × (lt x.1 (whole 0) ≡ true) × AllLost d xs

  record_trade-loss :
      (x : F) (now_ms d : ℤ) (b : DailyBreaker F)
      → day_of now_ms ≡ d
      → lt x (whole 0) ≡ true
      → let c = record_trade x now_ms b in
        (c.day ≡ some d)
        × (1 ≤ c.consecutive_losses)
        × (c.max_consecutive_losses ≡ b.max_consecutive_losses)
  unfolding record_trade roll_day
  record_trade-loss x now_ms d b e l = ground (arith, e, l)

  record_trade-same_day :
      (x : F) (now_ms d : ℤ) (b : DailyBreaker F)
      → day_of now_ms ≡ d
      → lt x (whole 0) ≡ true
      → b.day ≡ some d
      → (record_trade x now_ms b).consecutive_losses ≡ b.consecutive_losses + 1
  unfolding record_trade roll_day
  record_trade-same_day x now_ms d b e l k = ground (arith, e, l, k)

  record_all-AllLost :
      (xs : List (ℤ × F)) (d : ℤ) (b : DailyBreaker F)
      → AllLost d xs
      → b.day ≡ some d
      → let c = record_all xs b in
        (c.day ≡ some d)
        × (c.consecutive_losses ≡ b.consecutive_losses + length xs)
        × (c.max_consecutive_losses ≡ b.max_consecutive_losses)
  unfolding record_all
  record_all-AllLost [] d b h k = ground (arith, k)
  record_all-AllLost (x ∷ xs) d b h k = ground (
    arith,
    record_trade-loss x.1 x.0 d b h.0 h.1,
    record_trade-same_day x.1 x.0 d b h.0 h.1 k,
    record_all-AllLost xs d (record_trade x.1 x.0 b) h.2 (record_trade-loss x.1 x.0 d b h.0 h.1).0,
  )

  status-tripped :
      (now_ms : ℤ) (b : DailyBreaker F)
      → b.day ≡ some (day_of now_ms)
      → leb_ℤ b.max_consecutive_losses (pos b.consecutive_losses) ≡ true
      → (status now_ms b).1 ≡ some "CIRCUIT_MAX_CONSECUTIVE_LOSSES"
  unfolding status roll_day
  status-tripped now_ms b e h = ground (arith, e, h)

  -- After as many losses in a row on one day as the breaker admits, entries are blocked for the rest
  -- of that day.
  pub losses_trip :
      (now_ms : ℤ) (x : ℤ × F) (xs : List (ℤ × F)) (b : DailyBreaker F)
      → AllLost (day_of now_ms) (x ∷ xs)
      → b.max_consecutive_losses ≤ℤ pos (length (x ∷ xs))
      → (status now_ms (record_all (x ∷ xs) b)).1 ≡ some "CIRCUIT_MAX_CONSECUTIVE_LOSSES"
  unfolding record_all
  losses_trip now_ms x xs b h l =
      let d = day_of now_ms in
      let c = record_trade-loss x.1 x.0 d b h.0 h.1 in
      let e = record_all-AllLost xs d (record_trade x.1 x.0 b) h.2 c.0 in
      status-tripped now_ms (record_all (x ∷ xs) b) e.0 (ground (arith, c, e, l))
