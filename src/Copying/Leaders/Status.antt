-- ===== src/Copying/Leaders/Status.antt =====
-- src/hl_observer/copying/leader_pnl_tracker.py: the status of a leader and its ejection.
use hyperliquid_smart_wallet.Prelude.{◌≡◌, Bool, true, false, if◌then◌else◌, arith, leb, ◌&&◌, ◌||◌}
use hyperliquid_smart_wallet.Float.{Float, IsOrdered, whole}
use hyperliquid_smart_wallet.Copying.Leaders.{
  LeaderPerformance, LeaderTracker, LeaderStatus, is_eject, is_profitable, judge, status_of,
  win_rate,
}

abbrev pub is_eject_status : LeaderStatus → Bool
is_eject_status LeaderStatus.eject_streak = true
is_eject_status LeaderStatus.eject_negative_pnl = true
is_eject_status LeaderStatus.eject_low_win_rate = true
is_eject_status s = false

module _ {F : Type 0} ⦃f : Float F⦄ where
  open f use {lt, le, decimal}

  -- With the thresholds of a new tracker: a leader whose status is profitable is ejected exactly
  -- after four losses in a row; any other exactly if its status says so and it has five trades or
  -- four losses in a row.
  pub judge-status :
      (k : LeaderTracker F) (p : LeaderPerformance F)
      → IsOrdered F
      → lt (decimal 35 2) (decimal 50 2) ≡ true
      → (k.min_trades_before_eject ≡ 3)
        × (k.max_consecutive_losses ≡ 4)
        × (k.eject_after_n_losing_trades ≡ 5)
        × (k.min_win_rate_threshold ≡ decimal 35 2)
      → is_eject (judge k p) ≡ (
          if is_profitable (status_of p)
          then leb 4 p.consecutive_losses
          else is_eject_status (status_of p)
            && (leb 5 p.total_trades || leb 4 p.consecutive_losses))
  unfolding judge status_of
  judge-status k p laws literals h =
      let rate = win_rate p in
      let pnl = p.total_pnl_usdt in
      ground (
        arith,
        h,
        laws.lt_irrefl (whole 0),
        laws.lt_of_lt_of_le (whole 0) pnl (whole 0),
        laws.le_of_lt pnl (whole 0),
        laws.lt_of_lt_of_le (decimal 35 2) (decimal 50 2) rate literals,
        laws.lt_of_lt_of_le rate (decimal 35 2) rate,
        laws.le_of_lt (decimal 35 2) rate,
        laws.lt_irrefl rate,
      )
