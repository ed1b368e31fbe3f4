-- ===== src/CircuitBreaker.antt =====
-- src/hl_observer/copying/circuit_breaker.py: the session breaker that is asked before each new
-- paper trade. The object that the code mutates is the record that each operation returns, and
-- `time.time()` is the argument `now`. A reason is a constructor with the numbers that the code
-- formats into its text.
pub mod Limits
pub mod Runs
mod Tests
use hyperliquid_smart_wallet.Prelude.{
  ℕ, ◌+◌, Bool, true, false, ◌||◌, List, [], ◌∷◌, ◌++◌, map, leb, if◌then◌else◌, keep, is_empty,
}
use hyperliquid_smart_wallet.Float.{Float, whole, min_of, sum}

pub data CircuitState : Type 0 where
  normal caution paused halted recovery : CircuitState

abbrev pub is_paused : CircuitState → Bool
is_paused CircuitState.paused = true
is_paused s = false

abbrev pub is_halted : CircuitState → Bool
is_halted CircuitState.halted = true
is_halted s = false

abbrev pub is_recovery : CircuitState → Bool
is_recovery CircuitState.recovery = true
is_recovery s = false

pub record Config (F : Type 0) : Type 0 where
  pub caution_drawdown_pct : F
  pub pause_drawdown_pct : F
  pub halt_drawdown_pct : F
  pub caution_losing_streak : ℕ
  pub pause_losing_streak : ℕ
  pub halt_losing_streak : ℕ
  pub cooldown_minutes : F
  pub recovery_sizing_multiplier : F
  pub recovery_trades_before_normal : ℕ
  pub max_trades_per_hour : ℕ
  pub max_trades_per_day : ℕ
  pub rapid_loss_bps : F
  pub rapid_loss_window_minutes : F

pub data Reason (F : Type 0) : Type 0 where
  cooldown_expired halted_manual_reset rate_limit_hourly rate_limit_daily : Reason F
  recovery_complete manual_reset : Reason F
  paused_remaining halt_drawdown pause_drawdown recovery_mode caution_drawdown : F → Reason F
  halt_losing_streak pause_losing_streak caution_streak : ℕ → Reason F
  pause_rapid_loss : F → F → Reason F

-- A closed trade: its time and its result in basis points.
abbrev pub PnlEvent : Type 0 → Type 0
PnlEvent F = F × F

pub record Breaker (F : Type 0) : Type 0 where
  pub state : CircuitState
  pub peak_equity_usdt : F
  pub current_equity_usdt : F
  pub session_pnl_usdt : F
  pub consecutive_losses : ℕ
  pub consecutive_wins_in_recovery : ℕ
  pub trades_this_hour : ℕ
  pub trades_this_day : ℕ
  pub last_trade_timestamp : F
  pub paused_at : F
  pub recent_pnl_events : List (PnlEvent F)
  pub sizing_multiplier : F
  pub reasons : List (Reason F)

module _ {F : Type 0} ⦃f : Float F⦄ where
  open f use {add, sub, mul, div, abs, lt, le, decimal}

  abbrev pub default_config : Config F
  default_config = record {
    caution_drawdown_pct = decimal 30 1;
    pause_drawdown_pct = decimal 50 1;
    halt_drawdown_pct = decimal 100 1;
    caution_losing_streak = 2;
    pause_losing_streak = 4;
    halt_losing_streak = 7;
    cooldown_minutes = decimal 300 1;
    recovery_sizing_multiplier = decimal 5 1;
    recovery_trades_before_normal = 3;
    max_trades_per_hour = 10;
    max_trades_per_day = 50;
    rapid_loss_bps = decimal 500 1;
    rapid_loss_window_minutes = decimal 150 1;
  }

  abbrev pub initial : Breaker F
  initial = record {
    state = CircuitState.normal;
    peak_equity_usdt = decimal 10000 1;
    current_equity_usdt = decimal 10000 1;
    session_pnl_usdt = decimal 0 1;
    consecutive_losses = 0;
    consecutive_wins_in_recovery = 0;
    trades_this_hour = 0;
    trades_this_day = 0;
    last_trade_timestamp = decimal 0 1;
    paused_at = decimal 0 1;
    recent_pnl_events = [];
    sizing_multiplier = decimal 10 1;
    reasons = [];
  }

  -- The early returns of `evaluate_circuit_breaker`: halt, pause, or refuse this trade only.
  abbrev pub halt : Breaker F → List (Reason F) → Breaker F
  halt s rs = record s {
    state = CircuitState.halted;
    sizing_multiplier = decimal 0 1;
    reasons = rs;
  }

  abbrev pub pause : F → Breaker F → List (Reason F) → Breaker F
  pause now s rs = record s {
    state = CircuitState.paused;
    paused_at = now;
    sizing_multiplier = decimal 0 1;
    reasons = rs;
  }

  abbrev pub refuse : Breaker F → List (Reason F) → Breaker F
  refuse s rs = record s { sizing_multiplier = decimal 0 1; reasons = rs }

  unfoldable pub drawdown_pct : Breaker F → F
  drawdown_pct s =
      if lt (whole 0) s.peak_equity_usdt
      then mul (div (sub s.peak_equity_usdt s.current_equity_usdt) s.peak_equity_usdt)
          (decimal 1000 1)
      else decimal 0 1

  unfoldable pub raise_peak : Breaker F → Breaker F
  raise_peak s =
      if lt s.peak_equity_usdt s.current_equity_usdt
      then record s { peak_equity_usdt = s.current_equity_usdt }
      else s

  -- The results of the window, and the sum of those below 0.
  unfoldable pub recent_results : F → Config F → Breaker F → List F
  recent_results now cfg s =
      let cutoff = sub now (mul cfg.rapid_loss_window_minutes (decimal 600 1)) in
      map (λ (e : PnlEvent F). e.1) (keep (λ (e : PnlEvent F). le cutoff e.0) s.recent_pnl_events)

  pub recent_loss_bps : F → Config F → Breaker F → F
  unfolding recent_results
  recent_loss_bps now cfg s = abs (sum (map (min_of (whole 0)) (recent_results now cfg s)))

  unfoldable pub is_rapid_loss : F → Config F → Breaker F → Bool
  is_rapid_loss now cfg s =
      if is_empty (recent_results now cfg s)
      then false
      else le cfg.rapid_loss_bps (recent_loss_bps now cfg s)

  -- The last part of the evaluation, when no limit is hit.
  unfoldable pub size_trade : Config F → F → Breaker F → List (Reason F) → Breaker F
  size_trade cfg dd s rs =
      if is_recovery s.state
      then if leb cfg.recovery_trades_before_normal s.consecutive_wins_in_recovery
        then record s {
          state = CircuitState.normal;
          sizing_multiplier = decimal 10 1;
          reasons = rs ++ (Reason.recovery_complete ∷ []);
        }
        else record s {
          sizing_multiplier = cfg.recovery_sizing_multiplier;
          reasons = rs ++ (Reason.recovery_mode cfg.recovery_sizing_multiplier ∷ []);
        }
      else if le cfg.caution_drawdown_pct dd || leb cfg.caution_losing_streak s.consecutive_losses
      then record s {
        state = CircuitState.caution;
        sizing_multiplier = decimal 7 1;
        reasons =
            (rs ++ (if le cfg.caution_drawdown_pct dd then Reason.caution_drawdown dd ∷ [] else []))
            ++ (if leb cfg.caution_losing_streak s.consecutive_losses
                then Reason.caution_streak s.consecutive_losses ∷ []
                else []);
      }
      else record s { state = CircuitState.normal; sizing_multiplier = decimal 10 1; reasons = rs }

  -- The chain of limits, in the order of the source; `dd` is the drawdown.
  unfoldable pub check_limits : F → Config F → F → Breaker F → List (Reason F) → Breaker F
  check_limits now cfg dd s rs =
      if le cfg.halt_drawdown_pct dd
      then halt s (rs ++ (Reason.halt_drawdown dd ∷ []))
      else if leb cfg.halt_losing_streak s.consecutive_losses
      then halt s (rs ++ (Reason.halt_losing_streak s.consecutive_losses ∷ []))
      else if le cfg.pause_drawdown_pct dd
      then pause now s (rs ++ (Reason.pause_drawdown dd ∷ []))
      else if leb cfg.pause_losing_streak s.consecutive_losses
      then pause now s (rs ++ (Reason.pause_losing_streak s.consecutive_losses ∷ []))
      else if is_rapid_loss now cfg s
      then pause now s (
          rs
          ++ (Reason.pause_rapid_loss (recent_loss_bps now cfg s) cfg.rapid_loss_window_minutes
              ∷ []))
      else if leb cfg.max_trades_per_hour s.trades_this_hour
      then refuse s (rs ++ (Reason.rate_limit_hourly ∷ []))
      else if leb cfg.max_trades_per_day s.trades_this_day
      then refuse s (rs ++ (Reason.rate_limit_daily ∷ []))
      else size_trade cfg dd s rs

  unfoldable pub after_pause : F → Config F → Breaker F → List (Reason F) → Breaker F
  after_pause now cfg s rs =
      if is_halted s.state
      then refuse s (rs ++ (Reason.halted_manual_reset ∷ []))
      else let t = raise_peak s in check_limits now cfg (drawdown_pct t) t rs

  unfoldable pub evaluate_circuit_breaker : F → Config F → Breaker F → Breaker F
  evaluate_circuit_breaker now cfg s =
      let elapsed_minutes = div (sub now s.paused_at) (decimal 600 1) in
      if is_paused s.state
      then if le cfg.cooldown_minutes elapsed_minutes
        then after_pause now cfg
            (record s { state = CircuitState.recovery; consecutive_wins_in_recovery = 0 })
            (Reason.cooldown_expired ∷ [])
        else refuse s (Reason.paused_remaining (sub cfg.cooldown_minutes elapsed_minutes) ∷ [])
      else after_pause now cfg s []

  pub record_trade_result : F → F → F → Breaker F → Breaker F
  record_trade_result now pnl_bps pnl_usdt s =
      let won = le (whole 0) pnl_usdt in
      let in_recovery = is_recovery s.state in
      record s {
        session_pnl_usdt = add s.session_pnl_usdt pnl_usdt;
        current_equity_usdt = add s.current_equity_usdt pnl_usdt;
        recent_pnl_events =
            keep (λ (e : PnlEvent F). le (sub now (decimal 36000 1)) e.0)
              (s.recent_pnl_events ++ ((now, pnl_bps) ∷ []));
        consecutive_losses = if won then 0 else s.consecutive_losses + 1;
        consecutive_wins_in_recovery =
            if won
            then if in_recovery
              then s.consecutive_wins_in_recovery + 1
              else s.consecutive_wins_in_recovery
            else 0;
        trades_this_hour = s.trades_this_hour + 1;
        trades_this_day = s.trades_this_day + 1;
        last_trade_timestamp = now;
      }

  pub reset_circuit_breaker : Breaker F → Breaker F
  reset_circuit_breaker s = record s {
    state = CircuitState.recovery;
    consecutive_losses = 0;
    consecutive_wins_in_recovery = 0;
    sizing_multiplier = decimal 5 1;
    reasons = Reason.manual_reset ∷ [];
  }
