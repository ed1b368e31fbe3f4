-- ===== src/CircuitBreaker/Limits.antt =====
-- What one evaluation of the breaker does: which limits block the next trade, what multiplier is
-- left when none is hit, and what the peak of the equity is.
use hyperliquid_smart_wallet.Prelude.{
  ◌≤◌, ◌≡◌, ◌⊎◌, true, false, List, [], ◌∷◌, arith, if◌then◌else◌,
}
use hyperliquid_smart_wallet.Float.{Float, IsOrdered}
use hyperliquid_smart_wallet.CircuitBreaker.{
  CircuitState, Config, Reason, Breaker, drawdown_pct, raise_peak, is_rapid_loss, size_trade,
  check_limits, after_pause, evaluate_circuit_breaker, reset_circuit_breaker, is_paused, is_halted,
}

module _ {F : Type 0} ⦃f : Float F⦄ where
  open f use {sub, div, lt, le, decimal}

  -- The limits of the source in the order of the code, as conditions on the drawdown and the state.
  pub data Limit (now : F) (cfg : Config F) (dd : F) (s : Breaker F) : Type 0 where
    drawdown_halts : le cfg.halt_drawdown_pct dd ≡ true → Limit now cfg dd s
    streak_halts : cfg.halt_losing_streak ≤ s.consecutive_losses → Limit now cfg dd s
    drawdown_pauses : le cfg.pause_drawdown_pct dd ≡ true → Limit now cfg dd s
    streak_pauses : cfg.pause_losing_streak ≤ s.consecutive_losses → Limit now cfg dd s
    rapid_loss : is_rapid_loss now cfg s ≡ true → Limit now cfg dd s
    hourly : cfg.max_trades_per_hour ≤ s.trades_this_hour → Limit now cfg dd s
    daily : cfg.max_trades_per_day ≤ s.trades_this_day → Limit now cfg dd s

  check_limits-Limit :
      (now : F) (cfg : Config F) (dd : F) (s : Breaker F) (rs : List (Reason F))
      → Limit now cfg dd s
      → (check_limits now cfg dd s rs).sizing_multiplier ≡ decimal 0 1
  unfolding check_limits
  check_limits-Limit now cfg dd s rs (drawdown_halts h) = ground arith
  check_limits-Limit now cfg dd s rs (streak_halts h) = ground arith
  check_limits-Limit now cfg dd s rs (drawdown_pauses h) = ground arith
  check_limits-Limit now cfg dd s rs (streak_pauses h) = ground arith
  check_limits-Limit now cfg dd s rs (rapid_loss h) = ground arith
  check_limits-Limit now cfg dd s rs (hourly h) = ground arith
  check_limits-Limit now cfg dd s rs (daily h) = ground arith

  -- The state that the limits see: a pause that is over has become a recovery, and the peak is
  -- raised to the equity.
  abbrev pub awake : Breaker F → Breaker F
  awake s = raise_peak (
      if is_paused s.state
      then record s { state = CircuitState.recovery; consecutive_wins_in_recovery = 0 }
      else s)

  pub data Blocks (now : F) (cfg : Config F) (s : Breaker F) : Type 0 where
    is_halted_now : s.state ≡ CircuitState.halted → Blocks now cfg s
    cooling :
        s.state ≡ CircuitState.paused
        → le cfg.cooldown_minutes (div (sub now s.paused_at) (decimal 600 1)) ≡ false
        → Blocks now cfg s
    limit : Limit now cfg (drawdown_pct (awake s)) (awake s) → Blocks now cfg s

  -- A limit that is hit, a halt or a pause that has not cooled down leaves the multiplier 0.0.
  pub evaluate-Blocks :
      (now : F) (cfg : Config F) (s : Breaker F)
      → Blocks now cfg s
      → (evaluate_circuit_breaker now cfg s).sizing_multiplier ≡ decimal 0 1
  unfolding evaluate_circuit_breaker after_pause
  evaluate-Blocks now cfg s (is_halted_now h) = ground arith
  evaluate-Blocks now cfg s (cooling h k) = ground arith
  evaluate-Blocks now cfg s (limit l) =
      let t = awake s in
      let dd = drawdown_pct t in
      ground (
        arith,
        check_limits-Limit now cfg dd t [] l,
        check_limits-Limit now cfg dd t (Reason.cooldown_expired ∷ []) l,
      )

  -- A trade is sized by the state that the evaluation leaves.
  abbrev pub IsSized : Config F → Breaker F → Type 0
  IsSized cfg s =
      ((s.state ≡ CircuitState.normal) × (s.sizing_multiplier ≡ decimal 10 1))
      ⊎ ((s.state ≡ CircuitState.caution) × (s.sizing_multiplier ≡ decimal 7 1))
      ⊎ ((s.state ≡ CircuitState.recovery) × (s.sizing_multiplier ≡ cfg.recovery_sizing_multiplier))

  size_trade-IsSized :
      (cfg : Config F) (dd : F) (s : Breaker F) (rs : List (Reason F))
      → IsSized cfg (size_trade cfg dd s rs)
  unfolding size_trade
  size_trade-IsSized cfg dd s rs = ground arith

  check_limits-IsSized :
      (now : F) (cfg : Config F) (dd : F) (s : Breaker F) (rs : List (Reason F))
      → ¬ Limit now cfg dd s
      → IsSized cfg (check_limits now cfg dd s rs)
  unfolding check_limits
  check_limits-IsSized now cfg dd s rs free = ground (
    arith,
    λ (h : le cfg.halt_drawdown_pct dd ≡ true). free (drawdown_halts h),
    λ (h : cfg.halt_losing_streak ≤ s.consecutive_losses). free (streak_halts h),
    λ (h : le cfg.pause_drawdown_pct dd ≡ true). free (drawdown_pauses h),
    λ (h : cfg.pause_losing_streak ≤ s.consecutive_losses). free (streak_pauses h),
    λ (h : is_rapid_loss now cfg s ≡ true). free (rapid_loss h),
    λ (h : cfg.max_trades_per_hour ≤ s.trades_this_hour). free (hourly h),
    λ (h : cfg.max_trades_per_day ≤ s.trades_this_day). free (daily h),
    size_trade-IsSized cfg dd s rs,
  )

  -- Where nothing blocks, the trade is allowed: 1.0 in NORMAL, 0.7 in CAUTION, the configured
  -- multiplier in RECOVERY.
  pub evaluate-IsSized :
      (now : F) (cfg : Config F) (s : Breaker F)
      → ¬ Blocks now cfg s
      → IsSized cfg (evaluate_circuit_breaker now cfg s)
  unfolding evaluate_circuit_breaker after_pause
  evaluate-IsSized now cfg s free =
      let t = awake s in
      let dd = drawdown_pct t in
      let unlimited : ¬ Limit now cfg dd t = λ l. free (limit l) in
      ground (
        arith,
        λ (h : s.state ≡ CircuitState.halted). free (is_halted_now h),
        free_of_cooling,
        check_limits-IsSized now cfg dd t [] unlimited,
        check_limits-IsSized now cfg dd t (Reason.cooldown_expired ∷ []) unlimited,
      )
    where
      free_of_cooling :
          s.state ≡ CircuitState.paused
          → le cfg.cooldown_minutes (div (sub now s.paused_at) (decimal 600 1)) ≡ false
          → ⊥
      free_of_cooling h k = free (cooling h k)

  check_limits-peak :
      (now : F) (cfg : Config F) (dd : F) (s : Breaker F) (rs : List (Reason F))
      → (check_limits now cfg dd s rs).peak_equity_usdt ≡ s.peak_equity_usdt
  unfolding check_limits size_trade
  check_limits-peak now cfg dd s rs = ground arith

  module _ (laws : IsOrdered F) where
    raise_peak-le :
        (s : Breaker F)
        → le s.peak_equity_usdt s.peak_equity_usdt ≡ true
        → le s.current_equity_usdt s.current_equity_usdt ≡ true
        → (le s.current_equity_usdt (raise_peak s).peak_equity_usdt ≡ true)
          × (le s.peak_equity_usdt (raise_peak s).peak_equity_usdt ≡ true)
    unfolding raise_peak
    raise_peak-le s p e = ground (
      arith,
      laws.le_or_lt s.current_equity_usdt s.peak_equity_usdt e p,
      laws.le_of_lt s.peak_equity_usdt s.current_equity_usdt,
    )

    -- Where the equity and the peak are numbers and the breaker is neither halted nor paused, the
    -- peak that an evaluation leaves is at least the equity and at least the old peak.
    pub evaluate-peak :
        (now : F) (cfg : Config F) (s : Breaker F)
        → le s.peak_equity_usdt s.peak_equity_usdt ≡ true
        → le s.current_equity_usdt s.current_equity_usdt ≡ true
        → is_halted s.state ≡ false
        → is_paused s.state ≡ false
        → let peak = (evaluate_circuit_breaker now cfg s).peak_equity_usdt in
          (le s.current_equity_usdt peak ≡ true) × (le s.peak_equity_usdt peak ≡ true)
    unfolding evaluate_circuit_breaker after_pause
    evaluate-peak now cfg s p e awake_now running = ground (
      arith,
      check_limits-peak now cfg (drawdown_pct (raise_peak s)) (raise_peak s) [],
      raise_peak-le s p e,
    )

  raise_peak-reset :
      (s : Breaker F)
      → drawdown_pct (raise_peak (reset_circuit_breaker s)) ≡ drawdown_pct (raise_peak s)
  unfolding raise_peak drawdown_pct reset_circuit_breaker
  raise_peak-reset s = ground arith

  -- A manual reset keeps the peak: where the drawdown that halted the breaker is still there, the
  -- next evaluation halts it again and the multiplier is 0.0.
  pub reset_halts_again :
      (now : F) (cfg : Config F) (s : Breaker F)
      → le cfg.halt_drawdown_pct (drawdown_pct (raise_peak s)) ≡ true
      → let t = evaluate_circuit_breaker now cfg (reset_circuit_breaker s) in
        (t.state ≡ CircuitState.halted) × (t.sizing_multiplier ≡ decimal 0 1)
  unfolding evaluate_circuit_breaker after_pause check_limits reset_circuit_breaker
  reset_halts_again now cfg s h = ground (arith, raise_peak-reset s)
