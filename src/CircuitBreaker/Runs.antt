-- ===== src/CircuitBreaker/Runs.antt =====
-- Whole sessions: any sequence of evaluations, recorded trades and manual resets.
use hyperliquid_smart_wallet.Prelude.{ℕ, ◌+◌, ◌≤◌, ◌≡◌, refl, List, [], ◌∷◌, arith, if◌then◌else◌}
use hyperliquid_smart_wallet.Float.{Float, whole}
use hyperliquid_smart_wallet.CircuitBreaker.{
  CircuitState, Config, Reason, Breaker, raise_peak, size_trade, check_limits, after_pause,
  evaluate_circuit_breaker, record_trade_result, reset_circuit_breaker,
}
use hyperliquid_smart_wallet.CircuitBreaker.Limits.{Limit, Blocks, awake, evaluate-Blocks}

-- The calls that the rest of the program makes, with the time of each.
pub data Call (F : Type 0) : Type 0 where
  evaluate : F → Call F
  trade : F → F → F → Call F
  reset : Call F

module _ {F : Type 0} ⦃f : Float F⦄ where
  open f use {lt, le, sub, decimal}

  pub step : Config F → Call F → Breaker F → Breaker F
  step cfg (Call.evaluate now) s = evaluate_circuit_breaker now cfg s
  step cfg (Call.trade now pnl_bps pnl_usdt) s = record_trade_result now pnl_bps pnl_usdt s
  step cfg Call.reset s = reset_circuit_breaker s

  pub run : Config F → List (Call F) → Breaker F → Breaker F
  run cfg [] s = s
  run cfg (c ∷ cs) s = run cfg cs (step cfg c s)

  check_limits-counts :
      (now : F) (cfg : Config F) (dd : F) (s : Breaker F) (rs : List (Reason F))
      → let t = check_limits now cfg dd s rs in
        (t.trades_this_hour ≡ s.trades_this_hour)
        × (t.trades_this_day ≡ s.trades_this_day)
        × (t.consecutive_losses ≡ s.consecutive_losses)
        × (t.recent_pnl_events ≡ s.recent_pnl_events)
  unfolding check_limits size_trade
  check_limits-counts now cfg dd s rs = ground arith

  raise_peak-counts :
      (s : Breaker F)
      → let t = raise_peak s in
        (t.trades_this_hour ≡ s.trades_this_hour)
        × (t.trades_this_day ≡ s.trades_this_day)
        × (t.consecutive_losses ≡ s.consecutive_losses)
        × (t.recent_pnl_events ≡ s.recent_pnl_events)
  unfolding raise_peak
  raise_peak-counts s = ground arith

  -- An evaluation changes no counter and forgets no trade.
  evaluate-counts :
      (now : F) (cfg : Config F) (s : Breaker F)
      → let t = evaluate_circuit_breaker now cfg s in
        (t.trades_this_hour ≡ s.trades_this_hour)
        × (t.trades_this_day ≡ s.trades_this_day)
        × (t.consecutive_losses ≡ s.consecutive_losses)
        × (t.recent_pnl_events ≡ s.recent_pnl_events)
  unfolding evaluate_circuit_breaker after_pause
  evaluate-counts now cfg s = grind (arith, check_limits-counts, raise_peak-counts)

  abbrev pub trades : List (Call F) → ℕ
  trades [] = 0
  trades (Call.evaluate now ∷ cs) = trades cs
  trades (Call.trade now b u ∷ cs) = trades cs + 1
  trades (Call.reset ∷ cs) = trades cs

  run-hour :
      (cfg : Config F) (cs : List (Call F)) (s : Breaker F)
      → (run cfg cs s).trades_this_hour ≡ s.trades_this_hour + trades cs
  unfolding run step record_trade_result reset_circuit_breaker
  run-hour cfg [] s = omega arith
  run-hour cfg (Call.evaluate now ∷ cs) s =
      ground
        (arith, run-hour cfg cs (evaluate_circuit_breaker now cfg s), evaluate-counts now cfg s)
  run-hour cfg (Call.trade now b u ∷ cs) s =
      omega (arith, run-hour cfg cs (record_trade_result now b u s))
  run-hour cfg (Call.reset ∷ cs) s = omega (arith, run-hour cfg cs (reset_circuit_breaker s))

  awake-hour : (s : Breaker F) → (awake s).trades_this_hour ≡ s.trades_this_hour
  unfolding raise_peak
  awake-hour s = ground arith

  -- After a sequence of calls in which trades are recorded up to the hourly limit, counting those
  -- that the breaker had counted before, no evaluation allows a trade, whatever time has passed and
  -- however often the breaker was reset by hand.
  pub hourly_limit_is_final :
      (now : F) (cfg : Config F) (cs : List (Call F)) (s : Breaker F)
      → cfg.max_trades_per_hour ≤ s.trades_this_hour + trades cs
      → (evaluate_circuit_breaker now cfg (run cfg cs s)).sizing_multiplier ≡ decimal 0 1
  hourly_limit_is_final now cfg cs s h =
      let t = run cfg cs s in
      evaluate-Blocks now cfg t
        (Blocks.limit (Limit.hourly (omega (arith, run-hour cfg cs s, awake-hour t))))

  -- The results in USDT since the last manual reset, newest first.
  abbrev pub history : List F → List (Call F) → List F
  history past [] = past
  history past (Call.evaluate now ∷ cs) = history past cs
  history past (Call.trade now b u ∷ cs) = history (u ∷ past) cs
  history past (Call.reset ∷ cs) = history [] cs

  -- How many of the newest results are losses without a break.
  abbrev pub losing_streak : List F → ℕ
  losing_streak [] = 0
  losing_streak (u ∷ past) = if le (whole 0) u then 0 else losing_streak past + 1

  -- In every session the counter is the number of losses since the last trade that did not lose or
  -- the last reset.
  pub run-losing_streak :
      (cfg : Config F) (cs : List (Call F)) (s : Breaker F) (past : List F)
      → s.consecutive_losses ≡ losing_streak past
      → (run cfg cs s).consecutive_losses ≡ losing_streak (history past cs)
  unfolding run step record_trade_result reset_circuit_breaker
  run-losing_streak cfg [] s past h = h
  run-losing_streak cfg (Call.evaluate now ∷ cs) s past h =
      run-losing_streak cfg cs (evaluate_circuit_breaker now cfg s) past
        (ground (arith, evaluate-counts now cfg s))
  run-losing_streak cfg (Call.trade now b u ∷ cs) s past h =
      run-losing_streak cfg cs (record_trade_result now b u s) (u ∷ past) (ground arith)
  run-losing_streak cfg (Call.reset ∷ cs) s past h =
      run-losing_streak cfg cs (reset_circuit_breaker s) [] refl

  abbrev pub HasNoReset : List (Call F) → Type 0
  HasNoReset [] = Unit
  HasNoReset (Call.reset ∷ cs) = ⊥
  HasNoReset (c ∷ cs) = HasNoReset cs

  -- A halted breaker stays halted through every sequence of calls without a manual reset, and no
  -- evaluation of it allows a trade.
  pub run-halted :
      (now : F) (cfg : Config F) (cs : List (Call F)) (s : Breaker F)
      → s.state ≡ CircuitState.halted
      → HasNoReset cs
      → ((run cfg cs s).state ≡ CircuitState.halted)
        × ((evaluate_circuit_breaker now cfg (run cfg cs s)).sizing_multiplier ≡ decimal 0 1)
  unfolding run step
  run-halted now cfg [] s h n = (h, evaluate-Blocks now cfg s (Blocks.is_halted_now h))
  run-halted now cfg (Call.evaluate t ∷ cs) s h n =
      run-halted now cfg cs (evaluate_circuit_breaker t cfg s)
        (unfold evaluate_circuit_breaker after_pause in ground arith) n
  run-halted now cfg (Call.trade t b u ∷ cs) s h n =
      run-halted now cfg cs (record_trade_result t b u s) (unfold record_trade_result in h) n
  run-halted now cfg (Call.reset ∷ cs) s h n = elim n [ ]
