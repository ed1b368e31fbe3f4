-- ===== src/CircuitBreaker/Tests.antt =====
-- The breaker on concrete sessions, in numbers with eight decimals.
use hyperliquid_smart_wallet.Prelude.{◌≡◌, refl, List, [], ◌∷◌, arith}
use hyperliquid_smart_wallet.Prelude.Int.{ℤ, pos, negsuc, ◌+ℤ◌, ◌-ℤ◌}
use hyperliquid_smart_wallet.Float.Fixed.{fixed}
use hyperliquid_smart_wallet.CircuitBreaker.{
  CircuitState, Config, Breaker, default_config, initial, drawdown_pct, raise_peak, recent_results,
  is_rapid_loss, evaluate_circuit_breaker,
}
use hyperliquid_smart_wallet.CircuitBreaker.Limits.{Limit, Blocks, evaluate-Blocks}
use hyperliquid_smart_wallet.CircuitBreaker.Runs.{Call, run, run-halted}

abbrev config : Config ℤ
config = default_config

abbrev fresh : Breaker ℤ
fresh = initial

-- 12% below the peak, and halted for it.
abbrev drained : Breaker ℤ
drained = record fresh { state = CircuitState.halted; current_equity_usdt = fixed.decimal 880 0 }

abbrev busy : Breaker ℤ
busy = record fresh { trades_this_hour = 7 }

abbrev later : List (Call ℤ)
later =
    Call.trade (fixed.decimal 100 0) (fixed.decimal 5 0) (fixed.decimal 1 0)
    ∷ Call.evaluate (fixed.decimal 9000 0)
    ∷ Call.reset
    ∷ Call.trade (fixed.decimal 9000 0) (negsuc 500) (negsuc 300)
    ∷ Call.trade (fixed.decimal 9100 0) (negsuc 500) (negsuc 300)
    ∷ []

evaluate-Blocks_example :
    (evaluate_circuit_breaker (fixed.decimal 1 0) config drained).sizing_multiplier ≡ pos 0
evaluate-Blocks_example =
    evaluate-Blocks (fixed.decimal 1 0) config drained (Blocks.is_halted_now refl)

fresh-free : ¬ Blocks (fixed.decimal 1 0) config fresh
unfolding is_rapid_loss recent_results drawdown_pct raise_peak ◌+ℤ◌ ◌-ℤ◌
fresh-free (Blocks.is_halted_now h) = cc
fresh-free (Blocks.cooling h k) = cc
fresh-free (Blocks.limit (Limit.drawdown_halts h)) = cc
fresh-free (Blocks.limit (Limit.streak_halts h)) = absurd (omega arith)
fresh-free (Blocks.limit (Limit.drawdown_pauses h)) = cc
fresh-free (Blocks.limit (Limit.streak_pauses h)) = absurd (omega arith)
fresh-free (Blocks.limit (Limit.rapid_loss h)) = cc
fresh-free (Blocks.limit (Limit.hourly h)) = absurd (omega arith)
fresh-free (Blocks.limit (Limit.daily h)) = absurd (omega arith)

run-halted_example :
    let t = run config (Call.evaluate (pos 5) ∷ []) drained in
    let u = evaluate_circuit_breaker (pos 9) config t in
    (t.state ≡ CircuitState.halted) × (u.sizing_multiplier ≡ pos 0)
run-halted_example = run-halted (pos 9) config (Call.evaluate (pos 5) ∷ []) drained refl tt
