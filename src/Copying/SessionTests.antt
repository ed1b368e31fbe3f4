-- ===== src/Copying/SessionTests.antt =====
-- The engine and the pipeline on concrete sessions.
use hyperliquid_smart_wallet.Prelude.{
  ◌≡◌, ◌↔◌, refl, String, true, false, List, [], ◌∷◌, none, All, arith, upper, str_eq,
}
use hyperliquid_smart_wallet.Prelude.Int.{ℤ, pos, ◌-ℤ◌, ◌+ℤ◌}
use hyperliquid_smart_wallet.Float.{max_of}
use hyperliquid_smart_wallet.Float.Fixed.{fixed}
use hyperliquid_smart_wallet.CircuitBreaker.{
  initial, evaluate_circuit_breaker, after_pause, raise_peak, drawdown_pct, check_limits,
  is_rapid_loss, recent_results,
}
use hyperliquid_smart_wallet.CircuitBreaker.Limits.{Blocks, Limit}
use hyperliquid_smart_wallet.RiskManager.{new_risk_manager}
use hyperliquid_smart_wallet.Copying.{clamp}
use hyperliquid_smart_wallet.Copying.Score.{
  default_score_config, freshness_factor, adverse_price_move_bps,
}
use hyperliquid_smart_wallet.Copying.Score.Sizing.{
  capped_simulated_notional, wanted_notional, target_notional, remaining_exposure,
}
use hyperliquid_smart_wallet.Copying.Score.Decision.{
  entry_check, score_entry, entry_reasons, copy_degradation, edge_after_costs, consensus_factor_of,
  crowding_penalty_bps, liquidity_of, liquidity_penalty_bps, adverse_of,
  score_realtime_copy_candidate,
}
use hyperliquid_smart_wallet.Copying.Kelly.{
  default_kelly_config, consensus_boost, win_prob, win_prob_of_edge, win_loss, full_kelly,
  leader_confidence, kelly_used, sized_usdt, target_usdt, remaining_usdt, capped_usdt,
  kelly_criterion_size,
}
use hyperliquid_smart_wallet.Copying.Engine.{
  ViralEngine, SignalRequest, Clock, TradeDecision, new_engine, is_accept,
}
use hyperliquid_smart_wallet.Copying.Engine.Signal.{kelly_of, evaluate_signal, breaker_of}
use hyperliquid_smart_wallet.Copying.Engine.Signal.Gates.{PassesGates, evaluate_signal-Blocks}
use hyperliquid_smart_wallet.Copying.Engine.Signal.Sessions.{
  Call, Verdict, verdicts, verdicts-ejected,
}
use hyperliquid_smart_wallet.Copying.Pipeline.{
  ChosenExit, Pipeline, PipelineRequest, new_pipeline, risk_request, evaluate_and_size,
}
use hyperliquid_smart_wallet.Copying.Pipeline.Sizing.{wanted, asked, evaluate_and_size-PassesGates}
use hyperliquid_smart_wallet.Copying.Pipeline.Tally
use hyperliquid_smart_wallet.Copying.Pipeline.Tally.{Tally, run-Tally}
use hyperliquid_smart_wallet.Copying.Tests.{candidate, lost}

abbrev exit : String → ℤ → ℤ → ℤ → ChosenExit ℤ
exit id edge wallets score = record {
  plan_type = "default";
  hard_stop_bps = fixed.decimal 25 0;
  take_profit_bps = fixed.decimal 35 0;
  trailing_activation_bps = fixed.decimal 18 0;
}

abbrev request : SignalRequest ℤ
request = record {
  signal_id = "s1";
  leader_address = "0xEf";
  coin = "BTC";
  score_input = candidate;
  leader_win_rate = none;
}

abbrev clock : Clock ℤ
clock = record {
  start_ms = pos 1_000;
  made_ms = pos 1_002;
  measured_ms = pos 1_003;
  now = fixed.decimal 1 0;
}

-- The last trade that the hour allows has been recorded.
abbrev full_hour : ViralEngine ℤ
full_hour = record new_engine { circuit_state = record initial { trades_this_hour = 10 } }

full_hour-Blocks : Blocks clock.now full_hour.circuit_config full_hour.circuit_state
unfolding new_engine raise_peak
full_hour-Blocks = Blocks.limit (Limit.hourly (omega arith))

full_hour-PassesGates : PassesGates clock request full_hour
unfolding PassesGates kelly_of new_engine evaluate_circuit_breaker after_pause raise_peak
    check_limits is_rapid_loss recent_results drawdown_pct default_score_config
    score_realtime_copy_candidate entry_check score_entry entry_reasons copy_degradation
    edge_after_costs consensus_factor_of crowding_penalty_bps liquidity_of liquidity_penalty_bps
    adverse_of adverse_price_move_bps clamp freshness_factor capped_simulated_notional
    wanted_notional target_notional remaining_exposure upper ◌-ℤ◌ ◌+ℤ◌ kelly_criterion_size
    default_kelly_config win_prob win_prob_of_edge consensus_boost full_kelly win_loss capped_usdt
    remaining_usdt target_usdt sized_usdt kelly_used leader_confidence
full_hour-PassesGates = (refl, refl, refl, refl)

evaluate_signal-Blocks_example :
    let signal = (evaluate_signal exit clock request full_hour).1 in
    (signal.decision ≡ TradeDecision.accept_paper_simulation)
    × (signal.position_size_usdt
        ≡ fixed.mul (kelly_of request full_hour).position_size_usdt (fixed.decimal 0 1))
evaluate_signal-Blocks_example =
    evaluate_signal-Blocks exit clock request full_hour full_hour-Blocks full_hour-PassesGates

abbrev calls : List (Call ℤ)
calls =
    Call.evaluates clock request
    ∷ Call.closes (fixed.decimal 2 0) lost
    ∷ Call.ejects "0xEF"
    ∷ Call.evaluates clock request
    ∷ []

verdicts-ejected_example :
    All
      (λ (v : Verdict). str_eq v.0 "0xef" ≡ true → v.1 ≡ TradeDecision.reject_leader_ejected)
      (verdicts exit calls (record new_engine { ejected_leaders = "0xef" ∷ [] }))
verdicts-ejected_example =
    verdicts-ejected exit "0xef" calls (record new_engine { ejected_leaders = "0xef" ∷ [] }) refl
      refl

abbrev pipeline_request : PipelineRequest ℤ
pipeline_request = record {
  signal = request;
  category = "perpetual";
  current_position_notionals = fixed.decimal 50 0 ∷ [];
  clock = clock;
  risk_now = fixed.decimal 1 0;
  start_ms = pos 1_000;
  end_ms = pos 1_004;
}

abbrev root : ℤ → ℤ
root x = x

evaluate_and_size-PassesGates_example :
    let p : Pipeline ℤ = new_pipeline in
    let q = pipeline_request in
    let r = evaluate_and_size exit root q p in
    let s = wanted exit root q p in
    let a = (asked exit root q p).1 in
    let kelly = (kelly_of request p.engine).position_size_usdt in
    let size = fixed.mul kelly (breaker_of clock p.engine).sizing_multiplier in
    ((r.1.accepted ≡ true) ↔ (PassesGates clock request p.engine × (a.allowed ≡ true)))
    × (r.1.accepted ≡ true
        → ((risk_request q s).proposed_notional_usdt ≡ size)
          × (r.1.position_size_usdt ≡ max_of (pos 0) (fixed.mul size a.sizing_multiplier)))
    × (r.1.accepted ≡ false → r.1.position_size_usdt ≡ pos 0)
    × (is_accept s.decision ≡ false → r.0.risk_manager ≡ p.risk_manager)
evaluate_and_size-PassesGates_example =
    evaluate_and_size-PassesGates exit root pipeline_request new_pipeline

abbrev session : List (Tally.Call ℤ)
session =
    Tally.Call.evaluates pipeline_request
    ∷ Tally.Call.opens "BTC" (fixed.decimal 50 0) "perpetual"
    ∷ Tally.Call.closes (fixed.decimal 2 0) (fixed.decimal 2 0) lost "perpetual"
    ∷ []

run-Tally_example : Tally (Tally.run exit root session new_pipeline)
unfolding Tally new_pipeline new_engine new_risk_manager
run-Tally_example = run-Tally exit root session new_pipeline (refl, refl, refl, refl, refl)
