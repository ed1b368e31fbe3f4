-- ===== src/Copying/Engine/Signal.antt =====
-- src/hl_observer/copying/viral_bot_engine.py: `evaluate_signal`, the gates that a signal passes to
-- become a paper trade. `select_exit_plan`, which the code imports from a module that does not
-- define it, is a parameter.
pub mod Gates
pub mod Sessions
use hyperliquid_smart_wallet.Prelude.{
  ℕ, ◌+◌, ◌-◌, String, Bool, true, false, not, ◌||◌, List, [], ◌∷◌, ◌++◌, map, Option, none, some,
  if◌then◌else◌, contains, lower,
}
use hyperliquid_smart_wallet.Prelude.Int.{ℤ, ◌-ℤ◌}
use hyperliquid_smart_wallet.Float.{Float, whole}
use hyperliquid_smart_wallet.CircuitBreaker.{
  CircuitState, Config, Breaker, Reason, is_paused, is_halted, default_config, initial,
  evaluate_circuit_breaker, record_trade_result,
}
use hyperliquid_smart_wallet.Copying.Score.{
  ScoreConfig, ScoreInput, CopyScore, default_score_config,
}
use hyperliquid_smart_wallet.Copying.Score.Decision.{score_realtime_copy_candidate}
use hyperliquid_smart_wallet.Copying.Kelly.{
  KellyConfig, KellyInput, KellyResult, default_kelly_config, kelly_criterion_size,
}
use hyperliquid_smart_wallet.Copying.Leaders.{
  LeaderTrade, LeaderPerformance, LeaderTracker, LeaderStatus, new_leader_tracker, status_of,
  is_eject, record_leader_trade, get_leader_performance, should_eject_leader,
}
use hyperliquid_smart_wallet.Copying.Engine.{
  ViralEngine, ViralSignal, SignalRequest, SignalReason, Clock, TradeDecision, ShownStatus,
}

module _ {F : Type 0} ⦃f : Float F⦄ where
  open f use {add, sub, mul, div, le, feq, of_int, decimal, round}

  -- `x or 0.0`
  abbrev pub or_zero : Option F → F
  or_zero none = decimal 0 1
  or_zero (some x) = if feq x (whole 0) then decimal 0 1 else x

  abbrev pub score_of : SignalRequest F → ViralEngine F → CopyScore F
  score_of q e = score_realtime_copy_candidate q.score_input e.copy_config

  abbrev pub breaker_of : Clock F → ViralEngine F → Breaker F
  breaker_of c e = evaluate_circuit_breaker c.now e.circuit_config e.circuit_state

  unfoldable pub kelly_of : SignalRequest F → ViralEngine F → KellyResult F
  kelly_of q e =
      let i = q.score_input in
      kelly_criterion_size
        (record {
          edge_remaining_bps = or_zero (score_of q e).edge_remaining_bps;
          leader_score = i.leader_score;
          consensus_wallets = i.consensus_wallets;
          win_rate_estimate = q.leader_win_rate;
          current_open_exposure_usdt = i.current_open_exposure_usdt;
          leader_notional_usdt = i.leader_notional_usdt;
        })
        e.kelly_config

  -- `self.circuit_state.state in {PAUSED, HALTED}`
  abbrev pub is_blocking : Breaker F → Bool
  is_blocking s = is_paused s.state || is_halted s.state

  abbrev pub count_evaluated : ViralEngine F → ViralEngine F
  count_evaluated e = record e { total_signals_evaluated = e.total_signals_evaluated + 1 }

  abbrev pub count_rejected : ViralEngine F → ViralEngine F
  count_rejected e = record e { total_rejected = e.total_rejected + 1 }

  abbrev pub count_accepted : ℤ → ViralEngine F → ViralEngine F
  count_accepted time_to_decide e =
      let n = e.total_signals_evaluated in
      record e {
        total_accepted = e.total_accepted + 1;
        avg_time_to_decide_ms =
            div (add (mul e.avg_time_to_decide_ms (whole (n - 1))) (of_int time_to_decide))
              (whole n);
      }

  abbrev pub status_shown : Option (LeaderPerformance F) → ShownStatus
  status_shown none = ShownStatus.new_leader
  status_shown (some p) = ShownStatus.tracked (status_of p)

  abbrev pub pnl_shown : Option (LeaderPerformance F) → F
  pnl_shown none = decimal 0 1
  pnl_shown (some p) = p.total_pnl_usdt

  module _ {Plan : Type 0} (select_exit_plan : String → F → ℤ → F → Plan) where
    -- A signal that is rejected before it is scored; later gates fill in more.
    abbrev pub rejected_signal :
        Clock F → SignalRequest F → TradeDecision → List (SignalReason F) → ViralSignal F Plan
    rejected_signal c q decision reasons = record {
      signal_id = q.signal_id;
      leader_address = lower q.leader_address;
      coin = q.coin;
      side = q.score_input.direction;
      action_type = q.score_input.action_type;
      decision = decision;
      reasons = reasons;
      copy_score = none;
      kelly_result = none;
      position_size_usdt = decimal 0 1;
      circuit_state = CircuitState.normal;
      sizing_multiplier = decimal 10 1;
      exit_plan = none;
      signal_detected_at_ms = c.start_ms;
      decision_made_at_ms = c.made_ms;
      time_to_decide_ms = c.made_ms -ℤ c.start_ms;
      leader_status = ShownStatus.unknown;
      leader_session_pnl_usdt = decimal 0 1;
    }

    -- Gate 1.
    abbrev pub reject_ejected :
        Clock F → SignalRequest F → ViralEngine F → ViralEngine F × ViralSignal F Plan
    reject_ejected c q e =
        let base =
          rejected_signal c q TradeDecision.reject_leader_ejected
            (SignalReason.text "leader_ejected_from_session" ∷ []) in
        (
          record (count_rejected e) { total_leader_ejects = e.total_leader_ejects + 1 },
          record base {
            time_to_decide_ms = c.measured_ms -ℤ c.start_ms;
            leader_status = ShownStatus.ejected_leader;
          },
        )

    -- Gate 2.
    abbrev pub reject_score :
        Clock F → SignalRequest F → ViralEngine F → ViralEngine F × ViralSignal F Plan
    reject_score c q e =
        let score = score_of q e in
        (
          count_rejected e,
          record (rejected_signal c q TradeDecision.reject_scoring
              (map SignalReason.text score.refusal_reasons)) { copy_score = some score },
        )

    -- Gate 3; the breaker is already evaluated.
    abbrev pub reject_circuit :
        Clock F → SignalRequest F → ViralEngine F → ViralEngine F × ViralSignal F Plan
    reject_circuit c q e =
        let s = e.circuit_state in
        (
          record (count_rejected e) {
            total_circuit_breaker_blocks = e.total_circuit_breaker_blocks + 1;
          },
          record (rejected_signal c q TradeDecision.reject_circuit_breaker
              (SignalReason.circuit s.state ∷ map SignalReason.breaker s.reasons)) {
                copy_score = some (score_of q e);
                circuit_state = s.state;
              },
        )

    -- Gate 4.
    abbrev pub reject_kelly :
        Clock F → SignalRequest F → ViralEngine F → ViralEngine F × ViralSignal F Plan
    reject_kelly c q e =
        let kelly = kelly_of q e in
        (
          record (count_rejected e) { total_kelly_rejects = e.total_kelly_rejects + 1 },
          record (rejected_signal c q TradeDecision.reject_kelly_no_edge
              (SignalReason.text "kelly_sizing_zero" ∷ map SignalReason.text kelly.warnings)) {
                copy_score = some (score_of q e);
                kelly_result = some kelly;
                circuit_state = e.circuit_state.state;
                sizing_multiplier = e.circuit_state.sizing_multiplier;
                time_to_decide_ms = c.measured_ms -ℤ c.start_ms;
              },
        )

    -- Gates 5 and 6.
    abbrev pub accept_signal :
        Clock F → SignalRequest F → ViralEngine F → ViralEngine F × ViralSignal F Plan
    accept_signal c q e =
        let score = score_of q e in
        let kelly = kelly_of q e in
        let size = mul kelly.position_size_usdt e.circuit_state.sizing_multiplier in
        let leader = get_leader_performance (lower q.leader_address) e.leader_tracker in
        (
          count_accepted (c.made_ms -ℤ c.start_ms) e,
          record (rejected_signal c q TradeDecision.accept_paper_simulation
              (SignalReason.text "all_gates_passed" ∷ [])) {
                copy_score = some score;
                kelly_result = some kelly;
                position_size_usdt = round size 2;
                circuit_state = e.circuit_state.state;
                sizing_multiplier = e.circuit_state.sizing_multiplier;
                exit_plan = some (
                    select_exit_plan q.signal_id (or_zero score.edge_remaining_bps)
                      q.score_input.consensus_wallets q.score_input.leader_score);
                leader_status = status_shown leader;
                leader_session_pnl_usdt = pnl_shown leader;
              },
        )

    pub evaluate_signal :
        Clock F → SignalRequest F → ViralEngine F → ViralEngine F × ViralSignal F Plan
    evaluate_signal c q before =
        let e = count_evaluated before in
        let checked = record e { circuit_state = breaker_of c e } in
        if contains (lower q.leader_address) e.ejected_leaders
        then reject_ejected c q e
        else if not (score_of q e).accepted
        then reject_score c q e
        else if is_blocking checked.circuit_state
        then reject_circuit c q checked
        else if le (kelly_of q checked).position_size_usdt (whole 0)
        then reject_kelly c q checked
        else accept_signal c q checked
