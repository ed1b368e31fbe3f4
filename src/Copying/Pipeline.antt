-- ===== src/Copying/Pipeline.antt =====
-- src/hl_observer/copying/pipeline_integrator.py: the gates of the engine, then the risk manager,
-- then the final size. The report is left out.
pub mod Sizing
pub mod Tally
use hyperliquid_smart_wallet.Prelude.{
  ℕ, ◌+◌, String, Bool, true, false, List, [], ◌∷◌, ◌++◌, map, Option, none, some, if◌then◌else◌,
}
use hyperliquid_smart_wallet.Prelude.Int.{ℤ, ◌-ℤ◌}
use hyperliquid_smart_wallet.Float.{Float, whole, max_of}
use hyperliquid_smart_wallet.CircuitBreaker.{CircuitState, Config}
use hyperliquid_smart_wallet.RiskManager.{
  RiskManager, RiskConfig, RiskVeto, VolatilityRegime, new_risk_manager, initialize,
  on_position_closed, on_position_opened,
}
use hyperliquid_smart_wallet.RiskManager.Evaluate.{RiskAssessment, RiskRequest, evaluate_risk}
use hyperliquid_smart_wallet.Copying.Score.{ScoreConfig, CopyScore}
use hyperliquid_smart_wallet.Copying.Kelly.{KellyConfig, KellyResult, default_kelly_config}
use hyperliquid_smart_wallet.Copying.Leaders.{LeaderTrade}
use hyperliquid_smart_wallet.Copying.Engine.{
  ViralEngine, ViralSignal, SignalRequest, SignalReason, Clock, TradeDecision, new_engine,
  is_accept, record_closed_trade,
}
use hyperliquid_smart_wallet.Copying.Engine.Signal.{or_zero, evaluate_signal}

-- What the code reads of an exit plan.
pub record ChosenExit (F : Type 0) : Type 0 where
  pub plan_type : String
  pub hard_stop_bps : F
  pub take_profit_bps : F
  pub trailing_activation_bps : F

pub data PipelineDecision : Type 0 where
  by_engine : TradeDecision → PipelineDecision
  reject_risk : RiskVeto → PipelineDecision

pub record PipelineResult (F : Type 0) : Type 0 where
  pub accepted : Bool
  pub decision : PipelineDecision
  pub reasons : List (SignalReason F)
  pub position_size_usdt : F
  pub viral_signal : ViralSignal F (ChosenExit F)
  pub risk_assessment : Option (RiskAssessment F)
  pub edge_remaining_bps : F
  pub opportunity_score : F
  pub kelly_fraction_used : F
  pub circuit_state : CircuitState
  pub volatility_regime : VolatilityRegime
  pub daily_pnl_pct : F
  pub drawdown_pct : F
  pub exit_plan : ChosenExit F
  pub total_pipeline_ms : ℤ

pub record Pipeline (F : Type 0) : Type 0 where
  pub engine : ViralEngine F
  pub risk_manager : RiskManager F
  pub total_evaluated : ℕ
  pub total_accepted : ℕ
  pub total_viral_rejected : ℕ
  pub total_risk_rejected : ℕ

-- The arguments of `evaluate_and_size` and the readings of the clock.
pub record PipelineRequest (F : Type 0) : Type 0 where
  pub signal : SignalRequest F
  pub category : String
  pub current_position_notionals : List F
  pub clock : Clock F
  pub risk_now : F
  pub start_ms : ℤ
  pub end_ms : ℤ

-- The configurations that `initialize` is given.
pub record PipelineConfigs (F : Type 0) : Type 0 where
  pub copy_config : Option (ScoreConfig F)
  pub kelly_config : Option (KellyConfig F)
  pub circuit_config : Option (Config F)
  pub risk_config : Option (RiskConfig F)

abbrev pub given {ℓ} : {A : Type ℓ} → Option A → A → A
given none old = old
given (some new) old = new

module _ {F : Type 0} ⦃f : Float F⦄ where
  open f use {mul, decimal, round}

  unfoldable pub new_pipeline : Pipeline F
  new_pipeline = record {
    engine = new_engine;
    risk_manager = new_risk_manager;
    total_evaluated = 0;
    total_accepted = 0;
    total_viral_rejected = 0;
    total_risk_rejected = 0;
  }

  pub initialize_pipeline : F → F → PipelineConfigs F → Pipeline F → Pipeline F
  initialize_pipeline now starting_equity cfg p =
      let m = p.risk_manager in
      let e = p.engine in
      record p {
        risk_manager =
            initialize now starting_equity (record m { config = given cfg.risk_config m.config });
        engine = record e {
          copy_config = given cfg.copy_config e.copy_config;
          kelly_config = given cfg.kelly_config (default_kelly_config starting_equity);
          circuit_config = given cfg.circuit_config e.circuit_config;
          circuit_state = record e.circuit_state {
            current_equity_usdt = starting_equity;
            peak_equity_usdt = starting_equity;
          };
        };
      }

  abbrev pub edge_shown : Option (CopyScore F) → F
  edge_shown none = decimal 0 1
  edge_shown (some s) = or_zero s.edge_remaining_bps

  abbrev pub opportunity_shown : Option (CopyScore F) → F
  opportunity_shown none = decimal 0 1
  opportunity_shown (some s) = s.opportunity_score

  abbrev pub kelly_shown : Option (KellyResult F) → F
  kelly_shown none = decimal 0 1
  kelly_shown (some k) = k.kelly_fraction_used

  abbrev pub default_exit : ChosenExit F
  default_exit = record {
    plan_type = "default";
    hard_stop_bps = decimal 250 1;
    take_profit_bps = decimal 350 1;
    trailing_activation_bps = decimal 180 1;
  }

  -- A rejection by the engine; one by the risk manager and an acceptance fill in more.
  abbrev pub engine_result : PipelineRequest F → ViralSignal F (ChosenExit F) → PipelineResult F
  engine_result q s = record {
    accepted = false;
    decision = PipelineDecision.by_engine s.decision;
    reasons = s.reasons;
    position_size_usdt = decimal 0 1;
    viral_signal = s;
    risk_assessment = none;
    edge_remaining_bps = edge_shown s.copy_score;
    opportunity_score = decimal 0 1;
    kelly_fraction_used = decimal 0 1;
    circuit_state = s.circuit_state;
    volatility_regime = VolatilityRegime.normal;
    daily_pnl_pct = decimal 0 1;
    drawdown_pct = decimal 0 1;
    exit_plan = default_exit;
    total_pipeline_ms = q.end_ms -ℤ q.start_ms;
  }

  abbrev pub risk_result :
      PipelineRequest F → ViralSignal F (ChosenExit F) → RiskAssessment F → PipelineResult F
  risk_result q s a = record (engine_result q s) {
    decision = PipelineDecision.reject_risk a.veto;
    reasons = s.reasons ++ map SignalReason.text a.reasons;
    risk_assessment = some a;
    volatility_regime = a.volatility_regime;
    daily_pnl_pct = a.daily_pnl_pct;
    drawdown_pct = a.drawdown_pct;
  }

  abbrev pub accepted_result :
      PipelineRequest F → ViralSignal F (ChosenExit F) → RiskAssessment F → PipelineResult F
  accepted_result q s a = record (risk_result q s a) {
    accepted = true;
    decision = PipelineDecision.by_engine TradeDecision.accept_paper_simulation;
    position_size_usdt =
        round (max_of (decimal 0 1) (mul s.position_size_usdt a.sizing_multiplier)) 2;
    opportunity_score = opportunity_shown s.copy_score;
    kelly_fraction_used = kelly_shown s.kelly_result;
    exit_plan = given s.exit_plan default_exit;
  }

  -- What the risk manager is asked.
  abbrev pub risk_request : PipelineRequest F → ViralSignal F (ChosenExit F) → RiskRequest F
  risk_request q s = record {
    now = q.risk_now;
    coin = q.signal.coin;
    proposed_notional_usdt = s.position_size_usdt;
    category = q.category;
    open_notionals = q.current_position_notionals;
    signal_id = some q.signal.signal_id;
  }

  pub pipeline_closed : F → F → LeaderTrade F → String → Pipeline F → Pipeline F
  pipeline_closed now risk_now t category p = record p {
    engine = record_closed_trade now t p.engine;
    risk_manager =
        on_position_closed risk_now t.coin t.notional_usdt t.pnl_usdt category p.risk_manager;
  }

  pub pipeline_opened : String → F → String → Pipeline F → Pipeline F
  pipeline_opened coin notional category p = record p {
    risk_manager = on_position_opened coin notional category p.risk_manager;
  }

  module _ (select_exit_plan : String → F → ℤ → F → ChosenExit F) (sqrt : F → F) where
    -- The rest of the evaluation, after the engine has let the signal pass.
    pub assess :
        PipelineRequest F
        → ViralSignal F (ChosenExit F)
        → Pipeline F
        → Pipeline F × PipelineResult F
    assess q s p =
        let r = evaluate_risk sqrt (risk_request q s) p.risk_manager in
        let n = record p { risk_manager = r.0 } in
        if r.1.allowed
        then (record n { total_accepted = n.total_accepted + 1 }, accepted_result q s r.1)
        else (record n { total_risk_rejected = n.total_risk_rejected + 1 }, risk_result q s r.1)

    pub evaluate_and_size : PipelineRequest F → Pipeline F → Pipeline F × PipelineResult F
    evaluate_and_size q p =
        let r = evaluate_signal select_exit_plan q.clock q.signal p.engine in
        let n = record p { total_evaluated = p.total_evaluated + 1; engine = r.0 } in
        if is_accept r.1.decision
        then assess q r.1 n
        else (record n { total_viral_rejected = n.total_viral_rejected + 1 }, engine_result q r.1)
