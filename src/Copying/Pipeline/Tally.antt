-- ===== src/Copying/Pipeline/Tally.antt =====
-- src/hl_observer/copying/pipeline_integrator.py: the counters of the pipeline, of its engine and of
-- its risk manager.
use hyperliquid_smart_wallet.Prelude.{◌+◌, ◌≡◌, String, List, [], ◌∷◌, arith}
use hyperliquid_smart_wallet.Prelude.Int.{ℤ}
use hyperliquid_smart_wallet.Float.{Float}
use hyperliquid_smart_wallet.RiskManager.Evaluate.Counters.{
  evaluate_risk-vetoes, on_position_closed-vetoes, on_position_opened-vetoes, initialize-vetoes,
}
use hyperliquid_smart_wallet.Copying.Leaders.{LeaderTrade}
use hyperliquid_smart_wallet.Copying.Engine.Signal.{evaluate_signal}
use hyperliquid_smart_wallet.Copying.Engine.Signal.Sessions.{
  Counts, Counts-evaluated, Counts-closed,
}
use hyperliquid_smart_wallet.Copying.Pipeline.{
  ChosenExit, Pipeline, PipelineRequest, PipelineConfigs, given, initialize_pipeline, risk_request,
  pipeline_closed, pipeline_opened, assess, evaluate_and_size,
}

pub data Call (F : Type 0) : Type 0 where
  initializes : F → F → PipelineConfigs F → Call F
  evaluates : PipelineRequest F → Call F
  closes : F → F → LeaderTrade F → String → Call F
  opens : String → F → String → Call F

module _ {F : Type 0} ⦃f : Float F⦄ where
  -- Each counted signal had one outcome, and the three parts agree on it.
  unfoldable pub Tally : Pipeline F → Type 0
  Tally p =
      (p.total_evaluated ≡ p.total_accepted + p.total_viral_rejected + p.total_risk_rejected)
      × (p.engine.total_signals_evaluated ≡ p.total_evaluated)
      × (p.engine.total_accepted ≡ p.total_accepted + p.total_risk_rejected)
      × (p.engine.total_rejected ≡ p.total_viral_rejected)
      × (p.risk_manager.total_vetoes ≡ p.total_risk_rejected)

  module _ (select : String → F → ℤ → F → ChosenExit F) (sqrt : F → F) where
    pub step : Call F → Pipeline F → Pipeline F
    step (Call.initializes now equity cfg) p = initialize_pipeline now equity cfg p
    step (Call.evaluates q) p = (evaluate_and_size select sqrt q p).0
    step (Call.closes now risk_now t category) p = pipeline_closed now risk_now t category p
    step (Call.opens coin notional category) p = pipeline_opened coin notional category p

    pub run : List (Call F) → Pipeline F → Pipeline F
    run [] p = p
    run (c ∷ cs) p = run cs (step c p)

    evaluate_and_size-Tally :
        (q : PipelineRequest F) (p : Pipeline F)
        → Tally p
        → Tally (evaluate_and_size select sqrt q p).0
    unfolding evaluate_and_size assess Tally Counts
    evaluate_and_size-Tally q p h =
        let s = (evaluate_signal select q.clock q.signal p.engine).1 in
        ground (
          arith,
          h,
          Counts-evaluated select q.clock q.signal p.engine,
          evaluate_risk-vetoes sqrt (risk_request q s) p.risk_manager,
        )

    step-Tally : (c : Call F) (p : Pipeline F) → Tally p → Tally (step c p)
    unfolding step Tally Counts initialize_pipeline pipeline_closed pipeline_opened
    step-Tally (Call.initializes now equity cfg) p h =
        let m = p.risk_manager in
        ground (
          arith,
          h,
          initialize-vetoes now equity (record m { config = given cfg.risk_config m.config }),
        )
    step-Tally (Call.evaluates q) p h = evaluate_and_size-Tally q p h
    step-Tally (Call.closes now risk_now t category) p h = ground (
      arith,
      h,
      Counts-closed select now t p.engine,
      on_position_closed-vetoes risk_now t.coin t.notional_usdt t.pnl_usdt category p.risk_manager,
    )
    step-Tally (Call.opens coin notional category) p h =
        ground (arith, h, on_position_opened-vetoes coin notional category p.risk_manager)

    -- Through every sequence of calls: each evaluated signal is accepted, rejected by the engine or
    -- rejected by the risk manager; the engine evaluated each, accepted those that were accepted in the
    -- end and those that the risk manager rejected, and rejected the others; the vetoes of the risk
    -- manager are its rejections.
    pub run-Tally : (cs : List (Call F)) (p : Pipeline F) → Tally p → Tally (run cs p)
    unfolding run
    run-Tally [] p h = h
    run-Tally (c ∷ cs) p h = run-Tally cs (step c p) (step-Tally c p h)
