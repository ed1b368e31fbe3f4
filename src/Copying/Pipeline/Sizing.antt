-- ===== src/Copying/Pipeline/Sizing.antt =====
-- src/hl_observer/copying/pipeline_integrator.py: which signals become paper trades, and how large.
use hyperliquid_smart_wallet.Prelude.{◌≡◌, ◌↔◌, String, true, false, arith}
use hyperliquid_smart_wallet.Prelude.Int.{ℤ}
use hyperliquid_smart_wallet.Float.{Float, max_of}
use hyperliquid_smart_wallet.RiskManager.Evaluate.{RiskAssessment, evaluate_risk}
use hyperliquid_smart_wallet.RiskManager.{RiskManager}
use hyperliquid_smart_wallet.Copying.Engine.{ViralSignal, is_accept}
use hyperliquid_smart_wallet.Copying.Engine.Signal.{breaker_of, kelly_of, evaluate_signal}
use hyperliquid_smart_wallet.Copying.Engine.Signal.Gates.{PassesGates, evaluate_signal-PassesGates}
use hyperliquid_smart_wallet.Copying.Pipeline.{
  ChosenExit, Pipeline, PipelineRequest, risk_request, assess, evaluate_and_size,
}

module _ {F : Type 0} ⦃f : Float F⦄ where
  open f use {mul, decimal, round}

  module _ (select : String → F → ℤ → F → ChosenExit F) (sqrt : F → F) where
    -- The trade that the engine wants, and what the risk manager answers to it.
    abbrev pub wanted : PipelineRequest F → Pipeline F → ViralSignal F (ChosenExit F)
    wanted q p = (evaluate_signal select q.clock q.signal p.engine).1

    abbrev pub asked : PipelineRequest F → Pipeline F → RiskManager F × RiskAssessment F
    asked q p = evaluate_risk sqrt (risk_request q (wanted q p)) p.risk_manager

    assess-cases :
        (q : PipelineRequest F) (p : Pipeline F)
        → let r = evaluate_and_size select sqrt q p in
          let a = (asked q p).1 in
          (is_accept (wanted q p).decision ≡ true
            → (r.1.accepted ≡ a.allowed)
              × (r.0.risk_manager ≡ (asked q p).0)
              × (a.allowed ≡ true
                  → r.1.position_size_usdt
                    ≡ round
                        (max_of
                          (decimal 0 1)
                          (mul (wanted q p).position_size_usdt a.sizing_multiplier))
                        2)
              × (a.allowed ≡ false → r.1.position_size_usdt ≡ decimal 0 1))
          × (is_accept (wanted q p).decision ≡ false
              → (r.1.accepted ≡ false)
                × (r.0.risk_manager ≡ p.risk_manager)
                × (r.1.position_size_usdt ≡ decimal 0 1))
    unfolding evaluate_and_size assess
    assess-cases q p = ground arith

    -- A signal becomes a paper trade exactly if it passes the gates of the engine and the risk manager
    -- allows the size that these lead to: the Kelly size times the multiplier of the breaker, rounded.
    -- The size of the trade is that one times the multiplier of the risk manager, not below 0 and
    -- rounded; without a trade it is 0. The risk manager does not learn of a signal that the engine
    -- rejects.
    pub evaluate_and_size-PassesGates :
        (q : PipelineRequest F) (p : Pipeline F)
        → let r = evaluate_and_size select sqrt q p in
          let a = (asked q p).1 in
          let kelly = (kelly_of q.signal p.engine).position_size_usdt in
          let size = round (mul kelly (breaker_of q.clock p.engine).sizing_multiplier) 2 in
          ((r.1.accepted ≡ true) ↔ (PassesGates q.clock q.signal p.engine × (a.allowed ≡ true)))
          × (r.1.accepted ≡ true
              → ((risk_request q (wanted q p)).proposed_notional_usdt ≡ size)
                × (r.1.position_size_usdt
                    ≡ round (max_of (decimal 0 1) (mul size a.sizing_multiplier)) 2))
          × (r.1.accepted ≡ false → r.1.position_size_usdt ≡ decimal 0 1)
          × (is_accept (wanted q p).decision ≡ false → r.0.risk_manager ≡ p.risk_manager)
    evaluate_and_size-PassesGates q p =
        ground
          (arith, assess-cases q p, evaluate_signal-PassesGates select q.clock q.signal p.engine)
