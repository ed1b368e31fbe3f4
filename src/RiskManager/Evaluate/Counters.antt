-- ===== src/RiskManager/Evaluate/Counters.antt =====
-- src/hl_observer/risk/advanced_risk_manager.py: which calls count a veto.
use hyperliquid_smart_wallet.Prelude.{◌+◌, ◌≡◌, refl, String, if◌then◌else◌, arith}
use hyperliquid_smart_wallet.Float.{Float}
use hyperliquid_smart_wallet.RiskManager.{
  RiskManager, initialize, update_equity, record_daily_pnl, on_position_opened, on_position_closed,
}
use hyperliquid_smart_wallet.RiskManager.Evaluate.{RiskRequest, count_veto, evaluate_risk}

module _ {F : Type 0} ⦃f : Float F⦄ where
  pub evaluate_risk-vetoes :
      (sqrt : F → F) (q : RiskRequest F) (m : RiskManager F)
      → let r = evaluate_risk sqrt q m in
        r.0.total_vetoes ≡ (if r.1.allowed then m.total_vetoes else m.total_vetoes + 1)
  unfolding evaluate_risk count_veto
  evaluate_risk-vetoes sqrt q m = ground arith

  pub on_position_closed-vetoes :
      (now : F) (coin : String) (notional pnl : F) (category : String) (m : RiskManager F)
      → (on_position_closed now coin notional pnl category m).total_vetoes ≡ m.total_vetoes
  unfolding on_position_closed record_daily_pnl update_equity
  on_position_closed-vetoes now coin notional pnl category m = refl

  pub on_position_opened-vetoes :
      (coin : String) (notional : F) (category : String) (m : RiskManager F)
      → (on_position_opened coin notional category m).total_vetoes ≡ m.total_vetoes
  unfolding on_position_opened
  on_position_opened-vetoes coin notional category m = refl

  pub initialize-vetoes :
      (now equity : F) (m : RiskManager F) → (initialize now equity m).total_vetoes ≡ m.total_vetoes
  unfolding initialize
  initialize-vetoes now equity m = refl
