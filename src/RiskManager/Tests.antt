-- ===== src/RiskManager/Tests.antt =====
-- The risk manager on a concrete request.
use hyperliquid_smart_wallet.Prelude.{◌≡◌, ◌↔◌, refl, true, false, List, [], ◌∷◌, some}
use hyperliquid_smart_wallet.Prelude.Int.{ℤ, pos, ◌-ℤ◌}
use hyperliquid_smart_wallet.Float.Fixed.{fixed}
use hyperliquid_smart_wallet.RiskManager.{
  RiskManager, RiskVeto, new_risk_manager, default_risk_config, initialize,
}
use hyperliquid_smart_wallet.RiskManager.Evaluate.{
  RiskRequest, evaluate_risk, daily_pct, drawdown_of, total_pct, category_pct, var_pct, is_decayed,
}
use hyperliquid_smart_wallet.RiskManager.Evaluate.Vetoes.{
  Call, run, evaluate_risk_iff, daily_halt_stays,
}

-- Any function stands for the square root.
abbrev sqrt : ℤ → ℤ
sqrt x = x

abbrev manager : RiskManager ℤ
manager = initialize (fixed.decimal 0 0) (fixed.decimal 1000 0) new_risk_manager

-- A quarter of the equity was lost on this day.
abbrev losing : RiskManager ℤ
losing = record manager {
  daily_state = record manager.daily_state {
    day_start_equity_usdt = fixed.decimal 1000 0;
    day_realized_pnl_usdt = pos 0 -ℤ fixed.decimal 250 0;
  };
}

abbrev request : RiskRequest ℤ
request = record {
  now = fixed.decimal 500_000 0;
  coin = "BTC";
  proposed_notional_usdt = fixed.decimal 100 0;
  category = "perpetual";
  open_notionals = [];
  signal_id = some "s1";
}

abbrev calls : List (Call ℤ)
calls =
    Call.evaluates request
    ∷ Call.opened "BTC" (fixed.decimal 100 0) "perpetual"
    ∷ Call.equity (fixed.decimal 1 0) (fixed.decimal 990 0)
    ∷ Call.evaluates request
    ∷ []

evaluate_risk_iff_example :
    let a = (evaluate_risk sqrt request manager).1 in
    ((a.allowed ≡ true) ↔ (a.veto ≡ RiskVeto.no_veto))
    × ((a.allowed ≡ true) ↔ (
        (fixed.le (daily_pct manager) (fixed.neg manager.config.daily_loss_halt_pct) ≡ false)
        × (fixed.le manager.config.max_drawdown_halt_pct (drawdown_of manager) ≡ false)
        × (fixed.lt manager.config.max_total_exposure_pct (total_pct request manager) ≡ false)
        × (fixed.lt manager.config.max_per_category_pct (category_pct request manager) ≡ false)
        × (fixed.lt manager.config.max_var_pct (var_pct sqrt request manager) ≡ false)
        × (is_decayed request manager ≡ false)))
evaluate_risk_iff_example = evaluate_risk_iff sqrt request manager

daily_halt_stays_example :
    let a = (evaluate_risk sqrt request (run sqrt calls losing)).1 in
    (a.allowed ≡ false) × (a.veto ≡ RiskVeto.daily_loss_halt)
unfolding initialize new_risk_manager default_risk_config daily_pct ◌-ℤ◌
daily_halt_stays_example =
    daily_halt_stays sqrt calls request losing (refl, (refl, (refl, (refl, tt)))) refl
