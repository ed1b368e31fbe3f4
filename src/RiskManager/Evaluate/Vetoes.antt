-- ===== src/RiskManager/Evaluate/Vetoes.antt =====
-- src/hl_observer/risk/advanced_risk_manager.py: what is refused, how refusals are counted, and how
-- long the daily halt lasts.
use hyperliquid_smart_wallet.Prelude.{
  ℕ, ◌+◌, String, ◌≡◌, ◌↔◌, refl, Bool, true, false, List, [], ◌∷◌, All, arith,
}
use hyperliquid_smart_wallet.Float.{Float}
use hyperliquid_smart_wallet.RiskManager.{
  RiskManager, RiskVeto, initialize, update_equity, record_daily_pnl, update_volatility,
  recompute_vol_regime, on_position_opened, on_position_closed, cleanup_old_signals,
}
use hyperliquid_smart_wallet.RiskManager.Evaluate.{
  RiskRequest, evaluate_risk, daily_pct, drawdown_of, total_pct, category_pct, var_pct, is_decayed,
  count_veto,
}

-- A call of the manager, with its time.
pub data Call (F : Type 0) : Type 0 where
  evaluates : RiskRequest F → Call F
  equity volatility : F → F → Call F
  opened : String → F → String → Call F
  closed : F → String → F → F → String → Call F
  pnl cleanup initializes : F → F → Call F

-- The counted refusals.
abbrev pub tally : {F : Type 0} → RiskManager F → ℕ
tally m =
    m.veto_counts RiskVeto.daily_loss_halt
    + m.veto_counts RiskVeto.max_drawdown_halt
    + m.veto_counts RiskVeto.category_exposure_exceeded
    + m.veto_counts RiskVeto.total_exposure_exceeded
    + m.veto_counts RiskVeto.var_limit_exceeded
    + m.veto_counts RiskVeto.correlation_too_high
    + m.veto_counts RiskVeto.alpha_decayed
    + m.veto_counts RiskVeto.volatility_extreme

-- The call closes no position, records no result and does not initialize the manager.
abbrev pub is_quiet : {F : Type 0} → Call F → Bool
is_quiet (Call.closed now coin notional x category) = false
is_quiet (Call.pnl now x) = false
is_quiet (Call.initializes now x) = false
is_quiet c = true

module _ {F : Type 0} ⦃f : Float F⦄ (sqrt : F → F) where
  open f use {neg, lt, le}

  -- A request is allowed exactly if the day's loss and the drawdown are short of their halts, the
  -- total exposure, that of the category and the value at risk are within their limits after the
  -- proposed notional is cut to the cap of one position, and the signal is not too old. An allowed
  -- request has no veto.
  pub evaluate_risk_iff :
      (q : RiskRequest F) (m : RiskManager F)
      → let a = (evaluate_risk sqrt q m).1 in
        ((a.allowed ≡ true) ↔ (a.veto ≡ RiskVeto.no_veto))
        × ((a.allowed ≡ true) ↔ (
            (le (daily_pct m) (neg m.config.daily_loss_halt_pct) ≡ false)
            × (le m.config.max_drawdown_halt_pct (drawdown_of m) ≡ false)
            × (lt m.config.max_total_exposure_pct (total_pct q m) ≡ false)
            × (lt m.config.max_per_category_pct (category_pct q m) ≡ false)
            × (lt m.config.max_var_pct (var_pct sqrt q m) ≡ false)
            × (is_decayed q m ≡ false)))
  unfolding evaluate_risk
  evaluate_risk_iff q m = ground arith

  pub step : Call F → RiskManager F → RiskManager F
  step (Call.evaluates q) m = (evaluate_risk sqrt q m).0
  step (Call.equity now x) m = update_equity x m
  step (Call.volatility now x) m = update_volatility sqrt now x m
  step (Call.opened coin notional category) m = on_position_opened coin notional category m
  step (Call.closed now coin notional x category) m =
      on_position_closed now coin notional x category m
  step (Call.pnl now x) m = record_daily_pnl now x m
  step (Call.cleanup now age) m = (cleanup_old_signals now age m).0
  step (Call.initializes now x) m = initialize now x m

  pub run : List (Call F) → RiskManager F → RiskManager F
  unfolding step
  run [] m = m
  run (c ∷ cs) m = run cs (step c m)

  step-tally :
      (c : Call F) (m : RiskManager F)
      → m.total_vetoes ≡ tally m
      → (step c m).total_vetoes ≡ tally (step c m)
  unfolding step evaluate_risk count_veto update_equity update_volatility recompute_vol_regime
      on_position_opened on_position_closed record_daily_pnl cleanup_old_signals initialize
  step-tally (Call.evaluates q) m h = ground (arith, h)
  step-tally (Call.volatility now x) m h = ground (arith, h)
  step-tally (Call.equity now x) m h = h
  step-tally (Call.opened coin notional category) m h = h
  step-tally (Call.closed now coin notional x category) m h = h
  step-tally (Call.pnl now x) m h = h
  step-tally (Call.cleanup now age) m h = h
  step-tally (Call.initializes now x) m h = h

  -- The refusals are counted one by one: through every sequence of calls that begins with matching
  -- counters, the total is the sum of the counters of all vetoes.
  pub run-tally :
      (cs : List (Call F)) (m : RiskManager F)
      → m.total_vetoes ≡ tally m
      → (run cs m).total_vetoes ≡ tally (run cs m)
  unfolding run
  run-tally [] m h = h
  run-tally (c ∷ cs) m h = run-tally cs (step c m) (step-tally c m h)

  step-daily :
      (c : Call F) (m : RiskManager F)
      → is_quiet c ≡ true
      → ((step c m).daily_state ≡ m.daily_state) × ((step c m).config ≡ m.config)
  unfolding step evaluate_risk count_veto update_equity update_volatility recompute_vol_regime
      on_position_opened cleanup_old_signals
  step-daily (Call.evaluates q) m h = ground arith
  step-daily (Call.volatility now x) m h = ground arith
  step-daily (Call.equity now x) m h = (refl, refl)
  step-daily (Call.opened coin notional category) m h = (refl, refl)
  step-daily (Call.cleanup now age) m h = (refl, refl)
  step-daily (Call.closed now coin notional x category) m h = cc
  step-daily (Call.pnl now x) m h = cc
  step-daily (Call.initializes now x) m h = cc

  run-daily :
      (cs : List (Call F)) (m : RiskManager F)
      → All (λ c. is_quiet c ≡ true) cs
      → ((run cs m).daily_state ≡ m.daily_state) × ((run cs m).config ≡ m.config)
  unfolding run
  run-daily [] m h = (refl, refl)
  run-daily (c ∷ cs) m h = ground (arith, step-daily c m h.0, run-daily cs (step c m) h.1)

  -- The daily halt does not end with the day: once the loss is reached, every later request is
  -- refused for it, whatever its time, until a position is closed, a result recorded or the manager
  -- initialized.
  pub daily_halt_stays :
      (cs : List (Call F)) (q : RiskRequest F) (m : RiskManager F)
      → All (λ c. is_quiet c ≡ true) cs
      → le (daily_pct m) (neg m.config.daily_loss_halt_pct) ≡ true
      → ((evaluate_risk sqrt q (run cs m)).1.allowed ≡ false)
        × ((evaluate_risk sqrt q (run cs m)).1.veto ≡ RiskVeto.daily_loss_halt)
  unfolding evaluate_risk daily_pct
  daily_halt_stays cs q m h l = ground (arith, l, run-daily cs m h)
