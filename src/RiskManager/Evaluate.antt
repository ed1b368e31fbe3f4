-- ===== src/RiskManager/Evaluate.antt =====
-- src/hl_observer/risk/advanced_risk_manager.py: `evaluate_risk`.
pub mod Vetoes
pub mod Counters
use hyperliquid_smart_wallet.Prelude.{
  ℕ, ◌+◌, String, Bool, true, false, not, ◌&&◌, List, [], ◌∷◌, ◌++◌, map, Option, none, some,
  if◌then◌else◌, get_or, contains, is_nonempty, str_eq, upper, lookup, insert, keep, length, leb,
}
use hyperliquid_smart_wallet.Float.{Float, whole, max_of, sum}
use hyperliquid_smart_wallet.RiskManager.{VolatilityRegime, RiskVeto, RiskManager}

-- The fields that the callers decide by; the reasons carry no numbers.
pub record RiskAssessment (F : Type 0) : Type 0 where
  pub allowed : Bool
  pub veto : RiskVeto
  pub reasons : List String
  pub sizing_multiplier : F
  pub volatility_regime : VolatilityRegime
  pub daily_pnl_pct : F
  pub drawdown_pct : F
  pub current_var_pct : F
  pub category_exposure_pct : F
  pub total_exposure_pct : F

-- The arguments of one call, with its time.
pub record RiskRequest (F : Type 0) : Type 0 where
  pub now : F
  pub coin : String
  pub proposed_notional_usdt : F
  pub category : String
  pub open_notionals : List F
  pub signal_id : Option String

abbrev pub veto_eq : RiskVeto → RiskVeto → Bool
veto_eq RiskVeto.no_veto RiskVeto.no_veto = true
veto_eq RiskVeto.daily_loss_halt RiskVeto.daily_loss_halt = true
veto_eq RiskVeto.max_drawdown_halt RiskVeto.max_drawdown_halt = true
veto_eq RiskVeto.category_exposure_exceeded RiskVeto.category_exposure_exceeded = true
veto_eq RiskVeto.total_exposure_exceeded RiskVeto.total_exposure_exceeded = true
veto_eq RiskVeto.var_limit_exceeded RiskVeto.var_limit_exceeded = true
veto_eq RiskVeto.correlation_too_high RiskVeto.correlation_too_high = true
veto_eq RiskVeto.alpha_decayed RiskVeto.alpha_decayed = true
veto_eq RiskVeto.volatility_extreme RiskVeto.volatility_extreme = true
veto_eq v w = false

abbrev pub regime_reasons : VolatilityRegime → List String
regime_reasons VolatilityRegime.extreme = "extreme_vol_sizing" ∷ []
regime_reasons VolatilityRegime.high = "high_vol_sizing" ∷ []
regime_reasons r = []

module _ {F : Type 0} where
  pub count_veto : RiskVeto → RiskManager F → RiskManager F
  count_veto v m = record m {
    total_vetoes = m.total_vetoes + 1;
    veto_counts = λ w. if veto_eq v w then m.veto_counts w + 1 else m.veto_counts w;
  }

module _ {F : Type 0} ⦃f : Float F⦄ where
  open f use {add, sub, mul, div, neg, abs, lt, le, decimal}

  pub equity_of : RiskManager F → F
  equity_of m = max_of (decimal 10 1) m.current_equity_usdt

  unfoldable pub daily_pct : RiskManager F → F
  daily_pct m =
      mul
        (div m.daily_state.day_realized_pnl_usdt
          (max_of (decimal 10 1) m.daily_state.day_start_equity_usdt))
        (whole 100)

  pub drawdown_of : RiskManager F → F
  drawdown_of m =
      mul
        (div (sub m.peak_equity_usdt m.current_equity_usdt)
          (max_of (decimal 10 1) m.peak_equity_usdt))
        (whole 100)

  -- The proposed notional, cut to the cap of one position.
  pub max_position : RiskManager F → F
  unfolding equity_of
  max_position m = div (mul (equity_of m) m.config.max_per_position_pct) (whole 100)

  pub capped_notional : RiskRequest F → RiskManager F → F
  unfolding max_position
  capped_notional q m =
      if lt (max_position m) q.proposed_notional_usdt
      then max_position m
      else q.proposed_notional_usdt

  pub total_pct : RiskRequest F → RiskManager F → F
  unfolding capped_notional equity_of
  total_pct q m =
      mul (div (add (sum (map abs q.open_notionals)) (capped_notional q m)) (equity_of m))
        (whole 100)

  pub category_pct : RiskRequest F → RiskManager F → F
  unfolding capped_notional equity_of
  category_pct q m =
      let held = get_or (lookup q.category m.category_exposures) (decimal 0 1) in
      mul (div (add held (capped_notional q m)) (equity_of m)) (whole 100)

  -- A refusal: the numbers that were computed by then, and zeros.
  abbrev pub veto_with : RiskVeto → String → F → F → F → F → F → RiskAssessment F
  veto_with v reason daily drawdown total category var = record {
    allowed = false;
    veto = v;
    reasons = reason ∷ [];
    sizing_multiplier = decimal 10 1;
    volatility_regime = VolatilityRegime.normal;
    daily_pnl_pct = daily;
    drawdown_pct = drawdown;
    current_var_pct = var;
    category_exposure_pct = category;
    total_exposure_pct = total;
  }

  abbrev pub regime_sizing : VolatilityRegime → RiskManager F → F
  regime_sizing VolatilityRegime.extreme m = mul (decimal 10 1) m.config.vol_extreme_sizing_mult
  regime_sizing VolatilityRegime.high m = mul (decimal 10 1) m.config.vol_high_sizing_mult
  regime_sizing r m = decimal 10 1

  abbrev pub cap_reasons : RiskRequest F → RiskManager F → List String
  cap_reasons q m =
      if lt (max_position m) q.proposed_notional_usdt then "capped_per_position" ∷ [] else []

  -- When the signal was seen first, where it has an id.
  abbrev pub first_seen : Option String → RiskManager F → Option F
  first_seen none m = none
  first_seen (some id) m = if is_nonempty id then lookup id m.signal_first_seen else none

  pub is_decayed : RiskRequest F → RiskManager F → Bool
  is_decayed q m = elim (first_seen q.signal_id m) [
    | none ↦ false
    | some seen ↦ lt m.config.alpha_decay_max_hours (div (sub q.now seen) (whole 3600))
  ]

  -- A signal with an id that is new is noted with the time.
  abbrev pub note_signal : Option String → F → RiskManager F → RiskManager F
  note_signal none now m = m
  note_signal (some id) now m = elim (lookup id m.signal_first_seen) [
    | some seen ↦ m
    | none ↦
        if is_nonempty id
        then record m { signal_first_seen = insert id now m.signal_first_seen }
        else m
  ]

  abbrev pub is_crowded : RiskRequest F → RiskManager F → Bool
  is_crowded q m = leb 2 (length (keep (λ c. str_eq c (upper q.coin)) m.open_positions_coins))

  module _ (sqrt : F → F) where
    pub compute_var_95 : List F → RiskManager F → F
    unfolding equity_of
    compute_var_95 notionals m =
        let daily_vol = div (div m.vol_state.annualized_vol_pct (sqrt (whole 252))) (whole 100) in
        let var = mul (mul (sum (map abs notionals)) daily_vol) (decimal 1645 3) in
        elim notionals [ [] ↦ decimal 0 1 | n ∷ ns ↦ mul (div var (equity_of m)) (whole 100) ]

    pub var_pct : RiskRequest F → RiskManager F → F
    unfolding compute_var_95 capped_notional
    var_pct q m = compute_var_95 (q.open_notionals ++ (capped_notional q m ∷ [])) m

    -- The assessment of a request that no limit refuses.
    abbrev pub allow_request : RiskRequest F → RiskManager F → RiskAssessment F
    allow_request q m =
        let regime = m.vol_state.current_regime in
        let sizing = regime_sizing regime m in
        record {
          allowed = true;
          veto = RiskVeto.no_veto;
          reasons =
              cap_reasons q m
              ++ (regime_reasons regime
                  ++ (if is_crowded q m then "correlated_positions" ∷ [] else []));
          sizing_multiplier = if is_crowded q m then mul sizing (decimal 5 1) else sizing;
          volatility_regime = regime;
          daily_pnl_pct = daily_pct m;
          drawdown_pct = drawdown_of m;
          current_var_pct = var_pct q m;
          category_exposure_pct = category_pct q m;
          total_exposure_pct = total_pct q m;
        }

    pub evaluate_risk : RiskRequest F → RiskManager F → RiskManager F × RiskAssessment F
    evaluate_risk q m =
        let zero = decimal 0 1 in
        let daily = daily_pct m in
        let drawdown = drawdown_of m in
        let total = total_pct q m in
        let category = category_pct q m in
        if le daily (neg m.config.daily_loss_halt_pct)
        then (
          count_veto RiskVeto.daily_loss_halt m,
          veto_with RiskVeto.daily_loss_halt "daily_loss" daily zero zero zero zero,
        )
        else if le m.config.max_drawdown_halt_pct drawdown
        then (
          count_veto RiskVeto.max_drawdown_halt m,
          veto_with RiskVeto.max_drawdown_halt "drawdown" daily drawdown zero zero zero,
        )
        else if lt m.config.max_total_exposure_pct total
        then (
          count_veto RiskVeto.total_exposure_exceeded m,
          veto_with RiskVeto.total_exposure_exceeded "total_exposure_exceeded" daily drawdown total
              zero zero,
        )
        else if lt m.config.max_per_category_pct category
        then (
          count_veto RiskVeto.category_exposure_exceeded m,
          veto_with RiskVeto.category_exposure_exceeded "category_exposure_exceeded" daily drawdown
              total category zero,
        )
        else if lt m.config.max_var_pct (var_pct q m)
        then (
          count_veto RiskVeto.var_limit_exceeded m,
          veto_with RiskVeto.var_limit_exceeded "var_exceeded" daily drawdown total zero
              (var_pct q m),
        )
        else if is_decayed q m
        then (
          count_veto RiskVeto.alpha_decayed m,
          record (veto_with RiskVeto.alpha_decayed "alpha_decayed" daily drawdown zero zero zero) {
            volatility_regime = m.vol_state.current_regime;
          },
        )
        else (note_signal q.signal_id q.now m, allow_request q m)
