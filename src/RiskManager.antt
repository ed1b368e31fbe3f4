-- ===== src/RiskManager.antt =====
-- src/hl_observer/risk/advanced_risk_manager.py: the state of the risk manager and the calls that
-- change it. The square root is a parameter, the clock an argument; a square is a product. The report
-- is left out.
pub mod Evaluate
mod Tests
use hyperliquid_smart_wallet.Prelude.{
  ℕ, ◌+◌, ◌-◌, String, Bool, true, false, not, ◌&&◌, List, [], ◌∷◌, ◌++◌, map, Option, none, some,
  if◌then◌else◌, get_or, contains, str_eq, upper, lookup, insert, length, drop, keep, ltb, leb,
  ◌==◌,
}
use hyperliquid_smart_wallet.Prelude.Int.{ℤ, pos}
use hyperliquid_smart_wallet.Float.{Float, whole, max_of, sum}

pub data VolatilityRegime : Type 0 where
  low normal high extreme : VolatilityRegime

pub data RiskVeto : Type 0 where
  no_veto daily_loss_halt max_drawdown_halt category_exposure_exceeded total_exposure_exceeded
        var_limit_exceeded correlation_too_high alpha_decayed volatility_extreme :
      RiskVeto

pub record RiskConfig (F : Type 0) : Type 0 where
  pub daily_loss_halt_pct : F
  pub max_drawdown_halt_pct : F
  pub max_per_position_pct : F
  pub max_per_category_pct : F
  pub max_total_exposure_pct : F
  pub max_var_pct : F
  pub vol_low_threshold : F
  pub vol_high_threshold : F
  pub vol_extreme_threshold : F
  pub vol_high_sizing_mult : F
  pub vol_extreme_sizing_mult : F
  pub alpha_decay_max_hours : F
  pub starting_equity_usdt : F

pub record DailyPnl (F : Type 0) : Type 0 where
  pub day_start_equity_usdt : F
  pub day_realized_pnl_usdt : F
  pub day_start_timestamp : F
  pub trades_today : ℕ

pub record Volatility (F : Type 0) : Type 0 where
  pub recent_returns : List F
  pub max_window : ℕ
  pub current_regime : VolatilityRegime
  pub last_computed_at : F
  pub annualized_vol_pct : F

-- `veto_counts` has one counter for each veto.
pub record RiskManager (F : Type 0) : Type 0 where
  pub config : RiskConfig F
  pub daily_state : DailyPnl F
  pub vol_state : Volatility F
  pub peak_equity_usdt : F
  pub current_equity_usdt : F
  pub category_exposures : List (String × F)
  pub open_positions_coins : List String
  pub signal_first_seen : List (String × F)
  pub total_vetoes : ℕ
  pub veto_counts : RiskVeto → ℕ

-- `list.remove`: the first of the equal elements.
abbrev pub remove_first : String → List String → List String
remove_first a [] = []
remove_first a (x ∷ xs) = if str_eq x a then xs else x ∷ remove_first a xs

module _ {F : Type 0} where
  -- `recent_returns[-n:]` of a longer list, which is the whole list where `n` is 0.
  abbrev pub last_returns : ℕ → List F → List F
  last_returns n rs = if ltb n (length rs) && not (n == 0) then drop (length rs - n) rs else rs

  pub add_return : F → Volatility F → Volatility F
  add_return ret_pct v = record v {
    recent_returns = last_returns v.max_window (v.recent_returns ++ (ret_pct ∷ []));
  }

module _ {F : Type 0} ⦃f : Float F⦄ where
  open f use {add, sub, mul, div, neg, abs, lt, le, of_int, decimal}

  pub default_risk_config : RiskConfig F
  default_risk_config = record {
    daily_loss_halt_pct = decimal 200 1;
    max_drawdown_halt_pct = decimal 500 1;
    max_per_position_pct = decimal 150 1;
    max_per_category_pct = decimal 800 1;
    max_total_exposure_pct = decimal 1000 1;
    max_var_pct = decimal 80 1;
    vol_low_threshold = decimal 150 1;
    vol_high_threshold = decimal 450 1;
    vol_extreme_threshold = decimal 800 1;
    vol_high_sizing_mult = decimal 60 2;
    vol_extreme_sizing_mult = decimal 30 2;
    alpha_decay_max_hours = decimal 40 1;
    starting_equity_usdt = decimal 10000 1;
  }

  -- `AdvancedRiskManager()`
  unfoldable pub new_risk_manager : RiskManager F
  unfolding default_risk_config
  new_risk_manager = record {
    config = default_risk_config;
    daily_state = record {
      day_start_equity_usdt = decimal 10000 1;
      day_realized_pnl_usdt = decimal 0 1;
      day_start_timestamp = decimal 0 1;
      trades_today = 0;
    };
    vol_state = record {
      recent_returns = [];
      max_window = 100;
      current_regime = VolatilityRegime.normal;
      last_computed_at = decimal 0 1;
      annualized_vol_pct = decimal 250 1;
    };
    peak_equity_usdt = decimal 0 1;
    current_equity_usdt = decimal 0 1;
    category_exposures = [];
    open_positions_coins = [];
    signal_first_seen = [];
    total_vetoes = 0;
    veto_counts = λ v. 0;
  }

  pub initialize : F → F → RiskManager F → RiskManager F
  initialize now starting_equity m = record m {
    config = record m.config { starting_equity_usdt = starting_equity };
    peak_equity_usdt = starting_equity;
    current_equity_usdt = starting_equity;
    daily_state = record m.daily_state {
      day_start_equity_usdt = starting_equity;
      day_start_timestamp = now;
    };
  }

  pub update_equity : F → RiskManager F → RiskManager F
  update_equity new_equity m = record m {
    current_equity_usdt = new_equity;
    peak_equity_usdt = if lt m.peak_equity_usdt new_equity then new_equity else m.peak_equity_usdt;
  }

  -- The day's state, begun anew where more than 86400 seconds have passed.
  abbrev pub day_state : F → RiskManager F → DailyPnl F
  day_state now m =
      if lt (whole 86400) (sub now m.daily_state.day_start_timestamp)
      then record {
        day_start_equity_usdt = m.current_equity_usdt;
        day_realized_pnl_usdt = decimal 0 1;
        day_start_timestamp = now;
        trades_today = 0;
      }
      else m.daily_state

  pub record_daily_pnl : F → F → RiskManager F → RiskManager F
  record_daily_pnl now pnl_usdt m =
      let d = day_state now m in
      record m {
        daily_state = record d {
          day_realized_pnl_usdt = add d.day_realized_pnl_usdt pnl_usdt;
          trades_today = d.trades_today + 1;
        };
      }

  pub regime_of : RiskConfig F → F → VolatilityRegime
  regime_of c ann_vol =
      if le c.vol_extreme_threshold ann_vol
      then VolatilityRegime.extreme
      else if le c.vol_high_threshold ann_vol
      then VolatilityRegime.high
      else if le ann_vol c.vol_low_threshold
      then VolatilityRegime.low
      else VolatilityRegime.normal

  pub on_position_opened : String → F → String → RiskManager F → RiskManager F
  on_position_opened coin notional category m = record m {
    open_positions_coins = m.open_positions_coins ++ (upper coin ∷ []);
    category_exposures =
        insert category
          (add (get_or (lookup category m.category_exposures) (decimal 0 1)) (abs notional))
          m.category_exposures;
  }

  pub on_position_closed : F → String → F → F → String → RiskManager F → RiskManager F
  unfolding record_daily_pnl update_equity
  on_position_closed now coin notional pnl_usdt category m =
      let left = sub (get_or (lookup category m.category_exposures) (decimal 0 1)) (abs notional) in
      let n = record m {
        open_positions_coins = remove_first (upper coin) m.open_positions_coins;
        category_exposures = insert category (max_of (decimal 0 1) left) m.category_exposures;
      } in
      let r = record_daily_pnl now pnl_usdt n in
      update_equity (add r.current_equity_usdt pnl_usdt) r

  abbrev pub is_recent : F → String × F → Bool
  is_recent cutoff x = not (lt x.1 cutoff)

  pub cleanup_old_signals : F → F → RiskManager F → RiskManager F × ℕ
  cleanup_old_signals now max_age_hours m =
      let cutoff = sub now (mul max_age_hours (whole 3600)) in
      (
        record m { signal_first_seen = keep (is_recent cutoff) m.signal_first_seen },
        length (keep (λ x. not (is_recent cutoff x)) m.signal_first_seen),
      )

  module _ (sqrt : F → F) where
    -- The volatility of a year, in percent, from five or more returns.
    pub annual_volatility : List F → F
    annual_volatility returns =
        let n = of_int (pos (length returns)) in
        let mean = div (sum returns) n in
        let squares = map (λ (r : F). let d = sub r mean in mul d d) returns in
        let variance = div (sum squares) n in
        mul (mul (sqrt (max_of (whole 0) variance)) (sqrt (whole 3_628_800))) (whole 100)

    pub recompute_vol_regime : F → RiskManager F → RiskManager F
    unfolding annual_volatility regime_of
    recompute_vol_regime now m =
        if ltb (length m.vol_state.recent_returns) 5
        then m
        else let v = annual_volatility m.vol_state.recent_returns in
          record m {
            vol_state = record m.vol_state {
              annualized_vol_pct = v;
              last_computed_at = now;
              current_regime = regime_of m.config v;
            };
          }

    pub update_volatility : F → F → RiskManager F → RiskManager F
    unfolding add_return recompute_vol_regime
    update_volatility now price_return_pct m =
        let n = record m { vol_state = add_return price_return_pct m.vol_state } in
        if leb 5 (length n.vol_state.recent_returns) then recompute_vol_regime now n else n
