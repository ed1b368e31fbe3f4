-- ===== src/Copying/Score.antt =====
-- src/hl_observer/copying/realtime_magic_score.py: the score of one delta of a leader. The text
-- of a reason is the code's; the code sorts the reasons, so they are listed in alphabetical order.
pub mod Sizing
pub mod Decision
use hyperliquid_smart_wallet.Prelude.{
  String, Bool, true, false, not, ◌&&◌, ◌||◌, List, [], ◌∷◌, ◌++◌, Option, none, some,
  if◌then◌else◌, str_eq, upper, contains, is_empty, get_or,
}
use hyperliquid_smart_wallet.Prelude.Int.{ℤ, pos, pos_part, ◌-ℤ◌, ltb_ℤ, leb_ℤ}
use hyperliquid_smart_wallet.Float.{Float, whole, max_of, min_of}
use hyperliquid_smart_wallet.Copying.{clamp, flags}

pub record ScoreConfig (F : Type 0) : Type 0 where
  pub min_edge_required_bps : F
  pub max_signal_age_ms : ℤ
  pub fee_bps : F
  pub spread_bps : F
  pub slippage_bps : F
  pub latency_cost_bps_per_minute : F
  pub max_latency_cost_bps : F
  pub adverse_selection_penalty_bps : F
  pub funding_penalty_bps : F
  pub min_liquidity_score : F
  pub low_liquidity_penalty_bps : F
  pub single_wallet_penalty_bps : F
  pub single_wallet_min_edge_required_bps : F
  pub crowding_penalty_start_wallets : ℤ
  pub crowding_penalty_bps_per_wallet : F
  pub max_copy_degradation_bps : F
  pub max_price_deviation_bps : F
  pub starting_equity_usdt : F
  pub max_position_notional_usdt : F
  pub min_position_notional_usdt : F
  pub max_total_exposure_usdt : F
  pub base_risk_fraction : F
  pub max_risk_fraction : F

pub record ScoreInput (F : Type 0) : Type 0 where
  pub action_type : String
  pub direction : String
  pub leader_expected_edge_bps : Option F
  pub leader_consistency_factor : F
  pub signal_age_ms : ℤ
  pub consensus_wallets : ℤ
  pub liquidity_score : F
  pub leader_score : F
  pub leader_reference_price : F
  pub current_mid : Option F
  pub leader_notional_usdt : F
  pub current_open_exposure_usdt : F
  pub current_open_positions : ℤ
  pub max_open_positions : ℤ

-- `accepted` says which of the two decisions is taken.
pub record CopyScore (F : Type 0) : Type 0 where
  pub accepted : Bool
  pub refusal_reasons : List String
  pub signal_freshness_score : F
  pub leader_expected_edge_bps : Option F
  pub leader_consistency_factor : F
  pub consensus_wallets : ℤ
  pub consensus_factor : F
  pub liquidity_score : F
  pub leader_score : F
  pub copy_degradation_bps : F
  pub edge_remaining_bps : Option F
  pub opportunity_score : F
  pub risk_score : F
  pub price_deviation_bps : F
  pub adverse_price_move_bps : F
  pub simulated_notional_usdt : F
  pub warnings : List String

module _ {F : Type 0} ⦃f : Float F⦄ where
  open f use {add, sub, mul, div, abs, lt, le, feq, of_int, decimal, round}

  unfoldable pub default_score_config : ScoreConfig F
  default_score_config = record {
    min_edge_required_bps = decimal 250 1;
    max_signal_age_ms = pos 4_000;
    fee_bps = decimal 40 1;
    spread_bps = decimal 30 1;
    slippage_bps = decimal 50 1;
    latency_cost_bps_per_minute = decimal 10 1;
    max_latency_cost_bps = decimal 120 1;
    adverse_selection_penalty_bps = decimal 20 1;
    funding_penalty_bps = decimal 0 1;
    min_liquidity_score = decimal 35 2;
    low_liquidity_penalty_bps = decimal 40 1;
    single_wallet_penalty_bps = decimal 30 1;
    single_wallet_min_edge_required_bps = decimal 300 1;
    crowding_penalty_start_wallets = pos 5;
    crowding_penalty_bps_per_wallet = decimal 20 1;
    max_copy_degradation_bps = decimal 180 1;
    max_price_deviation_bps = decimal 80 1;
    starting_equity_usdt = decimal 10_000 1;
    max_position_notional_usdt = decimal 500 1;
    min_position_notional_usdt = decimal 50 1;
    max_total_exposure_usdt = decimal 2_000 1;
    base_risk_fraction = decimal 3 2;
    max_risk_fraction = decimal 5 2;
  }

  unfoldable pub freshness_factor : ℤ → ℤ → F
  unfolding clamp
  freshness_factor signal_age_ms max_signal_age_ms =
      let age = of_int (pos (pos_part signal_age_ms)) in
      if leb_ℤ max_signal_age_ms (pos 0)
      then decimal 0 1
      else clamp (sub (decimal 10 1) (div age (of_int max_signal_age_ms))) (decimal 0 1)
          (decimal 10 1)

  pub risk_score_from_costs : F → F → F → F
  unfolding clamp
  risk_score_from_costs copy_degradation_bps price_deviation_bps liquidity_score =
      let zero = decimal 0 1 in
      let cost = min_of (decimal 450 1) (mul (max_of zero copy_degradation_bps) (decimal 12 1)) in
      let deviation =
        min_of (decimal 250 1) (mul (max_of zero price_deviation_bps) (decimal 6 1)) in
      let liquidity =
        mul (sub (decimal 10 1) (clamp liquidity_score zero (decimal 10 1))) (decimal 300 1) in
      clamp (sub (sub (sub (decimal 1_000 1) cost) deviation) liquidity) zero (decimal 1_000 1)

  -- `direction`, the leader's price, the mid price.
  unfoldable pub adverse_price_move_bps : String → F → F → F
  adverse_price_move_bps direction leader_price current_mid =
      let zero = decimal 0 1 in
      let bps = λ (d : F). mul (div d leader_price) (decimal 100_000 1) in
      if le leader_price (whole 0) || le current_mid (whole 0)
      then zero
      else if str_eq (upper direction) "LONG"
      then max_of zero (bps (sub current_mid leader_price))
      else if str_eq (upper direction) "SHORT"
      then max_of zero (bps (sub leader_price current_mid))
      else zero

  -- The mid price where there is one above 0.
  abbrev pub mid_or : Option F → F → F
  mid_or none price = price
  mid_or (some mid) price = if not (feq mid (whole 0)) && lt (whole 0) mid then mid else price

  abbrev pub mid_of : ScoreInput F → F
  mid_of i = mid_or i.current_mid i.leader_reference_price

  abbrev pub deviation_of : ScoreInput F → F
  deviation_of i =
      mul (div (abs (sub (mid_of i) i.leader_reference_price)) i.leader_reference_price)
        (decimal 100_000 1)

  pub rejected_score : ScoreInput F → ScoreConfig F → List String → CopyScore F
  unfolding clamp freshness_factor adverse_price_move_bps
  rejected_score i cfg reasons =
      let zero = decimal 0 1 in
      let deviation =
        if lt (whole 0) i.leader_reference_price && lt (whole 0) (mid_of i)
        then deviation_of i
        else zero in
      record {
        accepted = false;
        refusal_reasons = reasons;
        signal_freshness_score = round (freshness_factor i.signal_age_ms cfg.max_signal_age_ms) 6;
        leader_expected_edge_bps = i.leader_expected_edge_bps;
        leader_consistency_factor = round i.leader_consistency_factor 6;
        consensus_wallets = pos (pos_part i.consensus_wallets);
        consensus_factor = decimal 10 1;
        liquidity_score = round (clamp i.liquidity_score zero (decimal 10 1)) 6;
        leader_score = round (clamp i.leader_score zero (decimal 1_000 1)) 6;
        copy_degradation_bps = zero;
        edge_remaining_bps = none;
        opportunity_score = zero;
        risk_score = zero;
        price_deviation_bps = round deviation 6;
        adverse_price_move_bps =
            round (adverse_price_move_bps i.direction i.leader_reference_price (mid_of i)) 6;
        simulated_notional_usdt = zero;
        warnings = [];
      }
