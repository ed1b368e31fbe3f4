-- ===== src/Copying/Kelly.antt =====
-- src/hl_observer/copying/kelly_sizing.py: the size of a paper position by a fraction of the Kelly
-- criterion.
pub mod Bounds
use hyperliquid_smart_wallet.Prelude.{
  String, Bool, true, false, ◌&&◌, List, [], ◌∷◌, ◌++◌, Option, none, some, if◌then◌else◌,
}
use hyperliquid_smart_wallet.Prelude.Int.{ℤ, pos, pos_part, ◌-ℤ◌}
use hyperliquid_smart_wallet.Float.{Float, whole, max_of, min_of}
use hyperliquid_smart_wallet.Copying.{clamp, flags}

pub record KellyConfig (F : Type 0) : Type 0 where
  pub kelly_fraction : F
  pub min_win_probability : F
  pub starting_equity_usdt : F
  pub min_position_usdt : F
  pub max_position_usdt : F
  pub max_total_exposure_usdt : F
  pub max_position_fraction : F
  pub confidence_scaling : Bool

pub record KellyResult (F : Type 0) : Type 0 where
  pub position_size_usdt : F
  pub kelly_fraction_used : F
  pub full_kelly_fraction : F
  pub win_probability : F
  pub win_loss_ratio : F
  pub edge_quality : String
  pub warnings : List String

-- The arguments of one call but the configuration.
pub record KellyInput (F : Type 0) : Type 0 where
  pub edge_remaining_bps : F
  pub leader_score : F
  pub consensus_wallets : ℤ
  pub win_rate_estimate : Option F
  pub current_open_exposure_usdt : F
  pub leader_notional_usdt : F

module _ {F : Type 0} ⦃f : Float F⦄ where
  open f use {add, sub, mul, div, lt, le, of_int, decimal, round}

  unfoldable pub default_kelly_config : F → KellyConfig F
  default_kelly_config starting_equity = record {
    kelly_fraction = decimal 5 1;
    min_win_probability = decimal 52 2;
    starting_equity_usdt = starting_equity;
    min_position_usdt = decimal 50 1;
    max_position_usdt = decimal 500 1;
    max_total_exposure_usdt = decimal 2_000 1;
    max_position_fraction = decimal 5 2;
    confidence_scaling = true;
  }

  unfoldable pub consensus_boost : KellyInput F → F
  consensus_boost q =
      let others = of_int (pos (pos_part (q.consensus_wallets -ℤ pos 1))) in
      min_of (decimal 3 2) (mul others (decimal 1 2))

  -- The estimate from a win rate that is given, and from the edge otherwise.
  pub win_prob_of_rate : F → KellyInput F → F
  win_prob_of_rate rate q =
      let quality = clamp (div q.leader_score (decimal 1_000 1)) (decimal 7 1) (decimal 10 1) in
      clamp (add (mul rate quality) (consensus_boost q)) (decimal 45 2) (decimal 72 2)

  unfoldable pub win_prob_of_edge : KellyInput F → F
  win_prob_of_edge q =
      let edge = add (decimal 50 2) (div q.edge_remaining_bps (decimal 10_000 1)) in
      let base = clamp edge (decimal 48 2) (decimal 70 2) in
      let quality = clamp (div q.leader_score (decimal 1_000 1)) (decimal 5 1) (decimal 10 1) in
      clamp (add (mul base quality) (consensus_boost q)) (decimal 45 2) (decimal 72 2)

  abbrev pub win_prob_from : Option F → KellyInput F → F
  win_prob_from none q = win_prob_of_edge q
  win_prob_from (some rate) q =
      if lt (decimal 0 1) rate && le rate (decimal 10 1)
      then win_prob_of_rate rate q
      else win_prob_of_edge q

  unfoldable pub win_prob : KellyInput F → F
  win_prob q = win_prob_from q.win_rate_estimate q

  unfoldable pub win_loss : KellyInput F → F
  win_loss q =
      div (max_of (decimal 10 1) (mul q.edge_remaining_bps (decimal 15 1)))
        (max_of (decimal 10 1) (mul q.edge_remaining_bps (decimal 10 1)))

  unfoldable pub full_kelly : KellyInput F → F
  full_kelly q =
      div (sub (mul (win_prob q) (win_loss q)) (sub (decimal 10 1) (win_prob q))) (win_loss q)

  unfoldable pub leader_confidence : KellyInput F → F
  leader_confidence q = clamp (div q.leader_score (decimal 800 1)) (decimal 3 1) (decimal 10 1)

  unfoldable pub kelly_used : KellyInput F → KellyConfig F → F
  kelly_used q cfg =
      let used = mul (full_kelly q) cfg.kelly_fraction in
      if cfg.confidence_scaling then mul used (leader_confidence q) else used

  -- The size that the fraction asks for.
  unfoldable pub sized_usdt : KellyInput F → KellyConfig F → F
  sized_usdt q cfg =
      mul cfg.starting_equity_usdt
        (clamp (kelly_used q cfg) (decimal 0 1) cfg.max_position_fraction)

  -- The size before the cap of the exposure.
  unfoldable pub target_usdt : KellyInput F → KellyConfig F → F
  target_usdt q cfg =
      let sized = sized_usdt q cfg in
      let capped =
        if lt (whole 0) q.leader_notional_usdt
        then min_of sized q.leader_notional_usdt
        else sized in
      clamp capped cfg.min_position_usdt cfg.max_position_usdt

  unfoldable pub remaining_usdt : KellyInput F → KellyConfig F → F
  remaining_usdt q cfg =
      max_of (decimal 0 1) (sub cfg.max_total_exposure_usdt q.current_open_exposure_usdt)

  -- The size after it.
  unfoldable pub capped_usdt : KellyInput F → KellyConfig F → F
  capped_usdt q cfg =
      if lt (remaining_usdt q cfg) (target_usdt q cfg)
      then remaining_usdt q cfg
      else target_usdt q cfg

  abbrev pub edge_quality_of : KellyInput F → String
  edge_quality_of q =
      if le (whole 25) q.edge_remaining_bps && le (decimal 58 2) (win_prob q)
      then "HIGH"
      else if le (whole 12) q.edge_remaining_bps && le (decimal 54 2) (win_prob q)
      then "MEDIUM"
      else "LOW"

  abbrev pub sizing_warnings : KellyInput F → KellyConfig F → List String
  sizing_warnings q cfg = flags (
      (cfg.confidence_scaling && lt (leader_confidence q) (decimal 6 1), "LOW_CONFIDENCE_SCALING")
      ∷ (lt (remaining_usdt q cfg) (target_usdt q cfg), "POSITION_SIZE_CAPPED_BY_TOTAL_EXPOSURE")
      ∷ [])

  -- The result of a call that has found an edge.
  abbrev pub sized_result : KellyInput F → KellyConfig F → F → String → List String → KellyResult F
  sized_result q cfg size quality warnings = record {
    position_size_usdt = size;
    kelly_fraction_used = round (kelly_used q cfg) 6;
    full_kelly_fraction = round (full_kelly q) 6;
    win_probability = round (win_prob q) 4;
    win_loss_ratio = round (win_loss q) 4;
    edge_quality = quality;
    warnings = warnings;
  }

  unfoldable pub kelly_criterion_size : KellyInput F → KellyConfig F → KellyResult F
  kelly_criterion_size q cfg =
      let zero = decimal 0 1 in
      if lt (win_prob q) cfg.min_win_probability
      then record {
        position_size_usdt = zero;
        kelly_fraction_used = zero;
        full_kelly_fraction = zero;
        win_probability = round (win_prob q) 4;
        win_loss_ratio = zero;
        edge_quality = "REJECT";
        warnings = "WIN_PROBABILITY_TOO_LOW" ∷ [];
      }
      else if le (full_kelly q) (whole 0)
      then record {
        position_size_usdt = zero;
        kelly_fraction_used = zero;
        full_kelly_fraction = round (full_kelly q) 6;
        win_probability = round (win_prob q) 4;
        win_loss_ratio = round (win_loss q) 4;
        edge_quality = "REJECT";
        warnings = "KELLY_NEGATIVE_NO_EDGE" ∷ [];
      }
      else if le (remaining_usdt q cfg) (whole 0)
      then sized_result q cfg zero "REJECT" ("MAX_TOTAL_EXPOSURE_CAP_ACTIVE" ∷ [])
      else if lt (capped_usdt q cfg) cfg.min_position_usdt
      then sized_result q cfg zero "REJECT"
          (sizing_warnings q cfg ++ ("POSITION_SIZE_BELOW_MINIMUM" ∷ []))
      else sized_result q cfg (round (capped_usdt q cfg) 2) (edge_quality_of q)
          (sizing_warnings q cfg)
