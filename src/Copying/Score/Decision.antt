-- ===== src/Copying/Score/Decision.antt =====
-- src/hl_observer/copying/realtime_magic_score.py: `score_realtime_copy_candidate`.
pub mod Accepted
use hyperliquid_smart_wallet.Prelude.{
  ◌≡◌, ◌↔◌, refl, String, Bool, true, false, not, ◌&&◌, ◌||◌, List, [], ◌∷◌, ◌++◌, Option, none,
  some, if◌then◌else◌, str_eq, upper, contains, is_empty, arith, eq_iff,
}
use hyperliquid_smart_wallet.Prelude.Int.{ℤ, pos, pos_part, ◌-ℤ◌, ltb_ℤ, leb_ℤ}
use hyperliquid_smart_wallet.Float.{Float, whole, max_of, min_of}
use hyperliquid_smart_wallet.Copying.{clamp, flags}
use hyperliquid_smart_wallet.Copying.Score.{
  ScoreConfig, ScoreInput, CopyScore, freshness_factor, risk_score_from_costs,
  adverse_price_move_bps, mid_of, deviation_of, rejected_score,
}
use hyperliquid_smart_wallet.Copying.Score.Sizing.{capped_simulated_notional}

abbrev pub not_entries : List String
not_entries = "REDUCE" ∷ "CLOSE_LONG" ∷ "CLOSE_SHORT" ∷ "UNKNOWN" ∷ []

abbrev pub entry_actions : List String
entry_actions = "OPEN_LONG" ∷ "OPEN_SHORT" ∷ "ADD" ∷ "INCREASE" ∷ []

abbrev pub directions : List String
directions = "LONG" ∷ "SHORT" ∷ []

-- The refusals before any score is computed; the measured edge otherwise.
pub data Entry (F : Type 0) : Type 0 where
  refused : String → Entry F
  measured : F → Entry F

module _ {F : Type 0} ⦃f : Float F⦄ where
  open f use {add, sub, mul, div, abs, lt, le, of_int, decimal, round}

  abbrev pub measure : Option F → Entry F
  measure none = Entry.refused "EDGE_UNMEASURABLE"
  measure (some edge) = Entry.measured edge

  unfoldable pub entry_check : ScoreInput F → Entry F
  entry_check i =
      let action = upper i.action_type in
      if contains action not_entries
      then Entry.refused
          (if not (str_eq action "UNKNOWN") then "REDUCE_OR_CLOSE_NOT_ENTRY" else "UNKNOWN_DELTA")
      else if not (contains action entry_actions)
      then Entry.refused "UNKNOWN_DELTA"
      else if not (contains (upper i.direction) directions)
      then Entry.refused "UNKNOWN_DELTA"
      else if le i.leader_reference_price (whole 0)
      then Entry.refused "PRICE_INVALID"
      else measure i.leader_expected_edge_bps

  unfoldable pub adverse_of : ScoreInput F → F
  adverse_of i = adverse_price_move_bps (upper i.direction) i.leader_reference_price (mid_of i)

  unfoldable pub consensus_factor_of : ScoreInput F → F
  consensus_factor_of i =
      let others = of_int (pos (pos_part (i.consensus_wallets -ℤ pos 1))) in
      add (decimal 10 1) (min_of (decimal 25 2) (mul others (decimal 8 2)))

  unfoldable pub crowding_penalty_bps : ScoreInput F → ScoreConfig F → F
  crowding_penalty_bps i cfg =
      mul (of_int (pos (pos_part (i.consensus_wallets -ℤ cfg.crowding_penalty_start_wallets))))
        cfg.crowding_penalty_bps_per_wallet

  unfoldable pub liquidity_of : ScoreInput F → F
  liquidity_of i = clamp i.liquidity_score (decimal 0 1) (decimal 10 1)

  unfoldable pub liquidity_penalty_bps : ScoreInput F → ScoreConfig F → F
  liquidity_penalty_bps i cfg =
      if lt (liquidity_of i) cfg.min_liquidity_score
      then cfg.low_liquidity_penalty_bps
      else decimal 0 1

  abbrev pub is_single : ScoreInput F → Bool
  is_single i = ltb_ℤ i.consensus_wallets (pos 2)

  unfoldable pub copy_degradation : ScoreInput F → ScoreConfig F → F
  copy_degradation i cfg =
      let minutes = div (of_int (pos (pos_part i.signal_age_ms))) (decimal 600_000 1) in
      let delay = min_of cfg.max_latency_cost_bps (mul minutes cfg.latency_cost_bps_per_minute) in
      let single = if is_single i then cfg.single_wallet_penalty_bps else decimal 0 1 in
      add
        (add
          (add
            (add
              (add
                (add (add (add (add delay cfg.spread_bps) cfg.slippage_bps) cfg.fee_bps)
                  (liquidity_penalty_bps i cfg))
                single)
              (adverse_of i))
            cfg.adverse_selection_penalty_bps)
          (crowding_penalty_bps i cfg))
        cfg.funding_penalty_bps

  unfoldable pub edge_after_costs : ScoreInput F → ScoreConfig F → F → F
  edge_after_costs i cfg expected =
      let consistency = clamp i.leader_consistency_factor (decimal 0 1) (decimal 15 1) in
      let freshness = freshness_factor i.signal_age_ms cfg.max_signal_age_ms in
      sub (mul (mul (mul expected consistency) freshness) (consensus_factor_of i))
        (copy_degradation i cfg)

  -- The reasons to refuse an entry with this edge, sorted.
  unfoldable pub entry_reasons : ScoreInput F → ScoreConfig F → F → List String
  entry_reasons i cfg expected =
      let edge = edge_after_costs i cfg expected in
      let notional = (capped_simulated_notional i cfg edge).0 in
      flags (
        (lt cfg.max_copy_degradation_bps (copy_degradation i cfg), "COPY_DEGRADATION_TOO_HIGH")
        ∷ (lt edge cfg.min_edge_required_bps, "EDGE_REMAINING_TOO_LOW")
        ∷ (lt (whole 0) (liquidity_penalty_bps i cfg), "LIQUIDITY_TOO_LOW")
        ∷ (le notional (whole 0), "MAX_EXPOSURE_REACHED")
        ∷ (leb_ℤ i.max_open_positions i.current_open_positions, "MAX_OPEN_PAPER_TRADES_REACHED")
        ∷ (lt cfg.max_price_deviation_bps (adverse_of i), "PRICE_DEVIATION_TOO_HIGH")
        ∷ (
          is_single i && lt edge cfg.single_wallet_min_edge_required_bps,
          "SINGLE_WALLET_EDGE_TOO_LOW",
        )
        ∷ (lt (whole 25) cfg.slippage_bps, "SLIPPAGE_TOO_HIGH")
        ∷ (lt (whole 20) cfg.spread_bps, "SPREAD_TOO_WIDE")
        ∷ (ltb_ℤ cfg.max_signal_age_ms i.signal_age_ms, "STALE_SIGNAL")
        ∷ [])

  pub opportunity : ScoreInput F → F → F → F
  opportunity i edge risk =
      let zero = decimal 0 1 in
      let hundred = decimal 1_000 1 in
      let others = of_int (i.consensus_wallets -ℤ pos 1) in
      let with_edge = add (decimal 300 1) (mul edge (decimal 135 2)) in
      let with_leader = add with_edge (mul (clamp i.leader_score zero hundred) (decimal 18 2)) in
      let with_others = add with_leader (mul others (decimal 50 1)) in
      let with_liquidity = add with_others (mul (liquidity_of i) (decimal 80 1)) in
      clamp (sub with_liquidity (mul (sub hundred risk) (decimal 12 2))) zero hundred

  unfoldable pub score_entry : ScoreInput F → ScoreConfig F → F → CopyScore F
  score_entry i cfg expected =
      let edge = edge_after_costs i cfg expected in
      let sized = capped_simulated_notional i cfg edge in
      let degradation = copy_degradation i cfg in
      let risk = risk_score_from_costs degradation (adverse_of i) (liquidity_of i) in
      let reasons = entry_reasons i cfg expected in
      record {
        accepted = is_empty reasons;
        refusal_reasons = reasons;
        signal_freshness_score = round (freshness_factor i.signal_age_ms cfg.max_signal_age_ms) 6;
        leader_expected_edge_bps = some (round expected 6);
        leader_consistency_factor = round i.leader_consistency_factor 6;
        consensus_wallets = pos (pos_part i.consensus_wallets);
        consensus_factor = round (consensus_factor_of i) 6;
        liquidity_score = round (liquidity_of i) 6;
        leader_score = round (clamp i.leader_score (decimal 0 1) (decimal 1_000 1)) 6;
        copy_degradation_bps = round degradation 6;
        edge_remaining_bps = some (round edge 6);
        opportunity_score = round (opportunity i edge risk) 6;
        risk_score = round risk 6;
        price_deviation_bps = round (deviation_of i) 6;
        adverse_price_move_bps = round (adverse_of i) 6;
        simulated_notional_usdt = round sized.0 6;
        warnings =
            flags ((lt (whole 0) (crowding_penalty_bps i cfg), "CROWDING_PENALTY_APPLIED") ∷ [])
            ++ (flags ((le edge (whole 0), "EDGE_NON_POSITIVE_AFTER_COSTS") ∷ []) ++ sized.1);
      }

  abbrev pub score_checked : Entry F → ScoreInput F → ScoreConfig F → CopyScore F
  score_checked (Entry.refused reason) i cfg = rejected_score i cfg (reason ∷ [])
  score_checked (Entry.measured expected) i cfg = score_entry i cfg expected

  unfoldable pub score_realtime_copy_candidate : ScoreInput F → ScoreConfig F → CopyScore F
  score_realtime_copy_candidate i cfg = score_checked (entry_check i) i cfg
