-- ===== src/Copying/Score/Sizing.antt =====
-- src/hl_observer/copying/realtime_magic_score.py: `capped_simulated_notional`.
use hyperliquid_smart_wallet.Prelude.{
  ◌≡◌, String, true, List, [], ◌∷◌, ◌++◌, if◌then◌else◌, arith, ◌⊎◌,
}
use hyperliquid_smart_wallet.Prelude.Int.{pos, leb_ℤ}
use hyperliquid_smart_wallet.Float.{Float, IsOrdered, whole, max_of, min_of}
use hyperliquid_smart_wallet.Float.Order.{IsNumber, max_of-bounds, min_of-bounds, le_of_not_lt}
use hyperliquid_smart_wallet.Copying.Score.{ScoreConfig, ScoreInput}

module _ {F : Type 0} ⦃f : Float F⦄ where
  open f use {add, sub, mul, div, lt, le, decimal}

  -- The notional that the edge asks for, before any cap.
  unfoldable pub target_notional : ScoreInput F → ScoreConfig F → F → F
  target_notional i cfg edge_remaining_bps =
      let zero = decimal 0 1 in
      let boost = min_of (decimal 2 2) (div (max_of zero edge_remaining_bps) (decimal 20_000 1)) in
      let consensus = if leb_ℤ (pos 2) i.consensus_wallets then decimal 1 2 else zero in
      mul cfg.starting_equity_usdt
        (min_of cfg.max_risk_fraction (add (add cfg.base_risk_fraction boost) consensus))

  abbrev pub leader_cap : ScoreInput F → ScoreConfig F → F
  leader_cap i cfg =
      if lt (whole 0) i.leader_notional_usdt
      then i.leader_notional_usdt
      else cfg.max_position_notional_usdt

  unfoldable pub remaining_exposure : ScoreInput F → ScoreConfig F → F
  remaining_exposure i cfg =
      max_of (decimal 0 1)
        (sub cfg.max_total_exposure_usdt (max_of (decimal 0 1) i.current_open_exposure_usdt))

  unfoldable pub wanted_notional : ScoreInput F → ScoreConfig F → F → F
  unfolding target_notional
  wanted_notional i cfg edge_remaining_bps =
      min_of
        (min_of cfg.max_position_notional_usdt
          (max_of cfg.min_position_notional_usdt (target_notional i cfg edge_remaining_bps)))
        (leader_cap i cfg)

  unfoldable pub capped_simulated_notional : ScoreInput F → ScoreConfig F → F → F × List String
  unfolding remaining_exposure wanted_notional
  capped_simulated_notional i cfg edge_remaining_bps =
      let wanted = wanted_notional i cfg edge_remaining_bps in
      let remaining = remaining_exposure i cfg in
      let is_cut = lt remaining wanted in
      let notional = if is_cut then remaining else wanted in
      let cut = if is_cut then "POSITION_SIZE_CAPPED_BY_TOTAL_EXPOSURE" ∷ [] else [] in
      if le remaining (whole 0)
      then (decimal 0 1, "MAX_TOTAL_EXPOSURE_CAP_ACTIVE" ∷ [])
      else if lt notional cfg.min_position_notional_usdt
      then (decimal 0 1, cut ++ ("POSITION_SIZE_BELOW_MINIMUM" ∷ []))
      else (
        notional,
        cut
            ++ (if lt cfg.max_position_notional_usdt i.leader_notional_usdt
                then "POSITION_SIZE_CAPPED_VS_LEADER" ∷ []
                else []),
      )

  module _ (laws : IsOrdered F) where
    wanted_notional-le :
        (i : ScoreInput F) (cfg : ScoreConfig F) (e : F)
        → IsNumber cfg.max_position_notional_usdt
        → IsNumber cfg.min_position_notional_usdt
        → let w = wanted_notional i cfg e in
          IsNumber w
          × (le w cfg.max_position_notional_usdt ≡ true)
          × (le w (leader_cap i cfg) ≡ true)
    unfolding wanted_notional
    wanted_notional-le i cfg e hmax hmin =
        let asked = max_of cfg.min_position_notional_usdt (target_notional i cfg e) in
        let inner = min_of cfg.max_position_notional_usdt asked in
        let a = max_of-bounds laws cfg.min_position_notional_usdt (target_notional i cfg e) hmin in
        let b = min_of-bounds laws cfg.max_position_notional_usdt asked hmax a.0 in
        let cap : IsNumber (leader_cap i cfg) =
          ground (arith, laws.refl_of_lt (whole 0) i.leader_notional_usdt) in
        let c = min_of-bounds laws inner (leader_cap i cfg) b.0 cap in
        (c.0, laws.le_trans _ _ _ c.1 b.1, c.2)

    remaining_exposure-IsNumber :
        (i : ScoreInput F) (cfg : ScoreConfig F) → IsNumber (remaining_exposure i cfg)
    unfolding remaining_exposure
    remaining_exposure-IsNumber i cfg =
        let h : IsNumber (decimal 0 1) = ground (arith, laws.zero_literal, laws.zero_refl) in
        (max_of-bounds laws (decimal 0 1) _ h).0

    -- Where the two limits of a position are numbers, the notional is 0 or lies between the
    -- minimum of a position and each of: the maximum of a position, the leader's own notional
    -- (where it is above 0), the exposure that is left.
    pub capped_simulated_notional-bounds :
        (i : ScoreInput F) (cfg : ScoreConfig F) (edge_remaining_bps : F)
        → IsNumber cfg.max_position_notional_usdt
        → IsNumber cfg.min_position_notional_usdt
        → let n = (capped_simulated_notional i cfg edge_remaining_bps).0 in
          (n ≡ decimal 0 1)
          ⊎ ((le cfg.min_position_notional_usdt n ≡ true)
              × (le n cfg.max_position_notional_usdt ≡ true)
              × (le n (leader_cap i cfg) ≡ true)
              × (le n (remaining_exposure i cfg) ≡ true))
    unfolding capped_simulated_notional
    capped_simulated_notional-bounds i cfg e hmax hmin =
        let w = wanted_notional i cfg e in
        let r = remaining_exposure i cfg in
        let hw = wanted_notional-le i cfg e hmax hmin in
        let hr = remaining_exposure-IsNumber i cfg in
        ground (
          arith,
          hw.1,
          hw.2,
          hr,
          le_of_not_lt laws r w hr hw.0,
          le_of_not_lt laws r cfg.min_position_notional_usdt hr hmin,
          le_of_not_lt laws w cfg.min_position_notional_usdt hw.0 hmin,
          laws.le_of_lt r w,
          laws.le_trans r w cfg.max_position_notional_usdt,
          laws.le_trans r w (leader_cap i cfg),
        )
