-- ===== src/Copying/Kelly/Bounds.antt =====
-- src/hl_observer/copying/kelly_sizing.py: the bounds of the size.
use hyperliquid_smart_wallet.Prelude.{◌≡◌, true, false, arith, ◌⊎◌}
use hyperliquid_smart_wallet.Float.{Float, IsOrdered, whole, min_of}
use hyperliquid_smart_wallet.Float.Order.{IsNumber, max_of-bounds, min_of-bounds, le_of_not_lt}
use hyperliquid_smart_wallet.Copying.{clamp}
use hyperliquid_smart_wallet.Copying.Kelly.{
  KellyConfig, KellyInput, kelly_criterion_size, win_prob, full_kelly, sized_usdt, target_usdt,
  remaining_usdt, capped_usdt,
}

module _ {F : Type 0} ⦃f : Float F⦄ where
  open f use {le}

  -- The size is at most the leader's notional, or it is the minimum of a position.
  pub FitsLeader : KellyInput F → KellyConfig F → F → Type 0
  FitsLeader q cfg size = (le size q.leader_notional_usdt ≡ true) ⊎ (size ≡ cfg.min_position_usdt)

module _ {F : Type 0} ⦃f : Float F⦄ (laws : IsOrdered F) where
  open f use {lt, le, mul, sub, decimal, round}

  zero-IsNumber : IsNumber (decimal 0 1)
  zero-IsNumber = ground (arith, laws.zero_literal, laws.zero_refl)

  -- Between two numbers of which the first is not above the second, or not even a number.
  clamp-bounds :
      (v lo hi : F)
      → IsNumber v
      → le lo hi ≡ true
      → IsNumber (clamp v lo hi)
        × (le lo (clamp v lo hi) ≡ true)
        × (le (clamp v lo hi) hi ≡ true)
        × ((le (clamp v lo hi) v ≡ true) ⊎ (clamp v lo hi ≡ lo))
  unfolding clamp
  clamp-bounds v lo hi hv h =
      let n = laws.refl_of_le lo hi h in
      let m = min_of-bounds laws hi v n.1 hv in
      ground (
        arith,
        m,
        n,
        h,
        laws.lt_of_lt_of_le lo (min_of hi v) hi,
        laws.le_of_lt lo (min_of hi v),
        laws.refl_of_lt lo (min_of hi v),
      )

  remaining_usdt-IsNumber :
      (q : KellyInput F) (cfg : KellyConfig F) → IsNumber (remaining_usdt q cfg)
  unfolding remaining_usdt
  remaining_usdt-IsNumber q cfg = (max_of-bounds laws (decimal 0 1) _ zero-IsNumber).0

  target_usdt-bounds :
      (q : KellyInput F) (cfg : KellyConfig F)
      → le cfg.min_position_usdt cfg.max_position_usdt ≡ true
      → IsNumber (sized_usdt q cfg)
      → let t = target_usdt q cfg in
        IsNumber t
        × (le cfg.min_position_usdt t ≡ true)
        × (le t cfg.max_position_usdt ≡ true)
        × (lt (whole 0) q.leader_notional_usdt ≡ true → FitsLeader q cfg t)
  unfolding target_usdt FitsLeader
  target_usdt-bounds q cfg h n =
      let lo = cfg.min_position_usdt in
      let hi = cfg.max_position_usdt in
      let sized = sized_usdt q cfg in
      let leader = q.leader_notional_usdt in
      let cut = min_of sized leader in
      ground (
        arith,
        h,
        n,
        laws.refl_of_lt (whole 0) leader,
        min_of-bounds laws sized leader n,
        clamp-bounds sized lo hi n h,
        clamp-bounds cut lo hi,
        laws.le_trans (clamp cut lo hi) cut leader,
      )

  -- Where the two limits of a position are in order and the fraction of the equity is a number, the
  -- size is 0, or the rounding of an amount that lies between the two limits, is within the
  -- exposure that is left and, where the leader's notional is above 0, is at most that or else the
  -- minimum of a position; in that case the win probability meets its minimum and the criterion
  -- is above 0.
  pub kelly_criterion_size-bounds :
      (q : KellyInput F) (cfg : KellyConfig F)
      → le cfg.min_position_usdt cfg.max_position_usdt ≡ true
      → IsNumber (sized_usdt q cfg)
      → let size = (kelly_criterion_size q cfg).position_size_usdt in
        let amount = capped_usdt q cfg in
        (size ≡ decimal 0 1)
        ⊎ ((size ≡ round amount 2)
            × (le cfg.min_position_usdt amount ≡ true)
            × (le amount cfg.max_position_usdt ≡ true)
            × (le amount (remaining_usdt q cfg) ≡ true)
            × (lt (whole 0) q.leader_notional_usdt ≡ true → FitsLeader q cfg amount)
            × (lt (win_prob q) cfg.min_win_probability ≡ false)
            × (le (full_kelly q) (whole 0) ≡ false))
  unfolding kelly_criterion_size capped_usdt FitsLeader
  kelly_criterion_size-bounds q cfg h n =
      let lo = cfg.min_position_usdt in
      let r = remaining_usdt q cfg in
      let t = target_usdt q cfg in
      let hr = remaining_usdt-IsNumber q cfg in
      let ht = target_usdt-bounds q cfg h n in
      ground (
        arith,
        hr,
        ht,
        laws.refl_of_le lo cfg.max_position_usdt h,
        le_of_not_lt laws r t hr ht.0,
        le_of_not_lt laws r lo hr,
        laws.le_of_lt r t,
        laws.le_trans r t cfg.max_position_usdt,
        laws.le_trans r t q.leader_notional_usdt,
      )
