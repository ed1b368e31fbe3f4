-- ===== src/Wallets/Delta/Eligible.antt =====
-- src/hl_observer/wallets/position_delta_engine.py: which deltas may be followed on paper.
use hyperliquid_smart_wallet.Prelude.{
  ◌≡◌, refl, ◌||◌, String, Bool, true, false, not, ◌&&◌, Option, none, some, arith, Bool-cases, inl,
  inr,
}
use hyperliquid_smart_wallet.Prelude.Int.{pos, eqb_ℤ}
use hyperliquid_smart_wallet.Float.{Float, IsOrdered, max_of, min_of}
use hyperliquid_smart_wallet.Float.Order.{Less-of_lt}
use hyperliquid_smart_wallet.Wallets.Delta.{
  PublicFill, is_none, fill_timestamp, signed_from, signed_fill_size, score_before_clamp,
  confidence_for_fill, build_position_delta_from_fill,
}

-- How the literals of the code and their differences stand to 0.7, as the arithmetic of doubles has it.
pub record HasLiterals (F : Type 0) ⦃f : Float F⦄ : Type 0 where
  pub floor_low : f.lt (f.decimal 1 1) (f.decimal 7 1) ≡ true
  pub unclear_low : f.lt (f.decimal 2 1) (f.decimal 7 1) ≡ true
  pub one_high : f.le (f.decimal 7 1) (f.decimal 10 1) ≡ true
  -- 0.95, 0.95 - 0.1, 0.95 - 0.15 and 0.95 - 0.15 - 0.1
  pub high : f.le (f.decimal 7 1) (f.decimal 95 2) ≡ true
  pub high_timeless : f.le (f.decimal 7 1) (f.sub (f.decimal 95 2) (f.decimal 10 2)) ≡ true
  pub high_priceless : f.le (f.decimal 7 1) (f.sub (f.decimal 95 2) (f.decimal 15 2)) ≡ true
  pub high_bare :
      f.le (f.decimal 7 1) (f.sub (f.sub (f.decimal 95 2) (f.decimal 15 2)) (f.decimal 10 2)) ≡ true
  -- 0.65, 0.65 - 0.1, 0.65 - 0.15 and 0.65 - 0.15 - 0.1
  pub low : f.lt (f.decimal 65 2) (f.decimal 7 1) ≡ true
  pub low_timeless : f.lt (f.sub (f.decimal 65 2) (f.decimal 10 2)) (f.decimal 7 1) ≡ true
  pub low_priceless : f.lt (f.sub (f.decimal 65 2) (f.decimal 15 2)) (f.decimal 7 1) ≡ true
  pub low_bare :
      f.lt (f.sub (f.sub (f.decimal 65 2) (f.decimal 15 2)) (f.decimal 10 2)) (f.decimal 7 1) ≡ true

module _ {F : Type 0} ⦃f : Float F⦄ where
  open f use {lt, le, decimal}

  abbrev clamped : F → F
  clamped x = max_of (decimal 1 1) (min_of (decimal 10 1) x)

  clamped-high :
      (laws : IsOrdered F) (lits : HasLiterals F) (x : F)
      → le (decimal 7 1) x ≡ true
      → le (decimal 7 1) (clamped x) ≡ true
  clamped-high laws lits x h = ground (
    arith,
    h,
    lits.one_high,
    laws.lt_of_lt_of_le (decimal 1 1) (decimal 7 1) x lits.floor_low h,
    laws.lt_of_lt_of_le (decimal 1 1) (decimal 7 1) (decimal 10 1) lits.floor_low lits.one_high,
  )

  not_le_of_lt : (laws : IsOrdered F) (x y : F) → lt x y ≡ true → le y x ≡ false
  not_le_of_lt laws x y h = ground (arith, Less-of_lt laws x y h)

  clamped-low :
      (laws : IsOrdered F) (lits : HasLiterals F) (x : F)
      → lt x (decimal 7 1) ≡ true
      → le (decimal 7 1) (clamped x) ≡ false
  clamped-low laws lits x h = ground (
    arith,
    laws.lt_of_lt_of_le x (decimal 7 1) (decimal 10 1) h lits.one_high,
    not_le_of_lt laws x (decimal 7 1) h,
    not_le_of_lt laws (decimal 1 1) (decimal 7 1) lits.floor_low,
  )

  score-start :
      (laws : IsOrdered F) (lits : HasLiterals F) (has_start has_price has_time : Bool)
      → le (decimal 7 1) (clamped (score_before_clamp has_start has_price has_time)) ≡ has_start
  score-start laws lits true true true = clamped-high laws lits _ lits.high
  score-start laws lits true true false = clamped-high laws lits _ lits.high_timeless
  score-start laws lits true false true = clamped-high laws lits _ lits.high_priceless
  score-start laws lits true false false = clamped-high laws lits _ lits.high_bare
  score-start laws lits false true true = clamped-low laws lits _ lits.low
  score-start laws lits false true false = clamped-low laws lits _ lits.low_timeless
  score-start laws lits false false true = clamped-low laws lits _ lits.low_priceless
  score-start laws lits false false false = clamped-low laws lits _ lits.low_bare

  confidence_for_fill-start :
      (laws : IsOrdered F) (lits : HasLiterals F) (x : PublicFill F) (unclear has_start : Bool)
      → le (decimal 7 1) (confidence_for_fill x unclear has_start).0
        ≡ (has_start && not (unclear || is_none x.size))
  unfolding confidence_for_fill
  confidence_for_fill-start laws lits x unclear has_start =
      let score =
        score-start laws lits has_start (not (is_none x.price))
          (not (eqb_ℤ (fill_timestamp x) (pos 0))) in
      let unclear_low = not_le_of_lt laws (decimal 2 1) (decimal 7 1) lits.unclear_low in
      elim (Bool-cases (unclear || is_none x.size)) [
        | inl e ↦ rw e (ground (arith, unclear_low))
        | inr e ↦ rw e (rw score (ground arith))
      ]

  signed_from-nothing :
      (x : PublicFill F) (size : Option F)
      → (is_none (signed_from x size) || is_none size) ≡ is_none (signed_from x size)
  signed_from-nothing x none = refl
  signed_from-nothing x (some size) = ground arith

  -- A delta may be followed on paper exactly if its fill says what the position was before, and the
  -- side of a size: a missing price or a missing time, or both, do not stop it. Assumed are the order of
  -- the floats and how the literals of the code and their differences stand to 0.7.
  pub build_position_delta_from_fill-eligible :
      (laws : IsOrdered F) (lits : HasLiterals F) (wallet : String) (x : PublicFill F)
      (known : Option F)
      → (build_position_delta_from_fill wallet x known).is_paper_eligible
        ≡ (not (is_none x.start_position) && not (is_none (signed_fill_size x)))
  unfolding build_position_delta_from_fill signed_fill_size
  build_position_delta_from_fill-eligible laws lits wallet x known = ground (
    arith,
    confidence_for_fill-start laws lits x (is_none (signed_fill_size x))
        (not (is_none x.start_position)),
    signed_from-nothing x x.size,
  )
