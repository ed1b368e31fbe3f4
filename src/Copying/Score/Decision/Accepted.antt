-- ===== src/Copying/Score/Decision/Accepted.antt =====
-- src/hl_observer/copying/realtime_magic_score.py: which candidates
-- `score_realtime_copy_candidate` accepts.
use hyperliquid_smart_wallet.Prelude.{
  Bool, List, Option, String, arith, contains, eq_iff, false, if◌then◌else◌, is_empty, none, not,
  refl, some, str_eq, true, upper, ◌&&◌, ◌↔◌, ◌≡◌,
}
use hyperliquid_smart_wallet.Prelude.Int.{ltb_ℤ, leb_ℤ}
use hyperliquid_smart_wallet.Float.{Float, whole}
use hyperliquid_smart_wallet.Copying.Score.{ScoreConfig, ScoreInput, rejected_score}
use hyperliquid_smart_wallet.Copying.Score.Sizing.{capped_simulated_notional}
use hyperliquid_smart_wallet.Copying.Score.Decision.{
  Entry, entry_actions, not_entries, directions, measure, entry_check, adverse_of,
  liquidity_penalty_bps, is_single, copy_degradation, edge_after_costs, entry_reasons, score_entry,
  score_checked, score_realtime_copy_candidate,
}

contains-same :
    (a b : String) (xs : List String)
    → contains b xs ≡ false
    → str_eq a b ≡ true
    → contains a xs ≡ false
contains-same a b xs h e = let same : a ≡ b = ground (arith, e, eq_iff a b) in cc

entry_actions_disjoint :
    (a : String) → contains a entry_actions ≡ true → contains a not_entries ≡ false
entry_actions_disjoint a h = ground (
  arith,
  h,
  contains-same a "OPEN_LONG" not_entries refl,
  contains-same a "OPEN_SHORT" not_entries refl,
  contains-same a "ADD" not_entries refl,
  contains-same a "INCREASE" not_entries refl,
)

module _ {F : Type 0} ⦃f : Float F⦄ where
  open f use {lt, le}

  -- What an entry with a measured edge is held against.
  pub Passes : ScoreInput F → ScoreConfig F → F → Type 0
  Passes i cfg expected =
      let edge = edge_after_costs i cfg expected in
      (lt cfg.max_copy_degradation_bps (copy_degradation i cfg) ≡ false)
      × (lt edge cfg.min_edge_required_bps ≡ false)
      × (lt (whole 0) (liquidity_penalty_bps i cfg) ≡ false)
      × (le (capped_simulated_notional i cfg edge).0 (whole 0) ≡ false)
      × (leb_ℤ i.max_open_positions i.current_open_positions ≡ false)
      × (lt cfg.max_price_deviation_bps (adverse_of i) ≡ false)
      × ((is_single i && lt edge cfg.single_wallet_min_edge_required_bps) ≡ false)
      × (lt (whole 25) cfg.slippage_bps ≡ false)
      × (lt (whole 20) cfg.spread_bps ≡ false)
      × (ltb_ℤ cfg.max_signal_age_ms i.signal_age_ms ≡ false)

  entry_reasons-Passes :
      (i : ScoreInput F) (cfg : ScoreConfig F) (expected : F)
      → (is_empty (entry_reasons i cfg expected) ≡ true) ↔ Passes i cfg expected
  unfolding entry_reasons Passes
  entry_reasons-Passes i cfg expected = ground arith

  -- The measured edge of an entry, where there is one.
  pub IsEntry : ScoreInput F → F → Type 0
  IsEntry i expected =
      (contains (upper i.action_type) entry_actions ≡ true)
      × (contains (upper i.direction) directions ≡ true)
      × (le i.leader_reference_price (whole 0) ≡ false)
      × (i.leader_expected_edge_bps ≡ some expected)

  measure_iff : (e : Option F) (x : F) → (measure e ≡ Entry.measured x) ↔ (e ≡ some x)
  measure_iff none x = ground arith
  measure_iff (some y) x = ground arith

  -- The chain of the checks, over their outcomes.
  checks_iff :
      (closes opens known bad : Bool) (reason : String) (e : Option F) (x : F)
      → (opens ≡ true → closes ≡ false)
      → ((if closes
            then Entry.refused reason
            else if not opens
            then Entry.refused "UNKNOWN_DELTA"
            else if not known
            then Entry.refused "UNKNOWN_DELTA"
            else if bad
            then Entry.refused "PRICE_INVALID"
            else measure e)
          ≡ Entry.measured x)
        ↔ ((opens ≡ true) × (known ≡ true) × (bad ≡ false) × (e ≡ some x))
  checks_iff closes opens known bad reason e x h = ground (arith, h, measure_iff e x)

  entry_check-IsEntry :
      (i : ScoreInput F) (expected : F)
      → (entry_check i ≡ Entry.measured expected) ↔ IsEntry i expected
  unfolding entry_check IsEntry
  entry_check-IsEntry i expected =
      let action = upper i.action_type in
      checks_iff (contains action not_entries) (contains action entry_actions)
        (contains (upper i.direction) directions) (le i.leader_reference_price (whole 0)) _
        i.leader_expected_edge_bps expected (entry_actions_disjoint action)

  checked_iff :
      (c : Entry F) (i : ScoreInput F) (cfg : ScoreConfig F)
      → ((score_checked c i cfg).accepted ≡ true)
        ↔ ((expected : F) × (c ≡ Entry.measured expected) × Passes i cfg expected)
  unfolding score_entry rejected_score
  checked_iff (Entry.refused reason) i cfg = (λ h. ground arith, λ p. let e = p.1 in ground arith)
  checked_iff (Entry.measured edge) i cfg = (
    λ h. (edge, refl, (entry_reasons-Passes i cfg edge).0 h),
    λ p. let e = p.1 in ground (arith, entry_reasons-Passes i cfg p.0, p.2),
  )

  -- A candidate is accepted exactly if it opens or adds to a position in a known direction with a
  -- price and a measured edge, and with that edge: the costs of copying, the mid price's move, the
  -- fixed costs and the age of the signal are within their limits, the market is liquid enough that
  -- nothing is charged for it, fewer positions are open than allowed, the edge that the costs leave
  -- meets the minimum, for a single wallet the higher one too, and the capped notional is above 0, as
  -- it is not where no exposure is left or where the caps leave less than the smallest position.
  pub score_iff :
      (i : ScoreInput F) (cfg : ScoreConfig F)
      → ((score_realtime_copy_candidate i cfg).accepted ≡ true)
        ↔ ((expected : F) × IsEntry i expected × Passes i cfg expected)
  unfolding score_realtime_copy_candidate
  score_iff i cfg =
      let checked = checked_iff (entry_check i) i cfg in
      (
        λ h. let p = checked.0 h in (p.0, (entry_check-IsEntry i p.0).0 p.1, p.2),
        λ p. checked.1 (p.0, (entry_check-IsEntry i p.0).1 p.1, p.2),
      )
