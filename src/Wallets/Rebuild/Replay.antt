-- ===== src/Wallets/Rebuild/Replay.antt =====
-- src/hl_observer/wallets/position_rebuilder.py: the rebuilt positions against the fills of each coin.
use hyperliquid_smart_wallet.Prelude.{
  append_one, append_nothing, ◌≡◌, refl, ap, ◌∙◌, String, Bool, List, [], ◌∷◌, ◌++◌, Option, none,
  some, if◌then◌else◌, get_or, lookup, keep, str_eq, arith, eq_iff, lookup-insert, is_empty,
  Entries, Entries-insert,
}
use hyperliquid_smart_wallet.Prelude.Sort.{sort_by, keep-sort_by}
use hyperliquid_smart_wallet.Float.{Float}
use hyperliquid_smart_wallet.Wallets.Delta.{
  PublicFill, PositionDeltaRecord, fill_timestamp, fill_coin, build_position_delta_from_fill,
}
use hyperliquid_smart_wallet.Wallets.Rebuild.{
  RebuiltPosition, CoinState, Rebuild, new_coin_state, sort_fills_by_time, delta_of, apply_fill,
  rebuild_step, rebuild_onto, position_from_state, positions_of, rebuild_positions_from_fills,
}

module _ {F : Type 0} ⦃f : Float F⦄ where
  abbrev pub is_of : String → PublicFill F → Bool
  is_of coin x = str_eq (fill_coin x) coin

  abbrev pub is_delta_of : String → PositionDeltaRecord F → Bool
  is_delta_of coin d = str_eq d.coin coin

  abbrev pub is_position_of : String → RebuiltPosition F → Bool
  is_position_of coin p = str_eq p.coin coin

  -- The state that these fills alone lead to, and their deltas.
  abbrev pub replay : String → List (PublicFill F) → CoinState F → CoinState F
  replay wallet [] s = s
  replay wallet (x ∷ xs) s = replay wallet xs (apply_fill wallet x s)

  abbrev pub deltas_from : String → List (PublicFill F) → CoinState F → List (PositionDeltaRecord F)
  deltas_from wallet [] s = []
  deltas_from wallet (x ∷ xs) s =
      delta_of wallet x s ∷ deltas_from wallet xs (apply_fill wallet x s)

  -- The state of a coin after some of its own fills, where it may not have begun.
  abbrev pub after : String → List (PublicFill F) → Option (CoinState F) → Option (CoinState F)
  after wallet [] known = known
  after wallet (x ∷ xs) known =
      after wallet xs (some (apply_fill wallet x (get_or known new_coin_state)))

  lookup-rebuild_step :
      (wallet coin : String) (x : PublicFill F) (r : Rebuild F)
      → lookup coin (rebuild_step wallet x r).states ≡ (
          if is_of coin x
          then some (apply_fill wallet x (get_or (lookup coin r.states) new_coin_state))
          else lookup coin r.states)
  unfolding rebuild_step
  lookup-rebuild_step wallet coin x r =
      let own = fill_coin x in
      let s = get_or (lookup own r.states) new_coin_state in
      ground (arith, lookup-insert own coin (apply_fill wallet x s) r.states, eq_iff own coin)

  lookup-rebuild_onto :
      (wallet coin : String) (xs : List (PublicFill F)) (r : Rebuild F)
      → lookup coin (rebuild_onto wallet xs r).states
        ≡ after wallet (keep (is_of coin) xs) (lookup coin r.states)
  unfolding rebuild_onto
  lookup-rebuild_onto wallet coin [] r = refl
  lookup-rebuild_onto wallet coin (x ∷ xs) r = ground (
    arith,
    lookup-rebuild_onto wallet coin xs (rebuild_step wallet x r),
    lookup-rebuild_step wallet coin x r,
  )

  coin-delta_of :
      (wallet : String) (x : PublicFill F) (s : CoinState F)
      → (delta_of wallet x s).coin ≡ fill_coin x
  unfolding delta_of build_position_delta_from_fill
  coin-delta_of wallet x s = refl

  keep-append_one :
      (coin : String) (ds : List (PositionDeltaRecord F)) (d : PositionDeltaRecord F)
      → keep (is_delta_of coin) (ds ++ (d ∷ [])) ≡ (
          if is_delta_of coin d
          then keep (is_delta_of coin) ds ++ (d ∷ [])
          else keep (is_delta_of coin) ds)
  keep-append_one coin [] d = ground arith
  keep-append_one coin (e ∷ ds) d = ground (arith, keep-append_one coin ds d)

  keep-deltas :
      (wallet coin : String) (xs : List (PublicFill F)) (r : Rebuild F)
      → keep (is_delta_of coin) (rebuild_onto wallet xs r).deltas
        ≡ keep (is_delta_of coin) r.deltas
          ++ deltas_from wallet
              (keep (is_of coin) xs)
              (get_or (lookup coin r.states) new_coin_state)
  unfolding rebuild_onto rebuild_step
  keep-deltas wallet coin [] r = ground (arith, append_nothing (keep (is_delta_of coin) r.deltas))
  keep-deltas wallet coin (x ∷ xs) r =
      let s = get_or (lookup (fill_coin x) r.states) new_coin_state in
      let d = delta_of wallet x s in
      let next = rebuild_step wallet x r in
      let own = keep (is_of coin) xs in
      ground (
        arith,
        keep-deltas wallet coin xs next,
        lookup-rebuild_step wallet coin x r,
        keep-append_one coin r.deltas d,
        coin-delta_of wallet x s,
        eq_iff (fill_coin x) coin,
        append_one (keep (is_delta_of coin) r.deltas)
            (deltas_from wallet own (apply_fill wallet x s)) d,
      )

  -- Nothing is asked of a state; the keys are different.
  abbrev Anything : String → CoinState F → Type 0
  Anything coin s = Unit

  Entries-rebuild_onto :
      (wallet : String) (xs : List (PublicFill F)) (r : Rebuild F)
      → Entries Anything r.states
      → Entries Anything (rebuild_onto wallet xs r).states
  unfolding rebuild_onto rebuild_step
  Entries-rebuild_onto wallet [] r h = h
  Entries-rebuild_onto wallet (x ∷ xs) r h =
      let s = get_or (lookup (fill_coin x) r.states) new_coin_state in
      Entries-rebuild_onto wallet xs (rebuild_step wallet x r)
        (Entries-insert Anything (fill_coin x) (apply_fill wallet x s) r.states h tt)

  -- The positions that a state of the coin gives.
  abbrev pub position_for : String → String → Option (CoinState F) → List (RebuiltPosition F)
  position_for wallet coin none = []
  position_for wallet coin (some s) = position_from_state wallet coin s ∷ []

  coin-position_from_state :
      (wallet coin : String) (s : CoinState F) → (position_from_state wallet coin s).coin ≡ coin
  unfolding position_from_state
  coin-position_from_state wallet coin s = refl

  keep-positions_of :
      (wallet coin : String) (m : List (String × CoinState F))
      → Entries Anything m
      → keep (is_position_of coin) (positions_of wallet m)
        ≡ position_for wallet coin (lookup coin m)
  keep-positions_of wallet coin [] h = refl
  keep-positions_of wallet coin ((k, s) ∷ m) h = ground (
    arith,
    h,
    keep-positions_of wallet coin m h.2,
    coin-position_from_state wallet k s,
    eq_iff k coin,
  )

  after_known :
      (wallet : String) (xs : List (PublicFill F)) (s : CoinState F)
      → after wallet xs (some s) ≡ some (replay wallet xs s)
  after_known wallet [] s = refl
  after_known wallet (x ∷ xs) s = after_known wallet xs (apply_fill wallet x s)

  after_nothing :
      (wallet : String) (xs : List (PublicFill F))
      → after wallet xs none
        ≡ (if is_empty xs then none else some (replay wallet xs new_coin_state))
  after_nothing wallet [] = refl
  after_nothing wallet (x ∷ xs) = after_known wallet xs (apply_fill wallet x new_coin_state)

  -- In whatever order the fills come, a coin has exactly one position if one of the fills is of the
  -- coin, and none otherwise; the position and the deltas of the coin are those that its own fills
  -- alone lead to, in the order of their times, fills of the same time as they came.
  pub rebuild_positions_from_fills-replay :
      (wallet coin : String) (fills : List (PublicFill F))
      → let own = sort_fills_by_time (keep (is_of coin) fills) in
        let result = rebuild_positions_from_fills wallet fills in
        (keep (is_position_of coin) result.positions ≡ (
          if is_empty own
          then []
          else position_from_state wallet coin (replay wallet own new_coin_state) ∷ []))
        × (keep (is_delta_of coin) result.deltas ≡ deltas_from wallet own new_coin_state)
  unfolding rebuild_positions_from_fills sort_fills_by_time
  rebuild_positions_from_fills-replay wallet coin fills =
      let start : Rebuild F = record { states = []; deltas = [] } in
      let sorted = sort_by fill_timestamp fills in
      let own = sort_by fill_timestamp (keep (is_of coin) fills) in
      let sorts = keep-sort_by fill_timestamp (is_of coin) fills in
      let states = (rebuild_onto wallet sorted start).states in
      (
        ground (
          arith,
          sorts,
          keep-positions_of wallet coin states (Entries-rebuild_onto wallet sorted start tt),
          lookup-rebuild_onto wallet coin sorted start,
          after_nothing wallet own,
        ),
        keep-deltas wallet coin sorted start
            ∙ ap (λ xs. deltas_from wallet xs new_coin_state) sorts,
      )
