-- ===== src/Wallets/Rebuild/Closed.antt =====
-- src/hl_observer/wallets/position_rebuilder.py: closed positions and their entry prices.
use hyperliquid_smart_wallet.Prelude.{
  ◌≡◌, refl, String, true, false, List, [], ◌∷◌, Option, none, some, get_or, lookup, arith, All,
  Entries, Entries-insert, Entries-lookup, ◌⊎◌,
}
use hyperliquid_smart_wallet.Float.{Float}
use hyperliquid_smart_wallet.Wallets.Delta.{
  PositionAction, PublicFill, is_flat, is_held, is_none, side_of_size, fill_coin,
  effective_previous, effective_new, signed_fill_size, build_position_delta_from_fill,
}
use hyperliquid_smart_wallet.Wallets.Delta.Classify.{classify_action-flat, side_of_size-known}
use hyperliquid_smart_wallet.Wallets.Rebuild.{
  RebuildStatus, RebuiltPosition, CoinState, Rebuild, new_coin_state, sort_fills_by_time, delta_of,
  apply_delta, apply_fill, rebuild_step, rebuild_onto, position_from_state, positions_of,
  rebuild_positions_from_fills,
}

module _ {F : Type 0} ⦃f : Float F⦄ where
  -- No entry price is left at a flat size.
  pub IsSettled : String → CoinState F → Type 0
  IsSettled coin s = is_flat (side_of_size s.size) ≡ true → s.entry_px_estimated ≡ none

  delta_of-flat :
      (wallet : String) (x : PublicFill F) (s : CoinState F)
      → let d = delta_of wallet x s in
        is_flat (side_of_size d.new_size) ≡ true
        → (d.action ≡ PositionAction.unknown_action) ⊎ (d.action ≡ PositionAction.closes)
  unfolding delta_of build_position_delta_from_fill
  delta_of-flat wallet x s h =
      let signed = signed_fill_size x in
      let previous = effective_previous x.start_position (some (get_or x.start_position s.size)) in
      classify_action-flat previous (effective_new previous signed) (is_none signed) h

  apply_fill-IsSettled :
      (wallet coin : String) (x : PublicFill F) (s : CoinState F)
      → IsSettled coin s
      → IsSettled coin (apply_fill wallet x s)
  unfolding IsSettled apply_fill apply_delta
  apply_fill-IsSettled wallet coin x s h =
      let flat = delta_of-flat wallet x s in λ e. ground (arith, h, flat, e)

  known-IsSettled :
      (coin : String) (known : Option (CoinState F)) (m : List (String × CoinState F))
      → Entries IsSettled m
      → lookup coin m ≡ known
      → IsSettled coin (get_or known new_coin_state)
  unfolding IsSettled new_coin_state
  known-IsSettled coin none m h e = λ e. refl
  known-IsSettled coin (some s) m h e = Entries-lookup IsSettled coin s m h e

  rebuild_onto-IsSettled :
      (wallet : String) (xs : List (PublicFill F)) (r : Rebuild F)
      → Entries IsSettled r.states
      → Entries IsSettled (rebuild_onto wallet xs r).states
  unfolding rebuild_onto rebuild_step
  rebuild_onto-IsSettled wallet [] r h = h
  rebuild_onto-IsSettled wallet (x ∷ xs) r h =
      let coin = fill_coin x in
      let known = lookup coin r.states in
      let s = get_or known new_coin_state in
      let settled =
        apply_fill-IsSettled wallet coin x s (known-IsSettled coin known r.states h refl) in
      rebuild_onto-IsSettled wallet xs (rebuild_step wallet x r)
        (Entries-insert IsSettled coin (apply_fill wallet x s) r.states h settled)

  -- A position that is not held has no entry price; one that is reported open is held.
  pub IsConsistent : RebuiltPosition F → Type 0
  IsConsistent p =
      (is_held p.side ≡ false → p.entry_px_estimated ≡ none)
      × (p.status ≡ RebuildStatus.open_position → is_held p.side ≡ true)
      × (p.status ≡ RebuildStatus.closed_position → p.entry_px_estimated ≡ none)

  position_from_state-IsConsistent :
      (wallet coin : String) (s : CoinState F)
      → IsSettled coin s
      → IsConsistent (position_from_state wallet coin s)
  unfolding IsConsistent IsSettled position_from_state
  position_from_state-IsConsistent wallet coin s h = ground (arith, h, side_of_size-known s.size)

  positions_of-IsConsistent :
      (wallet : String) (m : List (String × CoinState F))
      → Entries IsSettled m
      → All IsConsistent (positions_of wallet m)
  positions_of-IsConsistent wallet [] h = tt
  positions_of-IsConsistent wallet ((coin, s) ∷ m) h =
      (position_from_state-IsConsistent wallet coin s h.0, positions_of-IsConsistent wallet m h.2)

  -- Whatever the fills, no position that is not held keeps an entry price, a position reported open
  -- is held, and one reported closed has no entry price.
  pub rebuild_positions_from_fills-IsConsistent :
      (wallet : String) (fills : List (PublicFill F))
      → All IsConsistent (rebuild_positions_from_fills wallet fills).positions
  unfolding rebuild_positions_from_fills
  rebuild_positions_from_fills-IsConsistent wallet fills =
      let start : Rebuild F = record { states = []; deltas = [] } in
      let sorted = sort_fills_by_time fills in
      positions_of-IsConsistent wallet (rebuild_onto wallet sorted start).states
        (rebuild_onto-IsSettled wallet sorted start tt)
