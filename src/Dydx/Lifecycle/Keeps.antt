-- ===== src/Dydx/Lifecycle/Keeps.antt =====
-- What a fill does to the local positions: the invariant, refusals, and the entry of the position.
use hyperliquid_smart_wallet.Prelude.{
  String, ◌≡◌, refl, ◌≢◌, ◌⊎◌, inl, inr, true, false, List, [], ◌∷◌, ◌++◌, Option, none, some,
  arith, if◌then◌else◌, str_eq, lookup-insert_self, lookup, Entries, Entries-insert, Entries-erase,
  Entries-lookup, lookup-insert, lookup-erase_ne, lookup-erase_self,
}
use hyperliquid_smart_wallet.Prelude.Int.{ℤ}
use hyperliquid_smart_wallet.Float.{Float, IsOrdered, whole}
use hyperliquid_smart_wallet.Dydx.Models.{LifecycleEvent, NormalizedFill, PositionSide, is_close}
use hyperliquid_smart_wallet.Dydx.Lifecycle.{
  LocalPosition, Engine, infer_lifecycle, fill_key, size_of, size_after_fill, entry_after_add,
  is_closing_direction, new_position, touch, update_positions, accept, apply_event, process_fill,
}

-- The events that leave a position.
abbrev pub IsHolding : LifecycleEvent → Type 0
IsHolding event =
    (event ≡ LifecycleEvent.opened)
    ⊎ (event ≡ LifecycleEvent.added)
    ⊎ (event ≡ LifecycleEvent.reduced)

-- The events that need a position.
abbrev pub IsTracked : LifecycleEvent → Type 0
IsTracked event =
    (event ≡ LifecycleEvent.added)
    ⊎ (event ≡ LifecycleEvent.reduced)
    ⊎ (event ≡ LifecycleEvent.closed)

module _ {F : Type 0} ⦃f : Float F⦄ where
  open f use {lt, le, decimal}

  -- A local position stands under its own key and has a positive size.
  abbrev pub IsHeld : String → LocalPosition F → Type 0
  IsHeld key p = (p.position_key ≡ key) × (lt (whole 0) p.size ≡ true)

  abbrev pub IsValid : Engine F → Type 0
  IsValid e = Entries IsHeld e.positions

  update_positions-Entries :
      (now_ms : ℤ) (fill : NormalizedFill F) (side : PositionSide) (key : String)
      (existing : Option (LocalPosition F)) (event : LifecycleEvent) (new_size : F)
      (ps : List (String × LocalPosition F))
      → Entries IsHeld ps
      → lookup key ps ≡ existing
      → (IsHolding event → lt (whole 0) new_size ≡ true)
      → Entries IsHeld (update_positions now_ms fill side key existing event new_size ps)
  unfolding update_positions new_position touch
  update_positions-Entries now_ms fill side key existing LifecycleEvent.opened n ps h e pos =
      Entries-insert IsHeld key (new_position now_ms fill side key n) ps h (refl, pos (inl refl))
  update_positions-Entries now_ms fill side key (some p) LifecycleEvent.added n ps h e pos =
      let q = touch now_ms fill LifecycleEvent.added n p in
      Entries-insert IsHeld key (record q { entry_price = entry_after_add p fill }) ps h
        ((Entries-lookup IsHeld key p ps h e).0, pos (inr (inl refl)))
  update_positions-Entries now_ms fill side key (some p) LifecycleEvent.reduced n ps h e pos =
      Entries-insert IsHeld key (touch now_ms fill LifecycleEvent.reduced n p) ps h
        ((Entries-lookup IsHeld key p ps h e).0, pos (inr (inr refl)))
  update_positions-Entries now_ms fill side key (some p) LifecycleEvent.closed n ps h e pos =
      Entries-erase IsHeld key ps h
  update_positions-Entries now_ms fill side key existing event n ps h e pos = h

  abbrev pub held_size : Option (LocalPosition F) → Option F
  held_size none = none
  held_size (some p) = some p.size

  -- An event that opens, or that finds the position it needs.
  abbrev pub IsReady : LifecycleEvent → Option (LocalPosition F) → Type 0
  IsReady LifecycleEvent.opened existing = Unit
  IsReady LifecycleEvent.added (some p) = Unit
  IsReady LifecycleEvent.reduced (some p) = Unit
  IsReady LifecycleEvent.closed (some p) = Unit
  IsReady event existing = ⊥

  update_positions-lookup :
      (now_ms : ℤ) (fill : NormalizedFill F) (side : PositionSide) (key : String)
      (existing : Option (LocalPosition F)) (event : LifecycleEvent) (n : F)
      (ps : List (String × LocalPosition F))
      → Entries IsHeld ps
      → IsReady event existing
      → held_size (lookup key (update_positions now_ms fill side key existing event n ps))
        ≡ (if is_close event then none else some n)
  unfolding update_positions new_position touch
  update_positions-lookup now_ms fill side key existing LifecycleEvent.opened n ps h t =
      rw (lookup-insert_self key (new_position now_ms fill side key n) ps)
  update_positions-lookup now_ms fill side key (some p) LifecycleEvent.added n ps h t =
      let q = touch now_ms fill LifecycleEvent.added n p in
      rw (lookup-insert_self key (record q { entry_price = entry_after_add p fill }) ps)
  update_positions-lookup now_ms fill side key (some p) LifecycleEvent.reduced n ps h t =
      rw (lookup-insert_self key (touch now_ms fill LifecycleEvent.reduced n p) ps)
  update_positions-lookup now_ms fill side key (some p) LifecycleEvent.closed n ps h t =
      rw (lookup-erase_self IsHeld key ps h)
  update_positions-lookup now_ms fill side key existing event n ps h t = elim t [ ]

  update_positions-others :
      (now_ms : ℤ) (fill : NormalizedFill F) (side : PositionSide) (key other : String)
      (existing : Option (LocalPosition F)) (event : LifecycleEvent) (new_size : F)
      (ps : List (String × LocalPosition F))
      → str_eq key other ≡ false
      → lookup other (update_positions now_ms fill side key existing event new_size ps)
        ≡ lookup other ps
  unfolding update_positions
  update_positions-others now_ms fill side key other existing LifecycleEvent.opened n ps h =
      rw (lookup-insert key other (new_position now_ms fill side key n) ps, h)
  update_positions-others now_ms fill side key other (some p) LifecycleEvent.added n ps h =
      let q = touch now_ms fill LifecycleEvent.added n p in
      rw (lookup-insert key other (record q { entry_price = entry_after_add p fill }) ps, h)
  update_positions-others now_ms fill side key other (some p) LifecycleEvent.reduced n ps h =
      rw (lookup-insert key other (touch now_ms fill LifecycleEvent.reduced n p) ps, h)
  update_positions-others now_ms fill side key other (some p) LifecycleEvent.closed n ps h =
      lookup-erase_ne key other ps h
  update_positions-others now_ms fill side key other existing event n ps h = refl

  infer_lifecycle-range :
      (prev new : F)
      → (infer_lifecycle prev new ≢ LifecycleEvent.flip)
        × (infer_lifecycle prev new ≢ LifecycleEvent.liquidation)
  unfolding infer_lifecycle
  infer_lifecycle-range prev new = ground arith

  module _ (laws : IsOrdered F) where
    infer_lifecycle-holding :
        (prev new : F) → IsHolding (infer_lifecycle prev new) → lt (whole 0) new ≡ true
    unfolding infer_lifecycle
    infer_lifecycle-holding prev new h =
        ground (arith, laws.lt_of_lt_of_le (whole 0) prev new, laws.le_of_lt prev new)

    -- Every fill keeps every local position under its own key, once, with a positive size.
    pub process_fill-IsValid :
        (now_ms : ℤ) (fill : NormalizedFill F) (side : PositionSide) (e : Engine F)
        → IsValid e
        → IsValid (process_fill now_ms fill side e).0
    unfolding process_fill apply_event accept
    process_fill-IsValid now_ms fill side e h =
        let key = fill_key e fill side in
        let existing = lookup key e.positions in
        let before = size_of existing in
        let after = size_after_fill side fill before in
        ground (
          arith,
          update_positions-Entries now_ms fill side key existing (infer_lifecycle before after)
              after e.positions h refl (infer_lifecycle-holding before after),
        )

  -- A refused fill leaves every position alone and reports no delta. It is logged as an orphan
  -- exactly if the result says so.
  pub process_fill_refused :
      (now_ms : ℤ) (fill : NormalizedFill F) (side : PositionSide) (e : Engine F)
      → let (e', r) = process_fill now_ms fill side e in
        r.accepted ≡ false
        → (e'.positions ≡ e.positions)
          × (r.delta ≡ none)
          × (e'.orphan_events
              ≡ (if r.is_orphan then e.orphan_events ++ (r ∷ []) else e.orphan_events))
  unfolding process_fill apply_event accept
  process_fill_refused now_ms fill side e = ground arith

  -- A fill against a position that is not there is always refused.
  pub process_fill_orphan :
      (now_ms : ℤ) (fill : NormalizedFill F) (side : PositionSide) (e : Engine F)
      → lookup (fill_key e fill side) e.positions ≡ none
      → is_closing_direction side fill.side ≡ true
      → let (e', r) = process_fill now_ms fill side e in
        (r.accepted ≡ false)
        × (r.is_orphan ≡ true)
        × (r.event ≡ LifecycleEvent.closed)
        × (e'.positions ≡ e.positions)
  unfolding process_fill
  process_fill_orphan now_ms fill side e h c = ground arith

  -- A fill is accepted only for an event that is ready.
  process_fill-accept :
      (now_ms : ℤ) (fill : NormalizedFill F) (side : PositionSide) (e : Engine F)
      → let existing = lookup (fill_key e fill side) e.positions in
        let before = size_of existing in
        let after = size_after_fill side fill before in
        let event = infer_lifecycle before after in
        (process_fill now_ms fill side e).1.accepted ≡ true
        → (process_fill now_ms fill side e ≡ accept now_ms fill side e event before after)
          × IsReady event existing
  unfolding process_fill apply_event
  process_fill-accept now_ms fill side e =
      let before = size_of (lookup (fill_key e fill side) e.positions) in
      ground (arith, infer_lifecycle-range before (size_after_fill side fill before))

  -- An accepted fill reports the size that was held and the size after it, leaves a position of that
  -- size at its key, or none after a CLOSE, and touches no other key and no orphan.
  pub process_fill_accepted :
      (now_ms : ℤ) (fill : NormalizedFill F) (side : PositionSide) (e : Engine F)
      → IsValid e
      → let (e', r) = process_fill now_ms fill side e in
        let key = fill_key e fill side in
        r.accepted ≡ true
        → (r.size_before ≡ size_of (lookup key e.positions))
          × (r.size_after ≡ size_after_fill side fill r.size_before)
          × (held_size (lookup key e'.positions)
              ≡ (if is_close r.event then none else some r.size_after))
          × ((other : String)
              → str_eq key other ≡ false
              → lookup other e'.positions ≡ lookup other e.positions)
          × (e'.orphan_events ≡ e.orphan_events)
  unfolding accept
  process_fill_accepted now_ms fill side e h a =
      let key = fill_key e fill side in
      let existing = lookup key e.positions in
      let before = size_of existing in
      let after = size_after_fill side fill before in
      let event = infer_lifecycle before after in
      let (path, ready) = process_fill-accept now_ms fill side e a in
      rw path (
        refl,
        refl,
        update_positions-lookup now_ms fill side key existing event after e.positions h ready,
        λ other ne.
            update_positions-others now_ms fill side key other existing event after e.positions ne,
        refl,
      )
