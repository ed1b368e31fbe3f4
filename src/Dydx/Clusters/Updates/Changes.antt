-- ===== src/Dydx/Clusters/Updates/Changes.antt =====
-- hyper_smart_observer/dydx_v4/cluster_detector.py: the events of `update_positions` against the two
-- snapshots.
use hyperliquid_smart_wallet.Prelude.{
  ◌≡◌, refl, String, Bool, false, List, [], ◌∷◌, ◌++◌, Option, none, some, if◌then◌else◌, is_some,
  str_eq, lookup, lookup-insert, keep, keep-append, append_nothing, arith, eq_iff, eq_refl, Entries,
  Entries-insert,
}
use hyperliquid_smart_wallet.Prelude.Int.{ℤ}
use hyperliquid_smart_wallet.Float.{Float}
use hyperliquid_smart_wallet.Dydx.Clusters.{
  WalletPosition, EventType, PositionEvent, RawPosition, Snapshot, ClusterDetector, position_key,
  int_or,
}
use hyperliquid_smart_wallet.Dydx.Clusters.Updates.{
  position_of, store_position, new_positions, event_at, change_of, changes, closings, snapshot_of,
  update_positions,
}
use hyperliquid_smart_wallet.Dydx.Clusters.Updates.Polled.{last_given, lookup-polled}
use hyperliquid_smart_wallet.Dydx.Clusters.Updates.Expected.{expected}

module _ {F : Type 0} where
  -- The position stands under its own market and side.
  abbrev pub IsOwn : String → WalletPosition F → Type 0
  IsOwn key p = key ≡ position_key p.market_id p.side

  abbrev pub is_at : String → PositionEvent F → Bool
  is_at key e = str_eq (position_key e.market_id e.side) key

module _ {F : Type 0} ⦃f : Float F⦄ where
  store_position-IsOwn :
      (address : String) (now_ms : ℤ) (raw : RawPosition F) (numbers : Option (F × F))
      (m : Snapshot F)
      → Entries IsOwn m
      → Entries IsOwn (store_position address now_ms raw numbers m)
  store_position-IsOwn address now_ms raw none m h = h
  store_position-IsOwn address now_ms raw (some numbers) m h =
      let p = position_of address now_ms raw numbers in
      ground (arith, h, Entries-insert IsOwn (position_key raw.market raw.side) p m h refl)

  pub new_positions-IsOwn :
      (address : String) (now_ms : ℤ) (raw : List (RawPosition F)) (m : Snapshot F)
      → Entries IsOwn m
      → Entries IsOwn (new_positions address now_ms raw m)
  unfolding new_positions
  new_positions-IsOwn address now_ms [] m h = h
  new_positions-IsOwn address now_ms (x ∷ rest) m h =
      new_positions-IsOwn address now_ms rest (store_position address now_ms x x.numbers m)
        (store_position-IsOwn address now_ms x x.numbers m h)

  keep-change_of :
      (address : String) (now_ms : ℤ) (k j : String) (p : WalletPosition F)
      (before : Option (WalletPosition F))
      → IsOwn j p
      → keep (is_at k) (change_of address now_ms p before)
        ≡ (if str_eq j k then change_of address now_ms p before else [])
  keep-change_of address now_ms k j p none h = ground (arith, h)
  keep-change_of address now_ms k j p (some b) h = ground (arith, h)

  -- The change at a key, where there is a position now.
  abbrev pub change_at :
      String → ℤ → Option (WalletPosition F) → Option (WalletPosition F) → List (PositionEvent F)
  change_at address now_ms before none = []
  change_at address now_ms before (some p) = change_of address now_ms p before

  keep-changes :
      (address : String) (now_ms : ℤ) (k : String) (prev new : Snapshot F)
      → Entries IsOwn new
      → keep (is_at k) (changes address now_ms prev new)
        ≡ change_at address now_ms (lookup k prev) (lookup k new)
  unfolding changes
  keep-changes address now_ms k prev [] h = refl
  keep-changes address now_ms k prev ((j, p) ∷ new) h =
      let before = lookup j prev in
      ground (
        arith,
        h,
        keep-append (is_at k) (change_of address now_ms p before) (changes address now_ms prev new),
        keep-change_of address now_ms k j p before h.0,
        keep-changes address now_ms k prev new h.2,
        append_nothing (change_of address now_ms p before),
        eq_iff j k,
      )

  -- The event of a position that is gone.
  abbrev pub closing_at : String → ℤ → Option (WalletPosition F) → List (PositionEvent F)
  closing_at address now_ms none = []
  closing_at address now_ms (some p) =
      event_at address now_ms EventType.close_event p.size p.notional_usdc p ∷ []

  keep-closings :
      (address : String) (now_ms : ℤ) (k : String) (new prev : Snapshot F)
      → Entries IsOwn prev
      → keep (is_at k) (closings address now_ms new prev)
        ≡ (if is_some (lookup k new) then [] else closing_at address now_ms (lookup k prev))
  unfolding closings
  keep-closings address now_ms k new [] h = ground arith
  keep-closings address now_ms k new ((j, p) ∷ prev) h =
      ground (arith, h, keep-closings address now_ms k new prev h.2, eq_iff j k)

  expected-parts :
      (address : String) (now_ms : ℤ) (before now : Option (WalletPosition F))
      → change_at address now_ms before now
          ++ (if is_some now then [] else closing_at address now_ms before)
        ≡ expected address now_ms before now
  expected-parts address now_ms none none = refl
  expected-parts address now_ms (some b) none = refl
  expected-parts address now_ms none (some p) = refl
  expected-parts address now_ms (some b) (some p) =
      append_nothing (change_of address now_ms p (some b))

  events-expected :
      (address : String) (now_ms : ℤ) (key : String) (prev new : Snapshot F)
      → Entries IsOwn prev
      → Entries IsOwn new
      → keep (is_at key) (changes address now_ms prev new ++ closings address now_ms new prev)
        ≡ expected address now_ms (lookup key prev) (lookup key new)
  events-expected address now_ms key prev new hp hn = ground (
    arith,
    keep-append (is_at key) (changes address now_ms prev new) (closings address now_ms new prev),
    keep-changes address now_ms key prev new hn,
    keep-closings address now_ms key new prev hp,
    expected-parts address now_ms (lookup key prev) (lookup key new),
  )

  pub snapshot_of-update_positions :
      (address other : String) (raw : List (RawPosition F)) (fetched_at_ms : Option ℤ)
      (clock_ms : ℤ) (d : ClusterDetector F)
      → snapshot_of other (update_positions address raw fetched_at_ms clock_ms d).1 ≡ (
          if str_eq address other
          then new_positions address (int_or fetched_at_ms clock_ms) raw []
          else snapshot_of other d)
  unfolding update_positions
  snapshot_of-update_positions address other raw fetched_at_ms clock_ms d =
      let now_ms = int_or fetched_at_ms clock_ms in
      let new = new_positions address now_ms raw [] in
      ground (arith, lookup-insert address other new d.positions)

  -- Where the positions of a wallet stand under their own keys: after an update the position at a key
  -- is what the last usable entry of the poll for that market and side gives, if there is one; the
  -- positions stand under their own keys again, and those of other wallets are as they were; at
  -- every key the events are exactly those that the position before and the position now call
  -- for: an open, a close, an add or a reduction, or none.
  pub update_positions-expected :
      (address : String) (raw : List (RawPosition F)) (fetched_at_ms : Option ℤ) (clock_ms : ℤ)
      (d : ClusterDetector F)
      → Entries IsOwn (snapshot_of address d)
      → let r = update_positions address raw fetched_at_ms clock_ms d in
        let now_ms = int_or fetched_at_ms clock_ms in
        let prev = snapshot_of address d in
        let new = snapshot_of address r.1 in
        ((key : String)
          → keep (is_at key) r.0 ≡ expected address now_ms (lookup key prev) (lookup key new))
        × ((key : String) → lookup key new ≡ last_given address now_ms key raw)
        × Entries IsOwn new
        × ((other : String)
            → str_eq address other ≡ false
            → snapshot_of other r.1 ≡ snapshot_of other d)
  unfolding update_positions
  update_positions-expected address raw fetched_at_ms clock_ms d h =
      let now_ms = int_or fetched_at_ms clock_ms in
      let new = new_positions address now_ms raw [] in
      let own = new_positions-IsOwn address now_ms raw [] tt in
      let mine = snapshot_of-update_positions address address raw fetched_at_ms clock_ms d in
      let events =
        λ (key : String). events-expected address now_ms key (snapshot_of address d) new h own in
      (
        λ key. ground (arith, mine, eq_refl address, events key),
        λ key. ground (arith, mine, eq_refl address, lookup-polled address now_ms key raw),
        ground (arith, mine, eq_refl address, own),
        λ other e.
            ground
              (arith, e, snapshot_of-update_positions address other raw fetched_at_ms clock_ms d),
      )
