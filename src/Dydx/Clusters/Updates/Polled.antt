-- ===== src/Dydx/Clusters/Updates/Polled.antt =====
-- hyper_smart_observer/dydx_v4/cluster_detector.py: the new positions that `update_positions` reads from a
-- poll, key by key.
use hyperliquid_smart_wallet.Prelude.{
  ◌≡◌, refl, String, Bool, true, false, not, ◌&&◌, List, [], ◌∷◌, Option, none, some, if◌then◌else◌,
  is_some, is_nonempty, contains, str_eq, lookup, lookup-insert, insert, arith,
}
use hyperliquid_smart_wallet.Prelude.Int.{ℤ}
use hyperliquid_smart_wallet.Float.{Float, whole}
use hyperliquid_smart_wallet.Dydx.Clusters.{
  WalletPosition, RawPosition, Snapshot, position_key, blocked_markets,
}
use hyperliquid_smart_wallet.Dydx.Clusters.Updates.{
  position_of, is_named, store_position, new_positions,
}

lookup-insert_if {ℓ} :
    {V : Type ℓ} (b : Bool) (k key : String) (v : V) (m : List (String × V))
    → let one = if b && str_eq k key then some v else none in
      lookup key (if b then insert k v m else m) ≡ (if is_some one then one else lookup key m)
lookup-insert_if false k key v m = refl
lookup-insert_if true k key v m = ground (arith, lookup-insert k key v m)

and_assoc4 : (a b c d : Bool) → ((a && b && c) && d) ≡ (a && b && c && d)
and_assoc4 a b c d = ground arith

module _ {F : Type 0} ⦃f : Float F⦄ where
  open f use {mul, le}

  -- The position that one entry of the poll gives at a key, and the one that the last of them gives.
  abbrev pub usable :
      String → ℤ → String → RawPosition F → Option (F × F) → Option (WalletPosition F)
  usable address now_ms key raw none = none
  usable address now_ms key raw (some (size, price)) =
      if (is_nonempty raw.market
          && is_nonempty raw.side
          && not (contains raw.market blocked_markets)
          && not (le size (whole 0)))
        && str_eq (position_key raw.market raw.side) key
      then some (record {
        address = address;
        market_id = raw.market;
        side = raw.side;
        size = size;
        entry_price = price;
        opened_at_ms = now_ms;
        last_seen_ms = now_ms;
        notional_usdc = mul size price;
      })
      else none

  abbrev pub last_given : String → ℤ → String → List (RawPosition F) → Option (WalletPosition F)
  last_given address now_ms key [] = none
  last_given address now_ms key (raw ∷ rest) =
      let later = last_given address now_ms key rest in
      if is_some later then later else usable address now_ms key raw raw.numbers

  lookup-store_position :
      (address : String) (now_ms : ℤ) (key : String) (raw : RawPosition F)
      (numbers : Option (F × F)) (m : Snapshot F)
      → let one = usable address now_ms key raw numbers in
        lookup key (store_position address now_ms raw numbers m)
        ≡ (if is_some one then one else lookup key m)
  lookup-store_position address now_ms key raw none m = refl
  lookup-store_position address now_ms key raw (some (size, price)) m =
      rw
        (and_assoc4 (is_nonempty raw.market) (is_nonempty raw.side)
          (not (contains raw.market blocked_markets)) (not (le size (whole 0))))
        (lookup-insert_if (is_named raw && not (le size (whole 0)))
          (position_key raw.market raw.side) key (position_of address now_ms raw (size, price)) m)

  lookup-new_positions :
      (address : String) (now_ms : ℤ) (key : String) (raw : List (RawPosition F)) (m : Snapshot F)
      → let last = last_given address now_ms key raw in
        lookup key (new_positions address now_ms raw m)
        ≡ (if is_some last then last else lookup key m)
  unfolding new_positions
  lookup-new_positions address now_ms key [] m = refl
  lookup-new_positions address now_ms key (x ∷ rest) m = ground (
    arith,
    lookup-new_positions address now_ms key rest (store_position address now_ms x x.numbers m),
    lookup-store_position address now_ms key x x.numbers m,
  )

  pub lookup-polled :
      (address : String) (now_ms : ℤ) (key : String) (raw : List (RawPosition F))
      → lookup key (new_positions address now_ms raw []) ≡ last_given address now_ms key raw
  lookup-polled address now_ms key raw =
      ground (arith, lookup-new_positions address now_ms key raw [])
