-- ===== src/Dydx/Clusters/Updates/Kinds.antt =====
-- hyper_smart_observer/dydx_v4/cluster_detector.py: what `update_from_fill` calls a fill.
use Prim.Native.Char.{Char, code}
use Prim.Native.String.{◌++◌ as text_append, char_at}
use text.Mathlib.TextLemmas.{nil-append, cons-append}
use hyperliquid_smart_wallet.Prelude.{
  ℕ, ◌≡◌, refl, ap, ◌∙◌, sym, String, Bool, true, false, List, Option, none, some, if◌then◌else◌,
  is_some, str_eq, lookup, arith, eq_iff, eq_refl, Bool-cases, inl, inr, Entries, Entries-lookup,
}
use hyperliquid_smart_wallet.Float.{Float}
use hyperliquid_smart_wallet.Dydx.Clusters.{
  WalletPosition, EventType, OpenGroup, ClusterDetector, FillUpdate, position_key, Snapshot,
}
use hyperliquid_smart_wallet.Dydx.Clusters.Updates.{
  side_of_fill, closes, judge_fill, snapshot_of, update_from_fill,
}
use hyperliquid_smart_wallet.Dydx.Clusters.Updates.Changes.{IsOwn}

-- The last character of a text that begins with `c`.
last_code : Char → String → ℕ
last_code c String.[] = code c
last_code c (String.◌∷◌ d s) = last_code d s

last_code-append :
    (c : Char) (a : String) (d : Char) (t : String)
    → last_code c (text_append a (String.◌∷◌ d t)) ≡ last_code d t
unfolding last_code
last_code-append c String.[] d t = rw (nil-append (String.◌∷◌ d t)) refl
last_code-append c (String.◌∷◌ b a) d t =
    rw (cons-append b a (String.◌∷◌ d t)) (last_code-append b a d t)

-- Keys of different sides are different, whatever the markets.
keys_differ : (a b : String) → position_key a "LONG" ≡ position_key b "SHORT" → ⊥
unfolding position_key last_code
keys_differ a b e =
    let colon = char_at ":" 0 in
    let p : 71 ≡ 84 =
      sym (last_code-append colon a colon "LONG")
      ∙ ap (last_code colon) e
      ∙ last_code-append colon b colon "SHORT" in
    omega (arith, p)

keys_unequal : (a b : String) → str_eq (position_key a "LONG") (position_key b "SHORT") ≡ false
keys_unequal a b = elim (Bool-cases (str_eq (position_key a "LONG") (position_key b "SHORT"))) [
  | inl e ↦ absurd (keys_differ a b ((eq_iff (position_key a "LONG") (position_key b "SHORT")).0 e))
  | inr e ↦ e
]

-- A text is not two different texts.
one_text : (a b s : String) → str_eq a b ≡ false → str_eq s a ≡ true → str_eq s b ≡ false
one_text a b s h e = ground (arith, h, e, eq_iff s a, eq_iff s b, eq_refl b)

module _ {F : Type 0} where
  closes-own :
      (market side : String) (p : WalletPosition F)
      → IsOwn (position_key market (side_of_fill side)) p
      → closes p.side side ≡ false
  closes-own market side p h = ground (
    arith,
    h,
    eq_iff p.side "LONG",
    eq_iff p.side "SHORT",
    one_text "LONG" "SHORT" p.side refl,
    one_text "SELL" "BUY" side refl,
    keys_unequal p.market_id market,
    keys_unequal market p.market_id,
    eq_refl (position_key market "LONG"),
    eq_refl (position_key market "SHORT"),
  )

module _ {F : Type 0} ⦃f : Float F⦄ where
  judge_fill-own :
      (market side : String) (known : Option (WalletPosition F)) (m : Snapshot F)
      → Entries IsOwn m
      → lookup (position_key market (side_of_fill side)) m ≡ known
      → judge_fill side known
        ≡ (if is_some known then EventType.add_event else EventType.open_event, side_of_fill side)
  judge_fill-own market side none m h e = refl
  judge_fill-own market side (some p) m h e =
      let key = position_key market (side_of_fill side) in
      ground (arith, closes-own market side p (Entries-lookup IsOwn key p m h e))

  -- The event of a fill, by the position that stands under the fill's own side.
  pub update_from_fill-own :
      (x : FillUpdate F) (d : ClusterDetector F)
      → Entries IsOwn (snapshot_of x.address d)
      → let r = (update_from_fill x d).0 in
        let key = position_key x.market_id (side_of_fill x.side) in
        (r.event_type ≡ (
          if is_some (lookup key (snapshot_of x.address d))
          then EventType.add_event
          else EventType.open_event))
        × (r.side ≡ side_of_fill x.side)
  unfolding update_from_fill
  update_from_fill-own x d h =
      let m = snapshot_of x.address d in
      let key = position_key x.market_id (side_of_fill x.side) in
      let e = judge_fill-own x.market_id x.side (lookup key m) m h refl in
      (ap (λ y. y.0) e, ap (λ y. y.1) e)

  with_opens-positions :
      (b : Bool) (opens : List (OpenGroup F)) (d : ClusterDetector F)
      → (if b then record d { recent_opens = opens } else d).positions ≡ d.positions
  with_opens-positions false opens d = refl
  with_opens-positions true opens d = refl

  -- A fill leaves the known positions as they are.
  pub positions-update_from_fill :
      (x : FillUpdate F) (d : ClusterDetector F) → (update_from_fill x d).1.positions ≡ d.positions
  unfolding update_from_fill
  positions-update_from_fill x d = with_opens-positions _ _ d
