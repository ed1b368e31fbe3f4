-- ===== src/Dydx/Scanner/Hot/Subscribed.antt =====
-- hyper_smart_observer/dydx_v4/fast_scanner.py: a client that subscribes and unsubscribes what
-- `HotWalletSet` answers follows exactly the wallets of the set, which never exceeds its capacity.
use hyperliquid_smart_wallet.Prelude.{
  ℕ, zero, suc, ◌+◌, ◌≤◌, String, ◌≡◌, Bool, true, false, not, ◌&&◌, ◌||◌, List, [], ◌∷◌, ◌++◌,
  if◌then◌else◌, contains, is_nonempty, str_eq, keep, length, is_some, lookup, erase, Entries,
  Entries-erase, contains-append, contains-keep, lookup-erase_ne, lookup-erase_self, eq_iff,
  eq_refl, arith,
}
use hyperliquid_smart_wallet.Prelude.Int.{pos}
use hyperliquid_smart_wallet.Float.{Float}
use hyperliquid_smart_wallet.Dydx.Scanner.{discard}
use hyperliquid_smart_wallet.Dydx.Scanner.Hot.{
  HotEntry, HotSet, Changes, is_worse, worst_from, worst_of, evict_worst, evict,
}

-- What the client is subscribed to after the changes.
abbrev pub after_changes : Changes → List String → List String
after_changes c subs = keep (λ x. not (contains x c.removed)) (c.added ++ subs)

pub contains-after :
    (c : Changes) (a : String) (subs : List String)
    → contains a (after_changes c subs)
      ≡ ((contains a c.added || contains a subs) && not (contains a c.removed))
contains-after c a subs = ground (
  arith,
  contains-keep (λ x. not (contains x c.removed)) a (c.added ++ subs),
  contains-append a c.added subs,
)

length-erase_known {ℓ} :
    {V : Type ℓ} (k : String) (m : List (String × V))
    → is_some (lookup k m) ≡ true
    → length (erase k m) + 1 ≡ length m
length-erase_known k [] h = cc
length-erase_known k ((j, w) ∷ m) h = ground (arith, h, length-erase_known k m)

module _ {F : Type 0} ⦃f : Float F⦄ where
  known_next :
      (w k key : String) (x : HotEntry F) (rest : List (String × HotEntry F)) (c : Bool)
      → (str_eq w (if c then k else key) || is_some (lookup w rest)) ≡ true
      → (str_eq w key || is_some (lookup w ((k, x) ∷ rest))) ≡ true
  known_next w k key x rest c h = ground (arith, h, eq_iff w k, eq_iff k w)

  worst_from-known :
      (key : String) (e : HotEntry F) (rest : List (String × HotEntry F))
      → (str_eq (worst_from key e rest) key || is_some (lookup (worst_from key e rest) rest)) ≡ true
  worst_from-known key e [] = ground (arith, eq_refl key)
  worst_from-known key e ((k, x) ∷ rest) =
      let c = is_worse x e in
      let e' = if c then x else e in
      known_next (worst_from (if c then k else key) e' rest) k key x rest c
        (worst_from-known (if c then k else key) e' rest)

  abbrev pub Named : String → HotEntry F → Type 0
  Named k e = is_nonempty k ≡ true

  -- During an eviction: the client, once it has followed the changes, has the wallets of the set.
  unfoldable pub Follows : List String → HotSet F × Changes → Type 0
  Follows subs (h, c) =
      Entries Named h.entries
      × ((a : String) → contains a (after_changes c subs) ≡ is_some (lookup a h.entries))
      × ((a : String) → (contains a c.added && contains a subs) ≡ false)

  evict_worst-Follows :
      (subs : List String) (worst : String) (s : HotSet F × Changes)
      → Follows subs s
      → Follows subs (evict_worst worst s)
  unfolding Follows evict_worst
  evict_worst-Follows subs worst (h, c) (e, g, d) = (
    Entries-erase Named worst h.entries e,
    λ a. ground (
      arith,
      g a,
      g worst,
      d worst,
      contains-after c a subs,
      contains-after c worst subs,
      contains-after (record c { added = discard worst c.added }) a subs,
      contains-after (record c { removed = worst ∷ c.removed }) a subs,
      contains-keep (λ x. not (str_eq x worst)) a c.added,
      lookup-erase_ne worst a h.entries,
      lookup-erase_self Named worst h.entries e,
      eq_iff worst a,
      eq_iff a worst,
    ),
    λ a. ground (arith, d a, contains-keep (λ x. not (str_eq x worst)) a c.added),
  )

  worst_of-known :
      (m : List (String × HotEntry F)) → 1 ≤ length m → is_some (lookup (worst_of m) m) ≡ true
  unfolding worst_of
  worst_of-known [] h = absurd (omega arith)
  worst_of-known ((k, e) ∷ rest) h = ground (
    arith,
    worst_from-known k e rest,
    eq_iff (worst_from k e rest) k,
    eq_iff k (worst_from k e rest),
  )

  evict_worst-length :
      (s : HotSet F × Changes)
      → 1 ≤ length s.0.entries
      → let t = evict_worst (worst_of s.0.entries) s in
        (length t.0.entries + 1 ≡ length s.0.entries) × (t.0.capacity ≡ s.0.capacity)
  unfolding evict_worst
  evict_worst-length s h =
      ground
        (arith, length-erase_known (worst_of s.0.entries) s.0.entries, worst_of-known s.0.entries h)

  -- With a round for each wallet too many, the eviction ends within the capacity.
  pub evict-fits :
      (fuel cap : ℕ) (address : String) (s : HotSet F × Changes)
      → 1 ≤ cap
      → s.0.capacity ≡ pos cap
      → length s.0.entries ≤ cap + fuel
      → (length (evict fuel address s).0.entries ≤ cap)
        × ((evict fuel address s).0.capacity ≡ pos cap)
  unfolding evict
  evict-fits zero cap address s p e h = ground (arith, e)
  evict-fits (suc fuel) cap address s p e h = ground (
    arith,
    e,
    evict_worst-length s,
    evict-fits fuel cap address (evict_worst (worst_of s.0.entries) s) p,
  )

  pub evict-Follows :
      (subs : List String) (fuel : ℕ) (address : String) (s : HotSet F × Changes)
      → Follows subs s
      → Follows subs (evict fuel address s)
  unfolding evict
  evict-Follows subs zero address s g = g
  evict-Follows subs (suc fuel) address s g =
      let worst = worst_of s.0.entries in
      ground (
        arith,
        g,
        evict-Follows subs fuel address (evict_worst worst s) (evict_worst-Follows subs worst s g),
      )
