-- ===== src/Dydx/Scanner/Hot.antt =====
-- hyper_smart_observer/dydx_v4/fast_scanner.py: `HotWalletSet`, the bounded set of followed wallets,
-- and the subscriptions of a client that follows its answers. The sets that a call returns are lists.
pub mod Runs
pub mod Subscribed
use hyperliquid_smart_wallet.Prelude.{
  ℕ, zero, suc, String, Bool, true, false, not, ◌&&◌, ◌||◌, List, [], ◌∷◌, ◌++◌, map, Option, none,
  some, if◌then◌else◌, contains, is_nonempty, str_eq, keep, length, ltb, ◌==◌, lookup, insert,
  erase, keys,
}
use hyperliquid_smart_wallet.Prelude.Int.{ℤ, pos, ◌-ℤ◌, ltb_ℤ, max_ℤ}
use hyperliquid_smart_wallet.Float.{Float, max_of}
use hyperliquid_smart_wallet.Dydx.Scanner.{discard}

pub record HotEntry (F : Type 0) : Type 0 where
  pub score : F
  pub last_seen_ms : ℤ

pub record HotSet (F : Type 0) : Type 0 where
  pub capacity : ℤ
  pub entries : List (String × HotEntry F)

-- The wallets to subscribe and those to unsubscribe.
pub record Changes : Type 0 where
  pub added : List String
  pub removed : List String

pub new_hot : {F : Type 0} → ℤ → HotSet F
new_hot capacity = record { capacity = max_ℤ (pos 1) capacity; entries = [] }

module _ {F : Type 0} ⦃f : Float F⦄ where
  open f use {lt, feq}

  -- The order of the pairs (score, last_seen_ms).
  abbrev pub is_worse : HotEntry F → HotEntry F → Bool
  is_worse a b =
      if feq a.score b.score then ltb_ℤ a.last_seen_ms b.last_seen_ms else lt a.score b.score

  -- `min(entries.items(), key=...)[0]`, the first of the worst.
  abbrev pub worst_from : String → HotEntry F → List (String × HotEntry F) → String
  worst_from key e [] = key
  worst_from key e ((k, x) ∷ rest) =
      worst_from (if is_worse x e then k else key) (if is_worse x e then x else e) rest

  -- A set without wallets is never over its capacity.
  pub worst_of : List (String × HotEntry F) → String
  worst_of [] = ""
  worst_of ((k, e) ∷ rest) = worst_from k e rest

  -- One round of the eviction.
  pub evict_worst : String → HotSet F × Changes → HotSet F × Changes
  evict_worst worst (h, c) = (
    record h { entries = erase worst h.entries },
    if contains worst c.added
        then record c { added = discard worst c.added }
        else record c { removed = worst ∷ c.removed },
  )

  -- `while len(entries) > capacity`, with at most as many rounds as there are entries.
  pub evict : ℕ → String → HotSet F × Changes → HotSet F × Changes
  unfolding evict_worst worst_of
  evict zero address s = s
  evict (suc fuel) address s =
      let worst = worst_of s.0.entries in
      let next = evict fuel address (evict_worst worst s) in
      if not (ltb_ℤ s.0.capacity (pos (length s.0.entries)))
      then s
      else if str_eq worst address && length s.0.entries == 1
      then s
      else next

  -- `observe`
  abbrev pub known : String → F → ℤ → Option (HotEntry F) → HotSet F → HotSet F × Changes
  known address score ts (some e) h = (
    record h {
      entries =
          insert address (record { score = max_of e.score score; last_seen_ms = ts }) h.entries;
    },
    record { added = []; removed = [] },
  )
  known address score ts none h =
      let grown = insert address (record { score = score; last_seen_ms = ts }) h.entries in
      evict (length grown) address
        (record h { entries = grown }, record { added = address ∷ []; removed = [] })

  pub observe : String → F → ℤ → HotSet F → HotSet F × Changes
  unfolding evict
  observe address score ts h =
      if not (is_nonempty address)
      then (h, record { added = []; removed = [] })
      else known address score ts (lookup address h.entries) h

  abbrev pub is_idle : ℤ → ℤ → String × HotEntry F → Bool
  is_idle ts older_than_ms x = ltb_ℤ older_than_ms (ts -ℤ x.1.last_seen_ms)

  pub evict_stale : ℤ → ℤ → HotSet F → HotSet F × List String
  evict_stale older_than_ms ts h = (
    record h { entries = keep (λ x. not (is_idle ts older_than_ms x)) h.entries },
    keys (keep (is_idle ts older_than_ms) h.entries),
  )
