-- ===== src/Dydx/Scanner/Hot/Runs.antt =====
-- hyper_smart_observer/dydx_v4/fast_scanner.py: sequences of calls of `HotWalletSet`, each followed by
-- its client.
use hyperliquid_smart_wallet.Prelude.{
  ℕ, ◌≤◌, String, ◌≡◌, refl, true, not, List, [], ◌∷◌, Option, none, some, contains, is_nonempty,
  keep, length, is_some, lookup, insert, Entries, Entries-insert, Entries-lookup, Entries-keep,
  keys, lookup-keep_split, lookup-insert, contains-keep, length-insert, length-keep, eq_iff, arith,
}
use hyperliquid_smart_wallet.Prelude.Int.{ℤ, pos, pos_part, max_ℤ}
use hyperliquid_smart_wallet.Float.{Float, max_of}
use hyperliquid_smart_wallet.Dydx.Scanner.Hot.{
  HotEntry, HotSet, Changes, new_hot, evict, observe, known, evict_stale, is_idle,
}
use hyperliquid_smart_wallet.Dydx.Scanner.Hot.Subscribed.{
  after_changes, contains-after, Named, Follows, evict-fits, evict-Follows,
}

-- A call of one of the two methods that change the set.
pub data Call (F : Type 0) : Type 0 where
  observes : String → F → ℤ → Call F
  evicts : ℤ → ℤ → Call F

-- A set with the subscriptions of its client.
pub record Followed (F : Type 0) : Type 0 where
  pub hot : HotSet F
  pub subs : List String

module _ {F : Type 0} ⦃f : Float F⦄ where
  pub step : Call F → Followed F → Followed F
  step (Call.observes address score ts) w =
      let r = observe address score ts w.hot in
      record { hot = r.0; subs = after_changes r.1 w.subs }
  step (Call.evicts older_than_ms ts) w =
      let r = evict_stale older_than_ms ts w.hot in
      record { hot = r.0; subs = after_changes (record { added = []; removed = r.1 }) w.subs }

  pub run : List (Call F) → Followed F → Followed F
  unfolding step
  run [] w = w
  run (c ∷ cs) w = run cs (step c w)

  -- The set is within its capacity, and the client is subscribed to its wallets and no others.
  pub IsFollowed : ℕ → Followed F → Type 0
  IsFollowed limit w =
      (w.hot.capacity ≡ pos limit)
      × (length w.hot.entries ≤ limit)
      × Entries Named w.hot.entries
      × ((a : String) → contains a w.subs ≡ is_some (lookup a w.hot.entries))

  IsFollowed-capacity :
      (limit : ℕ) (w : Followed F) → IsFollowed limit w → w.hot.capacity ≡ pos limit
  unfolding IsFollowed
  IsFollowed-capacity limit w v = v.0

  Follows-end :
      (limit : ℕ) (subs : List String) (s : HotSet F × Changes)
      → Follows subs s
      → (length s.0.entries ≤ limit) × (s.0.capacity ≡ pos limit)
      → IsFollowed limit (record { hot = s.0; subs = after_changes s.1 subs })
  unfolding Follows IsFollowed
  Follows-end limit subs s (e, g, d) (l, c) = (c, l, e, g)

  grow-Follows :
      (address : String) (e : HotEntry F) (limit : ℕ) (w : Followed F)
      → IsFollowed limit w
      → is_nonempty address ≡ true
      → lookup address w.hot.entries ≡ none
      → Follows w.subs (
        record w.hot { entries = insert address e w.hot.entries },
        record { added = address ∷ []; removed = [] },
      )
  unfolding Follows IsFollowed
  grow-Follows address e limit w (c, l, n, g) h k = (
    Entries-insert Named address e w.hot.entries n h,
    λ a. ground (
      arith,
      g a,
      contains-after (record { added = address ∷ []; removed = [] }) a w.subs,
      lookup-insert address a e w.hot.entries,
      eq_iff a address,
      eq_iff address a,
    ),
    λ a. ground (arith, g a, k, eq_iff a address),
  )

  update-IsFollowed :
      (address : String) (e : HotEntry F) (limit : ℕ) (w : Followed F) (old : HotEntry F)
      → IsFollowed limit w
      → lookup address w.hot.entries ≡ some old
      → IsFollowed limit (record {
        hot = record w.hot { entries = insert address e w.hot.entries };
        subs = after_changes (record { added = []; removed = [] }) w.subs;
      })
  unfolding IsFollowed
  update-IsFollowed address e limit w old (c, l, n, g) k = (
    c,
    ground (arith, l, k, length-insert address e w.hot.entries),
    Entries-insert Named address e w.hot.entries n
        (Entries-lookup Named address old w.hot.entries n k),
    λ a. ground (
      arith,
      g a,
      k,
      contains-after (record { added = []; removed = [] }) a w.subs,
      lookup-insert address a e w.hot.entries,
      eq_iff address a,
    ),
  )

  same-IsFollowed :
      (limit : ℕ) (w : Followed F)
      → IsFollowed limit w
      → IsFollowed limit (record {
        hot = w.hot;
        subs = after_changes (record { added = []; removed = [] }) w.subs;
      })
  unfolding IsFollowed
  same-IsFollowed limit w (c, l, n, g) = (
    c,
    l,
    n,
    λ a. ground (arith, g a, contains-after (record { added = []; removed = [] }) a w.subs),
  )

  known-IsFollowed :
      (address : String) (score : F) (ts : ℤ) (limit : ℕ) (w : Followed F) (o : Option (HotEntry F))
      → 1 ≤ limit
      → IsFollowed limit w
      → lookup address w.hot.entries ≡ o
      → is_nonempty address ≡ true
      → let r = known address score ts o w.hot in
        IsFollowed limit (record { hot = r.0; subs = after_changes r.1 w.subs })
  known-IsFollowed address score ts limit w (some old) p v k h =
      update-IsFollowed address (record { score = max_of old.score score; last_seen_ms = ts }) limit
        w old v k
  known-IsFollowed address score ts limit w none p v k h =
      let e : HotEntry F = record { score = score; last_seen_ms = ts } in
      let grown = insert address e w.hot.entries in
      let s : HotSet F × Changes =
        (record w.hot { entries = grown }, record { added = address ∷ []; removed = [] }) in
      Follows-end limit w.subs (evict (length grown) address s)
        (evict-Follows w.subs (length grown) address s (grow-Follows address e limit w v h k))
        (evict-fits (length grown) limit address s p (IsFollowed-capacity limit w v) (omega arith))

  observe-IsFollowed :
      (address : String) (score : F) (ts : ℤ) (limit : ℕ) (w : Followed F)
      → 1 ≤ limit
      → IsFollowed limit w
      → IsFollowed limit (step (Call.observes address score ts) w)
  unfolding step observe
  observe-IsFollowed address score ts limit w p v = ground (
    arith,
    same-IsFollowed limit w v,
    known-IsFollowed address score ts limit w (lookup address w.hot.entries) p v refl,
  )

  evict_stale-IsFollowed :
      (older_than_ms ts : ℤ) (limit : ℕ) (w : Followed F)
      → IsFollowed limit w
      → IsFollowed limit (step (Call.evicts older_than_ms ts) w)
  unfolding step evict_stale IsFollowed
  evict_stale-IsFollowed older_than_ms ts limit w (c, l, n, g) =
      let idle = is_idle ts older_than_ms in
      (
        c,
        omega (arith, length-keep (λ x. not (idle x)) w.hot.entries),
        Entries-keep Named (λ x. not (idle x)) w.hot.entries n,
        λ a. ground (
          arith,
          g a,
          contains-keep (λ x. not (contains x (keys (keep idle w.hot.entries)))) a w.subs,
          lookup-keep_split Named idle a w.hot.entries n,
        ),
      )

  step-IsFollowed :
      (c : Call F) (limit : ℕ) (w : Followed F)
      → 1 ≤ limit
      → IsFollowed limit w
      → IsFollowed limit (step c w)
  step-IsFollowed (Call.observes address score ts) limit w p v =
      observe-IsFollowed address score ts limit w p v
  step-IsFollowed (Call.evicts older_than_ms ts) limit w p v =
      evict_stale-IsFollowed older_than_ms ts limit w v

  run_from :
      (cs : List (Call F)) (limit : ℕ) (w : Followed F)
      → 1 ≤ limit
      → IsFollowed limit w
      → IsFollowed limit (run cs w)
  unfolding run
  run_from [] limit w p v = v
  run_from (c ∷ cs) limit w p v = run_from cs limit (step c w) p (step-IsFollowed c limit w p v)

  -- Through every sequence of calls on a new set, a client that subscribes what the calls add and
  -- unsubscribes what they remove follows exactly the wallets of the set, each once, and these are
  -- never more than the capacity. A capacity below one counts as one.
  pub run-IsFollowed :
      (cs : List (Call F)) (capacity : ℤ)
      → IsFollowed
          (pos_part (max_ℤ (pos 1) capacity))
          (run cs (record { hot = new_hot capacity; subs = [] }))
  unfolding IsFollowed new_hot
  run-IsFollowed cs capacity =
      run_from cs (pos_part (max_ℤ (pos 1) capacity)) (record { hot = new_hot capacity; subs = [] })
        (ground arith) (ground arith, ground arith, tt, λ a. refl)
