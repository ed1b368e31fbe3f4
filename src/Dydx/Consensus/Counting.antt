-- ===== src/Dydx/Consensus/Counting.antt =====
-- What `check` counts: the distinct accounts of the window's entries for one market and side.
use hyperliquid_smart_wallet.Prelude.{
  ◌+◌, ◌≤◌, String, ◌≡◌, refl, ap, Bool, false, ◌&&◌, List, [], ◌∷◌, map, arith, contains, length,
  keep, insert, length-insert, eq_iff, All, All-keep, is_empty, not, upper,
}
use hyperliquid_smart_wallet.Prelude.Int.{ℤ, pos, ◌-ℤ◌, leb_ℤ, ◌≤ℤ◌}
use hyperliquid_smart_wallet.Prelude.Distinct.{
  distinct, count_new, count_new-distinct, count_new-seen, is_key, is_key-insert,
}
use hyperliquid_smart_wallet.Float.{Float}
use hyperliquid_smart_wallet.Dydx.Consensus.{
  Entry, Tracker, matches, index_onto, by_account, prune, check,
}

module _ {F : Type 0} where
  abbrev pub keys_of : List (Entry F) → List String
  keys_of = map (λ (e : Entry F). e.account_key)

  length-index_onto :
      (acc : List (String × Entry F)) (es : List (Entry F))
      → length (index_onto acc es) ≡ length acc + count_new (is_key acc) (keys_of es)
  unfolding index_onto
  length-index_onto acc [] = omega arith
  length-index_onto acc (e ∷ es) =
      let k = e.account_key in
      let next = length-index_onto (insert k e acc) es in
      let next' = rw (is_key-insert k e acc) at next in
      ground (arith, next', length-insert k e acc, count_new-seen (is_key acc) k (keys_of es))

  keep-keep :
      (p q : Entry F → Bool) (es : List (Entry F)) → keep q (keep p es) ≡ keep (λ e. p e && q e) es
  keep-keep p q [] = refl
  keep-keep p q (e ∷ es) = ground (arith, keep-keep p q es)

  -- The entry is for the market and the side, and not older than the window.
  abbrev pub is_recent : String → String → ℤ → Tracker F → Entry F → Bool
  is_recent market_id side now_ms t e =
      leb_ℤ (now_ms -ℤ t.window_ms) e.ts_ms && matches market_id (upper side) e

  length-by_account :
      (market_id side : String) (now_ms : ℤ) (t : Tracker F)
      → length (by_account market_id side (prune now_ms t))
        ≡ distinct (keys_of (keep (is_recent market_id side now_ms t) t.entries))
  unfolding by_account prune
  length-by_account market_id side now_ms t =
      let p = λ (e : Entry F). leb_ℤ (now_ms -ℤ t.window_ms) e.ts_ms in
      let q = matches market_id (upper side) in
      rw (← keep-keep p q t.entries) (
        omega (
          arith,
          length-index_onto [] (keep q (keep p t.entries)),
          count_new-distinct (keys_of (keep q (keep p t.entries))),
        ))

  keep_again : (p : Entry F → Bool) (es : List (Entry F)) → keep p (keep p es) ≡ keep p es
  keep_again p [] = refl
  keep_again p (e ∷ es) = ground (arith, keep_again p es)

  prune-prune : (now_ms : ℤ) (t : Tracker F) → prune now_ms (prune now_ms t) ≡ prune now_ms t
  unfolding prune
  prune-prune now_ms t =
      ap (λ es. record t { entries = es })
        (keep_again (λ (e : Entry F). leb_ℤ (now_ms -ℤ t.window_ms) e.ts_ms) t.entries)

  prune-window : (now_ms : ℤ) (t : Tracker F) → (prune now_ms t).window_ms ≡ t.window_ms
  unfolding prune
  prune-window now_ms t = refl

  contains-All :
      (a x : String) (es : List (Entry F))
      → All (λ e. e.account_key ≡ a) es
      → x ≡ a
      → contains x (keys_of es) ≡ not (is_empty es)
  contains-All a x [] h e = refl
  contains-All a x (e ∷ es) h p = ground (arith, eq_iff x e.account_key)

  distinct-All :
      (a : String) (es : List (Entry F))
      → All (λ e. e.account_key ≡ a) es
      → distinct (keys_of es) ≤ 1
  distinct-All a [] h = omega arith
  distinct-All a (e ∷ []) h = omega arith
  distinct-All a (e ∷ e' ∷ es) h =
      ground (arith, contains-All a e.account_key (e' ∷ es) h.1 h.0, distinct-All a (e' ∷ es) h.1)

module _ {F : Type 0} ⦃f : Float F⦄ where
  -- The consensus is met exactly if the number of different accounts among the entries of the window
  -- for this market and side reaches what is required, and that number is reported.
  pub check-distinct :
      (market_id side : String) (now_ms required : ℤ) (t : Tracker F)
      → let r = (check market_id side now_ms required t).1 in
        let n = distinct (keys_of (keep (is_recent market_id side now_ms t) t.entries)) in
        (r.distinct_accounts ≡ n) × (r.met ≡ leb_ℤ required (pos n))
  unfolding check
  check-distinct market_id side now_ms required t =
      let e = length-by_account market_id side now_ms t in (e, ap (λ n. leb_ℤ required (pos n)) e)

  -- One account alone, however often it opens, never meets a consensus of two or more.
  pub check_solo :
      (a market_id side : String) (now_ms required : ℤ) (t : Tracker F)
      → All (λ e. e.account_key ≡ a) t.entries
      → pos 2 ≤ℤ required
      → (check market_id side now_ms required t).1.met ≡ false
  check_solo a market_id side now_ms required t h two =
      let recent = is_recent market_id side now_ms t in
      ground (
        arith,
        check-distinct market_id side now_ms required t,
        distinct-All a (keep recent t.entries)
            (All-keep (λ e. e.account_key ≡ a) recent t.entries h),
      )

  -- `check` only forgets entries that are older than the window, so asking again at the same time
  -- gives the same answer.
  pub check_again :
      (market_id side : String) (now_ms required : ℤ) (t : Tracker F)
      → let (t', r) = check market_id side now_ms required t in
        check market_id side now_ms required t' ≡ (t', r)
  unfolding check
  check_again market_id side now_ms required t = cc (prune-prune now_ms t, prune-window now_ms t)
