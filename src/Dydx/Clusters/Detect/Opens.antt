-- ===== src/Dydx/Clusters/Detect/Opens.antt =====
-- hyper_smart_observer/dydx_v4/cluster_detector.py: the window of opens, `_recent_opens`, by market and side.
use hyperliquid_smart_wallet.Prelude.{
  ◌≡◌, refl, String, Bool, false, ◌&&◌, List, [], ◌∷◌, ◌++◌, if◌then◌else◌, str_eq, is_empty, keep,
  keep-append, append_nothing, All, arith, eq_iff,
}
use hyperliquid_smart_wallet.Prelude.Int.{ℤ}
use hyperliquid_smart_wallet.Dydx.Clusters.{
  RecentOpen, OpenGroup, add_open, is_current, drop_old_opens,
}

module _ {F : Type 0} where
  abbrev pub is_group : String → String → OpenGroup F → Bool
  is_group market side g = str_eq g.market_id market && str_eq g.side side

  -- The opens of a market and side.
  abbrev pub opens_for : String → String → List (OpenGroup F) → List (RecentOpen F)
  opens_for market side [] = []
  opens_for market side (g ∷ gs) =
      let rest = opens_for market side gs in
      if is_group market side g then g.entries ++ rest else rest

  -- The keys of a dictionary are different.
  unfoldable pub IsKeyed : List (OpenGroup F) → Type 0
  IsKeyed [] = Unit
  IsKeyed (g ∷ gs) = All (λ h. is_group g.market_id g.side h ≡ false) gs × IsKeyed gs

  abbrev pub group_of : String → String → List (RecentOpen F) → OpenGroup F
  group_of market side xs = record { market_id = market; side = side; entries = xs }

  All-add_open :
      (m s market side : String) (x : RecentOpen F) (gs : List (OpenGroup F))
      → (str_eq market m && str_eq side s) ≡ false
      → All (λ h. is_group m s h ≡ false) gs
      → All (λ h. is_group m s h ≡ false) (add_open market side x gs)
  unfolding add_open
  All-add_open m s market side x [] e h = (e, tt)
  All-add_open m s market side x (g ∷ gs) e h =
      ground (arith, e, h, All-add_open m s market side x gs e h.1)

  pub add_open-IsKeyed :
      (market side : String) (x : RecentOpen F) (gs : List (OpenGroup F))
      → IsKeyed gs
      → IsKeyed (add_open market side x gs)
  unfolding add_open IsKeyed
  add_open-IsKeyed market side x [] k = (tt, tt)
  add_open-IsKeyed market side x (g ∷ gs) k = ground (
    arith,
    k,
    add_open-IsKeyed market side x gs k.1,
    All-add_open g.market_id g.side market side x gs,
    eq_iff g.market_id market,
    eq_iff g.side side,
    eq_iff market g.market_id,
    eq_iff side g.side,
  )

  All-drop_old_opens :
      (m s : String) (cutoff : ℤ) (gs : List (OpenGroup F))
      → All (λ h. is_group m s h ≡ false) gs
      → All (λ h. is_group m s h ≡ false) (drop_old_opens cutoff gs)
  unfolding drop_old_opens
  All-drop_old_opens m s cutoff [] h = tt
  All-drop_old_opens m s cutoff (g ∷ gs) h = ground (arith, h, All-drop_old_opens m s cutoff gs h.1)

  pub drop_old_opens-IsKeyed :
      (cutoff : ℤ) (gs : List (OpenGroup F)) → IsKeyed gs → IsKeyed (drop_old_opens cutoff gs)
  unfolding drop_old_opens IsKeyed
  drop_old_opens-IsKeyed cutoff [] k = tt
  drop_old_opens-IsKeyed cutoff (g ∷ gs) k = ground (
    arith,
    k,
    drop_old_opens-IsKeyed cutoff gs k.1,
    All-drop_old_opens g.market_id g.side cutoff gs k.0,
  )

  no_opens :
      (m s : String) (gs : List (OpenGroup F))
      → All (λ h. is_group m s h ≡ false) gs
      → opens_for m s gs ≡ []
  no_opens m s [] h = refl
  no_opens m s (g ∷ gs) h = ground (arith, h, no_opens m s gs h.1)

  -- What is left of a market and side: one group, or none.
  pub keep-drop_old_opens :
      (m s : String) (cutoff : ℤ) (gs : List (OpenGroup F))
      → IsKeyed gs
      → let own = keep (is_current cutoff) (opens_for m s gs) in
        keep (is_group m s) (drop_old_opens cutoff gs)
        ≡ (if is_empty own then [] else group_of m s own ∷ [])
  unfolding drop_old_opens IsKeyed
  keep-drop_old_opens m s cutoff [] k = refl
  keep-drop_old_opens m s cutoff (g ∷ gs) k = ground (
    arith,
    k,
    keep-drop_old_opens m s cutoff gs k.1,
    keep-append (is_current cutoff) g.entries (opens_for m s gs),
    append_nothing g.entries,
    no_opens g.market_id g.side gs k.0,
    eq_iff g.market_id m,
    eq_iff g.side s,
  )

  pub opens_for-drop_old_opens :
      (m s : String) (cutoff : ℤ) (gs : List (OpenGroup F))
      → opens_for m s (drop_old_opens cutoff gs) ≡ keep (is_current cutoff) (opens_for m s gs)
  unfolding drop_old_opens
  opens_for-drop_old_opens m s cutoff [] = refl
  opens_for-drop_old_opens m s cutoff (g ∷ gs) = ground (
    arith,
    opens_for-drop_old_opens m s cutoff gs,
    keep-append (is_current cutoff) g.entries (opens_for m s gs),
  )
