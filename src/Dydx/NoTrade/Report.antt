-- ===== src/Dydx/NoTrade/Report.antt =====
-- hyper_smart_observer/dydx_v4/no_trade.py: what a report says of the log.
use hyperliquid_smart_wallet.Prelude.{
  ℕ, ◌+◌, ◌≤◌, ◌≡◌, refl, String, Bool, true, false, ◌&&◌, ◌⊎◌, List, [], ◌∷◌, Option, none, some,
  if◌then◌else◌, get_or, lookup, insert, length, keep, str_eq, ltb, All, arith, eq_iff,
  lookup-insert, Entries, Entries-insert,
}
use hyperliquid_smart_wallet.Prelude.Int.{ℤ, leb_ℤ}
use hyperliquid_smart_wallet.Dydx.NoTrade.{
  LoggedDecision, NoTradeEngine, Collected, collect, collect_onto, best, top_of, report,
  count_by_reason,
}

abbrev pub count_of : List (String × ℕ) → String → ℕ
count_of m v = get_or (lookup v m) 0

abbrev pub has_reason : String → LoggedDecision → Bool
has_reason v d = str_eq d.reason v

count_of-collect_onto :
    (v : String) (ds : List LoggedDecision) (c : Collected)
    → count_of (collect_onto c ds).by_reason v
      ≡ count_of c.by_reason v + length (keep (has_reason v) ds)
unfolding collect_onto collect
count_of-collect_onto v [] c = omega arith
count_of-collect_onto v (d ∷ ds) c =
    let n = count_of c.by_reason d.reason + 1 in
    ground (
      arith,
      count_of-collect_onto v ds (collect d c),
      lookup-insert d.reason v n c.by_reason,
      eq_iff d.reason v,
    )

abbrev pub sum_of : List (String × ℕ) → ℕ
sum_of [] = 0
sum_of (e ∷ es) = e.1 + sum_of es

sum_of-insert :
    (k : String) (m : List (String × ℕ)) → sum_of (insert k (count_of m k + 1) m) ≡ sum_of m + 1
sum_of-insert k [] = refl
sum_of-insert k ((j, n) ∷ m) = ground (arith, eq_iff j k, sum_of-insert k m)

sum_of-collect_onto :
    (ds : List LoggedDecision) (c : Collected)
    → sum_of (collect_onto c ds).by_reason ≡ sum_of c.by_reason + length ds
unfolding collect_onto collect
sum_of-collect_onto [] c = omega arith
sum_of-collect_onto (d ∷ ds) c =
    omega (arith, sum_of-collect_onto ds (collect d c), sum_of-insert d.reason c.by_reason)

abbrev Anything : String → ℕ → Type 0
Anything k n = Unit

Entries-collect_onto :
    (ds : List LoggedDecision) (c : Collected)
    → Entries Anything c.by_reason
    → Entries Anything (collect_onto c ds).by_reason
unfolding collect_onto collect
Entries-collect_onto [] c h = h
Entries-collect_onto (d ∷ ds) c h =
    Entries-collect_onto ds (collect d c)
      (Entries-insert Anything d.reason (count_of c.by_reason d.reason + 1) c.by_reason h tt)

best-largest :
    (v : String) (e : String × ℕ) (es : List (String × ℕ))
    → (e.1 ≤ (best e es).1) × (count_of es v ≤ (best e es).1)
unfolding best
best-largest v e [] = ground arith
best-largest v e (x ∷ xs) = ground (arith, best-largest v (if ltb e.1 x.1 then x else e) xs)

best-listed :
    (e : String × ℕ) (es : List (String × ℕ))
    → Entries Anything es
    → (best e es ≡ e) ⊎ (lookup (best e es).0 es ≡ some (best e es).1)
unfolding best
best-listed e [] h = ground arith
best-listed e (x ∷ xs) h = ground (
  arith,
  h,
  best-listed (if ltb e.1 x.1 then x else e) xs h.2,
  eq_iff x.0 (best (if ltb e.1 x.1 then x else e) xs).0,
)

-- No reason is counted more often than the top one; without a top one nothing is counted.
pub IsTop : List (String × ℕ) → Option String → Type 0
IsTop m none = m ≡ []
IsTop m (some t) = (v : String) → count_of m v ≤ count_of m t

top_of-IsTop : (m : List (String × ℕ)) → Entries Anything m → IsTop m (top_of m)
unfolding IsTop
top_of-IsTop [] h = refl
top_of-IsTop (e ∷ es) h = λ v.
    ground
      (arith, h, best-largest v e es, best-listed e es h.2, eq_iff e.0 v, eq_iff e.0 (best e es).0)

-- The time is between the oldest and the newest.
abbrev pub is_within : Option ℤ → Option ℤ → ℤ → Bool
is_within (some old) (some new) t = leb_ℤ old t && leb_ℤ t new
is_within old new t = false

within-collect :
    (t : ℤ) (d : LoggedDecision) (c : Collected)
    → (is_within c.oldest c.newest t ≡ true
        → is_within (collect d c).oldest (collect d c).newest t ≡ true)
unfolding collect
within-collect t d c h = ground (arith, h)

within-collect_onto :
    (t : ℤ) (ds : List LoggedDecision) (c : Collected)
    → is_within c.oldest c.newest t ≡ true
    → is_within (collect_onto c ds).oldest (collect_onto c ds).newest t ≡ true
unfolding collect_onto
within-collect_onto t [] c h = h
within-collect_onto t (d ∷ ds) c h = within-collect_onto t ds (collect d c) (within-collect t d c h)

within-own :
    (d : LoggedDecision) (c : Collected)
    → is_within (collect d c).oldest (collect d c).newest d.timestamp_ms ≡ true
unfolding collect
within-own d c = ground arith

All-within :
    (ds : List LoggedDecision) (c : Collected)
    → let e = collect_onto c ds in All (λ d. is_within e.oldest e.newest d.timestamp_ms ≡ true) ds
unfolding collect_onto
All-within [] c = tt
All-within (d ∷ ds) c = (
  within-collect_onto d.timestamp_ms ds (collect d c) (within-own d c),
  All-within ds (collect d c),
)

-- In a report each reason has the number of the decisions with it, these numbers add up to the
-- total, no reason is more frequent than the top one, and every decision lies between the oldest
-- and the newest time.
pub report-counts :
    {S : Type 0} (e : NoTradeEngine S)
    → let r = report e in
      ((v : String) → count_of r.by_reason v ≡ count_by_reason v e)
      × (sum_of r.by_reason ≡ r.total_refused)
      × IsTop r.by_reason r.top_reason
      × All
          (λ d. is_within r.oldest_decision_ms r.newest_decision_ms d.timestamp_ms ≡ true)
          e.decisions
unfolding report count_by_reason
report-counts e =
    let empty : Collected = record { by_reason = []; oldest = none; newest = none } in
    (
      λ v. omega (arith, count_of-collect_onto v e.decisions empty),
      omega (arith, sum_of-collect_onto e.decisions empty),
      top_of-IsTop (collect_onto empty e.decisions).by_reason
          (Entries-collect_onto e.decisions empty tt),
      All-within e.decisions empty,
    )
