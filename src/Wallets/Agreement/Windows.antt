-- ===== src/Wallets/Agreement/Windows.antt =====
-- src/hl_observer/wallets/delta_utils.py: the best window against all windows of time.
use hyperliquid_smart_wallet.Prelude.{
  ◌≤◌, ◌≡◌, String, Bool, true, false, ◌&&◌, ◌||◌, List, [], ◌∷◌, if◌then◌else◌, ltb, keep, lower,
  contains, str_eq, All, arith, eq_iff, Bool-cases, inl, inr,
}
use hyperliquid_smart_wallet.Prelude.Int.{ℤ, pos, ◌+ℤ◌, leb_ℤ, +ℤ_parts}
use hyperliquid_smart_wallet.Prelude.Sort.{sort_by, IsSortedBy, sort_by-IsSortedBy}
use hyperliquid_smart_wallet.Prelude.Distinct.{count_new, count_new-distinct, count_new-seen}
use hyperliquid_smart_wallet.Wallets.Agreement.{
  EntryRow, wallets_of, wallet_count, is_until, best_onto, best_window,
}

contains-wider :
    (p q : EntryRow → Bool) (a : String) (xs : List EntryRow)
    → All (λ x. p x ≡ true → q x ≡ true) xs
    → contains a (wallets_of (keep p xs)) ≡ true
    → contains a (wallets_of (keep q xs)) ≡ true
contains-wider p q a [] h e = e
contains-wider p q a (x ∷ xs) h e =
    ground (arith, e, h.0, eq_iff a (lower x.wallet_address), contains-wider p q a xs h.1)

-- A wider filter leaves no fewer wallets.
count_new-wider :
    (p q : EntryRow → Bool) (seen : String → Bool) (xs : List EntryRow)
    → All (λ x. p x ≡ true → q x ≡ true) xs
    → count_new seen (wallets_of (keep p xs)) ≤ count_new seen (wallets_of (keep q xs))
count_new-wider p q seen [] h = omega arith
count_new-wider p q seen (x ∷ xs) h =
    let a = lower x.wallet_address in
    let also : String → Bool = λ y. str_eq a y || seen y in
    let few = wallets_of (keep p xs) in
    let many = wallets_of (keep q xs) in
    ground (
      arith,
      h.0,
      contains-wider p q a xs h.1,
      count_new-wider p q seen xs h.1,
      count_new-wider p q also xs h.1,
      count_new-seen seen a few,
      count_new-seen seen a many,
    )

wallet_count-wider :
    (p q : EntryRow → Bool) (xs : List EntryRow)
    → All (λ x. p x ≡ true → q x ≡ true) xs
    → wallet_count (keep p xs) ≤ wallet_count (keep q xs)
wallet_count-wider p q xs h = omega (
  arith,
  count_new-wider p q (λ y. false) xs h,
  count_new-distinct (wallets_of (keep p xs)),
  count_new-distinct (wallets_of (keep q xs)),
)

best_onto-kept :
    (w : ℤ) (best xs : List EntryRow) → wallet_count best ≤ wallet_count (best_onto w best xs)
unfolding best_onto
best_onto-kept w best [] = omega arith
best_onto-kept w best (x ∷ xs) =
    let candidate = keep (is_until (x.observed_at_ms +ℤ w)) (x ∷ xs) in
    ground (arith, best_onto-kept w best xs, best_onto-kept w candidate xs)

-- The entries from the time `t` on, for `w` milliseconds.
abbrev pub is_inside_window : ℤ → ℤ → EntryRow → Bool
is_inside_window t w x = leb_ℤ t x.observed_at_ms && leb_ℤ x.observed_at_ms (t +ℤ w)

window_ends :
    (t w : ℤ) (x : EntryRow) (xs : List EntryRow)
    → leb_ℤ t x.observed_at_ms ≡ true
    → All (λ y. is_inside_window t w y ≡ true → is_until (x.observed_at_ms +ℤ w) y ≡ true) xs
window_ends t w x [] h = tt
window_ends t w x (y ∷ ys) h =
    (λ e. ground (arith, h, e, +ℤ_parts t w, +ℤ_parts x.observed_at_ms w), window_ends t w x ys h)

best_onto-largest :
    (t w : ℤ) (best xs : List EntryRow)
    → wallet_count (keep (is_inside_window t w) xs) ≤ wallet_count (best_onto w best xs)
unfolding best_onto
best_onto-largest t w best [] = omega arith
best_onto-largest t w best (x ∷ xs) =
    let candidate = keep (is_until (x.observed_at_ms +ℤ w)) (x ∷ xs) in
    let next = if ltb (wallet_count best) (wallet_count candidate) then candidate else best in
    let kept = best_onto-kept w next xs in
    let later = best_onto-largest t w next xs in
    elim (Bool-cases (leb_ℤ t x.observed_at_ms)) [
      | inl e ↦
          let wide =
            wallet_count-wider (is_inside_window t w) (is_until (x.observed_at_ms +ℤ w)) (x ∷ xs)
              (window_ends t w x (x ∷ xs) e) in
          ground (arith, wide, kept)
      | inr e ↦ ground (arith, e, later)
    ]

-- No entry is before the first, or later than the window after it.
pub IsWindow : ℤ → List EntryRow → Type 0
IsWindow w [] = Unit
IsWindow w (x ∷ xs) = All (λ y. is_inside_window x.observed_at_ms w y ≡ true) (x ∷ xs)

All-candidate :
    (w : ℤ) (x : EntryRow) (xs : List EntryRow)
    → All (λ y. leb_ℤ x.observed_at_ms y.observed_at_ms ≡ true) xs
    → All
        (λ y. is_inside_window x.observed_at_ms w y ≡ true)
        (keep (is_until (x.observed_at_ms +ℤ w)) xs)
All-candidate w x [] h = tt
All-candidate w x (y ∷ ys) h = ground (arith, h.0, All-candidate w x ys h.1)

candidate-IsWindow :
    (w : ℤ) (x : EntryRow) (xs : List EntryRow)
    → leb_ℤ (pos 0) w ≡ true
    → All (λ y. leb_ℤ x.observed_at_ms y.observed_at_ms ≡ true) xs
    → IsWindow w (keep (is_until (x.observed_at_ms +ℤ w)) (x ∷ xs))
unfolding IsWindow
candidate-IsWindow w x xs n h =
    let own : is_until (x.observed_at_ms +ℤ w) x ≡ true =
      ground (arith, n, +ℤ_parts x.observed_at_ms w) in
    ground (arith, own, All-candidate w x xs h)

best_onto-IsWindow :
    (w : ℤ) (best xs : List EntryRow)
    → leb_ℤ (pos 0) w ≡ true
    → IsSortedBy (λ (x : EntryRow). x.observed_at_ms) xs
    → IsWindow w best
    → IsWindow w (best_onto w best xs)
unfolding best_onto IsSortedBy
best_onto-IsWindow w best [] n s b = b
best_onto-IsWindow w best (x ∷ xs) n s b =
    let candidate = keep (is_until (x.observed_at_ms +ℤ w)) (x ∷ xs) in
    let c = candidate-IsWindow w x xs n s.0 in
    ground (arith, best_onto-IsWindow w candidate xs n s.1 c, best_onto-IsWindow w best xs n s.1 b)

-- For a window of 0 milliseconds or more, the entries that are found lie in one window of time, and
-- no window of that length, wherever it begins, has more different wallets.
pub best_window-largest :
    (w : ℤ) (rows : List EntryRow)
    → leb_ℤ (pos 0) w ≡ true
    → let sorted = sort_by (λ (x : EntryRow). x.observed_at_ms) rows in
      IsWindow w (best_window w rows)
      × ((t : ℤ)
          → wallet_count (keep (is_inside_window t w) sorted) ≤ wallet_count (best_window w rows))
unfolding best_window IsWindow
best_window-largest w rows n =
    let sorted = sort_by (λ (x : EntryRow). x.observed_at_ms) rows in
    (
      best_onto-IsWindow w [] sorted n
          (sort_by-IsSortedBy (λ (x : EntryRow). x.observed_at_ms) rows) tt,
      λ t. best_onto-largest t w [] sorted,
    )
