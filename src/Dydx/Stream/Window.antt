-- ===== src/Dydx/Stream/Window.antt =====
-- hyper_smart_observer/dydx_v4/stream_consensus.py: what the window holds.
pub mod History
use hyperliquid_smart_wallet.Prelude.{
  ℕ, ◌≤◌, ◌≡◌, refl, String, Bool, true, false, List, [], ◌∷◌, ◌++◌, Option, none, some,
  if◌then◌else◌, length, keep, All, is_nonempty, ap, ◌+◌, arith, length-append, length-keep, ◌∙◌,
  Bool-cases, inl, inr,
}
use hyperliquid_smart_wallet.Prelude.Int.{ℤ, ◌-ℤ◌, ltb_ℤ, leb_ℤ, -ℤ_parts}
use hyperliquid_smart_wallet.Dydx.Stream.{
  StreamItem, FillWindow, pop_excess, pop_old, add_item, prune_window,
}

pop_excess-length : (n : ℕ) (xs : List StreamItem) → length (pop_excess n xs) ≤ n
unfolding pop_excess
pop_excess-length n [] = omega arith
pop_excess-length n (x ∷ xs) = ground (arith, pop_excess-length n xs)

-- What a shorter list holds is left alone.
pub pop_excess-short : (n : ℕ) (xs : List StreamItem) → length xs ≤ n → pop_excess n xs ≡ xs
unfolding pop_excess
pop_excess-short n [] h = refl
pop_excess-short n (x ∷ xs) h = ground (arith, h)

-- The times do not go down.
unfoldable pub IsInOrder : List StreamItem → Type 0
IsInOrder [] = Unit
IsInOrder (x ∷ xs) = All (λ y. leb_ℤ x.ts_ms y.ts_ms ≡ true) xs × IsInOrder xs

abbrev pub is_fresh : ℤ → StreamItem → Bool
is_fresh cutoff x = leb_ℤ cutoff x.ts_ms

keep-All :
    (cutoff : ℤ) (x : StreamItem) (xs : List StreamItem)
    → is_fresh cutoff x ≡ true
    → All (λ y. leb_ℤ x.ts_ms y.ts_ms ≡ true) xs
    → keep (is_fresh cutoff) xs ≡ xs
keep-All cutoff x [] f h = refl
keep-All cutoff x (y ∷ ys) f h = ground (arith, f, h.0, keep-All cutoff x ys f h.1)

pub pop_old-keep :
    (cutoff : ℤ) (xs : List StreamItem)
    → IsInOrder xs
    → pop_old cutoff xs ≡ keep (is_fresh cutoff) xs
unfolding pop_old IsInOrder
pop_old-keep cutoff [] h = refl
pop_old-keep cutoff (x ∷ xs) h = ground (
  arith,
  pop_old-keep cutoff xs h.1,
  λ (f : is_fresh cutoff x ≡ true). keep-All cutoff x xs f h.0,
)
