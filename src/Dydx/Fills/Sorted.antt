-- ===== src/Dydx/Fills/Sorted.antt =====
-- hyper_smart_observer/dydx_v4/fill_simulator.py: the sorted levels of a book.
use hyperliquid_smart_wallet.Prelude.{◌≡◌, true, List, [], ◌∷◌, All, arith}
use hyperliquid_smart_wallet.Float.{Float, IsOrdered}
use hyperliquid_smart_wallet.Float.Order.{IsNumber, le_of_not_lt}
use hyperliquid_smart_wallet.Dydx.Fills.{BookLevel, insert_level, sort_levels}

module _ {F : Type 0} ⦃f : Float F⦄ where
  open f use {lt, le}

  All-insert_level {κ} :
      (P : BookLevel F → Type κ) (key : BookLevel F → F) (x : BookLevel F) (ys : List (BookLevel F))
      → P x
      → All P ys
      → All P (insert_level key x ys)
  unfolding insert_level
  All-insert_level P key x [] p h = (p, tt)
  All-insert_level P key x (y ∷ ys) p h = ground (arith, p, h, All-insert_level P key x ys p h.1)

  pub All-sort_levels {κ} :
      (P : BookLevel F → Type κ) (key : BookLevel F → F) (xs : List (BookLevel F))
      → All P xs
      → All P (sort_levels key xs)
  unfolding sort_levels
  All-sort_levels P key [] h = tt
  All-sort_levels P key (x ∷ xs) h =
      All-insert_level P key x (sort_levels key xs) h.0 (All-sort_levels P key xs h.1)

  abbrev pub HasKey : (BookLevel F → F) → BookLevel F → Type 0
  HasKey key lv = IsNumber (key lv)

  -- No level has a smaller key than the first.
  unfoldable pub IsLed : (BookLevel F → F) → List (BookLevel F) → Type 0
  IsLed key [] = Unit
  IsLed key (x ∷ xs) = All (λ y. le (key x) (key y) ≡ true) (x ∷ xs)

  module _ (laws : IsOrdered F) where
    le_each :
        (key : BookLevel F → F) (x y : BookLevel F) (zs : List (BookLevel F))
        → le (key x) (key y) ≡ true
        → All (λ z. le (key y) (key z) ≡ true) zs
        → All (λ z. le (key x) (key z) ≡ true) zs
    le_each key x y [] h s = tt
    le_each key x y (z ∷ zs) h s =
        (laws.le_trans (key x) (key y) (key z) h s.0, le_each key x y zs h s.1)

    insert_level-IsLed :
        (key : BookLevel F → F) (x : BookLevel F) (ys : List (BookLevel F))
        → HasKey key x
        → All (HasKey key) ys
        → IsLed key ys
        → IsLed key (insert_level key x ys)
    unfolding insert_level IsLed
    insert_level-IsLed key x [] p h s = (p, tt)
    insert_level-IsLed key x (y ∷ ys) p h s = ground (
      arith,
      p,
      h.0,
      s,
      laws.le_of_lt (key y) (key x),
      le_of_not_lt laws (key y) (key x) h.0 p,
      λ (e : le (key x) (key y) ≡ true). le_each key x y (y ∷ ys) e s,
      λ (e : le (key y) (key x) ≡ true).
          All-insert_level (λ z. le (key y) (key z) ≡ true) key x ys e s.1,
    )

    pub sort_levels-IsLed :
        (key : BookLevel F → F) (xs : List (BookLevel F))
        → All (HasKey key) xs
        → IsLed key (sort_levels key xs)
    unfolding sort_levels IsLed
    sort_levels-IsLed key [] h = tt
    sort_levels-IsLed key (x ∷ xs) h =
        insert_level-IsLed key x (sort_levels key xs) h.0 (All-sort_levels (HasKey key) key xs h.1)
          (sort_levels-IsLed key xs h.1)
