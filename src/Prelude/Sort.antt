-- ===== src/Prelude/Sort.antt =====
-- Python's `sorted(xs, key=...)` for integer keys: elements with equal keys keep their order.
use mathlib.Core.Path.{◌≡◌, refl}
use mathlib.Core.Bool.{Bool, true}
use mathlib.Core.List.{List, [], ◌∷◌}
use native.Mathlib.Omega.{arith}
use hyperliquid_smart_wallet.Prelude.Tests.{if◌then◌else◌}
use hyperliquid_smart_wallet.Prelude.Lists.{keep, All}
use hyperliquid_smart_wallet.Prelude.Int.{ℤ, leb_ℤ}

module _ {ℓ} {A : Type ℓ} (key : A → ℤ) where
  insert_by : A → List A → List A
  insert_by x [] = x ∷ []
  insert_by x (y ∷ ys) =
      let rest = insert_by x ys in if leb_ℤ (key x) (key y) then x ∷ y ∷ ys else y ∷ rest

  unfoldable pub sort_by : List A → List A
  unfolding insert_by
  sort_by [] = []
  sort_by (x ∷ xs) = insert_by x (sort_by xs)

  -- No later element has a smaller key.
  unfoldable pub IsSortedBy : List A → Type ℓ
  IsSortedBy [] = Unit
  IsSortedBy (x ∷ xs) = All (λ y. leb_ℤ (key x) (key y) ≡ true) xs × IsSortedBy xs

  All-insert_by {κ} :
      (P : A → Type κ) (x : A) (ys : List A) → P x → All P ys → All P (insert_by x ys)
  unfolding insert_by
  All-insert_by P x [] p h = (p, tt)
  All-insert_by P x (y ∷ ys) p h = ground (arith, p, h, All-insert_by P x ys p h.1)

  pub All-sort_by {κ} : (P : A → Type κ) (xs : List A) → All P xs → All P (sort_by xs)
  unfolding sort_by
  All-sort_by P [] h = tt
  All-sort_by P (x ∷ xs) h = All-insert_by P x (sort_by xs) h.0 (All-sort_by P xs h.1)

  le_later :
      (x y : A) (zs : List A)
      → leb_ℤ (key x) (key y) ≡ true
      → All (λ z. leb_ℤ (key y) (key z) ≡ true) zs
      → All (λ z. leb_ℤ (key x) (key z) ≡ true) zs
  le_later x y [] h s = tt
  le_later x y (z ∷ zs) h s = (ground (arith, h, s.0), le_later x y zs h s.1)

  insert_by-IsSortedBy : (x : A) (ys : List A) → IsSortedBy ys → IsSortedBy (insert_by x ys)
  unfolding insert_by IsSortedBy
  insert_by-IsSortedBy x [] s = (tt, tt)
  insert_by-IsSortedBy x (y ∷ ys) s = ground (
    arith,
    s,
    insert_by-IsSortedBy x ys s.1,
    le_later x y ys,
    All-insert_by (λ z. leb_ℤ (key y) (key z) ≡ true) x ys,
  )

  pub sort_by-IsSortedBy : (xs : List A) → IsSortedBy (sort_by xs)
  unfolding sort_by IsSortedBy
  sort_by-IsSortedBy [] = tt
  sort_by-IsSortedBy (x ∷ xs) = insert_by-IsSortedBy x (sort_by xs) (sort_by-IsSortedBy xs)

  -- An element before all others is put in front.
  insert_by-front :
      (x : A) (ys : List A) → All (λ y. leb_ℤ (key x) (key y) ≡ true) ys → insert_by x ys ≡ x ∷ ys
  unfolding insert_by
  insert_by-front x [] h = refl
  insert_by-front x (y ∷ ys) h = ground (arith, h.0)

  All-keep_le :
      (p : A → Bool) (x : A) (ys : List A)
      → All (λ y. leb_ℤ (key x) (key y) ≡ true) ys
      → All (λ y. leb_ℤ (key x) (key y) ≡ true) (keep p ys)
  All-keep_le p x [] h = tt
  All-keep_le p x (y ∷ ys) h = ground (arith, h.0, All-keep_le p x ys h.1)

  keep-insert_by :
      (p : A → Bool) (x : A) (ys : List A)
      → IsSortedBy ys
      → keep p (insert_by x ys) ≡ (if p x then insert_by x (keep p ys) else keep p ys)
  unfolding insert_by IsSortedBy
  keep-insert_by p x [] s = ground arith
  keep-insert_by p x (y ∷ ys) s = ground (
    arith,
    keep-insert_by p x ys s.1,
    insert_by-front x (keep p ys),
    λ (h : leb_ℤ (key x) (key y) ≡ true). All-keep_le p x ys (le_later x y ys h s.0),
  )

  -- Filtering and sorting commute: this is what it means that the order of equal keys is kept.
  pub keep-sort_by : (p : A → Bool) (xs : List A) → keep p (sort_by xs) ≡ sort_by (keep p xs)
  unfolding sort_by
  keep-sort_by p [] = refl
  keep-sort_by p (x ∷ xs) =
      ground (arith, keep-insert_by p x (sort_by xs) (sort_by-IsSortedBy xs), keep-sort_by p xs)
