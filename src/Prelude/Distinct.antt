-- ===== src/Prelude/Distinct.antt =====
-- How many different texts a list has, and how many keys a dictionary has that was filled with them.
use Prim.Native.Nat.{ℕ, ◌+◌}
use Prim.Native.String.{String}
use mathlib.Core.Path.{◌≡◌, refl, fun_ext}
use mathlib.Core.Bool.{Bool, false, ◌||◌}
use mathlib.Core.List.{List, [], ◌∷◌}
use native.Mathlib.Omega.{arith}
use text.Mathlib.TextEquality.{eq_iff}
use hyperliquid_smart_wallet.Prelude.Tests.{if◌then◌else◌, is_some}
use hyperliquid_smart_wallet.Prelude.Text.{str_eq, contains}
use hyperliquid_smart_wallet.Prelude.Dict.{lookup, insert, lookup-insert}

-- The number of different texts of a list.
abbrev pub distinct : List String → ℕ
distinct [] = 0
distinct (x ∷ xs) = if contains x xs then distinct xs else distinct xs + 1

-- Those that are not seen already.
abbrev pub count_new : (String → Bool) → List String → ℕ
count_new seen [] = 0
count_new seen (x ∷ xs) =
    if seen x || contains x xs then count_new seen xs else count_new seen xs + 1

pub count_new-distinct : (xs : List String) → count_new (λ x. false) xs ≡ distinct xs
count_new-distinct [] = refl
count_new-distinct (x ∷ xs) = ground (arith, count_new-distinct xs)

pub count_new-seen :
    (seen : String → Bool) (k : String) (xs : List String)
    → count_new seen xs
      ≡ count_new (λ x. str_eq k x || seen x) xs
        + (if seen k then 0 else if contains k xs then 1 else 0)
count_new-seen seen k [] = ground arith
count_new-seen seen k (x ∷ xs) = ground (arith, eq_iff k x, eq_iff x k, count_new-seen seen k xs)

module _ {ℓ} {V : Type ℓ} where
  abbrev pub is_key : List (String × V) → String → Bool
  is_key acc x = is_some (lookup x acc)

  pub is_key-insert :
      (k : String) (e : V) (m : List (String × V))
      → is_key (insert k e m) ≡ (λ x. str_eq k x || is_key m x)
  is_key-insert k e m = fun_ext (λ x. ground (arith, lookup-insert k x e m))
