-- ===== src/Prelude/Dict.antt =====
-- Python's dictionaries with text keys, as association lists in insertion order.
use Prim.Native.Nat.{◌+◌, ◌≤◌}
use Prim.Native.String.{String}
use mathlib.Core.Path.{◌≡◌, refl}
use mathlib.Core.Bool.{Bool, false, not, ◌&&◌}
use mathlib.Core.List.{List, [], ◌∷◌}
use mathlib.Core.Option.{Option, none, some}
use native.Mathlib.Omega.{arith}
use text.Mathlib.Text.{◌==◌}
use text.Mathlib.TextEquality.{eq_iff}
use text.Mathlib.TextPositions.{eq_refl}
use hyperliquid_smart_wallet.Prelude.Tests.{if◌then◌else◌, is_some}
use hyperliquid_smart_wallet.Prelude.Lists.{length, keep}
use hyperliquid_smart_wallet.Prelude.Text.{contains}

module _ {ℓ} {V : Type ℓ} where
  -- `dict.get(key)`
  abbrev pub lookup : String → List (String × V) → Option V
  lookup key [] = none
  lookup key (entry ∷ rest) = if entry.0 == key then some entry.1 else lookup key rest

  -- `dict[key] = value`: a known key keeps its place.
  abbrev pub insert : String → V → List (String × V) → List (String × V)
  insert key value [] = (key, value) ∷ []
  insert key value (entry ∷ rest) =
      if entry.0 == key then (key, value) ∷ rest else entry ∷ insert key value rest

  -- `del dict[key]`
  abbrev pub erase : String → List (String × V) → List (String × V)
  erase key [] = []
  erase key (entry ∷ rest) = if entry.0 == key then rest else entry ∷ erase key rest

  pub lookup-insert :
      (key asked : String) (value : V) (entries : List (String × V))
      → lookup asked (insert key value entries)
        ≡ (if key == asked then some value else lookup asked entries)
  lookup-insert key asked value [] = refl
  lookup-insert key asked value (entry ∷ rest) = ground (
    arith,
    lookup-insert key asked value rest,
    eq_iff entry.0 key,
    eq_iff entry.0 asked,
    eq_iff key asked,
  )

  pub lookup-insert_self :
      (k : String) (v : V) (m : List (String × V)) → lookup k (insert k v m) ≡ some v
  lookup-insert_self k v m = ground (arith, lookup-insert k k v m, eq_refl k)

  pub lookup-erase_ne :
      (k j : String) (m : List (String × V)) → (k == j) ≡ false → lookup j (erase k m) ≡ lookup j m
  lookup-erase_ne k j [] h = refl
  lookup-erase_ne k j ((i, w) ∷ m) h =
      ground (arith, eq_iff k j, eq_iff i k, eq_iff i j, lookup-erase_ne k j m h)

  -- No key is listed twice, and every entry meets `P`.
  abbrev pub Entries {κ} : (String → V → Type κ) → List (String × V) → Type (ℓ ⊔ κ)
  Entries P [] = Unit
  Entries P ((k, v) ∷ m) = P k v × (lookup k m ≡ none) × Entries P m

  pub Entries-lookup {κ} :
      (P : String → V → Type κ) (k : String) (v : V) (m : List (String × V))
      → Entries P m
      → lookup k m ≡ some v
      → P k v
  Entries-lookup P k v [] h e = cc
  Entries-lookup P k v ((j, w) ∷ m) h e = ground (arith, eq_iff j k, Entries-lookup P k v m h.2)

  pub Entries-insert {κ} :
      (P : String → V → Type κ) (k : String) (v : V) (m : List (String × V))
      → Entries P m
      → P k v
      → Entries P (insert k v m)
  Entries-insert P k v [] h p = (p, refl, tt)
  Entries-insert P k v ((j, w) ∷ m) h p =
      ground (arith, eq_iff j k, eq_iff k j, lookup-insert k j v m, Entries-insert P k v m h.2 p)

  pub Entries-erase {κ} :
      (P : String → V → Type κ) (k : String) (m : List (String × V))
      → Entries P m
      → Entries P (erase k m)
  Entries-erase P k [] h = tt
  Entries-erase P k ((j, w) ∷ m) h =
      ground (arith, eq_iff j k, eq_iff k j, lookup-erase_ne k j m, Entries-erase P k m h.2)

  pub lookup-erase_self {κ} :
      (P : String → V → Type κ) (k : String) (m : List (String × V))
      → Entries P m
      → lookup k (erase k m) ≡ none
  lookup-erase_self P k [] h = refl
  lookup-erase_self P k ((j, w) ∷ m) h = ground (arith, eq_iff j k, lookup-erase_self P k m h.2)

  pub length-insert :
      (k : String) (v : V) (m : List (String × V))
      → length (insert k v m) ≡ (if is_some (lookup k m) then length m else length m + 1)
  length-insert k v [] = ground arith
  length-insert k v ((j, w) ∷ m) = ground (arith, eq_iff j k, length-insert k v m)

  pub length-erase : (k : String) (m : List (String × V)) → length (erase k m) ≤ length m
  length-erase k [] = omega arith
  length-erase k ((j, w) ∷ m) = ground (arith, length-erase k m)

  -- The keys, in order.
  abbrev pub keys : List (String × V) → List String
  keys [] = []
  keys (entry ∷ rest) = entry.0 ∷ keys rest

  pub lookup-keep_absent :
      (p : String × V → Bool) (k : String) (m : List (String × V))
      → lookup k m ≡ none
      → (lookup k (keep p m) ≡ none) × (contains k (keys (keep p m)) ≡ false)
  lookup-keep_absent p k [] h = (refl, refl)
  lookup-keep_absent p k ((j, w) ∷ m) h =
      ground (arith, h, eq_iff j k, eq_iff k j, lookup-keep_absent p k m)

  pub Entries-keep {κ} :
      (P : String → V → Type κ) (p : String × V → Bool) (m : List (String × V))
      → Entries P m
      → Entries P (keep p m)
  Entries-keep P p [] h = tt
  Entries-keep P p ((j, w) ∷ m) h =
      ground (arith, h, Entries-keep P p m h.2, lookup-keep_absent p j m h.1)

  -- What a filter leaves out, and what it keeps.
  pub lookup-keep_split {κ} :
      (P : String → V → Type κ) (p : String × V → Bool) (k : String) (m : List (String × V))
      → Entries P m
      → is_some (lookup k (keep (λ x. not (p x)) m))
        ≡ (is_some (lookup k m) && not (contains k (keys (keep p m))))
  lookup-keep_split P p k [] h = refl
  lookup-keep_split P p k ((j, w) ∷ m) h = ground (
    arith,
    h,
    eq_iff j k,
    eq_iff k j,
    lookup-keep_absent p j m h.1,
    lookup-keep_absent (λ x. not (p x)) j m h.1,
    lookup-keep_split P p k m h.2,
  )
