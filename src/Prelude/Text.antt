-- ===== src/Prelude/Text.antt =====
-- Python's `str` where the program only compares and joins whole texts, and dictionaries with
-- text keys in insertion order.
use Prim.Native.Char.{Char, code}
use Prim.Native.Nat.{ℕ, zero, suc, ◌-◌, ◌/◌, ◌%◌}
use Prim.Native.String.{String, ◌++◌ as text_append, char_at}
use mathlib.Core.Bool.{Bool, true, false, ◌&&◌, not, ◌||◌}
use mathlib.Core.List.{List, [], ◌∷◌, ◌++◌}
use mathlib.Core.Path.{◌≡◌, refl}
use native.Mathlib.Omega.{arith}
use text.Mathlib.Text.{◌==◌}
use text.Mathlib.TextEquality.{eq_iff}
use hyperliquid_smart_wallet.Prelude.Lists.{keep}
use hyperliquid_smart_wallet.Prelude.Tests.{if◌then◌else◌, leb, ◌==◌ as nat_eq}

abbrev pub str_eq : String → String → Bool
str_eq a b = a == b

abbrev pub join : List String → String
join [] = ""
join (x ∷ xs) = text_append x (join xs)

-- `if text:`
abbrev pub is_nonempty : String → Bool
is_nonempty s = not (s == "")

-- `str.lower` and `str.upper` on ASCII letters; other characters stay.
abbrev lower_char : Char → Char
lower_char c =
    if leb b'A' (code c) && leb (code c) b'Z'
    then char_at "abcdefghijklmnopqrstuvwxyz" (code c - b'A')
    else c

abbrev upper_char : Char → Char
upper_char c =
    if leb b'a' (code c) && leb (code c) b'z'
    then char_at "ABCDEFGHIJKLMNOPQRSTUVWXYZ" (code c - b'a')
    else c

unfoldable pub lower : String → String
lower String.[] = ""
lower (String.◌∷◌ c s) = String.◌∷◌ (lower_char c) (lower s)

unfoldable pub upper : String → String
upper String.[] = ""
upper (String.◌∷◌ c s) = String.◌∷◌ (upper_char c) (upper s)

-- `str(n)` of a natural number; a number below 10 ^ fuel is printed whole.
abbrev digit : ℕ → String
digit n = String.◌∷◌ (char_at "0123456789" (n % 10)) ""

print_onto : ℕ → ℕ → String → String
print_onto zero n rest = rest
print_onto (suc fuel) n rest =
    let more = print_onto fuel (n / 10) (text_append (digit n) rest) in
    if nat_eq (n / 10) 0 then text_append (digit n) rest else more

unfoldable pub print : ℕ → String
unfolding print_onto
print n = print_onto 40 n ""

-- `text in collection`
abbrev pub contains : String → List String → Bool
contains a [] = false
contains a (x ∷ xs) = if a == x then true else contains a xs

pub contains-append :
    (a : String) (xs ys : List String) → contains a (xs ++ ys) ≡ (contains a xs || contains a ys)
contains-append a [] ys = refl
contains-append a (x ∷ xs) ys = ground (arith, contains-append a xs ys)

pub contains-keep :
    (p : String → Bool) (a : String) (xs : List String)
    → contains a (keep p xs) ≡ (contains a xs && p a)
contains-keep p a [] = refl
contains-keep p a (x ∷ xs) = ground (arith, contains-keep p a xs, eq_iff a x)

-- `str.strip` of ASCII white space.
abbrev is_space : Char → Bool
is_space c = nat_eq (code c) b' ' || (leb 9 (code c) && leb (code c) 13)

unfoldable pub strip_left : String → String
strip_left String.[] = ""
strip_left (String.◌∷◌ c s) = let rest = strip_left s in if is_space c then rest else String.◌∷◌ c s

unfoldable pub strip_right : String → String
strip_right String.[] = ""
strip_right (String.◌∷◌ c s) =
    let rest = strip_right s in
    if is_space c && not (is_nonempty rest) then "" else String.◌∷◌ c rest

abbrev pub strip : String → String
strip s = strip_left (strip_right s)

-- `part in text`
unfoldable pub starts_with : String → String → Bool
starts_with String.[] s = true
starts_with (String.◌∷◌ a part) String.[] = false
starts_with (String.◌∷◌ a part) (String.◌∷◌ b s) = nat_eq (code a) (code b) && starts_with part s

unfoldable pub is_inside : String → String → Bool
is_inside part String.[] = starts_with part ""
is_inside part (String.◌∷◌ c s) = starts_with part (String.◌∷◌ c s) || is_inside part s
