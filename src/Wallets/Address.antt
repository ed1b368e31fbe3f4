-- ===== src/Wallets/Address.antt =====
-- src/hl_observer/wallets/leaderboard_validation.py: full and truncated wallet addresses. The regular
-- expressions are written out over the characters; the texts of the rejections are left out.
use Prim.Native.Char.{Char, code}
use hyperliquid_smart_wallet.Prelude.{
  ℕ, zero, suc, ◌+◌, String, Bool, true, false, not, ◌&&◌, ◌||◌, Option, none, some, if◌then◌else◌,
  leb, ◌==◌, str_eq, strip, starts_with, is_inside, is_nonempty, lower,
}

pub data AddressStatus : Type 0 where
  full_address_ok truncated_address_rejected invalid_address_rejected : AddressStatus
  empty_address_rejected imported_full_address_ok dom_full_address_ok : AddressStatus
  network_full_address_ok : AddressStatus

pub record ValidationResult : Type 0 where
  pub raw_value : String
  pub normalized_value : Option String
  pub is_full_address : Bool
  pub is_truncated : Bool
  pub validation_status : AddressStatus

abbrev pub is_hex : Char → Bool
is_hex c =
    (leb b'0' (code c) && leb (code c) b'9')
    || (leb b'a' (code c) && leb (code c) b'f')
    || (leb b'A' (code c) && leb (code c) b'F')

unfoldable pub text_length : String → ℕ
text_length String.[] = 0
text_length (String.◌∷◌ c s) = text_length s + 1

unfoldable pub all_hex : String → Bool
all_hex String.[] = true
all_hex (String.◌∷◌ c s) = is_hex c && all_hex s

-- The number of hexadecimal digits at the front, and what follows them.
unfoldable pub hex_run : String → ℕ × String
hex_run String.[] = (0, "")
hex_run (String.◌∷◌ c s) =
    let rest = hex_run s in if is_hex c then (rest.0 + 1, rest.1) else (0, String.◌∷◌ c s)

unfoldable pub drop_text : ℕ → String → String
drop_text zero s = s
drop_text (suc n) String.[] = ""
drop_text (suc n) (String.◌∷◌ c s) = drop_text n s

-- `{2,12}`
abbrev pub two_to_twelve : ℕ → Bool
two_to_twelve n = leb 2 n && leb n 12

unfoldable pub is_full_wallet_address : String → Bool
is_full_wallet_address value =
    let s = strip value in starts_with "0x" s && all_hex (drop_text 2 s) && text_length s == 42

unfoldable pub is_truncated_wallet_display : String → Bool
is_truncated_wallet_display value =
    let s = strip value in
    let front = hex_run (drop_text 2 s) in
    let back = drop_text 3 front.1 in
    starts_with "0x" s
    && two_to_twelve front.0
    && starts_with "..." front.1
    && all_hex back
    && two_to_twelve (text_length back)

abbrev pub accepted_status : String → AddressStatus
accepted_status source_method =
    if str_eq source_method "network"
    then AddressStatus.network_full_address_ok
    else if str_eq source_method "dom"
    then AddressStatus.dom_full_address_ok
    else if str_eq source_method "import"
    then AddressStatus.imported_full_address_ok
    else AddressStatus.full_address_ok

abbrev pub rejected_address : String → Bool → AddressStatus → ValidationResult
rejected_address raw truncated status = record {
  raw_value = raw;
  normalized_value = none;
  is_full_address = false;
  is_truncated = truncated;
  validation_status = status;
}

abbrev pub text_of : Option String → String
text_of none = ""
text_of (some s) = strip s

pub validate_leaderboard_wallet_address : Option String → String → ValidationResult
validate_leaderboard_wallet_address value source_method =
    let raw = text_of value in
    let accepted : ValidationResult = record {
      raw_value = raw;
      normalized_value = some (lower raw);
      is_full_address = true;
      is_truncated = false;
      validation_status = accepted_status source_method;
    } in
    if not (is_nonempty raw)
    then rejected_address raw false AddressStatus.empty_address_rejected
    else if is_full_wallet_address raw
    then accepted
    else if is_truncated_wallet_display raw || is_inside "..." raw
    then rejected_address raw true AddressStatus.truncated_address_rejected
    else rejected_address raw false AddressStatus.invalid_address_rejected
