-- ===== src/Dydx/Safety/Scan.antt =====
-- hyper_smart_observer/dydx_v4/safety.py: the scans for forbidden keywords. The text of a payload comes
-- from `str`; the keyword that is found, which only the detail names, is left out.
use hyperliquid_smart_wallet.Prelude.{
  ◌≡◌, refl, String, Bool, true, false, ◌||◌, List, [], ◌∷◌, if◌then◌else◌, is_inside, lower, map,
  starts_with,
}
use hyperliquid_smart_wallet.Dydx.Safety.{SafetyResult, deny}

abbrev forbidden_keywords : List String
forbidden_keywords =
    "private_key" ∷ "privatekey" ∷ "mnemonic" ∷ "seed" ∷ "secret" ∷ "place_order" ∷ "cancel_order"
    ∷ "transfer" ∷ "deposit" ∷ "withdraw" ∷ "sign" ∷ "broadcast" ∷ "/orders" ∷ "/transfers"
    ∷ "/withdrawals" ∷ "/deposits" ∷ []

abbrev has_keyword : String → List String → Bool
has_keyword text [] = false
has_keyword text (kw ∷ kws) = is_inside kw text || has_keyword text kws

check_url_safety : String → SafetyResult
check_url_safety url =
    if has_keyword (lower url) forbidden_keywords
    then deny "FORBIDDEN_KEYWORD_IN_URL"
    else record { allowed = true; reason = "URL_SAFE" }

check_payload_safety : String → SafetyResult
check_payload_safety payload =
    if has_keyword (lower payload) forbidden_keywords
    then deny "FORBIDDEN_KEYWORD_IN_PAYLOAD"
    else record { allowed = true; reason = "PAYLOAD_SAFE" }

-- Keywords are found inside other words, whatever the case.
url_kinds :
    map
      (λ url. (check_url_safety url).allowed)
      ("https://indexer.dydx.trade/v4/fills" ∷ "https://x/v4/Orders" ∷ "https://x/v4/signals" ∷ [])
    ≡ true ∷ false ∷ false ∷ []
unfolding check_url_safety is_inside lower starts_with
url_kinds = refl
