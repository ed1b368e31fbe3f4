-- ===== src/Dydx/Safety.antt =====
-- hyper_smart_observer/dydx_v4/safety.py: the gates that deny by default. The text of a refusal's
-- detail is left out; its reason is the source's string.
pub mod Gate
mod Scan
use hyperliquid_smart_wallet.Prelude.{
  String, ◌≡◌, Bool, true, false, not, ◌&&◌, List, [], ◌∷◌, ◌++◌, Option, none, some, if◌then◌else◌,
  contains, lower, is_nonempty, map,
}
use hyperliquid_smart_wallet.Prelude.Int.{ℤ, pos, ltb_ℤ}
use hyperliquid_smart_wallet.Float.{Float, whole, max_of}
use hyperliquid_smart_wallet.Dydx.Config.{Config}

pub record SafetyResult : Type 0 where
  pub allowed : Bool
  pub reason : String

abbrev pub deny : String → SafetyResult
deny reason = record { allowed = false; reason = reason }

abbrev pub test_accounts : List String
test_accounts =
    "0x1111111111111111111111111111111111111111" ∷ "0x2222222222222222222222222222222222222222"
    ∷ "0xaaaaaaaaaaaaaaaaaaaaaaaaaaaaaaaaaaaaaaaa" ∷ "0xbbbbbbbbbbbbbbbbbbbbbbbbbbbbbbbbbbbbbbbb"
    ∷ "0x0000000000000000000000000000000000000000" ∷ "dydx_test_account_1" ∷ "dydx_test_account_2"
    ∷ []

-- The listed accounts are lower case already; the code lowers them once more.
unfoldable pub is_test_fixture_account : Option String → Bool
unfolding lower
is_test_fixture_account none = true
is_test_fixture_account (some a) =
    if is_nonempty a then contains (lower a) (map lower test_accounts) else true

-- `market and market not in whitelist`
abbrev pub market_outside : Option String → List String → Bool
market_outside none markets = false
market_outside (some m) markets = is_nonempty m && not (contains m markets)

-- `market and market in blacklist`
abbrev pub market_inside : Option String → List String → Bool
market_inside none markets = false
market_inside (some m) markets = is_nonempty m && contains m markets

module _ {F : Type 0} where
  -- `none` where `assert_paper_only` raises nothing.
  unfoldable pub assert_paper_only : Config F → Option String
  assert_paper_only c =
      if not c.paper_only
      then some "SAFETY GATE FAILED: paper_only=False"
      else if c.allow_trading
      then some "SAFETY GATE FAILED: allow_trading=True"
      else none

  -- The same for `assert_no_private_key`.
  pub assert_no_private_key : Config F → Option String
  assert_no_private_key c =
      if c.allow_private_key then some "SAFETY GATE FAILED: allow_private_key=True" else none

module _ {F : Type 0} ⦃f : Float F⦄ where
  open f use {mul, lt, le}

  pub min_required_bps : Config F → F → F
  min_required_bps c total_cost_bps =
      max_of c.min_edge_bps (mul c.edge_safety_multiplier total_cost_bps)

  unfoldable pub gate_signal_for_live :
      Config F → ℤ → Option String → Option String → F → F → SafetyResult
  unfolding min_required_bps
  gate_signal_for_live c signal_age_ms account market edge_remaining_bps total_cost_bps =
      if not c.paper_only
      then deny "PAPER_ONLY_DISABLED"
      else if is_test_fixture_account account
      then deny "TEST_FIXTURE_ACCOUNT_EXCLUDED_FROM_LIVE"
      else if ltb_ℤ c.hard_max_signal_age_ms signal_age_ms
      then deny "STALE_SIGNAL"
      else if market_outside market c.market_whitelist
      then deny "MARKET_NOT_WHITELISTED"
      else if market_inside market c.market_blacklist
      then deny "MARKET_BLACKLISTED"
      else if le edge_remaining_bps (whole 0)
      then deny "EDGE_REMAINING_NEGATIVE_OR_ZERO"
      else if lt edge_remaining_bps c.min_edge_bps
      then deny "EDGE_REMAINING_TOO_LOW"
      else if lt edge_remaining_bps (min_required_bps c total_cost_bps)
      then deny "EDGE_BELOW_COST_MULTIPLIER_THRESHOLD"
      else record { allowed = true; reason = "SAFETY_GATES_PASSED" }

  -- The problems that `audit_config` lists, by their severity and field.
  pub audit_config : Config F → List String
  audit_config c =
      (if c.allow_trading then "CRITICAL: allow_trading" ∷ [] else [])
      ++ ((if c.allow_private_key then "CRITICAL: allow_private_key" ∷ [] else [])
          ++ ((if not c.paper_only then "CRITICAL: paper_only" ∷ [] else [])
              ++ ((if not c.read_only then "CRITICAL: read_only" ∷ [] else [])
                  ++ ((if c.allow_node_private_api then "HIGH: allow_node_private_api" ∷ [] else [])
                      ++ ((if ltb_ℤ (pos 8000) c.max_signal_age_ms
                            then "MEDIUM: max_signal_age_ms" ∷ []
                            else [])
                          ++ ((if lt c.min_edge_bps (whole 10)
                                then "MEDIUM: min_edge_bps" ∷ []
                                else [])
                              ++ (if ltb_ℤ (pos 10) c.max_open_paper_trades
                                  then "LOW: max_open_paper_trades" ∷ []
                                  else [])))))))
