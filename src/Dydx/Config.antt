-- ===== src/Dydx/Config.antt =====
-- hyper_smart_observer/dydx_v4/config.py: the settings that the modelled engines read, and the
-- refusal of unsafe ones. `_assert_safety` raises on the first that it finds.
use hyperliquid_smart_wallet.Prelude.{
  String, ◌≡◌, ◌↔◌, Bool, true, false, not, ◌&&◌, List, Option, none, some, if◌then◌else◌, arith,
}
use hyperliquid_smart_wallet.Prelude.Int.{ℤ}
use hyperliquid_smart_wallet.Float.{Float, whole}

pub data DydxNetwork : Type 0 where
  mainnet testnet : DydxNetwork

abbrev pub is_mainnet : DydxNetwork → Bool
is_mainnet DydxNetwork.mainnet = true
is_mainnet DydxNetwork.testnet = false

pub record Config (F : Type 0) : Type 0 where
  pub network : DydxNetwork
  pub require_testnet : Bool
  pub read_only : Bool
  pub paper_only : Bool
  pub allow_trading : Bool
  pub allow_private_key : Bool
  pub allow_node_private_api : Bool
  pub max_signal_age_ms : ℤ
  pub hard_max_signal_age_ms : ℤ
  pub min_edge_bps : F
  pub edge_safety_multiplier : F
  pub starting_balance_usdc : F
  pub max_open_paper_trades : ℤ
  pub max_position_pct : F
  pub taker_fee_bps : F
  pub estimated_spread_bps : F
  pub estimated_slippage_bps : F
  pub estimated_latency_bps : F
  pub copy_degradation_bps : F
  pub market_whitelist : List String
  pub market_blacklist : List String
  pub consensus_required : Bool
  pub consensus_min_wallets : ℤ

pub data Violation : Type 0 where
  trading private_key not_paper_only not_read_only mainnet_required : Violation

module _ {F : Type 0} where
  -- The first violation, which the code raises as a ValueError.
  pub assert_safety : Config F → Option Violation
  assert_safety c =
      if c.allow_trading
      then some Violation.trading
      else if c.allow_private_key
      then some Violation.private_key
      else if not c.paper_only
      then some Violation.not_paper_only
      else if not c.read_only
      then some Violation.not_read_only
      else if c.require_testnet && is_mainnet c.network
      then some Violation.mainnet_required
      else none

  -- A configuration can be built exactly if it is paper-only and read-only, allows neither trading
  -- nor private keys, and does not ask for the test network on the main one.
  pub assert_safety_iff :
      (c : Config F)
      → (assert_safety c ≡ none) ↔ (
          (c.allow_trading ≡ false)
          × (c.allow_private_key ≡ false)
          × (c.paper_only ≡ true)
          × (c.read_only ≡ true)
          × ((c.require_testnet && is_mainnet c.network) ≡ false))
  unfolding assert_safety
  assert_safety_iff c = ground arith

module _ {F : Type 0} ⦃f : Float F⦄ where
  open f use {add, mul}

  unfoldable pub total_round_trip_cost_bps : Config F → F
  total_round_trip_cost_bps c =
      add
        (add
          (add (add (mul c.taker_fee_bps (whole 2)) c.estimated_spread_bps)
            c.estimated_slippage_bps)
          c.estimated_latency_bps)
        c.copy_degradation_bps
