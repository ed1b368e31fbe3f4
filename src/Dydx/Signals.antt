-- ===== src/Dydx/Signals.antt =====
-- hyper_smart_observer/dydx_v4/signals.py: the engine that turns a delta of a leader's position into
-- a candidate signal or a refusal. `short_hash n text` stands for the first n hexadecimal digits of
-- SHA-256; the texts of details and notes are left out.
pub mod Accepted
pub mod Refusals
mod Tests
use hyperliquid_smart_wallet.Prelude.{
  ℕ, suc, String, ◌≡◌, Bool, true, false, not, ◌&&◌, ◌||◌, List, [], ◌∷◌, ◌++◌, Option, none, some,
  if◌then◌else◌, join, print, contains, lookup, insert, str_eq, get_or, is_some,
}
use hyperliquid_smart_wallet.Prelude.Int.{ℤ, pos, negsuc, ◌+ℤ◌, ltb_ℤ, leb_ℤ}
use hyperliquid_smart_wallet.Float.{Float, whole, max_of}
use hyperliquid_smart_wallet.Dydx.Models.{
  PositionSide, LifecycleEvent, SimulationMode, SignalCandidate, side_value, is_open, is_add,
  is_unknown, is_live,
}
use hyperliquid_smart_wallet.Dydx.Config.{Config, total_round_trip_cost_bps}
use hyperliquid_smart_wallet.Dydx.Safety.{
  SafetyResult, is_test_fixture_account, gate_signal_for_live,
}
use hyperliquid_smart_wallet.Dydx.Consensus.{Tracker, ConsensusResult, record_open, check}

pub data WsStatus : Type 0 where
  disconnected connecting connected subscribed degraded failed : WsStatus

abbrev pub is_ws_down : WsStatus → Bool
is_ws_down WsStatus.degraded = true
is_ws_down WsStatus.disconnected = true
is_ws_down WsStatus.failed = true
is_ws_down s = false

-- `NoTradeReason`, by the members that this engine uses.
pub data NoTradeReason : Type 0 where
  stale_signal edge_remaining_too_low edge_below_cost_multiplier : NoTradeReason
  liquidity_too_low spread_too_high account_not_shortlisted : NoTradeReason
  market_not_whitelisted market_blacklisted websocket_degraded : NoTradeReason
  safety_deny_by_default test_fixture_account max_open_trades_reached : NoTradeReason
  cooldown_active lifecycle_unknown consensus_not_reached : NoTradeReason

abbrev pub reason_value : NoTradeReason → String
reason_value NoTradeReason.stale_signal = "STALE_SIGNAL"
reason_value NoTradeReason.edge_remaining_too_low = "EDGE_REMAINING_TOO_LOW"
reason_value NoTradeReason.edge_below_cost_multiplier = "EDGE_BELOW_COST_MULTIPLIER"
reason_value NoTradeReason.liquidity_too_low = "LIQUIDITY_TOO_LOW"
reason_value NoTradeReason.spread_too_high = "SPREAD_TOO_HIGH"
reason_value NoTradeReason.account_not_shortlisted = "ACCOUNT_NOT_SHORTLISTED"
reason_value NoTradeReason.market_not_whitelisted = "MARKET_NOT_WHITELISTED"
reason_value NoTradeReason.market_blacklisted = "MARKET_BLACKLISTED"
reason_value NoTradeReason.websocket_degraded = "WEBSOCKET_DEGRADED"
reason_value NoTradeReason.safety_deny_by_default = "SAFETY_DENY_BY_DEFAULT"
reason_value NoTradeReason.test_fixture_account = "TEST_FIXTURE_ACCOUNT"
reason_value NoTradeReason.max_open_trades_reached = "MAX_OPEN_TRADES_REACHED"
reason_value NoTradeReason.cooldown_active = "COOLDOWN_ACTIVE"
reason_value NoTradeReason.lifecycle_unknown = "LIFECYCLE_UNKNOWN"
reason_value NoTradeReason.consensus_not_reached = "CONSENSUS_NOT_REACHED"

pub record NoTradeDecision : Type 0 where
  pub decision_id : String
  pub reason : NoTradeReason
  pub account_address : String
  pub market_id : String
  pub timestamp_ms : ℤ
  pub simulation_mode : SimulationMode

-- `DydxSignalEngine` with its `SignalEngineState`.
pub record Engine (F : Type 0) : Type 0 where
  pub config : Config F
  pub open_paper_trade_count : ℤ
  pub shortlisted_accounts : List String
  pub ws_status : WsStatus
  pub cooldowns : List (String × ℤ)
  pub no_trade_log : List NoTradeDecision
  pub consensus : Option (Tracker F)

-- The arguments of `evaluate_delta`.
pub record Delta (F : Type 0) : Type 0 where
  pub account_address : String
  pub subaccount_number : ℕ
  pub market_id : String
  pub side : PositionSide
  pub lifecycle : LifecycleEvent
  pub size : F
  pub price : F
  pub signal_age_ms : ℤ
  pub source : String
  pub simulation_mode : SimulationMode
  pub spread_bps : Option F
  pub liquidity_usdc : Option F

-- What the call returns: a candidate, or a refusal.
pub data Verdict (F : Type 0) : Type 0 where
  accepted : SignalCandidate F → Verdict F
  refused : NoTradeDecision → Verdict F

-- `reason_map`: a reason that it lacks becomes SAFETY_DENY_BY_DEFAULT.
unfoldable pub mapped_reason : String → NoTradeReason
mapped_reason r =
    if str_eq r "STALE_SIGNAL"
    then NoTradeReason.stale_signal
    else if str_eq r "EDGE_REMAINING_TOO_LOW"
    then NoTradeReason.edge_remaining_too_low
    else if str_eq r "EDGE_BELOW_COST_MULTIPLIER_THRESHOLD"
    then NoTradeReason.edge_below_cost_multiplier
    else if str_eq r "MARKET_NOT_WHITELISTED"
    then NoTradeReason.market_not_whitelisted
    else if str_eq r "MARKET_BLACKLISTED"
    then NoTradeReason.market_blacklisted
    else if str_eq r "TEST_FIXTURE_ACCOUNT_EXCLUDED_FROM_LIVE"
    then NoTradeReason.test_fixture_account
    else NoTradeReason.safety_deny_by_default

unfoldable pub print_ℤ : ℤ → String
print_ℤ (pos n) = print n
print_ℤ (negsuc n) = join ("-" ∷ print (suc n) ∷ [])

module _ {F : Type 0} where
  pub account_key : Delta F → String
  account_key d = join (d.account_address ∷ "/" ∷ print d.subaccount_number ∷ [])

  pub position_key : Delta F → String
  position_key d = join (
      "dydx_v4|"
      ∷ d.account_address
      ∷ "|"
      ∷ print d.subaccount_number
      ∷ "|"
      ∷ d.market_id
      ∷ "|"
      ∷ side_value d.side
      ∷ [])

  -- Gates 1 to 6, in order: the first that refuses.
  pub first_gates : Engine F → Delta F → Option NoTradeReason
  first_gates e d =
      if is_test_fixture_account (some d.account_address)
      then some NoTradeReason.test_fixture_account
      else if is_live d.simulation_mode && is_ws_down e.ws_status
      then some NoTradeReason.websocket_degraded
      else if is_unknown d.lifecycle
      then some NoTradeReason.lifecycle_unknown
      else if not (contains (account_key d) e.shortlisted_accounts)
      then some NoTradeReason.account_not_shortlisted
      else if not (contains d.market_id e.config.market_whitelist)
      then some NoTradeReason.market_not_whitelisted
      else if contains d.market_id e.config.market_blacklist
      then some NoTradeReason.market_blacklisted
      else none

module _ {F : Type 0} ⦃f : Float F⦄ where
  open f use {add, sub, mul, lt}

  -- The opening is recorded, and then the window is asked.
  pub ask_consensus : ℤ → Config F → Delta F → Tracker F → Tracker F × Bool
  ask_consensus now_ms c d t =
      let opening =
        record_open (account_key d) d.market_id (side_value d.side) now_ms (mul d.size d.price) t in
      let (t', r) = check d.market_id (side_value d.side) now_ms c.consensus_min_wallets opening in
      (t', r.met)

  -- Gate 6b: the tracker after it, and whether the signal may go on. Only an OPEN or an ADD is asked.
  pub consensus_gate : ℤ → Config F → Option (Tracker F) → Delta F → Option (Tracker F) × Bool
  consensus_gate now_ms c none d = (none, true)
  consensus_gate now_ms c (some t) d =
      if c.consensus_required && (is_open d.lifecycle || is_add d.lifecycle)
      then (some (ask_consensus now_ms c d t).0, (ask_consensus now_ms c d t).1)
      else (some t, true)

  abbrev pub effective_spread : Engine F → Delta F → F
  effective_spread e d = get_or d.spread_bps e.config.estimated_spread_bps

  abbrev pub is_illiquid : Option F → Bool
  is_illiquid none = false
  is_illiquid (some l) = lt l (whole 10_000)

  -- Gates 7 to 11.
  pub later_gates : ℤ → Engine F → Delta F → Option NoTradeReason
  later_gates now_ms e d =
      if ltb_ℤ e.config.hard_max_signal_age_ms d.signal_age_ms
      then some NoTradeReason.stale_signal
      else if lt (whole 50) (effective_spread e d)
      then some NoTradeReason.spread_too_high
      else if is_illiquid d.liquidity_usdc
      then some NoTradeReason.liquidity_too_low
      else if ltb_ℤ now_ms (get_or (lookup (position_key d) e.cooldowns) (pos 0))
      then some NoTradeReason.cooldown_active
      else if is_open d.lifecycle && leb_ℤ e.config.max_open_paper_trades e.open_paper_trade_count
      then some NoTradeReason.max_open_trades_reached
      else none

  -- Step 12: the cost, with the spread in excess of the estimate where the real one is known.
  abbrev pub extra_spread : Config F → Option F → F → F
  extra_spread c none cost = cost
  extra_spread c (some s) cost = add cost (max_of (f.decimal 0 1) (sub s c.estimated_spread_bps))

  pub total_cost : Engine F → Delta F → F
  total_cost e d = extra_spread e.config d.spread_bps (total_round_trip_cost_bps e.config)

  pub edge_remaining : Engine F → Delta F → F
  unfolding total_cost
  edge_remaining e d = sub (mul e.config.min_edge_bps (whole 2)) (total_cost e d)

  -- Gate 13.
  pub safety_gate : Engine F → Delta F → SafetyResult
  safety_gate e d =
      gate_signal_for_live e.config d.signal_age_ms (some d.account_address) (some d.market_id)
        (edge_remaining e d) (total_cost e d)

  -- The first refusal of all gates in order, when the consensus gate has answered `agreed`.
  pub refusal : ℤ → Bool → Engine F → Delta F → Option NoTradeReason
  refusal now_ms agreed e d =
      if not agreed
      then some NoTradeReason.consensus_not_reached
      else elim (later_gates now_ms e d) [
        | some r ↦ some r
        | none ↦
            let s = safety_gate e d in if s.allowed then none else some (mapped_reason s.reason)
      ]

  module _ (short_hash : ℕ → String → String) where
    pub decision : ℤ → Delta F → NoTradeReason → NoTradeDecision
    unfolding position_key print_ℤ
    decision now_ms d r = record {
      decision_id =
          short_hash 24 (join (reason_value r ∷ ":" ∷ position_key d ∷ ":" ∷ print_ℤ now_ms ∷ []));
      reason = r;
      account_address = d.account_address;
      market_id = d.market_id;
      timestamp_ms = now_ms;
      simulation_mode = d.simulation_mode;
    }

    pub candidate : ℤ → Engine F → Delta F → SignalCandidate F
    unfolding print_ℤ
    candidate now_ms e d = record {
      signal_id = short_hash 32 (
          join (
            d.account_address
            ∷ ":"
            ∷ print d.subaccount_number
            ∷ ":"
            ∷ d.market_id
            ∷ ":"
            ∷ side_value d.side
            ∷ ":"
            ∷ print_ℤ now_ms
            ∷ []));
      account_address = d.account_address;
      subaccount_number = d.subaccount_number;
      market_id = d.market_id;
      side = d.side;
      lifecycle = d.lifecycle;
      size = d.size;
      price = d.price;
      signal_age_ms = d.signal_age_ms;
      edge_remaining_bps = edge_remaining e d;
      total_cost_bps = total_cost e d;
      source = d.source;
      simulation_mode = d.simulation_mode;
      created_at_ms = now_ms;
    }

    -- `_no_trade`
    abbrev pub no_trade : ℤ → Engine F → Delta F → NoTradeReason → Engine F × Verdict F
    no_trade now_ms e d r =
        let dec = decision now_ms d r in
        (record e { no_trade_log = e.no_trade_log ++ (dec ∷ []) }, Verdict.refused dec)

    pub evaluate_delta : ℤ → Delta F → Engine F → Engine F × Verdict F
    evaluate_delta now_ms d e = elim (first_gates e d) [
      | some r ↦ no_trade now_ms e d r
      | none ↦
          let (tracker, agreed) = consensus_gate now_ms e.config e.consensus d in
          let e' = record e { consensus = tracker } in
          elim (refusal now_ms agreed e d) [
            | some r ↦ no_trade now_ms e' d r
            | none ↦ (e', Verdict.accepted (candidate now_ms e d))
          ]
    ]

  pub set_cooldown : ℤ → String → ℤ → Engine F → Engine F
  set_cooldown now_ms key duration_ms e = record e {
    cooldowns = insert key (now_ms +ℤ duration_ms) e.cooldowns;
  }

  pub update_shortlist : List String → Engine F → Engine F
  update_shortlist keys e = record e { shortlisted_accounts = keys }

  pub update_ws_status : WsStatus → Engine F → Engine F
  update_ws_status s e = record e { ws_status = s }

  pub set_open_trade_count : ℤ → Engine F → Engine F
  set_open_trade_count n e = record e { open_paper_trade_count = n }
