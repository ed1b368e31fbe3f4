-- ===== src/RiskEngine.antt =====
-- hyper_smart_observer/risk_engine/gates.py with limits.py and risk_state.py: the gates that deny by
-- default. The messages of the decisions are left out. `evaluate_observed_signal` is its `evaluate_signal`.
pub mod Audit
mod Tests
use hyperliquid_smart_wallet.Prelude.{
  String, Bool, true, false, not, ◌&&◌, ◌||◌, List, [], ◌∷◌, ◌++◌, Option, none, some,
  if◌then◌else◌, get_or, insert, str_eq, upper, contains, is_some,
}
use hyperliquid_smart_wallet.Prelude.Int.{ℤ, pos, ltb_ℤ}
use hyperliquid_smart_wallet.Float.{Float, whole}

pub record RiskLimits (F : Type 0) : Type 0 where
  pub min_wallet_score : F
  pub min_confidence : F
  pub min_sample_size : ℤ

pub record RiskDecision : Type 0 where
  pub allowed : Bool
  pub reason_code : String
  pub gates : List (String × Bool)
  pub decision_scope : Option String

pub data WalletScoreStatus : Type 0 where
  scored insufficient_data invalid_data blocked : WalletScoreStatus
  needs_more_history rejected_by_risk : WalletScoreStatus

pub record ScoreBreakdown (F : Type 0) : Type 0 where
  pub status : WalletScoreStatus
  pub sample_quality_score : F
  pub confidence_score : F
  pub profit_factor : Option F
  pub net_pnl : Option F
  pub risk_score : F

-- The settings of `AppConfig` that the gates read.
pub record AppConfig (F : Type 0) : Type 0 where
  pub allow_mainnet : Bool
  pub mode : String
  pub execution_enabled : Bool
  pub testnet_execution_enabled : Bool
  pub confirm_testnet_only : Bool
  pub score_min_confidence : F
  pub score_require_net_pnl : Bool
  pub enable_paper_trading : Bool
  pub paper_max_position_notional : F
  pub paper_max_open_trades : ℤ
  pub paper_min_wallet_confidence : F
  pub paper_min_sample_quality : F

-- The entries of `context`.
pub record SignalContext (F : Type 0) : Type 0 where
  pub wallet_status : Option String
  pub sample_size : Option ℤ
  pub wallet_score : Option F

pub record PaperIntent (F : Type 0) : Type 0 where
  pub side : String
  pub reference_price : F
  pub requested_notional : F

-- The values of `RuntimeMode`.
abbrev pub runtime_modes : List String
runtime_modes = "RESEARCH_ONLY" ∷ "OBSERVER" ∷ "PAPER_TRADING" ∷ "TESTNET_EXECUTION_LOCKED" ∷ []

abbrev pub is_scored : WalletScoreStatus → Bool
is_scored WalletScoreStatus.scored = true
is_scored s = false

abbrev pub is_blocked : Option String → Bool
is_blocked none = false
is_blocked (some s) = str_eq s "BLOCKED"

abbrev pub refuse : String → List (String × Bool) → RiskDecision
refuse reason gates = record {
  allowed = false;
  reason_code = reason;
  gates = gates;
  decision_scope = none;
}

abbrev pub allow : String → List (String × Bool) → Option String → RiskDecision
allow reason gates scope = record {
  allowed = true;
  reason_code = reason;
  gates = gates;
  decision_scope = scope;
}

pub allow_only_if_all_gates_pass : List RiskDecision → RiskDecision
allow_only_if_all_gates_pass [] = allow "ALL_GATES_PASSED" [] none
allow_only_if_all_gates_pass (d ∷ ds) =
    let rest = allow_only_if_all_gates_pass ds in if d.allowed then rest else d

module _ {F : Type 0} ⦃f : Float F⦄ where
  open f use {mul, lt, le, decimal}

  unfoldable pub default_limits : RiskLimits F
  default_limits = record {
    min_wallet_score = decimal 700 1;
    min_confidence = decimal 6 1;
    min_sample_size = pos 30;
  }

  -- The gates that `evaluate_observed_signal` begins with; a signal is its confidence.
  abbrev pub signal_gates : Option F → AppConfig F → List (String × Bool)
  signal_gates signal c =
      ("signal_present", is_some signal)
      ∷ ("mainnet_forbidden", not c.allow_mainnet)
      ∷ ("mode_allowed", contains c.mode runtime_modes)
      ∷ ("execution_disabled_or_paper", not c.execution_enabled || str_eq c.mode "PAPER_TRADING")
      ∷ []

  -- From the test for a missing score on.
  pub judge_score : Option F → F → List (String × Bool) → AppConfig F → RiskLimits F → RiskDecision
  judge_score none confidence gates c limits =
      refuse "SCORE_MISSING" (insert "score_present" false gates)
  judge_score (some wallet_score) confidence gates c limits =
      if lt wallet_score limits.min_wallet_score || lt confidence limits.min_confidence
      then refuse "CONFIDENCE_TOO_LOW" (insert "confidence_minimum" false gates)
      else if c.testnet_execution_enabled && not c.confirm_testnet_only
      then refuse "TESTNET_CONFIRMATION_REQUIRED" (insert "testnet_confirmed" false gates)
      else allow "PAPER_ALLOWED" gates none

  -- From the test for mainnet on.
  pub judge_signal :
      F → List (String × Bool) → SignalContext F → AppConfig F → RiskLimits F → RiskDecision
  judge_signal confidence gates x c limits =
      if c.allow_mainnet
      then refuse "MAINNET_FORBIDDEN" (insert "mainnet_forbidden" false gates)
      else if not (contains c.mode runtime_modes)
      then refuse "MODE_FORBIDDEN" gates
      else if is_blocked x.wallet_status
      then refuse "WALLET_BLOCKED" (insert "wallet_not_blocked" false gates)
      else if ltb_ℤ (get_or x.sample_size (pos 0)) limits.min_sample_size
      then refuse "INSUFFICIENT_DATA" (insert "data_sufficient" false gates)
      else judge_score x.wallet_score confidence gates c limits

  pub evaluate_observed_signal :
      Option F → SignalContext F → AppConfig F → Option (RiskLimits F) → RiskDecision
  evaluate_observed_signal none x c limits = refuse "DENY_BY_DEFAULT" (signal_gates none c)
  evaluate_observed_signal (some confidence) x c limits =
      judge_signal confidence (signal_gates (some confidence) c) x c (get_or limits default_limits)

  pub evaluate_wallet_score_for_research : ScoreBreakdown F → AppConfig F → RiskDecision
  evaluate_wallet_score_for_research s c =
      let scored = is_scored s.status in
      let sampled = le (decimal 600 1) s.sample_quality_score in
      let confident = le (mul c.score_min_confidence (decimal 1000 1)) s.confidence_score in
      let has_factor = is_some s.profit_factor in
      let has_net = not c.score_require_net_pnl || is_some s.net_pnl in
      let moderate = le (decimal 200 1) s.risk_score in
      let gates =
        ("scored", scored)
        ∷ ("sample_quality_minimum", sampled)
        ∷ ("confidence_minimum", confident)
        ∷ ("profit_factor_present", has_factor)
        ∷ ("net_pnl_present", has_net)
        ∷ ("risk_not_extreme", moderate)
        ∷ ("execution_forbidden", true)
        ∷ [] in
      if not scored
      then refuse "WALLET_SCORE_NOT_SCORED" gates
      else if not sampled
      then refuse "WALLET_SCORE_SAMPLE_LOW" gates
      else if not confident
      then refuse "WALLET_SCORE_CONFIDENCE_LOW" gates
      else if not has_factor
      then refuse "WALLET_SCORE_PROFIT_FACTOR_MISSING" gates
      else if not has_net
      then refuse "WALLET_SCORE_NET_PNL_MISSING" gates
      else if not moderate
      then refuse "WALLET_SCORE_RISK_TOO_HIGH" gates
      else allow "RESEARCH_OBSERVATION_ONLY" gates none

  -- The gates that `evaluate_paper_intent` begins with; `open_trades` is 0 where it is missing.
  abbrev pub intent_gates : PaperIntent F → Bool → AppConfig F → ℤ → List (String × Bool)
  intent_gates i has_score c open_trades =
      ("paper_enabled", c.enable_paper_trading)
      ∷ ("mode_allowed", contains c.mode runtime_modes)
      ∷ ("no_execution_enabled", not c.execution_enabled && not c.testnet_execution_enabled)
      ∷ ("wallet_score_present", has_score)
      ∷ ("side_valid", contains (upper i.side) ("BUY" ∷ "SELL" ∷ []))
      ∷ ("price_valid", lt (whole 0) i.reference_price)
      ∷ ("notional_valid", lt (whole 0) i.requested_notional)
      ∷ ("notional_within_limit", le i.requested_notional c.paper_max_position_notional)
      ∷ ("open_trade_limit", ltb_ℤ open_trades c.paper_max_open_trades)
      ∷ []

  -- From the test of the side on.
  pub judge_intent : PaperIntent F → List (String × Bool) → AppConfig F → ℤ → RiskDecision
  judge_intent i gates c open_trades =
      if not (contains (upper i.side) ("BUY" ∷ "SELL" ∷ []))
      then refuse "PAPER_INVALID_SIDE" gates
      else if not (lt (whole 0) i.reference_price)
      then refuse "PAPER_INVALID_PRICE" gates
      else if not (lt (whole 0) i.requested_notional)
      then refuse "PAPER_INVALID_NOTIONAL" gates
      else if not (le i.requested_notional c.paper_max_position_notional)
      then refuse "PAPER_NOTIONAL_TOO_HIGH" gates
      else if not (ltb_ℤ open_trades c.paper_max_open_trades)
      then refuse "PAPER_MAX_OPEN_TRADES_REACHED" gates
      else allow "PAPER_SIMULATION_ONLY" gates (some "PAPER_SIMULATION_ONLY")

  abbrev pub is_confident : ScoreBreakdown F → AppConfig F → Bool
  is_confident s c = le (mul c.paper_min_wallet_confidence (decimal 1000 1)) s.confidence_score

  abbrev pub is_sampled : ScoreBreakdown F → AppConfig F → Bool
  is_sampled s c = le (mul c.paper_min_sample_quality (decimal 1000 1)) s.sample_quality_score

  -- The gates that a score adds.
  abbrev pub wallet_gates : ScoreBreakdown F → AppConfig F → List (String × Bool)
  wallet_gates s c =
      ("wallet_score_scored", is_scored s.status)
      ∷ ("wallet_confidence_minimum", is_confident s c)
      ∷ ("wallet_sample_quality_minimum", is_sampled s c)
      ∷ []

  -- From the test for a missing score on.
  pub judge_wallet :
      Option (ScoreBreakdown F)
      → PaperIntent F
      → List (String × Bool)
      → AppConfig F
      → ℤ
      → RiskDecision
  judge_wallet none i gates c open_trades = refuse "PAPER_WALLET_SCORE_MISSING" gates
  judge_wallet (some s) i gates c open_trades =
      let all_gates = gates ++ wallet_gates s c in
      if not (is_scored s.status)
      then refuse "PAPER_WALLET_SCORE_NOT_SCORED" all_gates
      else if not (is_confident s c)
      then refuse "PAPER_CONFIDENCE_TOO_LOW" all_gates
      else if not (is_sampled s c)
      then refuse "PAPER_SAMPLE_QUALITY_TOO_LOW" all_gates
      else judge_intent i all_gates c open_trades

  pub evaluate_paper_intent :
      PaperIntent F → Option (ScoreBreakdown F) → AppConfig F → ℤ → RiskDecision
  evaluate_paper_intent i score c open_trades =
      let gates = intent_gates i (is_some score) c open_trades in
      if not c.enable_paper_trading
      then refuse "PAPER_TRADING_DISABLED" gates
      else if not (contains c.mode runtime_modes)
      then refuse "MODE_FORBIDDEN" gates
      else if c.execution_enabled || c.testnet_execution_enabled
      then refuse "EXECUTION_DISABLED" gates
      else judge_wallet score i gates c open_trades
