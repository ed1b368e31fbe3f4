-- ===== src/Copying/Engine.antt =====
-- src/hl_observer/copying/viral_bot_engine.py: the engine and the calls that record what happened.
-- The clock is an argument. The reports are left out.
pub mod Signal
use hyperliquid_smart_wallet.Prelude.{
  ℕ, ◌+◌, ◌-◌, String, Bool, true, false, not, ◌||◌, List, [], ◌∷◌, ◌++◌, map, Option, none, some,
  if◌then◌else◌, contains, lower,
}
use hyperliquid_smart_wallet.Prelude.Int.{ℤ, ◌-ℤ◌}
use hyperliquid_smart_wallet.Float.{Float, whole}
use hyperliquid_smart_wallet.CircuitBreaker.{
  CircuitState, Config, Breaker, Reason, is_paused, is_halted, default_config, initial,
  evaluate_circuit_breaker, record_trade_result,
}
use hyperliquid_smart_wallet.Copying.Score.{
  ScoreConfig, ScoreInput, CopyScore, default_score_config,
}
use hyperliquid_smart_wallet.Copying.Score.Decision.{score_realtime_copy_candidate}
use hyperliquid_smart_wallet.Copying.Kelly.{
  KellyConfig, KellyInput, KellyResult, default_kelly_config, kelly_criterion_size,
}
use hyperliquid_smart_wallet.Copying.Leaders.{
  LeaderTrade, LeaderPerformance, LeaderTracker, LeaderStatus, new_leader_tracker, status_of,
  is_eject, record_leader_trade, get_leader_performance, should_eject_leader,
}

pub data TradeDecision : Type 0 where
  accept_paper_simulation reject_circuit_breaker reject_kelly_no_edge : TradeDecision
  reject_leader_ejected reject_scoring reject_safety : TradeDecision

abbrev pub is_accept : TradeDecision → Bool
is_accept TradeDecision.accept_paper_simulation = true
is_accept d = false

-- A text, the state of the breaker, or one of the breaker's own reasons.
pub data SignalReason (F : Type 0) : Type 0 where
  text : String → SignalReason F
  circuit : CircuitState → SignalReason F
  breaker : Reason F → SignalReason F

pub data ShownStatus : Type 0 where
  unknown ejected_leader new_leader : ShownStatus
  tracked : LeaderStatus → ShownStatus

pub record ViralSignal (F : Type 0) (Plan : Type 0) : Type 0 where
  pub signal_id : String
  pub leader_address : String
  pub coin : String
  pub side : String
  pub action_type : String
  pub decision : TradeDecision
  pub reasons : List (SignalReason F)
  pub copy_score : Option (CopyScore F)
  pub kelly_result : Option (KellyResult F)
  pub position_size_usdt : F
  pub circuit_state : CircuitState
  pub sizing_multiplier : F
  pub exit_plan : Option Plan
  pub signal_detected_at_ms : ℤ
  pub decision_made_at_ms : ℤ
  pub time_to_decide_ms : ℤ
  pub leader_status : ShownStatus
  pub leader_session_pnl_usdt : F

pub record ViralEngine (F : Type 0) : Type 0 where
  pub copy_config : ScoreConfig F
  pub kelly_config : KellyConfig F
  pub circuit_config : Config F
  pub circuit_state : Breaker F
  pub leader_tracker : LeaderTracker F
  pub total_signals_evaluated : ℕ
  pub total_accepted : ℕ
  pub total_rejected : ℕ
  pub total_circuit_breaker_blocks : ℕ
  pub total_kelly_rejects : ℕ
  pub total_leader_ejects : ℕ
  pub avg_time_to_decide_ms : F
  pub ejected_leaders : List String

-- The arguments of `evaluate_signal`.
pub record SignalRequest (F : Type 0) : Type 0 where
  pub signal_id : String
  pub leader_address : String
  pub coin : String
  pub score_input : ScoreInput F
  pub leader_win_rate : Option F

-- The readings of the clock: in milliseconds at the start, for the time of the decision, and for
-- its duration where the code reads the clock once more; in seconds for the breaker.
pub record Clock (F : Type 0) : Type 0 where
  pub start_ms : ℤ
  pub made_ms : ℤ
  pub measured_ms : ℤ
  pub now : F

-- The set of the ejected leaders.
abbrev pub add_leader : String → List String → List String
add_leader address leaders = if contains address leaders then leaders else leaders ++ (address ∷ [])

module _ {F : Type 0} ⦃f : Float F⦄ where
  open f use {add, sub, mul, div, le, feq, of_int, decimal, round, trunc}

  unfoldable pub new_engine : ViralEngine F
  new_engine = record {
    copy_config = default_score_config;
    kelly_config = default_kelly_config (decimal 10_000 1);
    circuit_config = default_config;
    circuit_state = initial;
    leader_tracker = new_leader_tracker;
    total_signals_evaluated = 0;
    total_accepted = 0;
    total_rejected = 0;
    total_circuit_breaker_blocks = 0;
    total_kelly_rejects = 0;
    total_leader_ejects = 0;
    avg_time_to_decide_ms = decimal 0 1;
    ejected_leaders = [];
  }

  -- `_ejected_leaders.add(leader_address.lower())`
  unfoldable pub force_eject_leader : String → ViralEngine F → ViralEngine F
  force_eject_leader address e = record e {
    ejected_leaders = add_leader (lower address) e.ejected_leaders;
  }

  pub reset_ejections : ViralEngine F → ViralEngine F
  reset_ejections e = record e { ejected_leaders = [] }

  -- The trade as the tracker gets it: with the leader in lower case and the time it was held.
  abbrev pub tracked_trade : LeaderTrade F → LeaderTrade F
  tracked_trade t = record t {
    leader_address = lower t.leader_address;
    hold_duration_ms = trunc (mul (sub t.exit_timestamp t.entry_timestamp) (whole 1_000));
  }

  pub record_closed_trade : F → LeaderTrade F → ViralEngine F → ViralEngine F
  record_closed_trade now t e =
      let tracker = record_leader_trade (tracked_trade t) e.leader_tracker in
      let after = record e {
        leader_tracker = tracker;
        circuit_state = record_trade_result now t.pnl_bps t.pnl_usdt e.circuit_state;
      } in
      if is_eject (should_eject_leader t.leader_address tracker)
      then force_eject_leader t.leader_address after
      else after
