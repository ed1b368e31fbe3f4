-- ===== src/Copying/Leaders.antt =====
-- src/hl_observer/copying/leader_pnl_tracker.py: the results of each leader in the session. The
-- reports and `profit_factor` are left out.
pub mod Replay
pub mod Status
use hyperliquid_smart_wallet.Prelude.{
  ℕ, ◌+◌, String, Bool, true, false, ◌&&◌, List, [], ◌∷◌, ◌++◌, Option, none, some, if◌then◌else◌,
  get_or, lookup, insert, lower, ltb, leb,
}
use hyperliquid_smart_wallet.Prelude.Int.{ℤ, pos}
use hyperliquid_smart_wallet.Float.{Float, whole, max_of, min_of}

pub record LeaderTrade (F : Type 0) : Type 0 where
  pub leader_address : String
  pub coin : String
  pub side : String
  pub entry_price : F
  pub exit_price : F
  pub notional_usdt : F
  pub pnl_usdt : F
  pub pnl_bps : F
  pub entry_timestamp : F
  pub exit_timestamp : F
  pub hold_duration_ms : ℤ
  pub signal_age_at_entry_ms : ℤ

pub record LeaderPerformance (F : Type 0) : Type 0 where
  pub leader_address : String
  pub total_trades : ℕ
  pub winning_trades : ℕ
  pub losing_trades : ℕ
  pub total_pnl_usdt : F
  pub total_pnl_bps : F
  pub max_single_win_usdt : F
  pub max_single_loss_usdt : F
  pub avg_hold_duration_ms : F
  pub avg_signal_age_ms : F
  pub consecutive_losses : ℕ
  pub last_trade_timestamp : F

pub record LeaderTracker (F : Type 0) : Type 0 where
  pub leaders : List (String × LeaderPerformance F)
  pub trades : List (LeaderTrade F)
  pub min_trades_before_eject : ℕ
  pub max_consecutive_losses : ℕ
  pub min_win_rate_threshold : F
  pub eject_after_n_losing_trades : ℕ

pub data LeaderStatus : Type 0 where
  evaluating profitable eject_streak eject_negative_pnl eject_low_win_rate marginal : LeaderStatus

-- The answer of `should_eject_leader`: the reason to eject, or why not. The numbers in the texts of
-- the reasons are left out.
pub data EjectAnswer : Type 0 where
  keep_no_data keep_evaluating keep_ok : EjectAnswer
  eject_losses eject_pnl eject_win_rate : EjectAnswer

abbrev pub is_eject : EjectAnswer → Bool
is_eject EjectAnswer.eject_losses = true
is_eject EjectAnswer.eject_pnl = true
is_eject EjectAnswer.eject_win_rate = true
is_eject a = false

abbrev pub is_profitable : LeaderStatus → Bool
is_profitable LeaderStatus.profitable = true
is_profitable s = false

module _ {F : Type 0} ⦃f : Float F⦄ where
  open f use {add, sub, mul, div, lt, le, of_int, decimal}

  unfoldable pub new_leader_tracker : LeaderTracker F
  new_leader_tracker = record {
    leaders = [];
    trades = [];
    min_trades_before_eject = 3;
    max_consecutive_losses = 4;
    min_win_rate_threshold = decimal 35 2;
    eject_after_n_losing_trades = 5;
  }

  pub new_performance : String → LeaderPerformance F
  new_performance address = record {
    leader_address = address;
    total_trades = 0;
    winning_trades = 0;
    losing_trades = 0;
    total_pnl_usdt = decimal 0 1;
    total_pnl_bps = decimal 0 1;
    max_single_win_usdt = decimal 0 1;
    max_single_loss_usdt = decimal 0 1;
    avg_hold_duration_ms = decimal 0 1;
    avg_signal_age_ms = decimal 0 1;
    consecutive_losses = 0;
    last_trade_timestamp = decimal 0 1;
  }

  -- `max(1, total_trades)` of the code is a number of trades here.
  pub win_rate : LeaderPerformance F → F
  win_rate p =
      div (whole p.winning_trades) (whole (if leb p.total_trades 1 then 1 else p.total_trades))

  -- The average of `n` values and one more.
  abbrev pub running_average : F → ℕ → ℤ → F
  running_average average n value = div (add (mul average (whole n)) (of_int value)) (whole (n + 1))

  pub add_trade : LeaderTrade F → LeaderPerformance F → LeaderPerformance F
  add_trade t p =
      let won = lt (whole 0) t.pnl_usdt in
      record p {
        total_trades = p.total_trades + 1;
        total_pnl_usdt = add p.total_pnl_usdt t.pnl_usdt;
        total_pnl_bps = add p.total_pnl_bps t.pnl_bps;
        last_trade_timestamp = t.exit_timestamp;
        winning_trades = if won then p.winning_trades + 1 else p.winning_trades;
        losing_trades = if won then p.losing_trades else p.losing_trades + 1;
        consecutive_losses = if won then 0 else p.consecutive_losses + 1;
        max_single_win_usdt =
            if won then max_of p.max_single_win_usdt t.pnl_usdt else p.max_single_win_usdt;
        max_single_loss_usdt =
            if won then p.max_single_loss_usdt else min_of p.max_single_loss_usdt t.pnl_usdt;
        avg_hold_duration_ms =
            running_average p.avg_hold_duration_ms p.total_trades t.hold_duration_ms;
        avg_signal_age_ms =
            running_average p.avg_signal_age_ms p.total_trades t.signal_age_at_entry_ms;
      }

  pub record_leader_trade : LeaderTrade F → LeaderTracker F → LeaderTracker F
  record_leader_trade t k =
      let address = lower t.leader_address in
      let known = get_or (lookup address k.leaders) (new_performance address) in
      record k {
        trades = k.trades ++ (t ∷ []);
        leaders = insert address (add_trade t known) k.leaders;
      }

  pub get_leader_performance : String → LeaderTracker F → Option (LeaderPerformance F)
  get_leader_performance address k = lookup (lower address) k.leaders

  -- `LeaderPerformance.status`
  pub status_of : LeaderPerformance F → LeaderStatus
  status_of p =
      if ltb p.total_trades 3
      then LeaderStatus.evaluating
      else if lt (whole 0) p.total_pnl_usdt && le (decimal 50 2) (win_rate p)
      then LeaderStatus.profitable
      else if leb 4 p.consecutive_losses
      then LeaderStatus.eject_streak
      else if leb 5 p.total_trades && lt p.total_pnl_usdt (whole 0)
      then LeaderStatus.eject_negative_pnl
      else if lt (win_rate p) (decimal 35 2)
      then LeaderStatus.eject_low_win_rate
      else LeaderStatus.marginal

  pub judge : LeaderTracker F → LeaderPerformance F → EjectAnswer
  judge k p =
      if ltb p.total_trades k.min_trades_before_eject
      then EjectAnswer.keep_evaluating
      else if leb k.max_consecutive_losses p.consecutive_losses
      then EjectAnswer.eject_losses
      else if leb k.eject_after_n_losing_trades p.total_trades && lt p.total_pnl_usdt (whole 0)
      then EjectAnswer.eject_pnl
      else if leb 5 p.total_trades && lt (win_rate p) k.min_win_rate_threshold
      then EjectAnswer.eject_win_rate
      else EjectAnswer.keep_ok

  abbrev pub judge_known : LeaderTracker F → Option (LeaderPerformance F) → EjectAnswer
  judge_known k none = EjectAnswer.keep_no_data
  judge_known k (some p) = judge k p

  pub should_eject_leader : String → LeaderTracker F → EjectAnswer
  should_eject_leader address k = judge_known k (lookup (lower address) k.leaders)

  abbrev pub ejects_among :
      LeaderTracker F → List (String × LeaderPerformance F) → List (String × EjectAnswer)
  ejects_among k [] = []
  ejects_among k ((address, p) ∷ rest) =
      let answer = should_eject_leader address k in
      let others = ejects_among k rest in
      if is_eject answer then (address, answer) ∷ others else others

  pub get_leaders_to_eject : LeaderTracker F → List (String × EjectAnswer)
  get_leaders_to_eject k = ejects_among k k.leaders

  abbrev pub profitable_among : List (String × LeaderPerformance F) → List String
  profitable_among [] = []
  profitable_among ((address, p) ∷ rest) =
      let others = profitable_among rest in
      if is_profitable (status_of p) then address ∷ others else others

  pub get_profitable_leaders : LeaderTracker F → List String
  get_profitable_leaders k = profitable_among k.leaders
