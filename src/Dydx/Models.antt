-- ===== src/Dydx/Models.antt =====
-- hyper_smart_observer/dydx_v4/models.py: the enumerations and the records that the engines share.
-- The field `raw`, which no engine reads, is left out.
use hyperliquid_smart_wallet.Prelude.{ℕ, String, Bool, true, false, ◌&&◌, not, List, Option}
use hyperliquid_smart_wallet.Prelude.Int.{ℤ, pos, leb_ℤ}

pub data PositionSide : Type 0 where
  long short unknown : PositionSide

pub data LifecycleEvent : Type 0 where
  opened added reduced closed flip liquidation unknown : LifecycleEvent

pub data OrderSide : Type 0 where
  buy sell : OrderSide

pub data SimulationMode : Type 0 where
  live backtest replay test_fixture : SimulationMode

pub data PaperTradeStatus : Type 0 where
  opened closed stopped : PaperTradeStatus

-- The `.value` of an enumeration's member.
abbrev pub side_value : PositionSide → String
side_value PositionSide.long = "LONG"
side_value PositionSide.short = "SHORT"
side_value PositionSide.unknown = "UNKNOWN"

abbrev pub event_value : LifecycleEvent → String
event_value LifecycleEvent.opened = "OPEN"
event_value LifecycleEvent.added = "ADD"
event_value LifecycleEvent.reduced = "REDUCE"
event_value LifecycleEvent.closed = "CLOSE"
event_value LifecycleEvent.flip = "FLIP"
event_value LifecycleEvent.liquidation = "LIQUIDATION"
event_value LifecycleEvent.unknown = "UNKNOWN"

abbrev pub is_long : PositionSide → Bool
is_long PositionSide.long = true
is_long s = false

abbrev pub is_short : PositionSide → Bool
is_short PositionSide.short = true
is_short s = false

abbrev pub is_unknown_side : PositionSide → Bool
is_unknown_side PositionSide.unknown = true
is_unknown_side s = false

abbrev pub is_unknown : LifecycleEvent → Bool
is_unknown LifecycleEvent.unknown = true
is_unknown e = false

abbrev pub is_open : LifecycleEvent → Bool
is_open LifecycleEvent.opened = true
is_open e = false

abbrev pub is_add : LifecycleEvent → Bool
is_add LifecycleEvent.added = true
is_add e = false

abbrev pub is_close : LifecycleEvent → Bool
is_close LifecycleEvent.closed = true
is_close e = false

abbrev pub is_reduce : LifecycleEvent → Bool
is_reduce LifecycleEvent.reduced = true
is_reduce e = false

abbrev pub is_buy : OrderSide → Bool
is_buy OrderSide.buy = true
is_buy OrderSide.sell = false

abbrev pub is_live : SimulationMode → Bool
is_live SimulationMode.live = true
is_live m = false

pub record NormalizedFill (F : Type 0) : Type 0 where
  pub fill_id : String
  pub account_address : String
  pub subaccount_number : ℕ
  pub market_id : String
  pub side : OrderSide
  pub size : F
  pub price : F
  pub created_at_ms : ℤ

pub record NormalizedPositionDelta (F : Type 0) : Type 0 where
  pub account_address : String
  pub subaccount_number : ℕ
  pub market_id : String
  pub side : PositionSide
  pub lifecycle : LifecycleEvent
  pub size_delta : F
  pub price : F
  pub timestamp_ms : ℤ
  pub fill_id : String

pub record SignalCandidate (F : Type 0) : Type 0 where
  pub signal_id : String
  pub account_address : String
  pub subaccount_number : ℕ
  pub market_id : String
  pub side : PositionSide
  pub lifecycle : LifecycleEvent
  pub size : F
  pub price : F
  pub signal_age_ms : ℤ
  pub edge_remaining_bps : F
  pub total_cost_bps : F
  pub source : String
  pub simulation_mode : SimulationMode
  pub created_at_ms : ℤ

pub record PaperTrade (F : Type 0) : Type 0 where
  pub trade_id : String
  pub account_address : String
  pub subaccount_number : ℕ
  pub market_id : String
  pub side : PositionSide
  pub size : F
  pub entry_price : F
  pub mark_price : F
  pub status : PaperTradeStatus
  pub lifecycle : LifecycleEvent
  pub gross_pnl : F
  pub net_pnl : F
  pub fees : F
  pub spread_cost : F
  pub slippage_cost : F
  pub entry_at_ms : ℤ
  pub updated_at_ms : ℤ
  pub closed_at_ms : Option ℤ
  pub close_reason : Option String
  pub simulation_mode : SimulationMode
  pub signal_id : Option String

pub record PaperPosition (F : Type 0) : Type 0 where
  pub position_key : String
  pub account_address : String
  pub subaccount_number : ℕ
  pub market_id : String
  pub side : PositionSide
  pub size : F
  pub entry_price : F
  pub current_mark_price : F
  pub realized_pnl : F
  pub unrealized_pnl : F
  pub total_fees : F
  pub opened_at_ms : ℤ
  pub updated_at_ms : ℤ
  pub simulation_mode : SimulationMode
  pub trade_ids : List String

abbrev pub mode_eq : SimulationMode → SimulationMode → Bool
mode_eq SimulationMode.live SimulationMode.live = true
mode_eq SimulationMode.backtest SimulationMode.backtest = true
mode_eq SimulationMode.replay SimulationMode.replay = true
mode_eq SimulationMode.test_fixture SimulationMode.test_fixture = true
mode_eq m n = false

module _ {F : Type 0} where
  pub is_fresh : SignalCandidate F → Bool
  is_fresh s = leb_ℤ s.signal_age_ms (pos 4000)

  pub is_live_eligible : SignalCandidate F → Bool
  unfolding is_fresh
  is_live_eligible s = is_fresh s && (not (is_unknown s.lifecycle) && is_live s.simulation_mode)
