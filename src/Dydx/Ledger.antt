-- ===== src/Dydx/Ledger.antt =====
-- hyper_smart_observer/dydx_v4/paper.py: one session of the paper simulator, and what opening,
-- marking and closing a position book on it. The constant notes are left out.
use hyperliquid_smart_wallet.Prelude.{
  ℕ, ◌+◌, String, not, ◌&&◌, List, [], ◌∷◌, ◌++◌, map, Option, none, some, if◌then◌else◌, join,
  print, lookup, insert, erase,
}
use hyperliquid_smart_wallet.Prelude.Int.{ℤ}
use hyperliquid_smart_wallet.Float.{Float, whole, sum}
use hyperliquid_smart_wallet.Dydx.Models.{
  PositionSide, LifecycleEvent, SimulationMode, PaperTradeStatus, SignalCandidate, PaperTrade,
  PaperPosition, side_value, is_long,
}
use hyperliquid_smart_wallet.Dydx.Config.{Config}

pub record Session (F : Type 0) : Type 0 where
  pub mode : SimulationMode
  pub starting_balance : F
  pub current_balance : F
  pub realized_pnl : F
  pub unrealized_pnl : F
  pub total_fees : F
  pub total_spread_cost : F
  pub total_slippage_cost : F
  pub total_trades : ℕ
  pub winning_trades : ℕ
  pub losing_trades : ℕ
  pub open_positions : List (String × PaperPosition F)
  pub closed_trades : List (PaperTrade F)

module _ {F : Type 0} ⦃f : Float F⦄ where
  open f use {add, sub, mul, div, neg, abs, lt, le, feq, decimal}

  unfoldable pub net_pnl : Session F → F
  net_pnl s = sub (add s.realized_pnl s.unrealized_pnl) s.total_fees

  unfoldable pub equity : Session F → F
  unfolding net_pnl
  equity s = add s.starting_balance (net_pnl s)

  unfoldable pub new_session : Config F → SimulationMode → Session F
  new_session c m = record {
    mode = m;
    starting_balance = c.starting_balance_usdc;
    current_balance = c.starting_balance_usdc;
    realized_pnl = decimal 0 1;
    unrealized_pnl = decimal 0 1;
    total_fees = decimal 0 1;
    total_spread_cost = decimal 0 1;
    total_slippage_cost = decimal 0 1;
    total_trades = 0;
    winning_trades = 0;
    losing_trades = 0;
    open_positions = [];
    closed_trades = [];
  }

  -- `sum(p.unrealized_pnl for p in session.open_positions.values())`
  abbrev pub latent_pnl : List (String × PaperPosition F) → F
  latent_pnl ps = sum (map (λ (x : String × PaperPosition F). x.1.unrealized_pnl) ps)

  -- (mark - entry) * size for a LONG, (entry - mark) * size otherwise.
  abbrev pub pnl_at : PositionSide → F → F → F → F
  pnl_at side entry mark size =
      if is_long side then mul (sub mark entry) size else mul (sub entry mark) size

  abbrev pub bps : F → F
  bps x = div x (whole 10_000)

  unfoldable pub paper_notional : Config F → Session F → F
  paper_notional c s = mul s.current_balance c.max_position_pct

  unfoldable pub paper_size : Config F → Session F → F → F
  unfolding paper_notional
  paper_size c s mark_price =
      if lt (whole 0) mark_price then div (paper_notional c s) mark_price else decimal 0 1

  -- The pessimistic entry: slippage and half of the spread against the trade.
  unfoldable pub entry_price_of : Config F → PositionSide → F → F
  entry_price_of c side mark_price =
      let cost = bps (add c.estimated_slippage_bps (div c.estimated_spread_bps (whole 2))) in
      if is_long side
      then mul mark_price (add (whole 1) cost)
      else mul mark_price (sub (whole 1) cost)

  unfoldable pub signal_key : SignalCandidate F → String
  signal_key s = join (
      "dydx_v4|"
      ∷ s.account_address
      ∷ "|"
      ∷ print s.subaccount_number
      ∷ "|"
      ∷ s.market_id
      ∷ "|"
      ∷ side_value s.side
      ∷ [])

  unfoldable pub entry_fees : Config F → Session F → F
  unfolding paper_notional
  entry_fees c s = mul (paper_notional c s) (bps c.taker_fee_bps)

  unfoldable pub opening_trade :
      Config F → String → ℤ → SignalCandidate F → F → Session F → PaperTrade F
  unfolding paper_notional
  opening_trade c id now_ms signal mark_price s = record {
    trade_id = id;
    account_address = signal.account_address;
    subaccount_number = signal.subaccount_number;
    market_id = signal.market_id;
    side = signal.side;
    size = paper_size c s mark_price;
    entry_price = entry_price_of c signal.side mark_price;
    mark_price = mark_price;
    status = PaperTradeStatus.opened;
    lifecycle = LifecycleEvent.opened;
    gross_pnl = decimal 0 1;
    net_pnl = neg (entry_fees c s);
    fees = entry_fees c s;
    spread_cost = mul (paper_notional c s) (div (bps c.estimated_spread_bps) (whole 2));
    slippage_cost = mul (paper_notional c s) (bps c.estimated_slippage_bps);
    entry_at_ms = now_ms;
    updated_at_ms = now_ms;
    closed_at_ms = none;
    close_reason = none;
    simulation_mode = signal.simulation_mode;
    signal_id = some signal.signal_id;
  }

  unfoldable pub paper_position : String → PaperTrade F → PaperPosition F
  paper_position key t = record {
    position_key = key;
    account_address = t.account_address;
    subaccount_number = t.subaccount_number;
    market_id = t.market_id;
    side = t.side;
    size = t.size;
    entry_price = t.entry_price;
    current_mark_price = t.mark_price;
    realized_pnl = decimal 0 1;
    unrealized_pnl = decimal 0 1;
    total_fees = t.fees;
    opened_at_ms = t.entry_at_ms;
    updated_at_ms = t.entry_at_ms;
    simulation_mode = t.simulation_mode;
    trade_ids = t.trade_id ∷ [];
  }

  unfoldable pub book_opening : String → PaperTrade F → Session F → Session F
  book_opening key t s = record s {
    open_positions = insert key (paper_position key t) s.open_positions;
    current_balance = sub s.current_balance t.fees;
    total_fees = add s.total_fees t.fees;
    total_spread_cost = add s.total_spread_cost t.spread_cost;
    total_slippage_cost = add s.total_slippage_cost t.slippage_cost;
    total_trades = s.total_trades + 1;
  }

  -- `partial_size if partial_size and partial_size < pos.size else pos.size`
  abbrev pub close_size : Option F → F → F
  close_size none size = size
  close_size (some p) size = if not (feq p (whole 0)) && lt p size then p else size

  unfoldable pub closing_trade :
      Config F → String → ℤ → String → SimulationMode → F → F → PaperPosition F → PaperTrade F
  closing_trade c id now_ms close_reason mode mark_price size p =
      let gross = pnl_at p.side p.entry_price mark_price size in
      let fees = mul (mul size mark_price) (bps c.taker_fee_bps) in
      record {
        trade_id = id;
        account_address = p.account_address;
        subaccount_number = p.subaccount_number;
        market_id = p.market_id;
        side = p.side;
        size = size;
        entry_price = p.entry_price;
        mark_price = mark_price;
        status = PaperTradeStatus.closed;
        lifecycle = if le p.size size then LifecycleEvent.closed else LifecycleEvent.reduced;
        gross_pnl = gross;
        net_pnl = sub gross fees;
        fees = fees;
        spread_cost = decimal 0 1;
        slippage_cost = decimal 0 1;
        entry_at_ms = p.opened_at_ms;
        updated_at_ms = now_ms;
        closed_at_ms = some now_ms;
        close_reason = some close_reason;
        simulation_mode = mode;
        signal_id = none;
      }

  -- What a partial close leaves of the position.
  abbrev pub reduced : ℤ → PaperPosition F → PaperTrade F → PaperPosition F
  reduced now_ms p t = record p {
    size = sub p.size t.size;
    realized_pnl = add p.realized_pnl t.net_pnl;
    total_fees = add p.total_fees t.fees;
    updated_at_ms = now_ms;
  }

  abbrev pub left_open :
      String
      → ℤ
      → PaperPosition F
      → PaperTrade F
      → List (String × PaperPosition F)
      → List (String × PaperPosition F)
  left_open key now_ms p t ps =
      if le p.size t.size then erase key ps else insert key (reduced now_ms p t) ps

  unfoldable pub book_closing : String → ℤ → PaperPosition F → PaperTrade F → Session F → Session F
  book_closing key now_ms p t s =
      let ps = left_open key now_ms p t s.open_positions in
      let won = lt (whole 0) t.net_pnl in
      record s {
        realized_pnl = add s.realized_pnl t.net_pnl;
        total_fees = add s.total_fees t.fees;
        current_balance = add s.current_balance t.net_pnl;
        closed_trades = s.closed_trades ++ (t ∷ []);
        winning_trades = if won then s.winning_trades + 1 else s.winning_trades;
        losing_trades = if won then s.losing_trades else s.losing_trades + 1;
        open_positions = ps;
        unrealized_pnl = latent_pnl ps;
      }

  unfoldable pub remark : ℤ → F → PaperPosition F → PaperPosition F
  remark now_ms mark_price p = record p {
    unrealized_pnl = pnl_at p.side p.entry_price mark_price (abs p.size);
    current_mark_price = mark_price;
    updated_at_ms = now_ms;
  }

  abbrev pub mark_entry : ℤ → String → F → Session F → Option (PaperPosition F) → Session F
  mark_entry now_ms key mark_price s none = s
  mark_entry now_ms key mark_price s (some p) =
      let ps = insert key (remark now_ms mark_price p) s.open_positions in
      record s { open_positions = ps; unrealized_pnl = latent_pnl ps }

  unfoldable pub mark_session : ℤ → String → F → Session F → Session F
  mark_session now_ms key mark_price s =
      mark_entry now_ms key mark_price s (lookup key s.open_positions)
