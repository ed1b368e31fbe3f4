-- ===== src/Dydx/Paper/Tests.antt =====
-- The paper simulator on a concrete signal.
use hyperliquid_smart_wallet.Prelude.{
  ℕ, String, ◌≡◌, refl, List, [], ◌∷◌, none, some, print, length, lookup,
}
use hyperliquid_smart_wallet.Prelude.Int.{ℤ, pos, ◌+ℤ◌, ◌-ℤ◌}
use hyperliquid_smart_wallet.Float.Fixed.{fixed}
use hyperliquid_smart_wallet.Dydx.Models.{
  PositionSide, LifecycleEvent, SimulationMode, SignalCandidate, PaperTrade, PaperPosition,
}
use hyperliquid_smart_wallet.Dydx.Samples.{default_config}
use hyperliquid_smart_wallet.Dydx.Safety.{assert_paper_only}
use hyperliquid_smart_wallet.Dydx.Ledger.{
  new_session, closing_trade, opening_trade, paper_position, paper_size, paper_notional,
  entry_price_of, entry_fees, signal_key, book_opening, book_closing, mark_session, remark,
}
use hyperliquid_smart_wallet.Dydx.Paper.{
  Simulator, Outcome, new_simulator, get_session, open_position, opening_id, close_position,
  closing_id, update_mark_price, print_ℤ,
}
use hyperliquid_smart_wallet.Dydx.Paper.Runs.{Call, apply, run}
use hyperliquid_smart_wallet.Dydx.Paper.Sessions.{IsValid, run-IsValid}
use hyperliquid_smart_wallet.Dydx.Paper.Closing.{taker_fee, moved_for, kept, close_position_found}

abbrev short_hash : ℕ → String → String
short_hash n text = text

abbrev signal : SignalCandidate ℤ
signal = record {
  signal_id = "s1";
  account_address = "dydx1def";
  subaccount_number = 0;
  market_id = "BTC-USD";
  side = PositionSide.long;
  lifecycle = LifecycleEvent.opened;
  size = fixed.decimal 1 0;
  price = fixed.decimal 100 0;
  signal_age_ms = pos 900;
  edge_remaining_bps = fixed.decimal 15 0;
  total_cost_bps = fixed.decimal 25 0;
  source = "ws_fill";
  simulation_mode = SimulationMode.live;
  created_at_ms = pos 1_000_000;
}

abbrev key : String
key = "dydx_v4|dydx1def|0|BTC-USD|LONG"

abbrev start : Simulator ℤ
start = new_simulator default_config (some [])

abbrev calls : List (Call ℤ)
calls =
    Call.opens (pos 1_000_000) signal (fixed.decimal 100 0)
    ∷ Call.marks (pos 1_000_500) key (fixed.decimal 110 0) SimulationMode.live
    ∷ Call.closes (pos 1_001_000) key (fixed.decimal 110 0) "SIGNAL" SimulationMode.live none
    ∷ []

abbrev opened : Simulator ℤ
opened = (open_position short_hash (pos 1_000_000) signal (fixed.decimal 100 0) start).0

-- One winning round trip, with no position left.
round_trip :
    let s = get_session SimulationMode.live (run short_hash calls start) in
    (length s.open_positions ≡ 0) × (s.winning_trades ≡ 1) × (length s.closed_trades ≡ 1)
unfolding run apply open_position close_position update_mark_price get_session new_session
    assert_paper_only new_simulator book_opening book_closing mark_session opening_trade
    closing_trade paper_position paper_size paper_notional entry_price_of entry_fees signal_key
    remark opening_id closing_id print_ℤ print ◌-ℤ◌ ◌+ℤ◌
round_trip = (refl, refl, refl)

run-IsValid_example : IsValid default_config SimulationMode.live (
    get_session SimulationMode.live (run short_hash calls (new_simulator default_config (some []))))
run-IsValid_example = run-IsValid short_hash calls default_config (some []) SimulationMode.live

abbrev trade : PaperTrade ℤ
trade =
    opening_trade default_config (opening_id short_hash (pos 1_000_000) signal) (pos 1_000_000)
      signal (fixed.decimal 100 0) (get_session SimulationMode.live start)

abbrev position : PaperPosition ℤ
position = paper_position (signal_key signal) trade

-- A fifth of the position.
abbrev part : ℤ
part = fixed.decimal 2 1

close_position_found_example :
    let r =
      close_position short_hash
        (pos 1_001_000)
        key
        (fixed.decimal 110 0)
        "SIGNAL"
        SimulationMode.live
        (some part)
        opened in
    let fees = taker_fee default_config part (fixed.decimal 110 0) in
    let net =
      (moved_for PositionSide.long position.entry_price (fixed.decimal 110 0) part) -ℤ fees in
    let s = get_session SimulationMode.live opened in
    let s' = get_session SimulationMode.live r.0 in
    ((t : PaperTrade ℤ) × (r.1 ≡ Outcome.traded t)
      × (t.size ≡ part)
      × (t.fees ≡ fees)
      × (t.net_pnl ≡ net))
    × (lookup key s'.open_positions ≡ some (kept (pos 1_001_000) part fees net position))
    × (s'.current_balance ≡ s.current_balance +ℤ net)
    × (s'.realized_pnl ≡ s.realized_pnl +ℤ net)
unfolding run apply open_position get_session new_session assert_paper_only new_simulator
    book_opening opening_trade paper_position paper_size paper_notional entry_price_of entry_fees
    signal_key opening_id print_ℤ print ◌-ℤ◌ ◌+ℤ◌
close_position_found_example =
    close_position_found short_hash (pos 1_001_000) key (fixed.decimal 110 0) "SIGNAL"
      SimulationMode.live (some part) opened position key refl
      (run-IsValid short_hash (Call.opens (pos 1_000_000) signal (fixed.decimal 100 0) ∷ [])
        default_config (some []) SimulationMode.live)
      refl
