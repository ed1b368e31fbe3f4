-- ===== src/Dydx/Paper/Closing.antt =====
-- hyper_smart_observer/dydx_v4/paper.py: what one call of `open_position` or `close_position` does.
use hyperliquid_smart_wallet.Prelude.{
  ℕ, ◌+◌, String, ◌≡◌, refl, ap, ◌↔◌, Bool, true, false, List, Option, none, some, if◌then◌else◌,
  length, lookup, lookup-erase_ne, lookup-insert, lookup-erase_self, Entries, eq_iff, str_eq, arith,
}
use hyperliquid_smart_wallet.Prelude.Int.{ℤ, pos, leb_ℤ}
use hyperliquid_smart_wallet.Float.{Float, whole}
use hyperliquid_smart_wallet.Dydx.Models.{
  PositionSide, SimulationMode, SignalCandidate, PaperTrade, PaperPosition, mode_eq, is_open,
}
use hyperliquid_smart_wallet.Dydx.Config.{Config}
use hyperliquid_smart_wallet.Dydx.Safety.{assert_paper_only}
use hyperliquid_smart_wallet.Dydx.Ledger.{
  book_opening, book_closing, closing_trade, paper_size, signal_key, close_size, pnl_at, reduced,
  left_open, paper_position,
}
use hyperliquid_smart_wallet.Dydx.Paper.{
  Simulator, Outcome, get_session, open_position, close_position, closing_id, PaperRefusal, report,
}
use hyperliquid_smart_wallet.Dydx.Paper.Runs.{mode_eq_iff}
use hyperliquid_smart_wallet.Dydx.Paper.Sessions.{IsValid, IsValid-Entries, Own}

mode_eq_refl : (m : SimulationMode) → mode_eq m m ≡ true
mode_eq_refl m = ground arith

abbrev pub is_traded : {F : Type 0} → Outcome F → Bool
is_traded (Outcome.traded t) = true
is_traded o = false

module _ {F : Type 0} ⦃f : Float F⦄ where
  open f use {add, sub, mul, div, lt, le, feq}

  -- The signal is one that the simulator may open.
  pub MayOpen : SignalCandidate F → F → Simulator F → Type 0
  MayOpen signal x sim =
      (assert_paper_only sim.config ≡ none)
      × (is_open signal.lifecycle ≡ true)
      × (leb_ℤ sim.config.max_open_paper_trades
            (pos (length (get_session signal.simulation_mode sim).open_positions))
          ≡ false)
      × (le signal.edge_remaining_bps (whole 0) ≡ false)
      × (le (paper_size sim.config (get_session signal.simulation_mode sim) x) (whole 0) ≡ false)

  -- What is traded: the asked part where that is not 0 and below the whole, or the whole.
  abbrev pub traded_size : Option F → F → F
  traded_size none whole_size = whole_size
  traded_size (some part) whole_size =
      if feq part (whole 0) then whole_size else if lt part whole_size then part else whole_size

  -- The result before fees.
  abbrev pub moved_for : PositionSide → F → F → F → F
  moved_for PositionSide.long entry x size = mul (sub x entry) size
  moved_for side entry x size = mul (sub entry x) size

  abbrev pub taker_fee : Config F → F → F → F
  taker_fee c size x = mul (mul size x) (div c.taker_fee_bps (whole 10_000))

  -- What is left of a position that is partly closed.
  abbrev pub kept : ℤ → F → F → F → PaperPosition F → PaperPosition F
  kept now_ms size fees net p = record p {
    size = sub p.size size;
    realized_pnl = add p.realized_pnl net;
    total_fees = add p.total_fees fees;
    updated_at_ms = now_ms;
  }

  traded_size-close_size : (part : Option F) (n : F) → close_size part n ≡ traded_size part n
  traded_size-close_size none n = refl
  traded_size-close_size (some q) n = ground arith

  moved_for-pnl_at :
      (side : PositionSide) (entry x size : F)
      → pnl_at side entry x size ≡ moved_for side entry x size
  moved_for-pnl_at side entry x size = ground arith

  module _ (short_hash : ℕ → String → String) where
    -- A signal becomes a paper trade exactly if the configuration is paper-only, the signal is an
    -- OPEN, there is room for another position, the remaining edge is not zero or less, and neither
    -- is the size that the balance buys.
    pub open_position_iff :
        (now_ms : ℤ) (signal : SignalCandidate F) (x : F) (sim : Simulator F)
        → (is_traded (open_position short_hash now_ms signal x sim).1 ≡ true) ↔ MayOpen signal x sim
    unfolding open_position MayOpen
    open_position_iff now_ms signal x sim = ground arith

    -- A call that opens no trade leaves every session as it is.
    pub open_position_refused :
        (now_ms : ℤ) (signal : SignalCandidate F) (x : F) (sim : Simulator F) (m : SimulationMode)
        → is_traded (open_position short_hash now_ms signal x sim).1 ≡ false
        → get_session m (open_position short_hash now_ms signal x sim).0 ≡ get_session m sim
    unfolding open_position get_session
    open_position_refused now_ms signal x sim m h =
        ground (arith, mode_eq_iff m signal.simulation_mode)

    -- A trade that is opened puts its position at the signal's key, in place of one that may be
    -- there, leaves the other keys alone, takes its fees off the balance and is counted.
    pub open_position_traded :
        (now_ms : ℤ) (signal : SignalCandidate F) (x : F) (sim : Simulator F) (t : PaperTrade F)
        (asked : String)
        → (open_position short_hash now_ms signal x sim).1 ≡ Outcome.traded t
        → let m = signal.simulation_mode in
          let s = get_session m sim in
          let s' = get_session m (open_position short_hash now_ms signal x sim).0 in
          (lookup asked s'.open_positions ≡ (
            if str_eq (signal_key signal) asked
            then some (paper_position (signal_key signal) t)
            else lookup asked s.open_positions))
          × (s'.current_balance ≡ sub s.current_balance t.fees)
          × (s'.total_trades ≡ s.total_trades + 1)
    unfolding open_position get_session book_opening
    open_position_traded now_ms signal x sim t asked h = ground (
      arith,
      h,
      mode_eq_refl signal.simulation_mode,
      lookup-insert (signal_key signal) asked (paper_position (signal_key signal) t)
          (get_session signal.simulation_mode sim).open_positions,
    )

    -- Closing what is not open is refused: no session changes, and the refusal is reported.
    pub close_position_orphan :
        (now_ms : ℤ) (key : String) (x : F) (reason : String) (m : SimulationMode) (part : Option F)
        (sim : Simulator F) (k : SimulationMode)
        → assert_paper_only sim.config ≡ none
        → lookup key (get_session m sim).open_positions ≡ none
        → let r = close_position short_hash now_ms key x reason m part sim in
          (r.1 ≡ Outcome.nothing)
          × (get_session k r.0 ≡ get_session k sim)
          × (r.0.no_trades ≡ report (PaperRefusal.no_position_to_close key) sim.no_trades)
    unfolding close_position get_session
    close_position_orphan now_ms key x reason m part sim k a e =
        ground (arith, a, e, mode_eq_iff k m)

    left_open-lookup :
        (m : SimulationMode) (key asked : String) (now_ms : ℤ) (p : PaperPosition F)
        (t : PaperTrade F) (ps : List (String × PaperPosition F))
        → Entries (Own m) ps
        → lookup asked (left_open key now_ms p t ps) ≡ (
            if str_eq key asked
            then (if le p.size t.size then none else some (reduced now_ms p t))
            else lookup asked ps)
    left_open-lookup m key asked now_ms p t ps v = ground (
      arith,
      eq_iff key asked,
      lookup-erase_self (Own m) key ps v,
      lookup-erase_ne key asked ps,
      lookup-insert key asked (reduced now_ms p t) ps,
    )

    -- Where a position is open in a valid session of a paper-only simulator, closing it makes a trade
    -- of the asked part where that is not 0 and below the position's size, and of the whole otherwise.
    -- The trade's result is the size times how far the price has risen above the entry, or where it is not LONG
    -- fallen below it, less the taker fee on the size at the price. A position whose size is all
    -- traded is gone, and one that is not keeps the rest of its size, with the result and the fee added
    -- to its own; the other keys are left alone; and the session's balance and realized result change by
    -- the trade's result.
    pub close_position_found :
        (now_ms : ℤ) (key : String) (x : F) (reason : String) (m : SimulationMode) (part : Option F)
        (sim : Simulator F) (p : PaperPosition F) (asked : String)
        → assert_paper_only sim.config ≡ none
        → IsValid sim.config m (get_session m sim)
        → lookup key (get_session m sim).open_positions ≡ some p
        → let r = close_position short_hash now_ms key x reason m part sim in
          let size = traded_size part p.size in
          let fees = taker_fee sim.config size x in
          let net = sub (moved_for p.side p.entry_price x size) fees in
          let s = get_session m sim in
          let s' = get_session m r.0 in
          ((t : PaperTrade F) × (r.1 ≡ Outcome.traded t)
            × (t.size ≡ size)
            × (t.fees ≡ fees)
            × (t.net_pnl ≡ net))
          × (lookup asked s'.open_positions ≡ (
              if str_eq key asked
              then (if le p.size size then none else some (kept now_ms size fees net p))
              else lookup asked s.open_positions))
          × (s'.current_balance ≡ add s.current_balance net)
          × (s'.realized_pnl ≡ add s.realized_pnl net)
    unfolding close_position get_session book_closing closing_trade
    close_position_found now_ms key x reason m part sim p asked a v e =
        let t =
          closing_trade sim.config (closing_id short_hash now_ms key) now_ms reason m x
            (close_size part p.size) p in
        let left =
          left_open-lookup m key asked now_ms p t (get_session m sim).open_positions
            (IsValid-Entries sim.config m (get_session m sim) v) in
        let size = traded_size-close_size part p.size in
        let moved = moved_for-pnl_at p.side p.entry_price x (close_size part p.size) in
        (
          (
            t,
            ground (arith, a, e, mode_eq_refl m),
            size,
            ap (λ n. taker_fee sim.config n x) size,
            ground (arith, size, moved),
          ),
          ground (arith, a, e, mode_eq_refl m, left, size, moved),
          ground (arith, a, e, mode_eq_refl m, size, moved),
          ground (arith, a, e, mode_eq_refl m, size, moved),
        )
