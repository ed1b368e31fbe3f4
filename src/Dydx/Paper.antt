-- ===== src/Dydx/Paper.antt =====
-- hyper_smart_observer/dydx_v4/paper.py: the paper simulator, one session for each mode. The
-- storage and the log are left out; `short_hash` stands for the digits of
-- SHA-256, and each call is given its time.
pub mod Balances
pub mod Closing
pub mod Runs
pub mod Sessions
mod Tests
use hyperliquid_smart_wallet.Prelude.{
  ℕ, suc, ◌+◌, String, Bool, true, false, not, ◌&&◌, List, [], ◌∷◌, ◌++◌, map, Option, none, some,
  if◌then◌else◌, join, print, length, lookup, insert, erase,
}
use hyperliquid_smart_wallet.Prelude.Int.{ℤ, pos, negsuc, leb_ℤ}
use hyperliquid_smart_wallet.Float.{Float, whole, sum}
use hyperliquid_smart_wallet.Dydx.Models.{
  PositionSide, LifecycleEvent, SimulationMode, PaperTradeStatus, SignalCandidate, PaperTrade,
  PaperPosition, side_value, is_long, is_open, mode_eq,
}
use hyperliquid_smart_wallet.Dydx.Config.{Config}
use hyperliquid_smart_wallet.Dydx.Ledger.{
  net_pnl, equity, new_session, latent_pnl, pnl_at, bps, paper_notional, paper_size, entry_price_of,
  signal_key, entry_fees, opening_trade, paper_position, book_opening, close_size, closing_trade,
  reduced, left_open, book_closing, remark, mark_entry, mark_session, Session,
}
use hyperliquid_smart_wallet.Dydx.Safety.{assert_paper_only}

-- The refusals that the simulator reports to the no-trade engine.
pub data PaperRefusal : Type 0 where
  max_open_trades edge_too_low : String → String → PaperRefusal
  no_position_to_close : String → PaperRefusal

-- `no_trades` is `none` where no no-trade engine was given.
pub record Simulator (F : Type 0) : Type 0 where
  pub config : Config F
  pub sessions : SimulationMode → Option (Session F)
  pub no_trades : Option (List PaperRefusal)

-- How a call ends: it raises, returns None, or returns a trade.
pub data Outcome (F : Type 0) : Type 0 where
  raised : String → Outcome F
  nothing : Outcome F
  traded : PaperTrade F → Outcome F

print_ℤ : ℤ → String
print_ℤ (pos n) = print n
print_ℤ (negsuc n) = join ("-" ∷ print (suc n) ∷ [])

pub closing_id : (ℕ → String → String) → ℤ → String → String
closing_id short_hash now_ms key = short_hash 32 (join ("close:" ∷ key ∷ ":" ∷ print_ℤ now_ms ∷ []))

abbrev pub report : PaperRefusal → Option (List PaperRefusal) → Option (List PaperRefusal)
report r none = none
report r (some rs) = some (rs ++ (r ∷ []))

module _ {F : Type 0} where
  abbrev pub put_session : SimulationMode → Session F → Simulator F → Simulator F
  put_session m s sim = record sim {
    sessions = λ k. if mode_eq k m then some s else sim.sessions k;
  }

module _ {F : Type 0} ⦃f : Float F⦄ where
  open f use {add, sub, mul, div, neg, abs, lt, le, feq, decimal}

  -- `__init__`, where the configuration is paper-only.
  pub new_simulator : Config F → Option (List PaperRefusal) → Simulator F
  new_simulator c no_trades = record { config = c; sessions = λ m. none; no_trades = no_trades }

  abbrev known_or : Option (Session F) → Session F → Session F
  known_or none s = s
  known_or (some t) s = t

  -- `_get_session`: a session is created where the mode has none.
  pub get_session : SimulationMode → Simulator F → Session F
  get_session m sim = known_or (sim.sessions m) (new_session sim.config m)

  pub update_mark_price : ℤ → String → F → SimulationMode → Simulator F → Simulator F
  update_mark_price now_ms key mark_price mode sim =
      put_session mode (mark_session now_ms key mark_price (get_session mode sim)) sim

  module _ (short_hash : ℕ → String → String) where
    pub opening_id : ℤ → SignalCandidate F → String
    opening_id now_ms signal = short_hash 32 (join (signal.signal_id ∷ ":" ∷ print_ℤ now_ms ∷ []))

    abbrev pub refuse :
        SimulationMode → Session F → PaperRefusal → Simulator F → Simulator F × Outcome F
    refuse mode s r sim =
        (put_session mode s (record sim { no_trades = report r sim.no_trades }), Outcome.nothing)

    pub open_position : ℤ → SignalCandidate F → F → Simulator F → Simulator F × Outcome F
    open_position now_ms signal mark_price sim = elim (assert_paper_only sim.config) [
      | some e ↦ (sim, Outcome.raised e)
      | none ↦
          let c = sim.config in
          let mode = signal.simulation_mode in
          let s = get_session mode sim in
          let t = opening_trade c (opening_id now_ms signal) now_ms signal mark_price s in
          if not (is_open signal.lifecycle)
          then (put_session mode s sim, Outcome.nothing)
          else if leb_ℤ c.max_open_paper_trades (pos (length s.open_positions))
          then refuse mode s (PaperRefusal.max_open_trades signal.account_address signal.market_id)
              sim
          else if le signal.edge_remaining_bps (whole 0)
          then refuse mode s (PaperRefusal.edge_too_low signal.account_address signal.market_id) sim
          else if le (paper_size c s mark_price) (whole 0)
          then (put_session mode s sim, Outcome.nothing)
          else (put_session mode (book_opening (signal_key signal) t s) sim, Outcome.traded t)
    ]

    abbrev pub close_found :
        ℤ
        → String
        → F
        → String
        → SimulationMode
        → Option F
        → Simulator F
        → Option (PaperPosition F)
        → Simulator F × Outcome F
    close_found now_ms key mark_price close_reason mode partial_size sim none =
        refuse mode (get_session mode sim) (PaperRefusal.no_position_to_close key) sim
    close_found now_ms key mark_price close_reason mode partial_size sim (some p) =
        let t =
          closing_trade sim.config (closing_id short_hash now_ms key) now_ms close_reason mode
            mark_price (close_size partial_size p.size) p in
        (
          put_session mode (book_closing key now_ms p t (get_session mode sim)) sim,
          Outcome.traded t,
        )

    pub close_position :
        ℤ → String → F → String → SimulationMode → Option F → Simulator F → Simulator F × Outcome F
    close_position now_ms key mark_price close_reason mode partial_size sim =
        elim (assert_paper_only sim.config) [
          | some e ↦ (sim, Outcome.raised e)
          | none ↦
              close_found now_ms key mark_price close_reason mode partial_size sim
                (lookup key (get_session mode sim).open_positions)
        ]
