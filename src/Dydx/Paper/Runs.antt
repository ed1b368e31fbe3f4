-- ===== src/Dydx/Paper/Runs.antt =====
-- hyper_smart_observer/dydx_v4/paper.py: sequences of calls, and what holds of every session that
-- they leave.
use hyperliquid_smart_wallet.Prelude.{
  ℕ, String, ◌≡◌, refl, true, false, List, [], ◌∷◌, Option, none, some, length, lookup, arith,
}
use hyperliquid_smart_wallet.Prelude.Int.{ℤ, pos, leb_ℤ}
use hyperliquid_smart_wallet.Float.{Float}
use hyperliquid_smart_wallet.Dydx.Models.{
  SimulationMode, SignalCandidate, PaperTrade, PaperPosition, mode_eq,
}
use hyperliquid_smart_wallet.Dydx.Config.{Config}
use hyperliquid_smart_wallet.Dydx.Ledger.{
  Session, new_session, book_opening, book_closing, mark_session, opening_trade, closing_trade,
  signal_key, close_size,
}
use hyperliquid_smart_wallet.Dydx.Paper.{
  opening_id, closing_id, Simulator, new_simulator, put_session, get_session, open_position,
  close_position, update_mark_price, close_found, PaperRefusal, report,
}

-- A call of one of the three methods, with its time.
pub data Call (F : Type 0) : Type 0 where
  opens : ℤ → SignalCandidate F → F → Call F
  marks : ℤ → String → F → SimulationMode → Call F
  closes : ℤ → String → F → String → SimulationMode → Option F → Call F

abbrev pub call_mode : {F : Type 0} → Call F → SimulationMode
call_mode (Call.opens t s x) = s.simulation_mode
call_mode (Call.marks t k x m) = m
call_mode (Call.closes t k x r m p) = m

-- No call of the sequence is about the mode.
abbrev pub Elsewhere : {F : Type 0} → SimulationMode → List (Call F) → Type 0
Elsewhere m [] = Unit
Elsewhere m (call ∷ calls) = (mode_eq m (call_mode call) ≡ false) × Elsewhere m calls

pub mode_eq_iff : (m n : SimulationMode) → mode_eq m n ≡ true → m ≡ n
mode_eq_iff SimulationMode.live SimulationMode.live h = refl
mode_eq_iff SimulationMode.backtest SimulationMode.backtest h = refl
mode_eq_iff SimulationMode.replay SimulationMode.replay h = refl
mode_eq_iff SimulationMode.test_fixture SimulationMode.test_fixture h = refl
mode_eq_iff m n h = ground arith

module _ {F : Type 0} ⦃f : Float F⦄ where
  -- What a property of sessions needs in order to hold in every session.
  pub record Kept (P : Config F → SimulationMode → Session F → Type 0) : Type 0 where
    pub new_session_kept : (c : Config F) (m : SimulationMode) → P c m (new_session c m)
    pub open_kept :
        (c : Config F) (m : SimulationMode) (key : String) (t : PaperTrade F) (s : Session F)
        → P c m s
        → t.simulation_mode ≡ m
        → leb_ℤ c.max_open_paper_trades (pos (length s.open_positions)) ≡ false
        → P c m (book_opening key t s)
    pub mark_kept :
        (c : Config F) (m : SimulationMode) (now_ms : ℤ) (key : String) (x : F) (s : Session F)
        → P c m s
        → P c m (mark_session now_ms key x s)
    pub close_kept :
        (c : Config F) (m : SimulationMode) (key : String) (now_ms : ℤ) (p : PaperPosition F)
        (t : PaperTrade F) (s : Session F)
        → P c m s
        → lookup key s.open_positions ≡ some p
        → P c m (book_closing key now_ms p t s)

  new_simulator-config :
      (c : Config F) (log : Option (List PaperRefusal)) → (new_simulator c log).config ≡ c
  unfolding new_simulator
  new_simulator-config c log = refl

  opening_trade-mode :
      (c : Config F) (id : String) (now_ms : ℤ) (signal : SignalCandidate F) (x : F) (s : Session F)
      → (opening_trade c id now_ms signal x s).simulation_mode ≡ signal.simulation_mode
  unfolding opening_trade
  opening_trade-mode c id now_ms signal x s = refl

  module _ (short_hash : ℕ → String → String) where
    unfoldable pub apply : Call F → Simulator F → Simulator F
    apply (Call.opens now_ms signal x) sim = (open_position short_hash now_ms signal x sim).0
    apply (Call.marks now_ms key x m) sim = update_mark_price now_ms key x m sim
    apply (Call.closes now_ms key x reason m part) sim =
        (close_position short_hash now_ms key x reason m part sim).0

    unfoldable pub run : List (Call F) → Simulator F → Simulator F
    unfolding apply
    run [] sim = sim
    run (call ∷ calls) sim = run calls (apply call sim)

    apply-config : (call : Call F) (sim : Simulator F) → (apply call sim).config ≡ sim.config
    unfolding apply open_position update_mark_price close_position
    apply-config (Call.opens now_ms signal x) sim = ground arith
    apply-config (Call.marks now_ms key x m) sim = ground arith
    apply-config (Call.closes now_ms key x reason m part) sim = ground arith

    apply_other :
        (call : Call F) (m : SimulationMode) (sim : Simulator F)
        → mode_eq m (call_mode call) ≡ false
        → (apply call sim).sessions m ≡ sim.sessions m
    unfolding apply open_position update_mark_price close_position
    apply_other (Call.opens now_ms signal x) m sim h = ground arith
    apply_other (Call.marks now_ms key x n) m sim h = ground arith
    apply_other (Call.closes now_ms key x reason n part) m sim h = ground arith

    run-config : (calls : List (Call F)) (sim : Simulator F) → (run calls sim).config ≡ sim.config
    unfolding run
    run-config [] sim = refl
    run-config (call ∷ calls) sim =
        ground (arith, run-config calls (apply call sim), apply-config call sim)

    -- A sequence of calls about other modes leaves the session of a mode as it is: backtests,
    -- replays and fixtures never touch the live session.
    pub run_other_modes :
        (calls : List (Call F)) (m : SimulationMode) (sim : Simulator F)
        → Elsewhere m calls
        → (run calls sim).sessions m ≡ sim.sessions m
    unfolding run
    run_other_modes [] m sim h = refl
    run_other_modes (call ∷ calls) m sim h =
        ground (arith, run_other_modes calls m (apply call sim) h.1, apply_other call m sim h.0)

    module _ (P : Config F → SimulationMode → Session F → Type 0) (kept : Kept P) where
      -- Every session, also the one that a first call would create, meets `P`.
      pub Everywhere : Simulator F → Type 0
      Everywhere sim = (m : SimulationMode) → P sim.config m (get_session m sim)

      new_simulator-Everywhere :
          (c : Config F) (log : Option (List PaperRefusal)) → Everywhere (new_simulator c log)
      unfolding Everywhere new_simulator get_session
      new_simulator-Everywhere c log m = kept.new_session_kept c m

      Everywhere-put :
          (m : SimulationMode) (s : Session F) (sim : Simulator F)
          → Everywhere sim
          → P sim.config m s
          → Everywhere (put_session m s sim)
      unfolding Everywhere get_session
      Everywhere-put m s sim v w k = ground (arith, v k, w, mode_eq_iff k m)

      Everywhere-refuse :
          (m : SimulationMode) (r : PaperRefusal) (sim : Simulator F)
          → Everywhere sim
          → Everywhere (
              put_session m (get_session m sim) (record sim { no_trades = report r sim.no_trades }))
      unfolding Everywhere get_session
      Everywhere-refuse m r sim v k = ground (arith, v k, v m, mode_eq_iff k m)

      update_mark_price-Everywhere :
          (now_ms : ℤ) (key : String) (x : F) (m : SimulationMode) (sim : Simulator F)
          → Everywhere sim
          → Everywhere (update_mark_price now_ms key x m sim)
      unfolding update_mark_price Everywhere
      update_mark_price-Everywhere now_ms key x m sim v =
          Everywhere-put m (mark_session now_ms key x (get_session m sim)) sim v
            (kept.mark_kept sim.config m now_ms key x (get_session m sim) (v m))

      open_position-Everywhere :
          (now_ms : ℤ) (signal : SignalCandidate F) (x : F) (sim : Simulator F)
          → Everywhere sim
          → Everywhere (open_position short_hash now_ms signal x sim).0
      unfolding open_position Everywhere get_session
      open_position-Everywhere now_ms signal x sim v k =
          let m = signal.simulation_mode in
          let s = get_session m sim in
          let id = opening_id short_hash now_ms signal in
          ground (
            arith,
            v k,
            v m,
            mode_eq_iff k m,
            kept.open_kept sim.config m (signal_key signal)
                (opening_trade sim.config id now_ms signal x s) s (v m)
                (opening_trade-mode sim.config id now_ms signal x s),
          )

      close_found-Everywhere :
          (now_ms : ℤ) (key : String) (x : F) (reason : String) (m : SimulationMode)
          (part : Option F) (sim : Simulator F) (o : Option (PaperPosition F))
          → Everywhere sim
          → lookup key (get_session m sim).open_positions ≡ o
          → Everywhere (close_found short_hash now_ms key x reason m part sim o).0
      unfolding Everywhere
      close_found-Everywhere now_ms key x reason m part sim none v e =
          Everywhere-refuse m (PaperRefusal.no_position_to_close key) sim v
      close_found-Everywhere now_ms key x reason m part sim (some p) v e =
          let t =
            closing_trade sim.config (closing_id short_hash now_ms key) now_ms reason m x
              (close_size part p.size) p in
          Everywhere-put m (book_closing key now_ms p t (get_session m sim)) sim v
            (kept.close_kept sim.config m key now_ms p t (get_session m sim) (v m) e)

      close_position-Everywhere :
          (now_ms : ℤ) (key : String) (x : F) (reason : String) (m : SimulationMode)
          (part : Option F) (sim : Simulator F)
          → Everywhere sim
          → Everywhere (close_position short_hash now_ms key x reason m part sim).0
      unfolding close_position Everywhere
      close_position-Everywhere now_ms key x reason m part sim v k = ground (
        arith,
        v k,
        close_found-Everywhere now_ms key x reason m part sim
            (lookup key (get_session m sim).open_positions) v refl k,
      )

      apply-Everywhere :
          (call : Call F) (sim : Simulator F) → Everywhere sim → Everywhere (apply call sim)
      unfolding apply
      apply-Everywhere (Call.opens now_ms signal x) sim v =
          open_position-Everywhere now_ms signal x sim v
      apply-Everywhere (Call.marks now_ms key x m) sim v =
          update_mark_price-Everywhere now_ms key x m sim v
      apply-Everywhere (Call.closes now_ms key x reason m part) sim v =
          close_position-Everywhere now_ms key x reason m part sim v

      run-Everywhere :
          (calls : List (Call F)) (sim : Simulator F) → Everywhere sim → Everywhere (run calls sim)
      unfolding run
      run-Everywhere [] sim v = v
      run-Everywhere (call ∷ calls) sim v =
          run-Everywhere calls (apply call sim) (apply-Everywhere call sim v)

      pub run_kept :
          (calls : List (Call F)) (c : Config F) (log : Option (List PaperRefusal))
          (m : SimulationMode)
          → P c m (get_session m (run calls (new_simulator c log)))
      unfolding Everywhere
      run_kept calls c log m = ground (
        arith,
        run-Everywhere calls (new_simulator c log) (new_simulator-Everywhere c log) m,
        run-config calls (new_simulator c log),
        new_simulator-config c log,
      )
