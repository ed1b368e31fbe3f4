-- ===== src/Dydx/Paper/Sessions.antt =====
-- hyper_smart_observer/dydx_v4/paper.py: what sequences of calls keep of the sessions.
use hyperliquid_smart_wallet.Prelude.{
  ℕ, ◌+◌, ◌≤◌, String, ◌≡◌, refl, false, List, [], ◌∷◌, Option, none, some, length, length-append,
  lookup, insert, Entries, Entries-insert, Entries-erase, Entries-lookup, length-insert,
  length-erase, arith,
}
use hyperliquid_smart_wallet.Prelude.Int.{ℤ, pos, pos_part, leb_ℤ}
use hyperliquid_smart_wallet.Float.{Float}
use hyperliquid_smart_wallet.Dydx.Models.{SimulationMode, PaperTrade, PaperPosition}
use hyperliquid_smart_wallet.Dydx.Config.{Config}
use hyperliquid_smart_wallet.Dydx.Ledger.{
  Session, new_session, book_opening, book_closing, left_open, reduced, mark_session, mark_entry,
  remark, paper_position,
}
use hyperliquid_smart_wallet.Dydx.Paper.{new_simulator, get_session, PaperRefusal}
use hyperliquid_smart_wallet.Dydx.Paper.Runs.{Call, run, Kept, run_kept}

module _ {F : Type 0} where
  abbrev pub Own : SimulationMode → String → PaperPosition F → Type 0
  Own m k p = (p.position_key ≡ k) × (p.simulation_mode ≡ m)

  -- A session holds each position once, under its own key and in its own mode, at most as many as
  -- the limit, and every closed trade was counted as won or as lost.
  pub IsValid : Config F → SimulationMode → Session F → Type 0
  IsValid c m s =
      Entries (Own m) s.open_positions
      × (length s.open_positions ≤ pos_part c.max_open_paper_trades)
      × (s.winning_trades + s.losing_trades ≡ length s.closed_trades)

  pub IsValid-Entries :
      (c : Config F) (m : SimulationMode) (s : Session F)
      → IsValid c m s
      → Entries (Own m) s.open_positions
  unfolding IsValid
  IsValid-Entries c m s v = v.0

module _ {F : Type 0} ⦃f : Float F⦄ where
  new_session-IsValid : (c : Config F) (m : SimulationMode) → IsValid c m (new_session c m)
  unfolding new_session IsValid
  new_session-IsValid c m = ground arith

  book_opening-IsValid :
      (c : Config F) (m : SimulationMode) (key : String) (t : PaperTrade F) (s : Session F)
      → IsValid c m s
      → t.simulation_mode ≡ m
      → leb_ℤ c.max_open_paper_trades (pos (length s.open_positions)) ≡ false
      → IsValid c m (book_opening key t s)
  unfolding IsValid book_opening paper_position
  book_opening-IsValid c m key t s v e h = (
    Entries-insert (Own m) key (paper_position key t) s.open_positions v.0 (refl, e),
    ground (arith, length-insert key (paper_position key t) s.open_positions, v.1),
    v.2,
  )

  left_open-Entries :
      (m : SimulationMode) (key : String) (now_ms : ℤ) (p : PaperPosition F) (t : PaperTrade F)
      (ps : List (String × PaperPosition F))
      → Entries (Own m) ps
      → lookup key ps ≡ some p
      → Entries (Own m) (left_open key now_ms p t ps)
  left_open-Entries m key now_ms p t ps v e = ground (
    arith,
    Entries-erase (Own m) key ps v,
    Entries-insert (Own m) key (reduced now_ms p t) ps v (Entries-lookup (Own m) key p ps v e),
  )

  left_open-length :
      (key : String) (now_ms : ℤ) (p : PaperPosition F) (t : PaperTrade F)
      (ps : List (String × PaperPosition F))
      → lookup key ps ≡ some p
      → length (left_open key now_ms p t ps) ≤ length ps
  left_open-length key now_ms p t ps e =
      ground (arith, length-erase key ps, length-insert key (reduced now_ms p t) ps)

  book_closing-IsValid :
      (c : Config F) (m : SimulationMode) (key : String) (now_ms : ℤ) (p : PaperPosition F)
      (t : PaperTrade F) (s : Session F)
      → IsValid c m s
      → lookup key s.open_positions ≡ some p
      → IsValid c m (book_closing key now_ms p t s)
  unfolding IsValid book_closing
  book_closing-IsValid c m key now_ms p t s v e = (
    left_open-Entries m key now_ms p t s.open_positions v.0 e,
    ground (arith, v.1, left_open-length key now_ms p t s.open_positions e),
    ground (arith, v.2, length-append s.closed_trades (t ∷ [])),
  )

  remark-Entries :
      (m : SimulationMode) (now_ms : ℤ) (key : String) (x : F) (p : PaperPosition F)
      (ps : List (String × PaperPosition F))
      → Entries (Own m) ps
      → lookup key ps ≡ some p
      → Entries (Own m) (insert key (remark now_ms x p) ps)
  unfolding remark
  remark-Entries m now_ms key x p ps v e =
      Entries-insert (Own m) key (remark now_ms x p) ps v (Entries-lookup (Own m) key p ps v e)

  remark-length :
      (now_ms : ℤ) (key : String) (x : F) (p : PaperPosition F)
      (ps : List (String × PaperPosition F))
      → lookup key ps ≡ some p
      → length (insert key (remark now_ms x p) ps) ≡ length ps
  remark-length now_ms key x p ps e = ground (arith, length-insert key (remark now_ms x p) ps)

  mark_entry-IsValid :
      (c : Config F) (m : SimulationMode) (now_ms : ℤ) (key : String) (x : F) (s : Session F)
      (o : Option (PaperPosition F))
      → IsValid c m s
      → lookup key s.open_positions ≡ o
      → IsValid c m (mark_entry now_ms key x s o)
  unfolding IsValid
  mark_entry-IsValid c m now_ms key x s none v e = v
  mark_entry-IsValid c m now_ms key x s (some p) v e = (
    remark-Entries m now_ms key x p s.open_positions v.0 e,
    ground (arith, v.1, remark-length now_ms key x p s.open_positions e),
    v.2,
  )

  mark_session-IsValid :
      (c : Config F) (m : SimulationMode) (now_ms : ℤ) (key : String) (x : F) (s : Session F)
      → IsValid c m s
      → IsValid c m (mark_session now_ms key x s)
  unfolding mark_session
  mark_session-IsValid c m now_ms key x s v =
      mark_entry-IsValid c m now_ms key x s (lookup key s.open_positions) v refl

  IsValid-Kept : Kept {F = F} IsValid
  IsValid-Kept = record {
    new_session_kept = new_session-IsValid;
    open_kept = book_opening-IsValid;
    mark_kept = mark_session-IsValid;
    close_kept = book_closing-IsValid;
  }

  module _ (short_hash : ℕ → String → String) where
    -- Through every sequence of calls on a simulator without sessions, every session holds each
    -- position once, under its own key and in its own mode, never more positions than
    -- `max_open_paper_trades` admits, and every closed trade was counted as won or as lost.
    pub run-IsValid :
        (calls : List (Call F)) (c : Config F) (log : Option (List PaperRefusal))
        (m : SimulationMode)
        → IsValid c m (get_session m (run short_hash calls (new_simulator c log)))
    run-IsValid calls c log m = run_kept short_hash IsValid IsValid-Kept calls c log m
