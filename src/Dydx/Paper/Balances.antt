-- ===== src/Dydx/Paper/Balances.antt =====
-- hyper_smart_observer/dydx_v4/paper.py: the balance and the equity of a session, in the arithmetic
-- of Float/Fixed, whose sums and differences are exact.
use hyperliquid_smart_wallet.Prelude.{
  ℕ, String, ◌≡◌, refl, false, List, [], ◌∷◌, ◌++◌, Option, none, some, lookup, insert, length,
  arith,
}
use hyperliquid_smart_wallet.Prelude.Int.{ℤ, pos, leb_ℤ, int_laws, parts_of_eq, ◌+ℤ◌, ◌-ℤ◌}
use hyperliquid_smart_wallet.Float.Fixed.{fixed}
use hyperliquid_smart_wallet.Dydx.Models.{SimulationMode, PaperTrade, PaperPosition}
use hyperliquid_smart_wallet.Dydx.Config.{Config}
use hyperliquid_smart_wallet.Dydx.Ledger.{
  Session, new_session, book_opening, book_closing, mark_session, mark_entry, net_pnl, equity,
  latent_pnl, left_open, remark,
}
use hyperliquid_smart_wallet.Dydx.Paper.{PaperRefusal, new_simulator, get_session}
use hyperliquid_smart_wallet.Dydx.Paper.Runs.{Call, run, Kept, run_kept}

opening_shift :
    (a b c fees r u x : ℤ)
    → a +ℤ (r +ℤ u -ℤ fees) +ℤ c ≡ b +ℤ u
    → a +ℤ (r +ℤ u -ℤ (fees +ℤ x)) +ℤ c ≡ b -ℤ x +ℤ u
opening_shift a b c fees r u x h = omega (int_laws, parts_of_eq h)

closing_shift :
    (a b c fees r u v n x : ℤ)
    → a +ℤ (r +ℤ u -ℤ fees) +ℤ c ≡ b +ℤ u
    → a +ℤ (r +ℤ n +ℤ v -ℤ (fees +ℤ x)) +ℤ (c +ℤ x) ≡ b +ℤ n +ℤ v
closing_shift a b c fees r u v n x h = omega (int_laws, parts_of_eq h)

latent_shift :
    (a b c fees r u v : ℤ)
    → a +ℤ (r +ℤ u -ℤ fees) +ℤ c ≡ b +ℤ u
    → a +ℤ (r +ℤ v -ℤ fees) +ℤ c ≡ b +ℤ v
latent_shift a b c fees r u v h = omega (int_laws, parts_of_eq h)

empty_lem : (a : ℤ) → a +ℤ (pos 0 +ℤ pos 0 -ℤ pos 0) +ℤ pos 0 ≡ a +ℤ pos 0
empty_lem a = omega int_laws

swap_lem : (a b c : ℤ) → a +ℤ b +ℤ c ≡ a +ℤ c +ℤ b
swap_lem a b c = omega int_laws

-- What closing the trades has cost.
abbrev pub closing_fees : List (PaperTrade ℤ) → ℤ
closing_fees [] = pos 0
closing_fees (t ∷ ts) = closing_fees ts +ℤ t.fees

closing_fees-snoc :
    (ts : List (PaperTrade ℤ)) (t : PaperTrade ℤ)
    → closing_fees (ts ++ (t ∷ [])) ≡ closing_fees ts +ℤ t.fees
closing_fees-snoc [] t = refl
closing_fees-snoc (u ∷ ts) t =
    ground (arith, closing_fees-snoc ts t, swap_lem (closing_fees ts) u.fees t.fees)

-- The equity is short of the balance with the latent result by the closing fees.
pub IsShort : Config ℤ → SimulationMode → Session ℤ → Type 0
IsShort c m s = equity s +ℤ closing_fees s.closed_trades ≡ s.current_balance +ℤ s.unrealized_pnl

new_session-IsShort : (c : Config ℤ) (m : SimulationMode) → IsShort c m (new_session c m)
unfolding IsShort new_session equity net_pnl
new_session-IsShort c m = empty_lem c.starting_balance_usdc

book_opening-IsShort :
    (c : Config ℤ) (m : SimulationMode) (key : String) (t : PaperTrade ℤ) (s : Session ℤ)
    → IsShort c m s
    → t.simulation_mode ≡ m
    → leb_ℤ c.max_open_paper_trades (pos (length s.open_positions)) ≡ false
    → IsShort c m (book_opening key t s)
unfolding IsShort book_opening equity net_pnl
book_opening-IsShort c m key t s h e l =
    opening_shift s.starting_balance s.current_balance (closing_fees s.closed_trades) s.total_fees
      s.realized_pnl s.unrealized_pnl t.fees h

mark_entry-IsShort :
    (c : Config ℤ) (m : SimulationMode) (now_ms : ℤ) (key : String) (x : ℤ) (s : Session ℤ)
    (o : Option (PaperPosition ℤ))
    → IsShort c m s
    → IsShort c m (mark_entry now_ms key x s o)
unfolding IsShort equity net_pnl
mark_entry-IsShort c m now_ms key x s none h = h
mark_entry-IsShort c m now_ms key x s (some p) h =
    latent_shift s.starting_balance s.current_balance (closing_fees s.closed_trades) s.total_fees
      s.realized_pnl s.unrealized_pnl (latent_pnl (insert key (remark now_ms x p) s.open_positions))
      h

mark_session-IsShort :
    (c : Config ℤ) (m : SimulationMode) (now_ms : ℤ) (key : String) (x : ℤ) (s : Session ℤ)
    → IsShort c m s
    → IsShort c m (mark_session now_ms key x s)
unfolding mark_session
mark_session-IsShort c m now_ms key x s h =
    mark_entry-IsShort c m now_ms key x s (lookup key s.open_positions) h

book_closing-IsShort :
    (c : Config ℤ) (m : SimulationMode) (key : String) (now_ms : ℤ) (p : PaperPosition ℤ)
    (t : PaperTrade ℤ) (s : Session ℤ)
    → IsShort c m s
    → lookup key s.open_positions ≡ some p
    → IsShort c m (book_closing key now_ms p t s)
unfolding IsShort book_closing equity net_pnl
book_closing-IsShort c m key now_ms p t s h e = ground (
  arith,
  closing_fees-snoc s.closed_trades t,
  closing_shift s.starting_balance s.current_balance (closing_fees s.closed_trades) s.total_fees
      s.realized_pnl s.unrealized_pnl (latent_pnl (left_open key now_ms p t s.open_positions))
      t.net_pnl t.fees h,
)

IsShort-Kept : Kept IsShort
IsShort-Kept = record {
  new_session_kept = new_session-IsShort;
  open_kept = book_opening-IsShort;
  mark_kept = mark_session-IsShort;
  close_kept = book_closing-IsShort;
}

module _ (short_hash : ℕ → String → String) where
  -- In exact arithmetic, through every sequence of calls on a simulator without sessions, the
  -- equity of every session is short of its balance with the latent result by the fees of its
  -- closed trades, which `equity` takes off twice.
  pub run-IsShort :
      (calls : List (Call ℤ)) (c : Config ℤ) (log : Option (List PaperRefusal)) (m : SimulationMode)
      → IsShort c m (get_session m (run short_hash calls (new_simulator c log)))
  run-IsShort calls c log m = run_kept short_hash IsShort IsShort-Kept calls c log m
