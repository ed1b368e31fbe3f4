-- ===== src/Dydx/Clusters.antt =====
-- hyper_smart_observer/dydx_v4/cluster_detector.py: the wallets whose positions converge on a market. A
-- wallet's positions come as the market, the side and what `float` reads of size and entry price; the fields
-- of records that no code sets are left out.
pub mod Updates
pub mod Detect
mod Sessions
mod Tests
use hyperliquid_smart_wallet.Prelude.{
  ℕ, ◌+◌, ◌-◌, String, Bool, true, false, not, ◌&&◌, ◌||◌, List, [], ◌∷◌, ◌++◌, map, Option, none,
  some, if◌then◌else◌, get_or, is_some, is_empty, is_nonempty, str_eq, join, contains, lookup,
  insert, length, keep, keys, leb,
}
use hyperliquid_smart_wallet.Prelude.Int.{ℤ, pos, ◌-ℤ◌, eqb_ℤ, ltb_ℤ, leb_ℤ}
use hyperliquid_smart_wallet.Float.{Float, whole, max_of, min_of, sum}
use hyperliquid_smart_wallet.Dydx.Signals.{print_ℤ}
use hyperliquid_smart_wallet.Dydx.Stream.{max_of_times, min_of_times}

pub record WalletPosition (F : Type 0) : Type 0 where
  pub address : String
  pub market_id : String
  pub side : String
  pub size : F
  pub entry_price : F
  pub opened_at_ms : ℤ
  pub last_seen_ms : ℤ
  pub notional_usdc : F

pub data EventType : Type 0 where
  open_event add_event reduce_event close_event : EventType

pub record PositionEvent (F : Type 0) : Type 0 where
  pub event_type : EventType
  pub address : String
  pub market_id : String
  pub side : String
  pub price : F
  pub size : F
  pub notional_usdc : F
  pub fill_id : Option String
  pub detected_at_ms : ℤ
  pub signal_age_ms : ℤ

pub record RawPosition (F : Type 0) : Type 0 where
  pub market : String
  pub side : String
  -- The size and the entry price, `none` where `float` raises.
  pub numbers : Option (F × F)

pub record RecentOpen (F : Type 0) : Type 0 where
  pub address : String
  pub opened_ms : ℤ
  pub price : F
  pub notional : F

-- One entry of `_recent_opens`, with its key.
pub record OpenGroup (F : Type 0) : Type 0 where
  pub market_id : String
  pub side : String
  pub entries : List (RecentOpen F)

abbrev pub Snapshot : Type 0 → Type 0
Snapshot F = List (String × WalletPosition F)

pub record ClusterDetector (F : Type 0) : Type 0 where
  pub consensus_window_ms : ℤ
  pub min_wallets : ℤ
  pub min_notional : F
  pub positions : List (String × Snapshot F)
  pub prev_positions : List (String × Snapshot F)
  pub recent_opens : List (OpenGroup F)

-- The arguments of `update_from_fill`, with the time of the clock.
pub record FillUpdate (F : Type 0) : Type 0 where
  pub address : String
  pub market_id : String
  pub side : String
  pub size : F
  pub price : F
  pub fill_id : Option String
  pub fill_ts_ms : Option ℤ
  pub clock_ms : ℤ

pub record ClusterSignal (F : Type 0) : Type 0 where
  pub market_id : String
  pub side : String
  pub wallet_count : ℕ
  pub participating_wallets : List String
  pub total_notional_usdc : F
  pub first_wallet_opened_ms : ℤ
  pub last_wallet_opened_ms : ℤ
  pub signal_age_ms : ℤ
  pub avg_entry_price : F
  pub signal_strength : F
  pub market_priority : F
  pub is_fresh : Bool
  pub cluster_id : String
  pub origin : String

-- `x or other` of integers.
abbrev pub int_or : Option ℤ → ℤ → ℤ
int_or none other = other
int_or (some n) other = if eqb_ℤ n (pos 0) then other else n

abbrev pub blocked_markets : List String
blocked_markets =
    "CASH:WTI" ∷ "CASH:TSLA" ∷ "CASH:SILVER" ∷ "CASH:GOLD" ∷ "XYZ:CL" ∷ "HYPE" ∷ "ZEC" ∷ []

pub position_key : String → String → String
position_key market side = join (market ∷ ":" ∷ side ∷ [])

module _ {F : Type 0} where
  -- `_recent_opens[(market, side)].append(entry)`, with a new list for a new key.
  pub add_open : String → String → RecentOpen F → List (OpenGroup F) → List (OpenGroup F)
  add_open market side x [] = record { market_id = market; side = side; entries = x ∷ [] } ∷ []
  add_open market side x (g ∷ gs) =
      let rest = add_open market side x gs in
      if str_eq g.market_id market && str_eq g.side side
      then record g { entries = g.entries ++ (x ∷ []) } ∷ gs
      else g ∷ rest

  abbrev pub is_current : ℤ → RecentOpen F → Bool
  is_current cutoff x = leb_ℤ cutoff x.opened_ms

  -- The opens before the cutoff go, and so does a key without opens.
  pub drop_old_opens : ℤ → List (OpenGroup F) → List (OpenGroup F)
  drop_old_opens cutoff [] = []
  drop_old_opens cutoff (g ∷ gs) =
      let rest = drop_old_opens cutoff gs in
      let left = keep (is_current cutoff) g.entries in
      if is_empty left then rest else record g { entries = left } ∷ rest

  abbrev pub count_opens : List (OpenGroup F) → ℕ
  count_opens [] = 0
  count_opens (g ∷ gs) = length g.entries + count_opens gs

  pub clear_stale_opens : ℤ → ℤ → ClusterDetector F → ℕ × ClusterDetector F
  clear_stale_opens now_ms max_age_ms d =
      let left = drop_old_opens (now_ms -ℤ max_age_ms) d.recent_opens in
      (count_opens d.recent_opens - count_opens left, record d { recent_opens = left })

  abbrev pub values : Snapshot F → List (WalletPosition F)
  values [] = []
  values (e ∷ es) = e.1 ∷ values es

  pub get_open_positions_snapshot : ClusterDetector F → List (String × List (WalletPosition F))
  get_open_positions_snapshot d = map (λ e. (e.0, values e.1)) d.positions
