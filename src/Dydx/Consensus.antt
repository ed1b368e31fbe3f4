-- ===== src/Dydx/Consensus.antt =====
-- hyper_smart_observer/dydx_v4/consensus.py: the window of recent openings, and the count of
-- distinct accounts that agree. Each call is given its time.
pub mod Counting
use Prim.Native.Nat.{Ordering}
use Prim.Native.String.{compare}
use hyperliquid_smart_wallet.Prelude.{
  ℕ, ◌+◌, ◌-◌, ◌/◌, String, Bool, ◌&&◌, List, [], ◌∷◌, ◌++◌, map, ltb, ◌==◌, if◌then◌else◌, str_eq,
  length, keep, drop, insert, upper,
}
use hyperliquid_smart_wallet.Prelude.Int.{ℤ, pos, ◌-ℤ◌, leb_ℤ, max_ℤ, min_ℤ}
use hyperliquid_smart_wallet.Float.{Float, sum}

pub record Entry (F : Type 0) : Type 0 where
  pub account_key : String
  pub market_id : String
  pub side : String
  pub ts_ms : ℤ
  pub notional_usdc : F

pub record ConsensusResult (F : Type 0) : Type 0 where
  pub met : Bool
  pub distinct_accounts : ℕ
  pub required : ℤ
  pub window_ms : ℤ
  pub accounts : List String
  pub total_notional_usdc : F
  pub first_ts_ms : ℤ
  pub last_ts_ms : ℤ

pub record Tracker (F : Type 0) : Type 0 where
  pub min_wallets : ℤ
  pub window_ms : ℤ
  pub max_entries : ℕ
  pub entries : List (Entry F)

-- `sorted` on texts.
insert_sorted : String → List String → List String
insert_sorted a [] = a ∷ []
insert_sorted a (b ∷ bs) = elim (compare b a) [
  | Ordering.gt ↦ a ∷ b ∷ bs
  | _ ↦ b ∷ insert_sorted a bs
]

pub sorted : List String → List String
unfolding insert_sorted
sorted [] = []
sorted (a ∷ as_) = insert_sorted a (sorted as_)

-- `max` and `min` of a list of integers that begins with the first argument.
abbrev max_from : ℤ → List ℤ → ℤ
max_from m [] = m
max_from m (t ∷ ts) = max_from (max_ℤ m t) ts

abbrev min_from : ℤ → List ℤ → ℤ
min_from m [] = m
min_from m (t ∷ ts) = min_from (min_ℤ m t) ts

-- `max(... or [0])` and `min(... or [0])`
abbrev max_or_zero : List ℤ → ℤ
max_or_zero [] = pos 0
max_or_zero (t ∷ ts) = max_from t ts

abbrev min_or_zero : List ℤ → ℤ
min_or_zero [] = pos 0
min_or_zero (t ∷ ts) = min_from t ts

module _ {F : Type 0} where
  -- `ConsensusTracker.__init__`
  pub new_tracker : ℤ → ℤ → ℕ → Tracker F
  new_tracker min_wallets window_ms max_entries = record {
    min_wallets = max_ℤ (pos 1) min_wallets;
    window_ms = max_ℤ (pos 1000) window_ms;
    max_entries = max_entries;
    entries = [];
  }

  -- `entries[-max_entries // 2:]`: the last half of the limit, rounded up; all of them if it is 0.
  abbrev pub last_half : ℕ → List (Entry F) → List (Entry F)
  last_half max_entries es =
      if max_entries == 0 then es else drop (length es - (max_entries + 1) / 2) es

  unfoldable pub record_open : String → String → String → ℤ → F → Tracker F → Tracker F
  record_open account_key market_id side ts_ms notional_usdc t =
      let es =
        t.entries
        ++ (record {
          account_key = account_key;
          market_id = market_id;
          side = upper side;
          ts_ms = ts_ms;
          notional_usdc = notional_usdc;
        }
            ∷ []) in
      record t {
        entries = if ltb t.max_entries (length es) then last_half t.max_entries es else es;
      }

  unfoldable pub prune : ℤ → Tracker F → Tracker F
  prune now_ms t = record t {
    entries = keep (λ (e : Entry F). leb_ℤ (now_ms -ℤ t.window_ms) e.ts_ms) t.entries;
  }

  pub clear_tracker : Tracker F → Tracker F
  clear_tracker t = record t { entries = [] }

  pub tracker_size : Tracker F → ℕ
  tracker_size t = length t.entries

  abbrev pub matches : String → String → Entry F → Bool
  matches market_id side_u e = str_eq e.market_id market_id && str_eq e.side side_u

  -- `by_account`: the last matching entry of each account, in the order of the first.
  unfoldable pub index_onto : List (String × Entry F) → List (Entry F) → List (String × Entry F)
  index_onto acc [] = acc
  index_onto acc (e ∷ es) = index_onto (insert e.account_key e acc) es

  unfoldable pub by_account : String → String → Tracker F → List (String × Entry F)
  unfolding index_onto
  by_account market_id side t = index_onto [] (keep (matches market_id (upper side)) t.entries)

module _ {F : Type 0} ⦃f : Float F⦄ where
  -- The tracker after the pruning, and the answer for the required number of accounts.
  unfoldable pub check : String → String → ℤ → ℤ → Tracker F → Tracker F × ConsensusResult F
  check market_id side now_ms required t =
      let pruned = prune now_ms t in
      let indexed = by_account market_id side pruned in
      let distinct = length indexed in
      let times = map (λ (x : String × Entry F). x.1.ts_ms) indexed in
      (
        pruned,
        record {
          met = leb_ℤ required (pos distinct);
          distinct_accounts = distinct;
          required = required;
          window_ms = t.window_ms;
          accounts = sorted (map (λ (x : String × Entry F). x.0) indexed);
          total_notional_usdc = sum (map (λ (x : String × Entry F). x.1.notional_usdc) indexed);
          first_ts_ms = min_or_zero times;
          last_ts_ms = max_or_zero times;
        },
      )
