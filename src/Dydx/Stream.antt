-- ===== src/Dydx/Stream.antt =====
-- hyper_smart_observer/dydx_v4/stream_consensus.py: the sliding window of the fills of a stream, and
-- the consensus of different wallets in it. A market is named by a text.
pub mod Window
pub mod Consensus
mod Cluster
mod Tests
use hyperliquid_smart_wallet.Prelude.{
  ℕ, String, Bool, true, false, ◌&&◌, List, [], ◌∷◌, ◌++◌, map, Option, none, some, if◌then◌else◌,
  str_eq, upper, is_nonempty, length, keep, keys, lookup, insert, ltb,
}
use hyperliquid_smart_wallet.Prelude.Int.{ℤ, pos, sub_ℕ, ◌-ℤ◌, ltb_ℤ, leb_ℤ, max_ℤ, min_ℤ}
use hyperliquid_smart_wallet.Prelude.Sort.{sort_by}

abbrev pub side_to_direction : String → String
side_to_direction side = if str_eq (upper side) "BUY" then "LONG" else "SHORT"

pub record StreamItem : Type 0 where
  pub ts_ms : ℤ
  pub owner : String
  pub market_key : String
  pub direction : String

pub record FillWindow : Type 0 where
  pub window_ms : ℤ
  pub maxlen : ℕ
  pub items : List StreamItem

-- `while len(items) > maxlen: popleft()`
pub pop_excess : ℕ → List StreamItem → List StreamItem
pop_excess maxlen [] = []
pop_excess maxlen (x ∷ xs) =
    let rest = pop_excess maxlen xs in if ltb maxlen (length (x ∷ xs)) then rest else x ∷ xs

-- `while items and items[0][0] < cutoff: popleft()`
pub pop_old : ℤ → List StreamItem → List StreamItem
pop_old cutoff [] = []
pop_old cutoff (x ∷ xs) =
    let rest = pop_old cutoff xs in if ltb_ℤ x.ts_ms cutoff then rest else x ∷ xs

pub add_item : String → Option String → String → ℤ → FillWindow → FillWindow
add_item owner none direction ts_ms w = w
add_item owner (some market) direction ts_ms w =
    let x : StreamItem = record {
      ts_ms = ts_ms;
      owner = owner;
      market_key = market;
      direction = direction;
    } in
    if is_nonempty owner then record w { items = pop_excess w.maxlen (w.items ++ (x ∷ [])) } else w

pub prune_window : ℤ → FillWindow → FillWindow
prune_window now_ms w = record w { items = pop_old (now_ms -ℤ w.window_ms) w.items }

-- One entry of `groups`: its key, and the latest time of each owner.
pub record Group : Type 0 where
  pub market_key : String
  pub direction : String
  pub owners : List (String × ℤ)

pub record StreamSignal : Type 0 where
  pub clob_pair_id : String
  pub direction : String
  pub wallets : List String
  pub freshest_ts : ℤ
  pub oldest_ts : ℤ

abbrev pub latest : Option ℤ → ℤ → ℤ
latest none ts = ts
latest (some prev) ts = max_ℤ prev ts

abbrev pub vote : StreamItem → List (String × ℤ) → List (String × ℤ)
vote x owners = insert x.owner (latest (lookup x.owner owners) x.ts_ms) owners

abbrev pub same_key : StreamItem → Group → Bool
same_key x g = str_eq x.market_key g.market_key && str_eq x.direction g.direction

pub join_group : StreamItem → List Group → List Group
join_group x [] =
    record { market_key = x.market_key; direction = x.direction; owners = vote x [] } ∷ []
join_group x (g ∷ gs) =
    let rest = join_group x gs in
    if same_key x g then record g { owners = vote x g.owners } ∷ gs else g ∷ rest

pub group_onto : List Group → List StreamItem → List Group
group_onto gs [] = gs
group_onto gs (x ∷ xs) = group_onto (join_group x gs) xs

-- `max` and `min` of a list that is not empty.
abbrev pub max_of_times : List ℤ → ℤ
max_of_times [] = pos 0
max_of_times (t ∷ []) = t
max_of_times (t ∷ u ∷ ts) = max_of_times (max_ℤ t u ∷ ts)

abbrev pub min_of_times : List ℤ → ℤ
min_of_times [] = pos 0
min_of_times (t ∷ []) = t
min_of_times (t ∷ u ∷ ts) = min_of_times (min_ℤ t u ∷ ts)

pub signal_of : Group → StreamSignal
signal_of g =
    let times = map (λ (x : String × ℤ). x.1) g.owners in
    record {
      clob_pair_id = g.market_key;
      direction = g.direction;
      wallets = keys g.owners;
      freshest_ts = max_of_times times;
      oldest_ts = min_of_times times;
    }

abbrev pub has_enough : ℤ → Group → Bool
has_enough min_wallets g = leb_ℤ (max_ℤ (pos 1) min_wallets) (pos (length g.owners))

-- The sort is by the number of wallets, the largest first.
abbrev pub fewest_last : StreamSignal → ℤ
fewest_last s = sub_ℕ 0 (length s.wallets)

pub detect_consensus : List StreamItem → ℤ → List StreamSignal
detect_consensus items min_wallets =
    sort_by fewest_last (map signal_of (keep (has_enough min_wallets) (group_onto [] items)))
