-- ===== src/Wallets/Rebuild.antt =====
-- src/hl_observer/wallets/position_rebuilder.py: the positions of a wallet, rebuilt coin by coin from
-- its fills. The sorted sets of notes and the last payload of each coin are left out.
pub mod Replay
pub mod Closed
use hyperliquid_smart_wallet.Prelude.{
  ℕ, String, Bool, true, false, ◌&&◌, ◌||◌, List, [], ◌∷◌, ◌++◌, map, Option, none, some,
  if◌then◌else◌, get_or, lookup, insert, length, contains, is_empty,
}
use hyperliquid_smart_wallet.Prelude.Int.{ℤ, pos}
use hyperliquid_smart_wallet.Prelude.Sort.{sort_by}
use hyperliquid_smart_wallet.Float.{Float, whole, sum}
use hyperliquid_smart_wallet.Wallets.Delta.{
  PositionSide, PositionAction, PublicFill, PositionDeltaRecord, is_held, position_side,
  side_of_size, fill_timestamp, fill_coin, build_position_delta_from_fill, nonzero,
}

pub data RebuildStatus : Type 0 where
  open_position closed_position incomplete : RebuildStatus

pub record RebuiltPosition (F : Type 0) : Type 0 where
  pub wallet_address : String
  pub coin : String
  pub side : PositionSide
  pub size : F
  pub entry_px_estimated : Option F
  pub last_px : Option F
  pub notional_usdc : Option F
  pub confidence_score : F
  pub opened_at_ms : Option ℤ
  pub updated_at_ms : Option ℤ
  pub status : RebuildStatus

-- `_CoinState`
pub record CoinState (F : Type 0) : Type 0 where
  pub size : F
  pub entry_px_estimated : Option F
  pub opened_at_ms : Option ℤ
  pub last_px : Option F
  pub updated_at_ms : Option ℤ
  pub confidence_scores : List F
  pub notes : List String

pub record PositionRebuildResult (F : Type 0) : Type 0 where
  pub wallet_address : String
  pub positions : List (RebuiltPosition F)
  pub deltas : List (PositionDeltaRecord F)
  pub sorted_fills : List (PublicFill F)
  pub confidence_score : F

-- `x or other` of times that may be missing; a delta has no time 0.
abbrev pub time_or : Option ℤ → Option ℤ → Option ℤ
time_or none other = other
time_or (some t) other = some t

abbrev pub opened_after : PositionAction → Option ℤ → Option ℤ → Option ℤ
opened_after PositionAction.opens now opened = now
opened_after PositionAction.flips now opened = now
opened_after a now opened = opened

abbrev pub is_unknown_action : PositionAction → Bool
is_unknown_action PositionAction.unknown_action = true
is_unknown_action a = false

-- The states and the deltas so far.
pub record Rebuild (F : Type 0) : Type 0 where
  pub states : List (String × CoinState F)
  pub deltas : List (PositionDeltaRecord F)

module _ {F : Type 0} ⦃f : Float F⦄ where
  open f use {add, mul, div, abs, lt, feq, decimal}

  pub new_coin_state : CoinState F
  new_coin_state = record {
    size = decimal 0 1;
    entry_px_estimated = none;
    opened_at_ms = none;
    last_px = none;
    updated_at_ms = none;
    confidence_scores = [];
    notes = [];
  }

  pub sort_fills_by_time : List (PublicFill F) → List (PublicFill F)
  sort_fills_by_time = sort_by fill_timestamp

  -- `fill_price(fill) or state.last_px`
  abbrev pub price_or : Option F → Option F → Option F
  price_or none other = other
  price_or (some p) other = if feq p (whole 0) then other else some p

  -- `state.last_px = price`, where there is one.
  abbrev pub price_if_any : Option F → Option F → Option F
  price_if_any none other = other
  price_if_any (some p) other = some p

  -- The entry price after an ADD to `old_size` of the size of the fill.
  abbrev pub averaged_entry : F → F → Option F → Option F → Option F
  averaged_entry old_size size price none = price
  averaged_entry old_size size none (some entry) = some entry
  averaged_entry old_size size (some price) (some entry) =
      let previous_abs = abs old_size in
      let added_abs = abs size in
      let denominator = add previous_abs added_abs in
      if lt (whole 0) denominator
      then some (div (add (mul entry previous_abs) (mul price added_abs)) denominator)
      else some entry

  abbrev pub entry_after : PositionAction → F → F → Option F → Option F → Option F
  entry_after PositionAction.opens old_size size price entry = price
  entry_after PositionAction.flips old_size size price entry = price
  entry_after PositionAction.adds old_size size price entry =
      averaged_entry old_size size price entry
  entry_after PositionAction.closes old_size size price entry = none
  entry_after a old_size size price entry = entry

  -- One round of the loop, on the state of the coin of the fill.
  pub apply_delta : PublicFill F → PositionDeltaRecord F → CoinState F → CoinState F
  apply_delta x d s =
      let seen : CoinState F = record s {
        confidence_scores = s.confidence_scores ++ (d.confidence_score ∷ []);
        notes = s.notes ++ d.notes;
        updated_at_ms = time_or d.exchange_ts s.updated_at_ms;
      } in
      if is_unknown_action d.action
      then record seen { last_px = price_or x.price s.last_px }
      else record seen {
        size = d.new_size;
        last_px = price_if_any x.price s.last_px;
        opened_at_ms = opened_after d.action d.exchange_ts s.opened_at_ms;
        entry_px_estimated =
            entry_after d.action s.size (get_or x.size (decimal 0 1)) x.price s.entry_px_estimated;
      }

  -- `previous_size`: as the fill says, else as the state has it.
  pub delta_of : String → PublicFill F → CoinState F → PositionDeltaRecord F
  delta_of wallet x s =
      build_position_delta_from_fill wallet x (some (get_or x.start_position s.size))

  pub apply_fill : String → PublicFill F → CoinState F → CoinState F
  apply_fill wallet x s = apply_delta x (delta_of wallet x s) s

  pub rebuild_step : String → PublicFill F → Rebuild F → Rebuild F
  rebuild_step wallet x r =
      let s = get_or (lookup (fill_coin x) r.states) new_coin_state in
      record {
        states = insert (fill_coin x) (apply_fill wallet x s) r.states;
        deltas = r.deltas ++ (delta_of wallet x s ∷ []);
      }

  pub rebuild_onto : String → List (PublicFill F) → Rebuild F → Rebuild F
  rebuild_onto wallet [] r = r
  rebuild_onto wallet (x ∷ xs) r = rebuild_onto wallet xs (rebuild_step wallet x r)

  abbrev pub mean : List F → F
  mean [] = decimal 0 1
  mean (x ∷ xs) = div (sum (x ∷ xs)) (whole (length (x ∷ xs)))

  abbrev pub notional_of : F → Option F → Option F
  notional_of size none = none
  notional_of size (some price) = some (mul (abs size) price)

  -- `_position_from_state`
  pub position_from_state : String → String → CoinState F → RebuiltPosition F
  position_from_state wallet coin s =
      let side = side_of_size s.size in
      let confidence = mean s.confidence_scores in
      record {
        wallet_address = wallet;
        coin = coin;
        side = side;
        size = s.size;
        entry_px_estimated = s.entry_px_estimated;
        last_px = s.last_px;
        notional_usdc = notional_of s.size s.last_px;
        confidence_score = confidence;
        opened_at_ms = s.opened_at_ms;
        updated_at_ms = s.updated_at_ms;
        status =
            if lt confidence (decimal 5 1) || contains "direction_unclear" s.notes
            then RebuildStatus.incomplete
            else if is_held side
            then RebuildStatus.open_position
            else RebuildStatus.closed_position;
      }

  abbrev pub positions_of : String → List (String × CoinState F) → List (RebuiltPosition F)
  positions_of wallet [] = []
  positions_of wallet ((coin, s) ∷ rest) =
      position_from_state wallet coin s ∷ positions_of wallet rest

  abbrev pub scores_of : List (String × CoinState F) → List F
  scores_of [] = []
  scores_of ((coin, s) ∷ rest) = s.confidence_scores ++ scores_of rest

  pub rebuild_positions_from_fills : String → List (PublicFill F) → PositionRebuildResult F
  rebuild_positions_from_fills wallet fills =
      let sorted = sort_fills_by_time fills in
      let r = rebuild_onto wallet sorted (record { states = []; deltas = [] }) in
      record {
        wallet_address = wallet;
        positions = positions_of wallet r.states;
        deltas = r.deltas;
        sorted_fills = sorted;
        confidence_score = mean (scores_of r.states);
      }
