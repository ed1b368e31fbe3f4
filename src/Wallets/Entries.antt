-- ===== src/Wallets/Entries.antt =====
-- src/hl_observer/wallets/delta_utils.py: the actions and directions of stored position deltas, and
-- the entries of one coin and direction that `build_position_consensus` looks for agreement in.
use hyperliquid_smart_wallet.Prelude.{
  String, Bool, true, false, ◌&&◌, ◌||◌, List, [], ◌∷◌, Option, none, some, if◌then◌else◌, str_eq,
  join, lower, is_inside, is_nonempty, not,
}
use hyperliquid_smart_wallet.Prelude.Int.{ℤ, pos, eqb_ℤ, leb_ℤ}
use hyperliquid_smart_wallet.Float.{Float, whole}
use hyperliquid_smart_wallet.Wallets.Agreement.{EntryRow, agreement}

pub data CopyAction : Type 0 where
  open_long open_short add_action increase reduce close_long close_short unknown : CopyAction

pub data CopyDirection : Type 0 where
  long_direction short_direction : CopyDirection

-- The columns of `PositionDeltaModel` that are read.
pub record DeltaRow (F : Type 0) : Type 0 where
  pub wallet_address : String
  pub coin : String
  pub delta_type : Option String
  pub action : Option String
  pub previous_side : Option String
  pub new_side : Option String
  pub side : Option String
  pub previous_size : F
  pub current_size : F
  pub detected_at_ms : Option ℤ
  pub exchange_ts : Option ℤ

-- `x or other`
abbrev pub or_text : Option String → String → String
or_text none other = other
or_text (some s) other = if is_nonempty s then s else other

abbrev pub or_time : Option ℤ → ℤ → ℤ
or_time none other = other
or_time (some t) other = if eqb_ℤ t (pos 0) then other else t

abbrev pub is_entry : CopyAction → Bool
is_entry CopyAction.open_long = true
is_entry CopyAction.open_short = true
is_entry CopyAction.add_action = true
is_entry CopyAction.increase = true
is_entry a = false

abbrev pub is_direction : CopyDirection → Option CopyDirection → Bool
is_direction d none = false
is_direction CopyDirection.long_direction (some CopyDirection.long_direction) = true
is_direction CopyDirection.short_direction (some CopyDirection.short_direction) = true
is_direction d (some e) = false

abbrev pub first_action : Option CopyAction → CopyAction → CopyAction
first_action none other = other
first_action (some a) other = a

module _ {F : Type 0} ⦃f : Float F⦄ where
  open f use {lt}

  pub raw_text : DeltaRow F → String
  raw_text row = lower (
      join (
        or_text row.delta_type ""
        ∷ " "
        ∷ or_text row.action ""
        ∷ " "
        ∷ or_text row.previous_side ""
        ∷ " "
        ∷ or_text row.new_side ""
        ∷ " "
        ∷ or_text row.side ""
        ∷ []))

  abbrev pub side_after : DeltaRow F → String
  side_after row = lower (or_text row.new_side (or_text row.side ""))

  abbrev pub side_before : DeltaRow F → String
  side_before row = lower (or_text row.previous_side "")

  -- `"open" in raw`, where the side is clear, and `"close" in raw`.
  abbrev pub opening : DeltaRow F → Option CopyAction
  opening row =
      let raw = raw_text row in
      if is_inside "short" raw || str_eq (side_after row) "short" || lt row.current_size (whole 0)
      then some CopyAction.open_short
      else if is_inside "long" raw
          || str_eq (side_after row) "long"
          || lt (whole 0) row.current_size
      then some CopyAction.open_long
      else none

  abbrev pub closing : DeltaRow F → CopyAction
  closing row =
      let raw = raw_text row in
      if is_inside "short" raw || str_eq (side_before row) "short" || lt row.previous_size (whole 0)
      then CopyAction.close_short
      else if is_inside "long" raw
          || str_eq (side_before row) "long"
          || lt (whole 0) row.previous_size
      then CopyAction.close_long
      else CopyAction.unknown

  abbrev pub other_action : DeltaRow F → CopyAction
  other_action row =
      let raw = raw_text row in
      if is_inside "add" raw
      then CopyAction.add_action
      else if is_inside "increase" raw
      then CopyAction.increase
      else if is_inside "reduce" raw
      then CopyAction.reduce
      else if is_inside "close" raw
      then closing row
      else CopyAction.unknown

  pub copy_delta_action : DeltaRow F → CopyAction
  copy_delta_action row =
      if is_inside "open" (raw_text row)
      then first_action (opening row) (other_action row)
      else other_action row

  abbrev pub direction_after : DeltaRow F → Option CopyDirection
  direction_after row =
      if lt (whole 0) row.current_size || str_eq (side_after row) "long"
      then some CopyDirection.long_direction
      else if lt row.current_size (whole 0) || str_eq (side_after row) "short"
      then some CopyDirection.short_direction
      else none

  abbrev pub direction_before : DeltaRow F → Option CopyDirection
  direction_before row =
      if lt (whole 0) row.previous_size || str_eq (side_before row) "long"
      then some CopyDirection.long_direction
      else if lt row.previous_size (whole 0) || str_eq (side_before row) "short"
      then some CopyDirection.short_direction
      else none

  pub copy_delta_direction : DeltaRow F → CopyAction → Option CopyDirection
  copy_delta_direction row CopyAction.open_long = some CopyDirection.long_direction
  copy_delta_direction row CopyAction.open_short = some CopyDirection.short_direction
  copy_delta_direction row CopyAction.add_action = direction_after row
  copy_delta_direction row CopyAction.increase = direction_after row
  copy_delta_direction row CopyAction.close_long = some CopyDirection.long_direction
  copy_delta_direction row CopyAction.close_short = some CopyDirection.short_direction
  copy_delta_direction row CopyAction.reduce = direction_before row
  copy_delta_direction row CopyAction.unknown = none

  pub delta_event_time_ms : DeltaRow F → ℤ
  delta_event_time_ms row = or_time row.detected_at_ms (or_time row.exchange_ts (pos 0))

  -- The entries of one coin and direction, in the order of the rows.
  pub entries_of : String → CopyDirection → List (DeltaRow F) → List EntryRow
  entries_of coin d [] = []
  entries_of coin d (row ∷ rows) =
      let rest = entries_of coin d rows in
      let action = copy_delta_action row in
      let observed = delta_event_time_ms row in
      let entry : EntryRow = record {
        wallet_address = row.wallet_address;
        observed_at_ms = observed;
      } in
      if is_entry action
        && is_direction d (copy_delta_direction row action)
        && not (leb_ℤ observed (pos 0))
        && str_eq row.coin coin
      then entry ∷ rest
      else rest

  -- The entries behind the consensus on a coin and direction, where there is one.
  pub consensus_entries :
      ℤ → ℤ → String → CopyDirection → List (DeltaRow F) → Option (List EntryRow)
  consensus_entries window_ms min_wallets coin d rows =
      agreement window_ms min_wallets (entries_of coin d rows)
