-- ===== src/Wallets/Delta.antt =====
-- src/hl_observer/wallets/position_delta_engine.py: what one public fill does to a position. The
-- payload that a record carries along is left out.
pub mod Eligible
pub mod Classify
use hyperliquid_smart_wallet.Prelude.{
  String, Bool, true, false, not, ◌&&◌, ◌||◌, List, [], ◌∷◌, ◌++◌, Option, none, some,
  if◌then◌else◌, get_or, str_eq, upper, lower, strip, is_inside, is_nonempty, contains, join,
}
use hyperliquid_smart_wallet.Prelude.Int.{ℤ, pos, eqb_ℤ}
use hyperliquid_smart_wallet.Float.{Float, whole, max_of, min_of}

pub data PositionSide : Type 0 where
  long short flat unknown_side : PositionSide

pub data PositionAction : Type 0 where
  opens adds reduces closes flips unknown_action : PositionAction

-- What the code reads out of the dictionary of a fill: for each value the first of its keys that is
-- present, `none` where none is; a price, a size or a start position that `float` refuses is `none`.
pub record PublicFill (F : Type 0) : Type 0 where
  pub time : Option ℤ
  pub coin : Option String
  pub price : Option F
  pub size : Option F
  pub start_position : Option F
  pub side : Option String
  pub direction : Option String
  pub source : Option String

pub record PositionDeltaRecord (F : Type 0) : Type 0 where
  pub wallet_address : String
  pub coin : String
  pub previous_side : PositionSide
  pub new_side : PositionSide
  pub previous_size : F
  pub new_size : F
  pub delta_size : F
  pub delta_notional_usdc : Option F
  pub action : PositionAction
  pub exchange_ts : Option ℤ
  pub side : Option String
  pub price : Option F
  pub fill_size : Option F
  pub confidence_score : F
  pub is_paper_eligible : Bool
  pub source : String
  pub notes : List String

abbrev pub is_none {ℓ} : {A : Type ℓ} → Option A → Bool
is_none none = true
is_none (some x) = false

abbrev pub is_flat : PositionSide → Bool
is_flat PositionSide.flat = true
is_flat s = false

-- `side in {LONG, SHORT}`
abbrev pub is_held : PositionSide → Bool
is_held PositionSide.long = true
is_held PositionSide.short = true
is_held s = false

abbrev pub same_side : PositionSide → PositionSide → Bool
same_side PositionSide.long PositionSide.long = true
same_side PositionSide.short PositionSide.short = true
same_side PositionSide.flat PositionSide.flat = true
same_side PositionSide.unknown_side PositionSide.unknown_side = true
same_side a b = false

-- `x or None` of an integer.
abbrev pub nonzero : ℤ → Option ℤ
nonzero n = if eqb_ℤ n (pos 0) then none else some n

-- `x or other` of texts that may be missing.
abbrev pub text_or : Option String → String → String
text_or none other = other
text_or (some s) other = if is_nonempty s then s else other

-- `[note] if condition`
abbrev pub note_if : Bool → String → List String
note_if b note = if b then note ∷ [] else []

module _ {F : Type 0} ⦃f : Float F⦄ where
  open f use {add, sub, mul, neg, abs, lt, le, decimal}

  pub side_of_size : F → PositionSide
  side_of_size size =
      if lt (whole 0) size
      then PositionSide.long
      else if lt size (whole 0)
      then PositionSide.short
      else PositionSide.flat

  abbrev pub position_side : Option F → PositionSide
  position_side none = PositionSide.unknown_side
  position_side (some size) = side_of_size size

  abbrev pub fill_timestamp : PublicFill F → ℤ
  fill_timestamp x = get_or x.time (pos 0)

  abbrev pub fill_coin : PublicFill F → String
  fill_coin x = upper (text_or x.coin "UNKNOWN")

  abbrev pub signed_size : Option String → Option String → F → Option F
  signed_size raw_side raw_direction size =
      let side = lower (strip (text_or raw_side "")) in
      let direction = lower (strip (text_or raw_direction "")) in
      if contains side ("b" ∷ "buy" ∷ "bid" ∷ [])
      then some (abs size)
      else if contains side ("a" ∷ "s" ∷ "sell" ∷ "ask" ∷ [])
      then some (neg (abs size))
      else if is_inside "open long" direction || is_inside "close short" direction
      then some (abs size)
      else if is_inside "open short" direction || is_inside "close long" direction
      then some (neg (abs size))
      else none

  abbrev pub signed_from : PublicFill F → Option F → Option F
  signed_from x none = none
  signed_from x (some size) = signed_size x.side x.direction size

  pub signed_fill_size : PublicFill F → Option F
  signed_fill_size x = signed_from x x.size

  pub classify_action : F → F → Bool → PositionAction
  classify_action previous_size new_size direction_unclear =
      let previous_side = side_of_size previous_size in
      let new_side = side_of_size new_size in
      if direction_unclear
      then PositionAction.unknown_action
      else if is_flat previous_side && is_held new_side
      then PositionAction.opens
      else if is_held previous_side && is_flat new_side
      then PositionAction.closes
      else if is_held previous_side && is_held new_side
      then (if not (same_side previous_side new_side)
          then PositionAction.flips
          else if lt (abs previous_size) (abs new_size)
          then PositionAction.adds
          else if lt (abs new_size) (abs previous_size)
          then PositionAction.reduces
          else PositionAction.unknown_action)
      else PositionAction.unknown_action

  abbrev pub score_before_clamp : Bool → Bool → Bool → F
  score_before_clamp has_start has_price has_time =
      let base = if has_start then decimal 95 2 else decimal 65 2 in
      let priced = if has_price then base else sub base (decimal 15 2) in
      if has_time then priced else sub priced (decimal 10 2)

  pub confidence_for_fill : PublicFill F → Bool → Bool → F × List String
  confidence_for_fill x direction_unclear has_start_position =
      let no_time = eqb_ℤ (fill_timestamp x) (pos 0) in
      let notes =
        note_if direction_unclear "direction_unclear"
        ++ note_if (is_none x.size) "missing_size"
        ++ note_if (is_none x.price) "missing_price"
        ++ note_if no_time "missing_timestamp"
        ++ note_if (not has_start_position) "missing_start_position" in
      let score = score_before_clamp has_start_position (not (is_none x.price)) (not no_time) in
      if direction_unclear || is_none x.size
      then (decimal 2 1, notes)
      else (max_of (decimal 1 1) (min_of (decimal 10 1) score), notes)

  -- The position before the fill: as the fill says, as it is known, or none.
  abbrev pub effective_previous : Option F → Option F → F
  effective_previous (some start) known = start
  effective_previous none (some known) = known
  effective_previous none none = decimal 0 1

  abbrev pub effective_new : F → Option F → F
  effective_new previous none = previous
  effective_new previous (some signed) = add previous signed

  abbrev pub size_of_fill : Option F → Option F → Option F
  size_of_fill none size = size
  size_of_fill (some signed) size = some (abs signed)

  abbrev pub notional_at : F → Option F → Option F
  notional_at change none = none
  notional_at change (some price) = some (mul (abs change) price)

  unfoldable pub build_position_delta_from_fill :
      String → PublicFill F → Option F → PositionDeltaRecord F
  build_position_delta_from_fill wallet_address x known =
      let signed = signed_fill_size x in
      let direction_unclear = is_none signed in
      let previous = effective_previous x.start_position known in
      let new = effective_new previous signed in
      let confidence = confidence_for_fill x direction_unclear (not (is_none x.start_position)) in
      let source = text_or x.source "user_fills" in
      record {
        wallet_address = wallet_address;
        coin = fill_coin x;
        previous_side = side_of_size previous;
        new_side = if direction_unclear then PositionSide.unknown_side else side_of_size new;
        previous_size = previous;
        new_size = new;
        delta_size = sub new previous;
        delta_notional_usdc = notional_at (sub new previous) x.price;
        action = classify_action previous new direction_unclear;
        exchange_ts = nonzero (fill_timestamp x);
        side = x.side;
        price = x.price;
        fill_size = size_of_fill signed x.size;
        confidence_score = confidence.0;
        is_paper_eligible = le (decimal 7 1) confidence.0;
        source = source;
        notes =
            confidence.1
            ++ note_if (not (str_eq source "user_fills")) (join ("source:" ∷ source ∷ []));
      }
