-- ===== src/Dydx/FullNode.antt =====
-- hyper_smart_observer/dydx_v4/full_node_stream.py: the parser of the responses of a full node. The
-- client that reads them from the network is left out.
pub mod RoundTrip
mod Tests
use hyperliquid_smart_wallet.Prelude.{
  ℕ, String, Bool, true, false, not, ◌&&◌, ◌||◌, List, [], ◌∷◌, ◌++◌, Option, none, some,
  if◌then◌else◌, str_eq, upper, is_nonempty, contains,
}
use hyperliquid_smart_wallet.Prelude.Int.{ℤ, pos, eqb_ℤ}

-- A decoded message: what the parser meets in a dictionary. Floats and booleans, which these
-- messages do not hold, are left out.
mutual
  pub data Json : Type 0 where
    null : Json
    number : ℤ → Json
    text : String → Json
    array : Items → Json
    object : Fields → Json

  pub data Items : Type 0 where
    no_items : Items
    item : Json → Items → Items

  pub data Fields : Type 0 where
    no_fields : Fields
    field : String → Json → Fields → Fields

pub record StreamedFill : Type 0 where
  pub owner : String
  pub subaccount_number : ℤ
  pub clob_pair_id : Option ℤ
  pub market : Option String
  pub side : String
  pub subticks : Option ℤ
  pub cum_fill_quantums : Option ℤ
  pub block_height : Json

abbrev pub is_null : Json → Bool
is_null Json.null = true
is_null j = false

abbrev pub is_object : Json → Bool
is_object (Json.object fs) = true
is_object j = false

-- `d[k]` where it is there, and `None` otherwise.
unfoldable pub get_field : String → Fields → Json
get_field key Fields.no_fields = Json.null
get_field key (Fields.field name value rest) =
    let later = get_field key rest in if str_eq name key then value else later

-- `_first` with one key, and with two.
abbrev pub first_of : String → Json → Json
first_of key (Json.object fs) = get_field key fs
first_of key j = Json.null

abbrev pub first_of_two : String → String → Json → Json
first_of_two key other j =
    let value = first_of key j in if is_null value then first_of other j else value

-- The items of `x or []`: of anything that is no list, none. Amounts that are no list, which the code
-- would index, are left out.
abbrev pub items_of : Json → Items
items_of (Json.array xs) = xs
items_of j = Items.no_items

-- `clob_to_market.get(clob)`
abbrev pub market_named : List (ℤ × String) → ℤ → Option String
market_named [] clob = none
market_named ((id, name) ∷ rest) clob =
    let later = market_named rest clob in if eqb_ℤ id clob then some name else later

abbrev pub market_of : List (ℤ × String) → Option ℤ → Option String
market_of names none = none
market_of names (some clob) = market_named names clob

-- `int(text)` and `str(value or "")` of what is neither null nor a text are parameters.
module _ (read_int : String → Option ℤ) (show : Json → String) where
  -- `int(value)`, `None` where it raises.
  abbrev pub int_of : Json → Option ℤ
  int_of (Json.number n) = some n
  int_of (Json.text s) = read_int s
  int_of j = none

  -- `int(value or 0)`, 0 where it raises.
  abbrev pub int_or_zero : Json → ℤ
  int_or_zero (Json.number n) = n
  int_or_zero (Json.text s) = elim (read_int s) [ none ↦ pos 0 | some n ↦ n ]
  int_or_zero j = pos 0

  abbrev pub norm_side : Json → String
  norm_side Json.null = ""
  norm_side (Json.number n) =
      if eqb_ℤ n (pos 1)
      then "BUY"
      else if eqb_ℤ n (pos 2)
      then "SELL"
      else if eqb_ℤ n (pos 0)
      then ""
      else upper (show (Json.number n))
  norm_side (Json.text s) =
      if contains s ("1" ∷ "SIDE_BUY" ∷ "BUY" ∷ "buy" ∷ [])
      then "BUY"
      else if contains s ("2" ∷ "SIDE_SELL" ∷ "SELL" ∷ "sell" ∷ [])
      then "SELL"
      else upper s
  norm_side j = upper (show j)

  -- The owner of an order, where there is a text that is not empty.
  abbrev pub owner_text : Json → Option String
  owner_text (Json.text s) = if is_nonempty s then some s else none
  owner_text j = none

  abbrev pub order_id : Json → Json
  order_id order = first_of_two "orderId" "order_id" order

  abbrev pub subaccount_id : Json → Json
  subaccount_id order = first_of_two "subaccountId" "subaccount_id" (order_id order)

  pub build_fill : List (ℤ × String) → Json → Json → Option ℤ → String → StreamedFill
  build_fill names height order amount owner =
      let clob = int_of (first_of_two "clobPairId" "clob_pair_id" (order_id order)) in
      record {
        owner = owner;
        subaccount_number = int_or_zero (first_of "number" (subaccount_id order));
        clob_pair_id = clob;
        market = market_of names clob;
        side = norm_side (first_of "side" order);
        subticks = int_of (first_of "subticks" order);
        cum_fill_quantums = amount;
        block_height = height;
      }

  abbrev pub fill_of_owner :
      List (ℤ × String) → Json → Json → Option ℤ → Option String → List StreamedFill
  fill_of_owner names height order amount none = []
  fill_of_owner names height order amount (some owner) =
      build_fill names height order amount owner ∷ []

  -- One round of the loop; an order that is no dictionary has no owner either.
  abbrev pub fill_of_order : List (ℤ × String) → Json → Json → Option ℤ → List StreamedFill
  fill_of_order names height order amount =
      fill_of_owner names height order amount (owner_text (first_of "owner" (subaccount_id order)))

  -- The amount at the place of an order, and the amounts after it.
  abbrev pub amount_of : Items → Option ℤ
  amount_of Items.no_items = none
  amount_of (Items.item j rest) = int_of j

  abbrev pub rest_of : Items → Items
  rest_of Items.no_items = Items.no_items
  rest_of (Items.item j rest) = rest

  pub fills_of_orders : List (ℤ × String) → Json → Items → Items → List StreamedFill
  fills_of_orders names height Items.no_items amounts = []
  fills_of_orders names height (Items.item order orders) amounts =
      fill_of_order names height order (amount_of amounts)
      ++ fills_of_orders names height orders (rest_of amounts)

  pub parse_stream_fill : List (ℤ × String) → Json → Json → List StreamedFill
  parse_stream_fill names height fill =
      fills_of_orders names height (items_of (first_of "orders" fill))
        (items_of (first_of_two "fillAmounts" "fill_amounts" fill))

  -- `exec_mode in (7, "7")`
  abbrev pub is_final : Json → Bool
  is_final (Json.number n) = eqb_ℤ n (pos 7)
  is_final (Json.text s) = str_eq s "7"
  is_final j = false

  abbrev pub fills_of_update : List (ℤ × String) → Bool → Json → List StreamedFill
  fills_of_update names only_finalized update =
      let fill = first_of_two "orderFill" "order_fill" update in
      let height = first_of_two "blockHeight" "block_height" update in
      if only_finalized && not (is_final (first_of_two "execMode" "exec_mode" update))
      then []
      else if is_object fill
      then parse_stream_fill names height fill
      else []

  pub fills_of_updates : List (ℤ × String) → Bool → Items → List StreamedFill
  fills_of_updates names only_finalized Items.no_items = []
  fills_of_updates names only_finalized (Items.item update updates) =
      fills_of_update names only_finalized update ++ fills_of_updates names only_finalized updates

  pub parse_stream_response : List (ℤ × String) → Bool → Json → List StreamedFill
  parse_stream_response names only_finalized response =
      fills_of_updates names only_finalized (items_of (first_of "updates" response))
