-- ===== src/Dydx/FullNode/RoundTrip.antt =====
-- hyper_smart_observer/dydx_v4/full_node_stream.py: the parser reads back messages laid out as in
-- tests/dydx_v4/test_full_node_stream.py, in either spelling of the keys: subticks and amounts are
-- decimal texts, the other numbers are numbers.
use hyperliquid_smart_wallet.Prelude.{
  ◌≡◌, String, Bool, true, not, ◌&&◌, List, [], ◌∷◌, ◌++◌, map, Option, some, if◌then◌else◌,
  is_nonempty, All,
}
use hyperliquid_smart_wallet.Prelude.Int.{ℤ, pos, eqb_ℤ}
use hyperliquid_smart_wallet.Dydx.FullNode.{Json, Items, Fields, StreamedFill, market_of}
use hyperliquid_smart_wallet.Dydx.Signals.{print_ℤ}

-- One order of a fill with its amount, and one update.
pub record NodeOrder : Type 0 where
  pub owner : String
  pub number : ℤ
  pub clob_pair_id : ℤ
  pub is_buy : Bool
  pub subticks : ℤ
  pub amount : ℤ

pub record NodeUpdate : Type 0 where
  pub exec_mode : ℤ
  pub block_height : ℤ
  pub orders : List NodeOrder

-- The keys are in camelCase or in snake_case.
pub data Spelling : Type 0 where
  camel snake : Spelling

abbrev pub spell : Spelling → String → String → String
spell Spelling.camel a b = a
spell Spelling.snake a b = b

abbrev one_field : String → Json → Json
one_field key value = Json.object (Fields.field key value Fields.no_fields)

abbrev pub encode_order : Spelling → NodeOrder → Json
encode_order sp x =
    let sub = Json.object (
      Fields.field "owner" (Json.text x.owner)
        (Fields.field "number" (Json.number x.number) Fields.no_fields)) in
    let id = Json.object (
      Fields.field (spell sp "subaccountId" "subaccount_id") sub (
        Fields.field (spell sp "clobPairId" "clob_pair_id") (Json.number x.clob_pair_id)
          Fields.no_fields)) in
    Json.object (
      Fields.field (spell sp "orderId" "order_id") id (
        Fields.field "side" (Json.text (if x.is_buy then "SIDE_BUY" else "SIDE_SELL"))
          (Fields.field "subticks" (Json.text (print_ℤ x.subticks)) Fields.no_fields)))

abbrev pub encode_orders : Spelling → List NodeOrder → Items
encode_orders sp [] = Items.no_items
encode_orders sp (x ∷ xs) = Items.item (encode_order sp x) (encode_orders sp xs)

abbrev pub encode_amounts : List NodeOrder → Items
encode_amounts [] = Items.no_items
encode_amounts (x ∷ xs) = Items.item (Json.text (print_ℤ x.amount)) (encode_amounts xs)

abbrev pub encode_update : Spelling → NodeUpdate → Json
encode_update sp u =
    let fill = Json.object (
      Fields.field "orders" (Json.array (encode_orders sp u.orders)) (
        Fields.field (spell sp "fillAmounts" "fill_amounts") (Json.array (encode_amounts u.orders))
          Fields.no_fields)) in
    Json.object (
      Fields.field (spell sp "blockHeight" "block_height") (Json.number u.block_height) (
        Fields.field (spell sp "execMode" "exec_mode") (Json.number u.exec_mode)
          (Fields.field (spell sp "orderFill" "order_fill") fill Fields.no_fields)))

abbrev pub encode_updates : Spelling → List NodeUpdate → Items
encode_updates sp [] = Items.no_items
encode_updates sp (u ∷ us) = Items.item (encode_update sp u) (encode_updates sp us)

abbrev pub encode_response : Spelling → List NodeUpdate → Json
encode_response sp us = one_field "updates" (Json.array (encode_updates sp us))

-- The fill that an order stands for.
abbrev pub fill_of : List (ℤ × String) → ℤ → NodeOrder → StreamedFill
fill_of names height x = record {
  owner = x.owner;
  subaccount_number = x.number;
  clob_pair_id = some x.clob_pair_id;
  market = market_of names (some x.clob_pair_id);
  side = if x.is_buy then "BUY" else "SELL";
  subticks = some x.subticks;
  cum_fill_quantums = some x.amount;
  block_height = Json.number height;
}

-- The fills of the updates that count.
abbrev pub fills_of : List (ℤ × String) → Bool → List NodeUpdate → List StreamedFill
fills_of names only_finalized [] = []
fills_of names only_finalized (u ∷ us) =
    let rest = fills_of names only_finalized us in
    if only_finalized && not (eqb_ℤ u.exec_mode (pos 7))
    then rest
    else map (fill_of names u.block_height) u.orders ++ rest

module _ (read_int : String → Option ℤ) (show : Json → String) (names : List (ℤ × String)) where
  -- The order has an owner, and `int` reads its two decimal texts as the numbers that they print.
  abbrev pub IsReadable : NodeOrder → Type 0
  IsReadable x =
      (is_nonempty x.owner ≡ true)
      × (read_int (print_ℤ x.subticks) ≡ some x.subticks)
      × (read_int (print_ℤ x.amount) ≡ some x.amount)

  abbrev pub HasReadable : NodeUpdate → Type 0
  HasReadable u = All IsReadable u.orders
