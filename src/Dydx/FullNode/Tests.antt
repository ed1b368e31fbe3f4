-- ===== src/Dydx/FullNode/Tests.antt =====
-- The parser on a concrete response.
use Prim.Native.Char.{code}
use hyperliquid_smart_wallet.Prelude.{
  ℕ, ◌+◌, ◌-◌, ◌*◌, leb, ◌&&◌, if◌then◌else◌, is_nonempty, some, String, true, false, List, [], ◌∷◌,
  none, Option,
}
use hyperliquid_smart_wallet.Prelude.Int.{ℤ, pos}
use hyperliquid_smart_wallet.Dydx.FullNode.{Json}
use hyperliquid_smart_wallet.Dydx.FullNode.RoundTrip.{NodeOrder, NodeUpdate}

abbrev bought : NodeOrder
bought = record {
  owner = "dydx1abc";
  number = pos 0;
  clob_pair_id = pos 1;
  is_buy = true;
  subticks = pos 500;
  amount = pos 20;
}

abbrev sold : NodeOrder
sold = record bought { owner = "dydx1def"; is_buy = false; amount = pos 30 }

abbrev updates : List NodeUpdate
updates =
    record { exec_mode = pos 7; block_height = pos 99; orders = bought ∷ sold ∷ [] }
    ∷ record { exec_mode = pos 1; block_height = pos 99; orders = sold ∷ [] }
    ∷ []

-- The decimal digits of a text.
abbrev read_onto : ℕ → String → Option ℤ
read_onto n String.[] = some (pos n)
read_onto n (String.◌∷◌ c s) =
    let rest = read_onto (n * 10 + (code c - 48)) s in
    if leb 48 (code c) && leb (code c) 57 then rest else none

abbrev read_int : String → Option ℤ
read_int s = if is_nonempty s then read_onto 0 s else none

abbrev shows_nothing : Json → String
shows_nothing j = ""

abbrev markets : List (ℤ × String)
markets = (pos 0, "BTC-USD") ∷ (pos 1, "ETH-USD") ∷ []
