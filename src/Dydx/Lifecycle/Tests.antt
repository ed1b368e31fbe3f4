-- ===== src/Dydx/Lifecycle/Tests.antt =====
-- The lifecycle of one account on concrete fills.
use hyperliquid_smart_wallet.Prelude.{
  ℕ, String, ◌≡◌, refl, true, false, [], none, some, if◌then◌else◌, str_eq, lookup, print,
}
use hyperliquid_smart_wallet.Prelude.Int.{ℤ, pos, ◌+ℤ◌, ◌-ℤ◌}
use hyperliquid_smart_wallet.Float.Fixed.{fixed, fixed-IsOrdered}
use hyperliquid_smart_wallet.Dydx.Models.{
  PositionSide, LifecycleEvent, OrderSide, NormalizedFill, is_close,
}
use hyperliquid_smart_wallet.Dydx.Lifecycle.{
  Engine, infer_lifecycle, position_key, fill_key, size_of, size_after_fill, process_fill,
  update_positions, new_position, touch, accept, apply_event,
}
use hyperliquid_smart_wallet.Dydx.Lifecycle.Keeps.{
  IsValid, held_size, process_fill-IsValid, process_fill_accepted,
}

abbrev fill_of : OrderSide → ℕ → ℕ → NormalizedFill ℤ
fill_of side size price = record {
  fill_id = "f1";
  account_address = "dydx1abc";
  subaccount_number = 0;
  market_id = "BTC-USD";
  side = side;
  size = fixed.decimal size 0;
  price = fixed.decimal price 0;
  created_at_ms = pos 1000;
}

abbrev empty : Engine ℤ
empty = record { network = "testnet"; positions = []; orphan_events = [] }

abbrev bought : NormalizedFill ℤ
bought = fill_of OrderSide.buy 2 100

abbrev sold : NormalizedFill ℤ
sold = fill_of OrderSide.sell 2 110

-- The engine after a first buy.
abbrev holding : Engine ℤ
holding = (process_fill (pos 1001) bought PositionSide.long empty).0

key_text : fill_key empty bought PositionSide.long ≡ "dydx_v4|testnet|dydx1abc|0|BTC-USD|LONG"
unfolding position_key print
key_text = refl

opens_then_closes :
    let (e, r) = process_fill (pos 1002) sold PositionSide.long holding in
    (r.event ≡ LifecycleEvent.closed) × (r.accepted ≡ true) × (e.positions ≡ [])
unfolding process_fill position_key print size_after_fill infer_lifecycle apply_event accept
    update_positions new_position touch ◌+ℤ◌ ◌-ℤ◌
opens_then_closes = (refl, refl, refl)

holding-IsValid : IsValid holding
holding-IsValid = process_fill-IsValid fixed-IsOrdered (pos 1001) bought PositionSide.long empty tt

process_fill-IsValid_example : IsValid (process_fill (pos 1002) sold PositionSide.long holding).0
process_fill-IsValid_example =
    process_fill-IsValid fixed-IsOrdered (pos 1002) sold PositionSide.long holding holding-IsValid

process_fill_accepted_example :
    let (e', r) = process_fill (pos 1002) sold PositionSide.long holding in
    let key = fill_key holding sold PositionSide.long in
    (r.size_before ≡ size_of (lookup key holding.positions))
    × (r.size_after ≡ size_after_fill PositionSide.long sold r.size_before)
    × (held_size (lookup key e'.positions) ≡ (if is_close r.event then none else some r.size_after))
    × ((other : String)
        → str_eq key other ≡ false
        → lookup other e'.positions ≡ lookup other holding.positions)
    × (e'.orphan_events ≡ holding.orphan_events)
process_fill_accepted_example =
    process_fill_accepted (pos 1002) sold PositionSide.long holding holding-IsValid
      opens_then_closes.1
