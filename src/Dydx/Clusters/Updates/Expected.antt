-- ===== src/Dydx/Clusters/Updates/Expected.antt =====
-- hyper_smart_observer/dydx_v4/cluster_detector.py: the events that a position before and a position now call for.
use hyperliquid_smart_wallet.Prelude.{String, List, [], ◌∷◌, Option, none, some, if◌then◌else◌}
use hyperliquid_smart_wallet.Prelude.Int.{ℤ, pos}
use hyperliquid_smart_wallet.Float.{Float, whole}
use hyperliquid_smart_wallet.Dydx.Clusters.{WalletPosition, EventType, PositionEvent}

module _ {F : Type 0} ⦃f : Float F⦄ where
  open f use {sub, mul, abs, lt, decimal}

  -- What the events at a key must be, from the position before and the position now.
  abbrev pub expected :
      String → ℤ → Option (WalletPosition F) → Option (WalletPosition F) → List (PositionEvent F)
  expected address now_ms none none = []
  expected address now_ms none (some p) =
      record {
        event_type = EventType.open_event;
        address = address;
        market_id = p.market_id;
        side = p.side;
        price = p.entry_price;
        size = p.size;
        notional_usdc = p.notional_usdc;
        fill_id = none;
        detected_at_ms = now_ms;
        signal_age_ms = pos 0;
      }
      ∷ []
  expected address now_ms (some b) none =
      record {
        event_type = EventType.close_event;
        address = address;
        market_id = b.market_id;
        side = b.side;
        price = b.entry_price;
        size = b.size;
        notional_usdc = b.notional_usdc;
        fill_id = none;
        detected_at_ms = now_ms;
        signal_age_ms = pos 0;
      }
      ∷ []
  expected address now_ms (some b) (some p) =
      let moved = abs (sub p.size b.size) in
      if lt (decimal 1 8) moved
      then record {
        event_type =
            if lt (whole 0) (sub p.size b.size)
            then EventType.add_event
            else EventType.reduce_event;
        address = address;
        market_id = p.market_id;
        side = p.side;
        price = p.entry_price;
        size = moved;
        notional_usdc = mul moved p.entry_price;
        fill_id = none;
        detected_at_ms = now_ms;
        signal_age_ms = pos 0;
      }
        ∷ []
      else []
