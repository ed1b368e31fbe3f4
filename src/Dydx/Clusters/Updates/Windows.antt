-- ===== src/Dydx/Clusters/Updates/Windows.antt =====
-- hyper_smart_observer/dydx_v4/cluster_detector.py: the window of opens under positions and fills.
use hyperliquid_smart_wallet.Prelude.{
  String, Bool, true, false, List, [], ◌∷◌, Option, if◌then◌else◌, arith,
}
use hyperliquid_smart_wallet.Prelude.Int.{ℤ}
use hyperliquid_smart_wallet.Float.{Float}
use hyperliquid_smart_wallet.Dydx.Clusters.{
  RawPosition, RecentOpen, OpenGroup, Snapshot, ClusterDetector, FillUpdate, add_open,
}
use hyperliquid_smart_wallet.Dydx.Clusters.Updates.{
  record_opens, update_positions, update_from_fill,
}
use hyperliquid_smart_wallet.Dydx.Clusters.Detect.Opens.{IsKeyed, add_open-IsKeyed}

module _ {F : Type 0} where
  with_opens-IsKeyed :
      (b : Bool) (opens : List (OpenGroup F)) (d : ClusterDetector F)
      → IsKeyed opens
      → IsKeyed d.recent_opens
      → IsKeyed (if b then record d { recent_opens = opens } else d).recent_opens
  with_opens-IsKeyed false opens d h k = k
  with_opens-IsKeyed true opens d h k = h

module _ {F : Type 0} ⦃f : Float F⦄ where
  record_opens-IsKeyed :
      (address : String) (now_ms : ℤ) (prev new : Snapshot F) (gs : List (OpenGroup F))
      → IsKeyed gs
      → IsKeyed (record_opens address now_ms prev new gs)
  unfolding record_opens
  record_opens-IsKeyed address now_ms prev [] gs k = k
  record_opens-IsKeyed address now_ms prev ((key, p) ∷ new) gs k =
      let x : RecentOpen F = record {
        address = address;
        opened_ms = now_ms;
        price = p.entry_price;
        notional = p.notional_usdc;
      } in
      let opened = add_open p.market_id p.side x gs in
      ground (
        arith,
        record_opens-IsKeyed address now_ms prev new gs k,
        record_opens-IsKeyed address now_ms prev new opened
            (add_open-IsKeyed p.market_id p.side x gs k),
      )

  pub update_positions-IsKeyed :
      (address : String) (raw : List (RawPosition F)) (fetched_at_ms : Option ℤ) (clock_ms : ℤ)
      (d : ClusterDetector F)
      → IsKeyed d.recent_opens
      → IsKeyed (update_positions address raw fetched_at_ms clock_ms d).1.recent_opens
  unfolding update_positions
  update_positions-IsKeyed address raw fetched_at_ms clock_ms d k =
      record_opens-IsKeyed address _ _ _ d.recent_opens k

  pub update_from_fill-IsKeyed :
      (x : FillUpdate F) (d : ClusterDetector F)
      → IsKeyed d.recent_opens
      → IsKeyed (update_from_fill x d).1.recent_opens
  unfolding update_from_fill
  update_from_fill-IsKeyed x d k =
      with_opens-IsKeyed _ _ d (add_open-IsKeyed x.market_id _ _ d.recent_opens k) k
