-- ===== src/Copying/Leaders/Replay.antt =====
-- src/hl_observer/copying/leader_pnl_tracker.py: the tracker against the trades it was given.
use hyperliquid_smart_wallet.Prelude.{
  ℕ, ◌+◌, ◌≡◌, refl, String, Bool, List, [], ◌∷◌, Option, none, some, if◌then◌else◌, get_or, lookup,
  lower, length, keep, str_eq, arith, eq_iff, lookup-insert, is_empty, ◌∙◌,
}
use hyperliquid_smart_wallet.Float.{Float, whole}
use hyperliquid_smart_wallet.Copying.Leaders.{
  LeaderTrade, LeaderPerformance, LeaderTracker, new_leader_tracker, new_performance, add_trade,
  record_leader_trade, get_leader_performance,
}

module _ {F : Type 0} ⦃f : Float F⦄ where
  open f use {lt}

  pub record_trades : List (LeaderTrade F) → LeaderTracker F → LeaderTracker F
  record_trades [] k = k
  record_trades (t ∷ ts) k = record_trades ts (record_leader_trade t k)

  -- The trades of one leader.
  abbrev pub is_of : String → LeaderTrade F → Bool
  is_of address t = str_eq (lower t.leader_address) address

  -- The performance that these trades alone lead to.
  abbrev pub replay : List (LeaderTrade F) → LeaderPerformance F → LeaderPerformance F
  replay [] p = p
  replay (t ∷ ts) p = replay ts (add_trade t p)

  -- How many of the newest results, which come last, are not wins.
  abbrev pub streak : ℕ → List (LeaderTrade F) → ℕ
  streak n [] = n
  streak n (t ∷ ts) = streak (if lt (whole 0) t.pnl_usdt then 0 else n + 1) ts

  abbrev pub is_win : LeaderTrade F → Bool
  is_win t = lt (whole 0) t.pnl_usdt

  replay_counts :
      (ts : List (LeaderTrade F)) (p : LeaderPerformance F)
      → let q = replay ts p in
        (q.total_trades ≡ p.total_trades + length ts)
        × (q.winning_trades ≡ p.winning_trades + length (keep is_win ts))
        × (q.winning_trades + q.losing_trades + p.total_trades
            ≡ q.total_trades + (p.winning_trades + p.losing_trades))
        × (q.consecutive_losses ≡ streak p.consecutive_losses ts)
  unfolding add_trade
  replay_counts [] p = ground arith
  replay_counts (t ∷ ts) p = ground (arith, replay_counts ts (add_trade t p))

  -- What is known of a leader, where its performance may not have begun.
  abbrev pub begun : String → Option (LeaderPerformance F) → LeaderPerformance F
  begun address known = get_or known (new_performance address)

  -- The performance on file after these trades of the leader.
  abbrev pub after :
      String → List (LeaderTrade F) → Option (LeaderPerformance F) → Option (LeaderPerformance F)
  after address [] known = known
  after address (t ∷ ts) known = after address ts (some (add_trade t (begun address known)))

  lookup-record_leader_trade :
      (address : String) (t : LeaderTrade F) (k : LeaderTracker F)
      → lookup address (record_leader_trade t k).leaders ≡ (
          if is_of address t
          then some (add_trade t (begun address (lookup address k.leaders)))
          else lookup address k.leaders)
  unfolding record_leader_trade
  lookup-record_leader_trade address t k =
      let own = lower t.leader_address in
      let value = add_trade t (begun own (lookup own k.leaders)) in
      ground (arith, lookup-insert own address value k.leaders, eq_iff own address)

  lookup-record_trades :
      (address : String) (ts : List (LeaderTrade F)) (k : LeaderTracker F)
      → lookup address (record_trades ts k).leaders
        ≡ after address (keep (is_of address) ts) (lookup address k.leaders)
  unfolding record_trades
  lookup-record_trades address [] k = refl
  lookup-record_trades address (t ∷ ts) k = ground (
    arith,
    lookup-record_trades address ts (record_leader_trade t k),
    lookup-record_leader_trade address t k,
  )

  after_known :
      (address : String) (ts : List (LeaderTrade F)) (p : LeaderPerformance F)
      → after address ts (some p) ≡ some (replay ts p)
  after_known address [] p = refl
  after_known address (t ∷ ts) p = after_known address ts (add_trade t p)

  after_nothing :
      (address : String) (ts : List (LeaderTrade F))
      → after address ts none
        ≡ (if is_empty ts then none else some (replay ts (new_performance address)))
  after_nothing address [] = refl
  after_nothing address (t ∷ ts) = after_known address ts (add_trade t (new_performance address))

  -- Whatever trades a new tracker is given, a leader has a performance exactly if one of the trades
  -- is its own, and it is the one that its own trades alone lead to, in their order; of these it
  -- counts all, the wins, the others, and the run of others at the end.
  pub record_trades-replay :
      (address : String) (ts : List (LeaderTrade F))
      → let own = keep (is_of (lower address)) ts in
        let p = replay own (new_performance (lower address)) in
        (get_leader_performance address (record_trades ts new_leader_tracker)
          ≡ (if is_empty own then none else some p))
        × (p.total_trades ≡ length own)
        × (p.winning_trades ≡ length (keep is_win own))
        × (p.winning_trades + p.losing_trades ≡ p.total_trades)
        × (p.consecutive_losses ≡ streak 0 own)
  unfolding get_leader_performance new_leader_tracker new_performance
  record_trades-replay address ts =
      let a = lower address in
      let own = keep (is_of a) ts in
      let counts = replay_counts own (new_performance a) in
      (
        lookup-record_trades a ts new_leader_tracker ∙ after_nothing a own,
        omega (arith, counts.0),
        omega (arith, counts.1),
        omega (arith, counts.2),
        counts.3,
      )
