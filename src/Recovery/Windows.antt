-- ===== src/Recovery/Windows.antt =====
-- src/hl_observer/realtime/recovery_engine.py: idle wallets and the windows that are filled in.
use hyperliquid_smart_wallet.Prelude.{
  String, ◌≡◌, Bool, true, false, not, Option, none, some, if◌then◌else◌, is_some, arith,
}
use hyperliquid_smart_wallet.Prelude.Int.{
  ℤ, pos, ◌+ℤ◌, ◌-ℤ◌, ◌≤ℤ◌, ltb_ℤ, +ℤ_parts, max_ℤ, eqb_ℤ, int_laws,
}
use hyperliquid_smart_wallet.Recovery.{
  Policy, RecoveryEngine, build_backfill, state_for, check_idle, evaluate_idle_wallet,
}

back_lem :
    (a b : ℤ)
    → pos 0 ≤ℤ a
    → pos 0 ≤ℤ b
    → let c = max_ℤ (pos 0) (a -ℤ b) in (pos 0 ≤ℤ c) × (c ≤ℤ a) × (a ≤ℤ c +ℤ b)
unfolding ◌+ℤ◌ ◌-ℤ◌
back_lem a b h k = ground (arith, h, k)

overlap_lem :
    (a b : ℤ)
    → pos 0 ≤ℤ a
    → pos 0 ≤ℤ b
    → let c = if not (eqb_ℤ b (pos 0)) then max_ℤ (pos 0) (a -ℤ b) else a in
      (pos 0 ≤ℤ c) × (c ≤ℤ a) × (a ≤ℤ c +ℤ b)
overlap_lem a b h k = ground (arith, h, k, back_lem a b h k, +ℤ_parts a b)

window_lem :
    (a b c w o : ℤ)
    → (b ≤ℤ a) × (a ≤ℤ b +ℤ w)
    → (c ≤ℤ b) × (b ≤ℤ c +ℤ o)
    → (c +ℤ pos 1 ≤ℤ a +ℤ pos 1) × (a +ℤ pos 1 -ℤ c ≤ℤ w +ℤ o +ℤ pos 1)
window_lem a b c w o h k = (omega int_laws, omega int_laws)

end_lem : (a : ℤ) → pos 0 ≤ℤ max_ℤ (pos 0) a
end_lem a = ground arith

-- Where the window and the overlap of the policy are not negative, a window to fill in starts at
-- zero or later, is not empty, and is at most as long as the window, the overlap and one
-- millisecond together.
pub build_backfill-bounds :
    (p : Policy) (wallet : String) (observed_at_ms : ℤ) (reason : String)
    → pos 0 ≤ℤ p.max_backfill_window_ms
    → pos 0 ≤ℤ p.backfill_overlap_ms
    → let plan = build_backfill p wallet observed_at_ms reason in
      (pos 0 ≤ℤ plan.start_time_ms)
      × (plan.start_time_ms +ℤ pos 1 ≤ℤ plan.end_time_ms)
      × (plan.end_time_ms -ℤ plan.start_time_ms
          ≤ℤ p.max_backfill_window_ms +ℤ p.backfill_overlap_ms +ℤ pos 1)
unfolding build_backfill
build_backfill-bounds p wallet observed_at_ms reason w o =
    let last = max_ℤ (pos 0) observed_at_ms in
    let first = max_ℤ (pos 0) (last -ℤ p.max_backfill_window_ms) in
    let b = back_lem last p.max_backfill_window_ms (end_lem observed_at_ms) w in
    let c = overlap_lem first p.backfill_overlap_ms b.0 o in
    let d =
      window_lem last first
        (if not (eqb_ℤ p.backfill_overlap_ms (pos 0))
          then max_ℤ (pos 0) (first -ℤ p.backfill_overlap_ms)
          else first)
        p.max_backfill_window_ms p.backfill_overlap_ms (b.1, b.2) (c.1, c.2) in
    (c.0, d.0, d.1)

abbrev pub is_overdue : Policy → ℤ → Option ℤ → Bool
is_overdue p now_ms none = true
is_overdue p now_ms (some received) = ltb_ℤ p.stale_after_ms (now_ms -ℤ received)

-- An idle check asks for a reconnection exactly if nothing was received from the wallet yet or the
-- last event is older than the policy allows; it never makes a signal, and it asks for a window to
-- fill in only together with a reconnection.
pub evaluate_idle_wallet_lem :
    (wallet : String) (now_ms : ℤ) (eng : RecoveryEngine)
    → let d = (evaluate_idle_wallet wallet now_ms eng).1 in
      (d.should_reconnect ≡ is_overdue eng.policy now_ms (state_for wallet eng).last_received_at_ms)
      × (d.accepted_for_signal ≡ false)
      × (is_some d.backfill ≡ (
          if d.should_reconnect then is_some (state_for wallet eng).last_received_at_ms else false))
unfolding evaluate_idle_wallet check_idle
evaluate_idle_wallet_lem wallet now_ms eng = ground arith
