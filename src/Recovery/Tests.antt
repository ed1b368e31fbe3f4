-- ===== src/Recovery/Tests.antt =====
-- The recovery engine on a concrete stream.
use hyperliquid_smart_wallet.Prelude.{◌≡◌, ◌↔◌, refl, true, false, [], ◌∷◌, some, lower}
use hyperliquid_smart_wallet.Prelude.Int.{pos, ◌-ℤ◌}
use hyperliquid_smart_wallet.Recovery.{
  StreamEventType, StreamEvent, RecoveryAction, RecoveryEngine, default_policy, is_duplicate,
  has_time_gap, has_sequence_gap, is_stale, process_event, state_for, process, recover, remember,
  new_state,
}
use hyperliquid_smart_wallet.Recovery.Events.{
  Call, run, IsSignal, process_event_iff, process_event_again,
}

abbrev start : RecoveryEngine
start = record { policy = default_policy; states = [] }

abbrev first : StreamEvent
first = record {
  event_id = "e1";
  wallet_address = "0xAb";
  observed_at_ms = pos 1_000_000;
  received_at_ms = pos 1_000_100;
  event_type = StreamEventType.new;
  sequence = some (pos 7);
  is_snapshot = false;
  payload_hash = some "h1";
}

-- Three sequence numbers and one minute later.
abbrev second : StreamEvent
second = record first {
  event_id = "e2";
  observed_at_ms = pos 1_060_000;
  received_at_ms = pos 1_060_100;
  sequence = some (pos 10);
  payload_hash = some "h2";
}

abbrev after : RecoveryEngine
after = (process_event first start).0

gap_is_recovered :
    let d = (process_event second after).1 in
    (d.action ≡ RecoveryAction.reconnect_and_backfill)
    × (d.reason ≡ "DATA_GAP_BY_TIME|DATA_GAP_BY_SEQUENCE")
    × (d.warnings ≡ "DATA_GAP_BY_SEQUENCE" ∷ "DATA_GAP_BY_TIME" ∷ [])
unfolding process_event process recover remember new_state state_for is_duplicate has_time_gap
    has_sequence_gap is_stale lower ◌-ℤ◌
gap_is_recovered = (refl, refl, refl)

-- One second and two sequence numbers before the first.
abbrev out_of_order : StreamEvent
out_of_order = record first {
  event_id = "e0";
  observed_at_ms = pos 999_000;
  sequence = some (pos 5);
  payload_hash = some "h0";
}

out_of_order_lem : (process_event out_of_order after).1.reason ≡ "EVENT_FRESH_AND_ORDERED"
unfolding process_event process recover remember new_state state_for is_duplicate has_time_gap
    has_sequence_gap is_stale lower ◌-ℤ◌
out_of_order_lem = refl

process_event_iff_example :
    ((process_event out_of_order after).1.accepted_for_signal ≡ true)
    ↔ IsSignal default_policy (state_for "0xAb" after) out_of_order
unfolding process_event
process_event_iff_example = process_event_iff out_of_order after

process_event_again_example :
    let later = run (Call.event second ∷ Call.idle "0xab" (pos 2_000_000) ∷ []) after in
    ((process_event first later).1.action ≡ RecoveryAction.drop_duplicate)
    × ((process_event first later).1.accepted_for_signal ≡ false)
process_event_again_example =
    process_event_again first (Call.event second ∷ Call.idle "0xab" (pos 2_000_000) ∷ []) start
