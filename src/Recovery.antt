-- ===== src/Recovery.antt =====
-- src/hl_observer/realtime/recovery_engine.py: which events of a watched stream may become signals,
-- and when the stream is to be reconnected and filled in. A set of texts is a list in which a text
-- is put once. `format_recovery_decision` is left out.
pub mod Events
pub mod Windows
mod Tests
use hyperliquid_smart_wallet.Prelude.{
  ℕ, suc, ◌+◌, String, Bool, true, false, not, ◌&&◌, ◌||◌, List, [], ◌∷◌, ◌++◌, Option, none, some,
  if◌then◌else◌, get_or, join, print, contains, is_nonempty, lower, lookup, insert,
}
use hyperliquid_smart_wallet.Prelude.Int.{ℤ, pos, negsuc, ◌+ℤ◌, ◌-ℤ◌, ltb_ℤ, leb_ℤ, eqb_ℤ, max_ℤ}

pub data StreamEventType : Type 0 where
  new increase reduce close flip data_gap duplicate stale snapshot : StreamEventType

pub data RecoveryAction : Type 0 where
  keep_watching reconnect backfill reconnect_and_backfill drop_duplicate observe_only :
      RecoveryAction

abbrev pub is_snapshot_type : StreamEventType → Bool
is_snapshot_type StreamEventType.snapshot = true
is_snapshot_type t = false

pub record StreamEvent : Type 0 where
  pub event_id : String
  pub wallet_address : String
  pub observed_at_ms : ℤ
  pub received_at_ms : ℤ
  pub event_type : StreamEventType
  pub sequence : Option ℤ
  pub is_snapshot : Bool
  pub payload_hash : Option String

pub record WatchState : Type 0 where
  pub wallet_address : String
  pub last_event_at_ms : Option ℤ
  pub last_received_at_ms : Option ℤ
  pub last_sequence : Option ℤ
  pub seen_event_ids : List String
  pub seen_payload_hashes : List String
  pub stale_count : ℕ
  pub duplicate_count : ℕ
  pub gap_count : ℕ
  pub reconnect_count : ℕ

pub record BackfillPlan : Type 0 where
  pub wallet_address : String
  pub start_time_ms : ℤ
  pub end_time_ms : ℤ
  pub reason : String
  pub max_pages : ℤ

pub record RecoveryDecision : Type 0 where
  pub wallet_address : String
  pub action : RecoveryAction
  pub reason : String
  pub event_type : StreamEventType
  pub accepted_for_signal : Bool
  pub should_reconnect : Bool
  pub backfill : Option BackfillPlan
  pub warnings : List String

pub record Policy : Type 0 where
  pub stale_after_ms : ℤ
  pub max_event_gap_ms : ℤ
  pub max_sequence_gap : ℤ
  pub backfill_overlap_ms : ℤ
  pub max_backfill_window_ms : ℤ
  pub max_pages : ℤ

pub record RecoveryEngine : Type 0 where
  pub policy : Policy
  pub states : List (String × WatchState)

abbrev pub default_policy : Policy
default_policy = record {
  stale_after_ms = pos 20_000;
  max_event_gap_ms = pos 5_000;
  max_sequence_gap = pos 1;
  backfill_overlap_ms = pos 1_000;
  max_backfill_window_ms = pos 300_000;
  max_pages = pos 3;
}

pub new_state : String → WatchState
new_state key = record {
  wallet_address = key;
  last_event_at_ms = none;
  last_received_at_ms = none;
  last_sequence = none;
  seen_event_ids = [];
  seen_payload_hashes = [];
  stale_count = 0;
  duplicate_count = 0;
  gap_count = 0;
  reconnect_count = 0;
}

pub state_for : String → RecoveryEngine → WatchState
state_for wallet eng = get_or (lookup (lower wallet) eng.states) (new_state (lower wallet))

-- `set.add`
abbrev pub put : String → List String → List String
put a xs = if contains a xs then xs else a ∷ xs

-- `value or other`, where a value of 0 counts as none.
abbrev pub or_ℤ : Option ℤ → ℤ → ℤ
or_ℤ none d = d
or_ℤ (some n) d = if eqb_ℤ n (pos 0) then d else n

-- `event.payload_hash and event.payload_hash in state.seen_payload_hashes`
abbrev pub hash_seen : Option String → List String → Bool
hash_seen none xs = false
hash_seen (some h) xs = is_nonempty h && contains h xs

abbrev pub put_hash : Option String → List String → List String
put_hash none xs = xs
put_hash (some h) xs = if is_nonempty h then put h xs else xs

abbrev later_sequence : Option ℤ → Option ℤ → Option ℤ
later_sequence none last = last
later_sequence (some n) last = some (max_ℤ (or_ℤ last n) n)

pub is_duplicate : WatchState → StreamEvent → Bool
is_duplicate s e =
    contains e.event_id s.seen_event_ids || hash_seen e.payload_hash s.seen_payload_hashes

pub remember : StreamEvent → WatchState → WatchState
remember e s = record s {
  seen_event_ids = put e.event_id s.seen_event_ids;
  seen_payload_hashes = put_hash e.payload_hash s.seen_payload_hashes;
  last_event_at_ms = some (max_ℤ (or_ℤ s.last_event_at_ms (pos 0)) e.observed_at_ms);
  last_received_at_ms = some (max_ℤ (or_ℤ s.last_received_at_ms (pos 0)) e.received_at_ms);
  last_sequence = later_sequence e.sequence s.last_sequence;
}

pub build_backfill : Policy → String → ℤ → String → BackfillPlan
build_backfill p wallet observed_at_ms reason =
    let end_time = max_ℤ (pos 0) observed_at_ms in
    let start_time = max_ℤ (pos 0) (end_time -ℤ p.max_backfill_window_ms) in
    record {
      wallet_address = wallet;
      start_time_ms =
          if not (eqb_ℤ p.backfill_overlap_ms (pos 0))
          then max_ℤ (pos 0) (start_time -ℤ p.backfill_overlap_ms)
          else start_time;
      end_time_ms = end_time +ℤ pos 1;
      reason = reason;
      max_pages = p.max_pages;
    }

abbrev pub exceeds : Option ℤ → ℤ → ℤ → Bool
exceeds none now limit = false
exceeds (some last) now limit = ltb_ℤ limit (now -ℤ last)

abbrev pub exceeds_both : Option ℤ → Option ℤ → ℤ → Bool
exceeds_both none last limit = false
exceeds_both (some n) last limit = exceeds last n limit

pub has_time_gap : Policy → WatchState → StreamEvent → Bool
has_time_gap p s e = exceeds s.last_event_at_ms e.observed_at_ms p.max_event_gap_ms

pub has_sequence_gap : Policy → WatchState → StreamEvent → Bool
has_sequence_gap p s e = exceeds_both e.sequence s.last_sequence p.max_sequence_gap

pub is_stale : Policy → StreamEvent → Bool
is_stale p e = ltb_ℤ p.stale_after_ms (e.received_at_ms -ℤ e.observed_at_ms)

abbrev one_if : Bool → ℕ
one_if b = if b then 1 else 0

abbrev text_if : Bool → String → List String
text_if b text = if b then text ∷ [] else []

-- `"|".join(warnings)`
abbrev pub join_bars : List String → String
join_bars [] = ""
join_bars (x ∷ []) = x
join_bars (x ∷ y ∷ ys) = join (x ∷ "|" ∷ join_bars (y ∷ ys) ∷ [])

-- A decision that asks for nothing.
abbrev pub quiet : String → RecoveryAction → String → StreamEventType → Bool → RecoveryDecision
quiet wallet action reason type accepted = record {
  wallet_address = wallet;
  action = action;
  reason = reason;
  event_type = type;
  accepted_for_signal = accepted;
  should_reconnect = false;
  backfill = none;
  warnings = [];
}

-- The state and the answer for an event with a gap or with too old a time.
pub recover : Policy → WatchState → StreamEvent → WatchState × RecoveryDecision
recover p s e =
    let time = text_if (has_time_gap p s e) "DATA_GAP_BY_TIME" in
    let sequence = text_if (has_sequence_gap p s e) "DATA_GAP_BY_SEQUENCE" in
    let old = text_if (is_stale p e) "STALE_EVENT" in
    let reason = join_bars (time ++ (sequence ++ old)) in
    (
      remember e (record s {
        gap_count = s.gap_count + one_if (has_time_gap p s e) + one_if (has_sequence_gap p s e);
        stale_count = s.stale_count + one_if (is_stale p e);
        reconnect_count = s.reconnect_count + 1;
      }),
      record {
        wallet_address = s.wallet_address;
        action = RecoveryAction.reconnect_and_backfill;
        reason = reason;
        event_type =
            if has_time_gap p s e || has_sequence_gap p s e
            then StreamEventType.data_gap
            else StreamEventType.stale;
        accepted_for_signal = false;
        should_reconnect = true;
        backfill = some (build_backfill p s.wallet_address e.observed_at_ms reason);
        warnings = sequence ++ (time ++ old);
      },
    )

-- `process_event` on the state of the event's wallet.
pub process : Policy → WatchState → StreamEvent → WatchState × RecoveryDecision
process p s e =
    if is_duplicate s e
    then (
      record s { duplicate_count = s.duplicate_count + 1 },
      record (quiet s.wallet_address RecoveryAction.drop_duplicate "DUPLICATE_EVENT"
          StreamEventType.duplicate false) { warnings = "DUPLICATE_EVENT" ∷ [] },
    )
    else if e.is_snapshot || is_snapshot_type e.event_type
    then (
      remember e s,
      quiet s.wallet_address RecoveryAction.observe_only "SNAPSHOT_CONTEXT_ONLY"
          StreamEventType.snapshot false,
    )
    else if has_time_gap p s e || (has_sequence_gap p s e || is_stale p e)
    then recover p s e
    else (
      remember e s,
      quiet s.wallet_address RecoveryAction.keep_watching "EVENT_FRESH_AND_ORDERED" e.event_type
          true,
    )

abbrev pub put_state : String → WatchState → RecoveryEngine → RecoveryEngine
put_state wallet s eng = record eng { states = insert (lower wallet) s eng.states }

pub process_event : StreamEvent → RecoveryEngine → RecoveryEngine × RecoveryDecision
process_event e eng =
    let r = process eng.policy (state_for e.wallet_address eng) e in
    (put_state e.wallet_address r.0 eng, r.1)

-- `evaluate_idle_wallet` on the state of the wallet.
pub check_idle : Policy → ℤ → WatchState → WatchState × RecoveryDecision
check_idle p now_ms s = elim s.last_received_at_ms [
  | none ↦ (
    s,
    record (quiet s.wallet_address RecoveryAction.reconnect "NO_EVENTS_YET" StreamEventType.stale
        false) { should_reconnect = true },
  )
  | some received ↦
      let observed = or_ℤ s.last_event_at_ms received in
      if leb_ℤ (now_ms -ℤ received) p.stale_after_ms
      then (
        s,
        quiet s.wallet_address RecoveryAction.keep_watching "WATCH_HEALTHY" StreamEventType.new
            false,
      )
      else (
        record s { stale_count = s.stale_count + 1; reconnect_count = s.reconnect_count + 1 },
        record {
          wallet_address = s.wallet_address;
          action = RecoveryAction.reconnect_and_backfill;
          reason = "WATCH_IDLE_STALE";
          event_type = StreamEventType.stale;
          accepted_for_signal = false;
          should_reconnect = true;
          backfill = some (build_backfill p s.wallet_address observed "WATCH_IDLE_STALE");
          warnings = "WATCH_IDLE_STALE" ∷ [];
        },
      )
]

pub evaluate_idle_wallet : String → ℤ → RecoveryEngine → RecoveryEngine × RecoveryDecision
evaluate_idle_wallet wallet now_ms eng =
    let r = check_idle eng.policy now_ms (state_for wallet eng) in (put_state wallet r.0 eng, r.1)
