-- ===== src/Recovery/Events.antt =====
-- src/hl_observer/realtime/recovery_engine.py: which events become signals.
use hyperliquid_smart_wallet.Prelude.{
  String, ◌≡◌, ◌↔◌, true, false, List, [], ◌∷◌, Option, none, some, if◌then◌else◌, contains, lower,
  lookup-insert, str_eq, eq_iff, eq_refl, arith,
}
use hyperliquid_smart_wallet.Prelude.Int.{ℤ, ◌-ℤ◌, leb_ℤ}
use hyperliquid_smart_wallet.Recovery.{
  StreamEvent, WatchState, Policy, RecoveryAction, RecoveryEngine, is_duplicate, is_snapshot_type,
  has_time_gap, has_sequence_gap, exceeds, exceeds_both, is_stale, process, process_event, recover,
  remember, put, put_hash, hash_seen, state_for, put_state, check_idle, evaluate_idle_wallet,
}

-- The bound from above on how much later than the last one an event may be; without a last one
-- there is none.
abbrev pub IsWithin : ℤ → Option ℤ → ℤ → Type 0
IsWithin limit none n = Unit
IsWithin limit (some last) n = leb_ℤ (n -ℤ last) limit ≡ true

abbrev pub IsWithinAll : ℤ → Option ℤ → Option ℤ → Type 0
IsWithinAll limit last none = Unit
IsWithinAll limit last (some n) = IsWithin limit last n

exceeds-IsWithin :
    (limit : ℤ) (last : Option ℤ) (n : ℤ) → (exceeds last n limit ≡ false) ↔ IsWithin limit last n
exceeds-IsWithin limit none n = ground arith
exceeds-IsWithin limit (some t) n = ground arith

exceeds_both-IsWithinAll :
    (limit : ℤ) (last n : Option ℤ) → (exceeds_both n last limit ≡ false) ↔ IsWithinAll limit last n
exceeds_both-IsWithinAll limit last none = ground arith
exceeds_both-IsWithinAll limit last (some n) = exceeds-IsWithin limit last n

-- What makes an event a signal, on the state of its wallet.
pub record IsSignal (p : Policy) (s : WatchState) (e : StreamEvent) : Type 0 where
  pub new_id : contains e.event_id s.seen_event_ids ≡ false
  pub new_payload : hash_seen e.payload_hash s.seen_payload_hashes ≡ false
  pub no_snapshot : (e.is_snapshot ≡ false) × (is_snapshot_type e.event_type ≡ false)
  pub time_step : IsWithin p.max_event_gap_ms s.last_event_at_ms e.observed_at_ms
  pub sequence_step : IsWithinAll p.max_sequence_gap s.last_sequence e.sequence
  pub in_time : leb_ℤ (e.received_at_ms -ℤ e.observed_at_ms) p.stale_after_ms ≡ true

-- An event may become a signal exactly if neither its id nor its payload was seen before, it is no
-- snapshot, its time and its sequence number are at most the allowed steps above the last ones that
-- the state of its wallet holds, where there are any, and it was received at most the allowed time
-- after it was observed. Nothing is asked from below: an event before the last one, by time or by sequence
-- number, meets the two bounds.
pub process_event_iff :
    (e : StreamEvent) (eng : RecoveryEngine)
    → ((process_event e eng).1.accepted_for_signal ≡ true)
      ↔ IsSignal eng.policy (state_for e.wallet_address eng) e
unfolding process_event process recover is_duplicate has_time_gap has_sequence_gap is_stale
process_event_iff e eng =
    let p = eng.policy in
    let s = state_for e.wallet_address eng in
    ground (
      arith,
      exceeds-IsWithin p.max_event_gap_ms s.last_event_at_ms e.observed_at_ms,
      exceeds_both-IsWithinAll p.max_sequence_gap s.last_sequence e.sequence,
    )

contains-put :
    (a b : String) (xs : List String) → contains a xs ≡ true → contains a (put b xs) ≡ true
contains-put a b xs h = ground (arith, h, eq_iff a b)

contains-put_self : (a : String) (xs : List String) → contains a (put a xs) ≡ true
contains-put_self a xs = ground (arith, eq_refl a)

hash_seen-put :
    (o q : Option String) (xs : List String)
    → hash_seen o xs ≡ true
    → hash_seen o (put_hash q xs) ≡ true
hash_seen-put none q xs h = cc
hash_seen-put (some a) none xs h = h
hash_seen-put (some a) (some b) xs h = ground (arith, h, contains-put a b xs)

remember-grows :
    (e x : StreamEvent) (s : WatchState)
    → is_duplicate s x ≡ true
    → is_duplicate (remember e s) x ≡ true
unfolding is_duplicate remember
remember-grows e x s h = ground (
  arith,
  h,
  contains-put x.event_id e.event_id s.seen_event_ids,
  hash_seen-put x.payload_hash e.payload_hash s.seen_payload_hashes,
)

remember-seen : (e : StreamEvent) (s : WatchState) → is_duplicate (remember e s) e ≡ true
unfolding is_duplicate remember
remember-seen e s = ground (arith, contains-put_self e.event_id s.seen_event_ids)

process-grows :
    (p : Policy) (e x : StreamEvent) (s : WatchState)
    → is_duplicate s x ≡ true
    → is_duplicate (process p s e).0 x ≡ true
unfolding process recover is_duplicate remember
process-grows p e x s h = ground (
  arith,
  h,
  contains-put x.event_id e.event_id s.seen_event_ids,
  hash_seen-put x.payload_hash e.payload_hash s.seen_payload_hashes,
)

process-seen :
    (p : Policy) (e : StreamEvent) (s : WatchState) → is_duplicate (process p s e).0 e ≡ true
unfolding process recover is_duplicate remember
process-seen p e s = ground (arith, contains-put_self e.event_id s.seen_event_ids)

check_idle-grows :
    (p : Policy) (now_ms : ℤ) (x : StreamEvent) (s : WatchState)
    → is_duplicate s x ≡ true
    → is_duplicate (check_idle p now_ms s).0 x ≡ true
unfolding check_idle is_duplicate
check_idle-grows p now_ms x s h = ground (arith, h)

state_for-put :
    (asked wallet : String) (s : WatchState) (eng : RecoveryEngine)
    → state_for asked (put_state wallet s eng)
      ≡ (if str_eq (lower wallet) (lower asked) then s else state_for asked eng)
unfolding state_for
state_for-put asked wallet s eng =
    ground (arith, lookup-insert (lower wallet) (lower asked) s eng.states)

same_state :
    (v w : String) (eng : RecoveryEngine)
    → str_eq (lower w) (lower v) ≡ true
    → state_for w eng ≡ state_for v eng
unfolding state_for
same_state v w eng h = ground (arith, h, eq_iff (lower w) (lower v))

put_state-grows :
    (wallet : String) (x : StreamEvent) (s : WatchState) (eng : RecoveryEngine)
    → (is_duplicate (state_for wallet eng) x ≡ true → is_duplicate s x ≡ true)
    → is_duplicate (state_for x.wallet_address eng) x ≡ true
    → is_duplicate (state_for x.wallet_address (put_state wallet s eng)) x ≡ true
put_state-grows wallet x s eng grows h = ground (
  arith,
  grows,
  h,
  same_state x.wallet_address wallet eng,
  state_for-put x.wallet_address wallet s eng,
)

-- A call of one of the two methods.
pub data Call : Type 0 where
  event : StreamEvent → Call
  idle : String → ℤ → Call

pub step : Call → RecoveryEngine → RecoveryEngine
step (Call.event e) eng = (process_event e eng).0
step (Call.idle wallet now_ms) eng = (evaluate_idle_wallet wallet now_ms eng).0

pub run : List Call → RecoveryEngine → RecoveryEngine
unfolding step
run [] eng = eng
run (c ∷ cs) eng = run cs (step c eng)

step-grows :
    (c : Call) (x : StreamEvent) (eng : RecoveryEngine)
    → is_duplicate (state_for x.wallet_address eng) x ≡ true
    → is_duplicate (state_for x.wallet_address (step c eng)) x ≡ true
unfolding step process_event evaluate_idle_wallet
step-grows (Call.event e) x eng h =
    let s = state_for e.wallet_address eng in
    put_state-grows e.wallet_address x (process eng.policy s e).0 eng
      (process-grows eng.policy e x s) h
step-grows (Call.idle wallet now_ms) x eng h =
    let s = state_for wallet eng in
    put_state-grows wallet x (check_idle eng.policy now_ms s).0 eng
      (check_idle-grows eng.policy now_ms x s) h

run-grows :
    (cs : List Call) (x : StreamEvent) (eng : RecoveryEngine)
    → is_duplicate (state_for x.wallet_address eng) x ≡ true
    → is_duplicate (state_for x.wallet_address (run cs eng)) x ≡ true
unfolding run
run-grows [] x eng h = h
run-grows (c ∷ cs) x eng h = run-grows cs x (step c eng) (step-grows c x eng h)

process_event-seen :
    (e : StreamEvent) (eng : RecoveryEngine)
    → is_duplicate (state_for e.wallet_address (process_event e eng).0) e ≡ true
unfolding process_event
process_event-seen e eng = ground (
  arith,
  eq_refl (lower e.wallet_address),
  process-seen eng.policy e (state_for e.wallet_address eng),
  state_for-put e.wallet_address e.wallet_address
      (process eng.policy (state_for e.wallet_address eng) e).0 eng,
)

process_event-drops :
    (e : StreamEvent) (eng : RecoveryEngine)
    → is_duplicate (state_for e.wallet_address eng) e ≡ true
    → ((process_event e eng).1.action ≡ RecoveryAction.drop_duplicate)
      × ((process_event e eng).1.accepted_for_signal ≡ false)
unfolding process_event process
process_event-drops e eng h = ground (arith, h)

-- An event that was processed is dropped as a duplicate whenever it comes again, after any sequence
-- of events and of checks of idle wallets: no event becomes a signal twice.
pub process_event_again :
    (e : StreamEvent) (cs : List Call) (eng : RecoveryEngine)
    → let later = run cs (process_event e eng).0 in
      ((process_event e later).1.action ≡ RecoveryAction.drop_duplicate)
      × ((process_event e later).1.accepted_for_signal ≡ false)
process_event_again e cs eng =
    process_event-drops e (run cs (process_event e eng).0)
      (run-grows cs e (process_event e eng).0 (process_event-seen e eng))

abbrev pub call_wallet : Call → String
call_wallet (Call.event e) = e.wallet_address
call_wallet (Call.idle wallet now_ms) = wallet

-- A call about one wallet leaves the state of every other wallet as it is, where wallets are
-- compared in lower case.
pub step_other_wallet :
    (c : Call) (wallet : String) (eng : RecoveryEngine)
    → str_eq (lower (call_wallet c)) (lower wallet) ≡ false
    → state_for wallet (step c eng) ≡ state_for wallet eng
unfolding step process_event evaluate_idle_wallet
step_other_wallet (Call.event e) wallet eng h = ground (
  arith,
  h,
  state_for-put wallet e.wallet_address (process eng.policy (state_for e.wallet_address eng) e).0
      eng,
)
step_other_wallet (Call.idle w now_ms) wallet eng h =
    ground (arith, h, state_for-put wallet w (check_idle eng.policy now_ms (state_for w eng)).0 eng)
