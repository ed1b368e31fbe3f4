-- ===== src/Dydx/Scanner.antt =====
-- hyper_smart_observer/dydx_v4/fast_scanner.py: the memory of seen fills, the bounded set of followed
-- wallets, the meter, and the scanner that joins them. The parsing of messages, the pool of threads
-- and the locks are left out; each fill comes with the moment at which it is handled.
pub mod Hot
pub mod Dedupe
pub mod Ingest
mod Tests
use hyperliquid_smart_wallet.Prelude.{
  ℕ, ◌+◌, String, Bool, true, false, not, ◌&&◌, ◌||◌, List, [], ◌∷◌, ◌++◌, Option, none, some,
  if◌then◌else◌, contains, is_nonempty, str_eq, keep, drop, take, length, ltb,
}
use hyperliquid_smart_wallet.Prelude.Int.{ℤ, pos, ltb_ℤ, leb_ℤ, max_ℤ}
use hyperliquid_smart_wallet.Float.{Float, whole}

-- `FillDeduper`: a set beside the queue of its members, oldest first.
pub record FillDeduper : Type 0 where
  pub maxlen : ℤ
  pub seen : List String
  pub order : List String

pub new_deduper : ℤ → FillDeduper
new_deduper maxlen = record { maxlen = max_ℤ (pos 1) maxlen; seen = []; order = [] }

-- `set.discard`
abbrev pub discard : String → List String → List String
discard a xs = keep (λ x. not (str_eq x a)) xs

-- `popleft` of a queue, with its effect on the set.
pub forget_oldest : FillDeduper → FillDeduper
forget_oldest d = elim d.order [
  | [] ↦ d
  | x ∷ xs ↦ record d { order = xs; seen = discard x d.seen }
]

pub remember_fill : String → FillDeduper → FillDeduper
unfolding forget_oldest
remember_fill id d =
    let e = record d { seen = id ∷ d.seen; order = d.order ++ (id ∷ []) } in
    if ltb_ℤ d.maxlen (pos (length e.order)) then forget_oldest e else e

-- `add`: true for a fill that is new.
pub add_fill : String → FillDeduper → FillDeduper × Bool
add_fill id d =
    if not (is_nonempty id) || contains id d.seen then (d, false) else (remember_fill id d, true)

pub record ScannedFill (F : Type 0) : Type 0 where
  pub address : String
  pub subaccount_number : ℕ
  pub market_id : String
  pub side : String
  pub size : F
  pub price : F
  pub created_at_ms : ℤ
  pub fill_id : String
  pub age_ms : ℤ
  pub source : String

pub is_fresh_fill : {F : Type 0} → ℤ → ScannedFill F → Bool
is_fresh_fill max_age_ms s = leb_ℤ (pos 0) s.age_ms && leb_ℤ s.age_ms max_age_ms

-- `ThroughputMeter`; an event is a moment with the age of a fill.
pub record Meter (F : Type 0) : Type 0 where
  pub window_s : F
  pub events : List (F × ℤ)
  pub total_fills : ℕ
  pub total_fresh : ℕ
  pub total_stale : ℕ
  pub total_duplicates : ℕ

pub new_meter : {F : Type 0} → F → Meter F
new_meter window_s = record {
  window_s = window_s;
  events = [];
  total_fills = 0;
  total_fresh = 0;
  total_stale = 0;
  total_duplicates = 0;
}

module _ {F : Type 0} ⦃f : Float F⦄ where
  open f use {mul, sub, div, abs, lt, of_int}

  pub scanned_notional : ScannedFill F → F
  scanned_notional s = mul (abs s.size) s.price

  -- Events leave from the left as long as they are too old.
  abbrev pub trim_from : F → List (F × ℤ) → List (F × ℤ)
  trim_from cutoff [] = []
  trim_from cutoff (e ∷ es) = if lt e.0 cutoff then trim_from cutoff es else e ∷ es

  pub trim : F → Meter F → Meter F
  trim now_s m = record m { events = trim_from (sub now_s m.window_s) m.events }

  pub record_age : ℤ → F → Meter F → Meter F
  unfolding trim
  record_age age_ms t m = trim t (record m { events = m.events ++ ((t, age_ms) ∷ []) })

  pub fills_per_second : F → Meter F → Meter F × F
  unfolding trim
  fills_per_second now_s m =
      let n = trim now_s m in
      elim n.events [
        | [] ↦ (n, f.decimal 0 1)
        | e ∷ es ↦ (n, div (of_int (pos (length n.events))) n.window_s)
      ]

-- `FastScanner`; `delivered` lists what the callback was called with, where there is one.
pub record Scanner (F : Type 0) : Type 0 where
  pub max_age_ms : ℤ
  pub deduper : FillDeduper
  pub meter : Meter F
  pub fresh_queue : List (ScannedFill F)
  pub delivered : Option (List (ScannedFill F))

-- `Queue(maxsize=50_000)`, whose `put_nowait` fails where it is full.
abbrev pub queue_size : ℕ
queue_size = 50_000

module _ {F : Type 0} where
  abbrev pub enqueue : List (ScannedFill F) → List (ScannedFill F) → List (ScannedFill F)
  enqueue queue [] = queue
  enqueue queue (s ∷ ss) =
      enqueue (if ltb (length queue) queue_size then queue ++ (s ∷ []) else queue) ss

  abbrev pub deliver :
      List (ScannedFill F) → Option (List (ScannedFill F)) → Option (List (ScannedFill F))
  deliver fresh none = none
  deliver fresh (some past) = some (past ++ fresh)

module _ {F : Type 0} ⦃f : Float F⦄ where
  -- One round of the loop of `_ingest`: whether the fill is kept.
  pub take_fill : ScannedFill F → F → Scanner F → Scanner F × Bool
  take_fill s t sc =
      let m = record sc.meter { total_fills = sc.meter.total_fills + 1 } in
      let r = add_fill s.fill_id sc.deduper in
      if not r.1
      then (
        record sc { deduper = r.0; meter = record m { total_duplicates = m.total_duplicates + 1 } },
        false,
      )
      else if not (is_fresh_fill sc.max_age_ms s)
      then (
        record sc { deduper = r.0; meter = record m { total_stale = m.total_stale + 1 } },
        false,
      )
      else (
        record sc {
          deduper = r.0;
          meter = record_age s.age_ms t (record m { total_fresh = m.total_fresh + 1 });
        },
        true,
      )

  -- The loop of `_ingest`: the scanner after it and the fresh fills, in order.
  pub take_fills : List (ScannedFill F × F) → Scanner F → Scanner F × List (ScannedFill F)
  unfolding take_fill
  take_fills [] sc = (sc, [])
  take_fills (x ∷ xs) sc =
      let r = take_fill x.0 x.1 sc in
      let rest = take_fills xs r.0 in (rest.0, if r.1 then x.0 ∷ rest.1 else rest.1)

  pub ingest : List (ScannedFill F × F) → Scanner F → Scanner F × List (ScannedFill F)
  unfolding take_fills
  ingest xs sc =
      let r = take_fills xs sc in
      (
        record r.0 {
          fresh_queue = enqueue r.0.fresh_queue r.1;
          delivered = deliver r.1 r.0.delivered;
        },
        r.1,
      )

  -- `drain_fresh`: the first `limit` waiting fills.
  pub drain_fresh : ℕ → Scanner F → Scanner F × List (ScannedFill F)
  drain_fresh limit sc =
      (record sc { fresh_queue = drop limit sc.fresh_queue }, take limit sc.fresh_queue)
