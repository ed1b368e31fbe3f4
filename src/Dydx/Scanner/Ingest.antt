-- ===== src/Dydx/Scanner/Ingest.antt =====
-- hyper_smart_observer/dydx_v4/fast_scanner.py: `_ingest`, which keeps the fills that are new and fresh.
use hyperliquid_smart_wallet.Prelude.{
  ℕ, ◌+◌, ◌≤◌, String, ◌≡◌, ap, Bool, true, false, not, ◌&&◌, List, [], ◌∷◌, ◌++◌, map,
  if◌then◌else◌, length, length-append, ltb, keep, arith,
}
use hyperliquid_smart_wallet.Float.{Float}
use hyperliquid_smart_wallet.Dydx.Scanner.{
  ScannedFill, Scanner, add_fill, is_fresh_fill, take_fill, take_fills, ingest, record_age, trim,
  queue_size, enqueue,
}
use hyperliquid_smart_wallet.Dydx.Scanner.Dedupe.{answers}

abbrev pub count_false : List Bool → ℕ
count_false [] = 0
count_false (b ∷ bs) = (if b then 0 else 1) + count_false bs

module _ {F : Type 0} where
  -- What is left of the fills for which the answers are true.
  pub select : List Bool → List (ScannedFill F) → List (ScannedFill F)
  select (true ∷ bs) (s ∷ ss) = s ∷ select bs ss
  select (false ∷ bs) (s ∷ ss) = select bs ss
  select bs ss = []

module _ {F : Type 0} ⦃f : Float F⦄ where
  abbrev pub fills_of : List (ScannedFill F × F) → List (ScannedFill F)
  fills_of xs = map (λ (x : ScannedFill F × F). x.0) xs

  abbrev pub ids_of : List (ScannedFill F × F) → List String
  ids_of xs = map (λ (x : ScannedFill F × F). x.0.fill_id) xs

  take_fill_lem :
      (s : ScannedFill F) (t : F) (sc : Scanner F)
      → let r = take_fill s t sc in
        let a = add_fill s.fill_id sc.deduper in
        (r.1 ≡ (a.1 && is_fresh_fill sc.max_age_ms s))
        × (r.0.deduper ≡ a.0)
        × (r.0.max_age_ms ≡ sc.max_age_ms)
        × (r.0.fresh_queue ≡ sc.fresh_queue)
        × (r.0.meter.total_fills ≡ sc.meter.total_fills + 1)
        × (r.0.meter.total_fresh ≡ (if r.1 then 1 else 0) + sc.meter.total_fresh)
        × (r.0.meter.total_duplicates ≡ (if a.1 then 0 else 1) + sc.meter.total_duplicates)
        × (r.0.meter.total_stale ≡ (if a.1 && not r.1 then 1 else 0) + sc.meter.total_stale)
  unfolding take_fill record_age trim
  take_fill_lem s t sc = ground arith

  take_fills_lem :
      (xs : List (ScannedFill F × F)) (sc : Scanner F)
      → let r = take_fills xs sc in
        let new = answers (ids_of xs) sc.deduper in
        (r.1 ≡ keep (is_fresh_fill sc.max_age_ms) (select new (fills_of xs)))
        × (r.0.fresh_queue ≡ sc.fresh_queue)
        × (r.0.meter.total_fills ≡ length xs + sc.meter.total_fills)
        × (r.0.meter.total_fresh ≡ length r.1 + sc.meter.total_fresh)
        × (r.0.meter.total_duplicates ≡ count_false new + sc.meter.total_duplicates)
        × (r.0.meter.total_fresh + r.0.meter.total_duplicates + r.0.meter.total_stale
            ≡ length xs + (sc.meter.total_fresh + sc.meter.total_duplicates + sc.meter.total_stale))
  unfolding take_fills answers select
  take_fills_lem [] sc = ground arith
  take_fills_lem (x ∷ xs) sc =
      ground (arith, take_fill_lem x.0 x.1 sc, take_fills_lem xs (take_fill x.0 x.1 sc).0)

  enqueue-fits :
      (xs queue : List (ScannedFill F))
      → length queue ≤ queue_size
      → length (enqueue queue xs) ≤ queue_size
  enqueue-fits [] queue h = h
  enqueue-fits (x ∷ xs) queue h =
      enqueue-fits xs (if ltb (length queue) queue_size then queue ++ (x ∷ []) else queue)
        (ground (arith, h, length-append queue (x ∷ [])))

  -- Of a batch, exactly the fills come back that the memory answers to be new and that are fresh, in
  -- order. They go to the queue as long as it has room, which never exceeds its size, and every fill
  -- is counted once: as fresh, as a duplicate or as stale.
  pub ingest_lem :
      (xs : List (ScannedFill F × F)) (sc : Scanner F)
      → length sc.fresh_queue ≤ queue_size
      → let r = ingest xs sc in
        let new = answers (ids_of xs) sc.deduper in
        (r.1 ≡ keep (is_fresh_fill sc.max_age_ms) (select new (fills_of xs)))
        × (r.0.fresh_queue ≡ enqueue sc.fresh_queue r.1)
        × (length r.0.fresh_queue ≤ queue_size)
        × (r.0.meter.total_fills ≡ length xs + sc.meter.total_fills)
        × (r.0.meter.total_fresh ≡ length r.1 + sc.meter.total_fresh)
        × (r.0.meter.total_duplicates ≡ count_false new + sc.meter.total_duplicates)
        × (r.0.meter.total_fresh + r.0.meter.total_duplicates + r.0.meter.total_stale
            ≡ length xs + (sc.meter.total_fresh + sc.meter.total_duplicates + sc.meter.total_stale))
  unfolding ingest
  ingest_lem xs sc h =
      let l = take_fills_lem xs sc in
      let r = take_fills xs sc in
      (
        l.0,
        ap (λ q. enqueue q r.1) l.1,
        rw (l.1) (enqueue-fits r.1 sc.fresh_queue h),
        l.2,
        l.3,
        l.4,
        l.5,
      )
