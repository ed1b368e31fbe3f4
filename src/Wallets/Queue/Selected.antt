-- ===== src/Wallets/Queue/Selected.antt =====
-- src/hl_observer/wallets/scan_queue.py: which wallets are queued.
use hyperliquid_smart_wallet.Prelude.{
  append_one, append_nothing, ◌+◌, ◌≡◌, refl, sym, ap, String, Bool, false, not, ◌&&◌, ◌||◌, List,
  [], ◌∷◌, ◌++◌, map, Option, none, some, if◌then◌else◌, contains, is_inside, lower, length, arith,
  eq_iff,
}
use hyperliquid_smart_wallet.Prelude.Int.{ℤ}
use hyperliquid_smart_wallet.Wallets.Address.{is_full_wallet_address, is_truncated_wallet_display}
use hyperliquid_smart_wallet.Wallets.Delta.{is_none}
use hyperliquid_smart_wallet.Wallets.Queue.{
  ScanStatus, QueueRow, ScanQueueResult, Candidate, Enqueuing, skip_reason, enqueue_judged,
  enqueue_one, enqueue_onto, row_of, addresses_of, enqueue_wallets,
}

-- A whole address that is not shown in part.
abbrev pub is_acceptable : String → Bool
is_acceptable a =
    not (is_truncated_wallet_display a || is_inside "..." a) && is_full_wallet_address (lower a)

-- None of these is known, and none is listed twice.
pub IsNew : List String → List String → Type 0
IsNew known [] = Unit
IsNew known (a ∷ rest) = (contains a known ≡ false) × IsNew (a ∷ known) rest

skip_reason_lem :
    (known : List String) (a : String)
    → is_none (skip_reason known a) ≡ (is_acceptable a && not (contains (lower a) known))
unfolding skip_reason
skip_reason_lem known a = ground arith

module _ {F : Type 0} where
  -- What the rest of the loop selects.
  unfoldable pub selected : List String → List (Candidate F) → List String
  selected known [] = []
  selected known (x ∷ xs) =
      let a = lower x.wallet_address in
      let skipped = selected known xs in
      let taken = selected (a ∷ known) xs in
      if is_acceptable x.wallet_address && not (contains a known) then a ∷ taken else skipped

  selected-IsNew : (known : List String) (xs : List (Candidate F)) → IsNew known (selected known xs)
  unfolding IsNew selected
  selected-IsNew known [] = tt
  selected-IsNew known (x ∷ xs) =
      ground (arith, selected-IsNew known xs, selected-IsNew (lower x.wallet_address ∷ known) xs)

  -- The addresses of the acceptable wallets, in small letters.
  pub wanted : List (Candidate F) → List String
  wanted [] = []
  wanted (x ∷ xs) =
      let rest = wanted xs in
      if is_acceptable x.wallet_address then lower x.wallet_address ∷ rest else rest

  contains-selected :
      (a : String) (known : List String) (xs : List (Candidate F))
      → contains a (selected known xs) ≡ (contains a (wanted xs) && not (contains a known))
  unfolding selected wanted
  contains-selected a known [] = refl
  contains-selected a known (x ∷ xs) =
      let b = lower x.wallet_address in
      ground (arith, contains-selected a known xs, contains-selected a (b ∷ known) xs, eq_iff a b)

  -- What the loop adds to the state.
  pub record Adds (dry_run : Bool) (e later : Enqueuing F) (xs : List (Candidate F)) : Type 0 where
    pub selects :
        later.result.selected_wallets ≡ e.result.selected_wallets ++ selected e.existing xs
    pub queues : later.result.queued ≡ e.result.queued + length (selected e.existing xs)
    pub counts :
        later.result.queued + later.result.skipped ≡ e.result.queued + e.result.skipped + length xs
    pub stores :
        addresses_of later.rows
        ≡ (if dry_run then addresses_of e.rows else addresses_of e.rows ++ selected e.existing xs)

  addresses_of-append :
      (rows : List (QueueRow F)) (row : QueueRow F)
      → addresses_of (rows ++ (row ∷ [])) ≡ addresses_of rows ++ (row.wallet_address ∷ [])
  addresses_of-append [] row = refl
  addresses_of-append (r ∷ rows) row = ap (◌∷◌ r.wallet_address) (addresses_of-append rows row)

  Adds-judged :
      (dry_run : Bool) (now_ms : ℤ) (x : Candidate F) (xs : List (Candidate F))
      (reason : Option ScanStatus) (e later : Enqueuing F)
      → is_none reason
        ≡ (is_acceptable x.wallet_address && not (contains (lower x.wallet_address) e.existing))
      → Adds dry_run (enqueue_judged dry_run now_ms x reason e) later xs
      → Adds dry_run e later (x ∷ xs)
  unfolding selected
  Adds-judged dry_run now_ms x xs (some reason) e later h a = record {
    selects = ground (arith, h, a.selects);
    queues = ground (arith, h, a.queues);
    counts = omega (arith, a.counts);
    stores = ground (arith, h, a.stores);
  }
  Adds-judged dry_run now_ms x xs none e later h a =
      let b = lower x.wallet_address in
      let s = selected (b ∷ e.existing) xs in
      let row = row_of now_ms x in
      record {
        selects = ground (arith, h, a.selects, append_one e.result.selected_wallets s b);
        queues = ground (arith, h, a.queues);
        counts = omega (arith, a.counts);
        stores = ground (
          arith,
          h,
          a.stores,
          append_one (addresses_of e.rows) s b,
          addresses_of-append e.rows row,
        );
      }

  enqueue_onto-Adds :
      (dry_run : Bool) (now_ms : ℤ) (xs : List (Candidate F)) (e : Enqueuing F)
      → Adds dry_run e (enqueue_onto dry_run now_ms xs e) xs
  unfolding enqueue_onto selected enqueue_one
  enqueue_onto-Adds dry_run now_ms [] e = record {
    selects = sym (append_nothing e.result.selected_wallets);
    queues = omega arith;
    counts = omega arith;
    stores = ground (arith, append_nothing (addresses_of e.rows));
  }
  enqueue_onto-Adds dry_run now_ms (x ∷ xs) e =
      let next = enqueue_one dry_run now_ms x e in
      Adds-judged dry_run now_ms x xs (skip_reason e.existing x.wallet_address) e
        (enqueue_onto dry_run now_ms xs next) (skip_reason_lem e.existing x.wallet_address)
        (enqueue_onto-Adds dry_run now_ms xs next)

  -- The selected addresses are new and different; they are exactly those of the acceptable wallets, in
  -- small letters, that the queue does not have. As many are counted as queued as are selected, every
  -- wallet is counted once, and the queue gets the selected addresses at its end, or stays as it is in
  -- a dry run.
  pub enqueue_wallets-selected :
      (dry_run : Bool) (now_ms : ℤ) (wallets : List (Candidate F)) (rows : List (QueueRow F))
      → let r = enqueue_wallets dry_run now_ms wallets rows in
        let known = map lower (addresses_of rows) in
        let chosen = r.0.selected_wallets in
        IsNew known chosen
        × ((a : String)
            → contains a chosen ≡ (contains a (wanted wallets) && not (contains a known)))
        × (r.0.queued ≡ length chosen)
        × (r.0.queued + r.0.skipped ≡ length wallets)
        × (addresses_of r.1 ≡ (if dry_run then addresses_of rows else addresses_of rows ++ chosen))
  unfolding enqueue_wallets
  enqueue_wallets-selected dry_run now_ms wallets rows =
      let known = map lower (addresses_of rows) in
      let empty : ScanQueueResult = record {
        queued = 0;
        scanned = 0;
        failed = 0;
        skipped = 0;
        dry_run = dry_run;
        selected_wallets = [];
        notes = [];
      } in
      let start : Enqueuing F = record { result = empty; existing = known; rows = rows } in
      let added = enqueue_onto-Adds dry_run now_ms wallets start in
      (
        ground (arith, added.selects, selected-IsNew known wallets),
        λ a. ground (arith, added.selects, contains-selected a known wallets),
        ground (arith, added.selects, added.queues),
        omega (arith, added.counts),
        ground (arith, added.selects, added.stores),
      )
