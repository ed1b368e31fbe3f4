-- ===== src/Wallets/Queue.antt =====
-- src/hl_observer/wallets/scan_queue.py: `enqueue_wallets`. The session is the list of its queue rows;
-- the scan of the queue, which goes through database queries, and the report are left out.
pub mod Selected
use hyperliquid_smart_wallet.Prelude.{
  ℕ, ◌+◌, String, Bool, true, false, not, ◌&&◌, ◌||◌, List, [], ◌∷◌, ◌++◌, map, Option, none, some,
  if◌then◌else◌, contains, is_inside, lower, join,
}
use hyperliquid_smart_wallet.Prelude.Int.{ℤ, pos}
use hyperliquid_smart_wallet.Wallets.Address.{is_full_wallet_address, is_truncated_wallet_display}

pub data ScanStatus : Type 0 where
  queued scanned skipped_duplicate skipped_invalid skipped_truncated : ScanStatus

pub record QueueRow (F : Type 0) : Type 0 where
  pub wallet_address : String
  pub priority_score : F
  pub source : String
  pub status : ScanStatus
  pub queued_at_ms : ℤ

pub record ScanQueueResult : Type 0 where
  pub queued : ℕ
  pub scanned : ℕ
  pub failed : ℕ
  pub skipped : ℕ
  pub dry_run : Bool
  pub selected_wallets : List String
  pub notes : List String

-- A wallet to enqueue.
pub record Candidate (F : Type 0) : Type 0 where
  pub wallet_address : String
  pub score : F
  pub source : String

-- The variables of the loop, with the rows of the session.
pub record Enqueuing (F : Type 0) : Type 0 where
  pub result : ScanQueueResult
  pub existing : List String
  pub rows : List (QueueRow F)

abbrev pub skip_note : ScanStatus → String
skip_note ScanStatus.skipped_truncated = ": SKIPPED_TRUNCATED"
skip_note ScanStatus.skipped_invalid = ": SKIPPED_INVALID"
skip_note s = ": SKIPPED_DUPLICATE"

-- Why a wallet is skipped, if it is.
pub skip_reason : List String → String → Option ScanStatus
skip_reason existing wallet_address =
    if is_truncated_wallet_display wallet_address || is_inside "..." wallet_address
    then some ScanStatus.skipped_truncated
    else if not (is_full_wallet_address (lower wallet_address))
    then some ScanStatus.skipped_invalid
    else if contains (lower wallet_address) existing
    then some ScanStatus.skipped_duplicate
    else none

abbrev pub skip_wallet : String → ScanStatus → ScanQueueResult → ScanQueueResult
skip_wallet wallet_address reason r = record r {
  skipped = r.skipped + 1;
  notes = r.notes ++ (join (wallet_address ∷ skip_note reason ∷ []) ∷ []);
}

abbrev pub select_wallet : String → ScanQueueResult → ScanQueueResult
select_wallet address r = record r {
  queued = r.queued + 1;
  selected_wallets = r.selected_wallets ++ (address ∷ []);
}

module _ {F : Type 0} where
  abbrev pub row_of : ℤ → Candidate F → QueueRow F
  row_of now_ms x = record {
    wallet_address = lower x.wallet_address;
    priority_score = x.score;
    source = x.source;
    status = ScanStatus.queued;
    queued_at_ms = now_ms;
  }

  abbrev pub enqueue_judged : Bool → ℤ → Candidate F → Option ScanStatus → Enqueuing F → Enqueuing F
  enqueue_judged dry_run now_ms x (some reason) e = record e {
    result = skip_wallet x.wallet_address reason e.result;
  }
  enqueue_judged dry_run now_ms x none e =
      let address = lower x.wallet_address in
      record {
        result = select_wallet address e.result;
        existing = address ∷ e.existing;
        rows = if dry_run then e.rows else e.rows ++ (row_of now_ms x ∷ []);
      }

  pub enqueue_one : Bool → ℤ → Candidate F → Enqueuing F → Enqueuing F
  enqueue_one dry_run now_ms x e =
      enqueue_judged dry_run now_ms x (skip_reason e.existing x.wallet_address) e

  pub enqueue_onto : Bool → ℤ → List (Candidate F) → Enqueuing F → Enqueuing F
  enqueue_onto dry_run now_ms [] e = e
  enqueue_onto dry_run now_ms (x ∷ xs) e =
      enqueue_onto dry_run now_ms xs (enqueue_one dry_run now_ms x e)

  abbrev pub addresses_of : List (QueueRow F) → List String
  addresses_of [] = []
  addresses_of (row ∷ rows) = row.wallet_address ∷ addresses_of rows

  -- The result, and the rows of the session afterwards.
  pub enqueue_wallets :
      Bool → ℤ → List (Candidate F) → List (QueueRow F) → ScanQueueResult × List (QueueRow F)
  enqueue_wallets dry_run now_ms wallets rows =
      let empty : ScanQueueResult = record {
        queued = 0;
        scanned = 0;
        failed = 0;
        skipped = 0;
        dry_run = dry_run;
        selected_wallets = [];
        notes = [];
      } in
      let start : Enqueuing F = record {
        result = empty;
        existing = map lower (addresses_of rows);
        rows = rows;
      } in
      let e = enqueue_onto dry_run now_ms wallets start in (e.result, e.rows)
