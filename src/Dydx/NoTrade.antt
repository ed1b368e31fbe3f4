-- ===== src/Dydx/NoTrade.antt =====
-- hyper_smart_observer/dydx_v4/no_trade.py: the log of the decisions not to trade, and its report.
-- The storage is a parameter: what `insert_no_trade` makes of it, `none` where it raises.
pub mod Report
mod Tests
use hyperliquid_smart_wallet.Prelude.{
  ℕ, ◌+◌, String, Bool, true, false, List, [], ◌∷◌, ◌++◌, Option, none, some, if◌then◌else◌, get_or,
  lookup, insert, length, keep, str_eq, join, print, ltb, take, map,
}
use hyperliquid_smart_wallet.Prelude.Int.{ℤ, pos, sub_ℕ, ◌-ℤ◌, ltb_ℤ}
use hyperliquid_smart_wallet.Prelude.Sort.{sort_by}
use hyperliquid_smart_wallet.Dydx.Models.{SimulationMode}
use hyperliquid_smart_wallet.Dydx.Signals.{print_ℤ}

-- A member of `NoTradeReason` is its text.
pub record LoggedDecision : Type 0 where
  pub decision_id : String
  pub reason : String
  pub signal_candidate_id : Option String
  pub account_address : Option String
  pub market_id : Option String
  pub detail : String
  pub timestamp_ms : ℤ
  pub simulation_mode : SimulationMode

pub record NoTradeReport : Type 0 where
  pub total_refused : ℕ
  pub by_reason : List (String × ℕ)
  pub top_reason : Option String
  pub oldest_decision_ms : Option ℤ
  pub newest_decision_ms : Option ℤ

pub record NoTradeEngine (S : Type 0) : Type 0 where
  pub decisions : List LoggedDecision
  pub storage : Option S

-- The arguments of `record`.
pub record Refused : Type 0 where
  pub reason : String
  pub account_address : Option String
  pub market_id : Option String
  pub detail : String
  pub signal_candidate_id : Option String
  pub simulation_mode : SimulationMode

-- An optional text in an f-string.
abbrev pub shown : Option String → String
shown none = "None"
shown (some s) = s

-- What the loop of `report` collects.
pub record Collected : Type 0 where
  pub by_reason : List (String × ℕ)
  pub oldest : Option ℤ
  pub newest : Option ℤ

abbrev pub earlier : Option ℤ → ℤ → Option ℤ
earlier none t = some t
earlier (some old) t = if ltb_ℤ t old then some t else some old

abbrev pub later : Option ℤ → ℤ → Option ℤ
later none t = some t
later (some new) t = if ltb_ℤ new t then some t else some new

pub collect : LoggedDecision → Collected → Collected
collect d c = record {
  by_reason = insert d.reason (get_or (lookup d.reason c.by_reason) 0 + 1) c.by_reason;
  oldest = earlier c.oldest d.timestamp_ms;
  newest = later c.newest d.timestamp_ms;
}

pub collect_onto : Collected → List LoggedDecision → Collected
collect_onto c [] = c
collect_onto c (d ∷ ds) = collect_onto (collect d c) ds

-- `max(items, key=...)`: the first of the largest.
pub best : String × ℕ → List (String × ℕ) → String × ℕ
best e [] = e
best e (x ∷ xs) = best (if ltb e.1 x.1 then x else e) xs

abbrev pub top_of : List (String × ℕ) → Option String
top_of [] = none
top_of (e ∷ es) = some (best e es).0

-- `NoTradeReport.summary_text`
abbrev pub summary_lines : List (String × ℕ) → List String
summary_lines [] = []
summary_lines ((reason, count) ∷ rest) =
    join ("\n  " ∷ reason ∷ ": " ∷ print count ∷ []) ∷ summary_lines rest

pub summary_text : NoTradeReport → String
summary_text r = join (
    join ("NO_TRADE Report: " ∷ print r.total_refused ∷ " refus totaux\nTop raison: " ∷ [])
    ∷ shown r.top_reason
    ∷ summary_lines (sort_by (λ x. sub_ℕ 0 x.1) r.by_reason))

module _ {S : Type 0} where
  pub report : NoTradeEngine S → NoTradeReport
  report e =
      let empty : Collected = record { by_reason = []; oldest = none; newest = none } in
      let c = collect_onto empty e.decisions in
      record {
        total_refused = length e.decisions;
        by_reason = c.by_reason;
        top_reason = top_of c.by_reason;
        oldest_decision_ms = c.oldest;
        newest_decision_ms = c.newest;
      }

  -- The limit is 0 or more.
  pub recent : ℕ → NoTradeEngine S → List LoggedDecision
  recent limit e = take limit (sort_by (λ d. pos 0 -ℤ d.timestamp_ms) e.decisions)

  pub count_by_reason : String → NoTradeEngine S → ℕ
  count_by_reason reason e = length (keep (λ d. str_eq d.reason reason) e.decisions)

  abbrev pub total : NoTradeEngine S → ℕ
  total e = length e.decisions

  pub clear : NoTradeEngine S → NoTradeEngine S
  clear e = record e { decisions = [] }

  module _ (short_hash : ℕ → String → String)
      (insert_no_trade : LoggedDecision → S → Option S) where
    pub logged : ℤ → Refused → LoggedDecision
    logged now_ms r = record {
      decision_id = short_hash 24 (
          join (
            r.reason
            ∷ ":"
            ∷ shown r.account_address
            ∷ ":"
            ∷ shown r.market_id
            ∷ ":"
            ∷ print_ℤ now_ms
            ∷ []));
      reason = r.reason;
      signal_candidate_id = r.signal_candidate_id;
      account_address = r.account_address;
      market_id = r.market_id;
      detail = r.detail;
      timestamp_ms = now_ms;
      simulation_mode = r.simulation_mode;
    }

    -- A storage that raises is left as it was.
    abbrev pub store : LoggedDecision → Option S → Option S
    store d none = none
    store d (some s) = some (get_or (insert_no_trade d s) s)

    pub record_refusal : ℤ → Refused → NoTradeEngine S → LoggedDecision × NoTradeEngine S
    record_refusal now_ms r e =
        let d = logged now_ms r in
        (d, record { decisions = e.decisions ++ (d ∷ []); storage = store d e.storage })
