-- ===== src/RiskEngine/Audit.antt =====
-- hyper_smart_observer/risk_engine/gates.py: the recorded gates against the decisions.
use hyperliquid_smart_wallet.Prelude.{
  ◌≡◌, refl, String, Bool, true, false, ◌&&◌, List, [], ◌∷◌, ◌++◌, Option, none, some, insert,
  erase, contains, upper, str_eq, eq_iff, get_or, is_some, arith,
}
use hyperliquid_smart_wallet.Prelude.Int.{ℤ, ltb_ℤ}
use hyperliquid_smart_wallet.Float.{Float, whole}
use hyperliquid_smart_wallet.RiskEngine.{
  RiskLimits, RiskDecision, ScoreBreakdown, AppConfig, SignalContext, PaperIntent, signal_gates,
  judge_score, judge_signal, evaluate_observed_signal, default_limits,
  evaluate_wallet_score_for_research, intent_gates, wallet_gates, judge_intent, judge_wallet,
  evaluate_paper_intent,
}

-- Every recorded gate is passed.
abbrev pub all_passed : List (String × Bool) → Bool
all_passed [] = true
all_passed ((name, passed) ∷ rest) = passed && all_passed rest

abbrev pub all_allowed : List RiskDecision → Bool
all_allowed [] = true
all_allowed (d ∷ ds) = d.allowed && all_allowed ds

all_passed-append :
    (xs ys : List (String × Bool)) → all_passed (xs ++ ys) ≡ (all_passed xs && all_passed ys)
all_passed-append [] ys = refl
all_passed-append ((name, passed) ∷ xs) ys = ground (arith, all_passed-append xs ys)

-- The gate that `evaluate_observed_signal` records and never reads.
abbrev pub unread_gate : String
unread_gate = "execution_disabled_or_paper"

all_passed-insert :
    (name : String) (gates : List (String × Bool)) → all_passed (insert name false gates) ≡ false
all_passed-insert name [] = refl
all_passed-insert name ((other, passed) ∷ gates) =
    ground (arith, eq_iff other name, all_passed-insert name gates)

-- A failed gate of another name shows.
all_passed-failed :
    (name : String) (gates : List (String × Bool))
    → str_eq name unread_gate ≡ false
    → all_passed (erase unread_gate (insert name false gates)) ≡ false
all_passed-failed name [] h = ground (arith, h)
all_passed-failed name ((other, passed) ∷ gates) h = ground (
  arith,
  h,
  all_passed-failed name gates h,
  all_passed-insert name gates,
  eq_iff other name,
  eq_iff other unread_gate,
)

module _ {F : Type 0} ⦃f : Float F⦄ where
  open f use {lt, le}

  -- A wallet may be shown as a research observation exactly if every recorded gate is passed.
  evaluate_wallet_score_for_research-audit :
      (s : ScoreBreakdown F) (c : AppConfig F)
      → let r = evaluate_wallet_score_for_research s c in r.allowed ≡ all_passed r.gates
  unfolding evaluate_wallet_score_for_research
  evaluate_wallet_score_for_research-audit s c = ground arith

  judge_intent_lem :
      (i : PaperIntent F) (gates : List (String × Bool)) (c : AppConfig F) (open_trades : ℤ)
      → let r = judge_intent i gates c open_trades in
        (r.gates ≡ gates)
        × (r.allowed ≡ (
            contains (upper i.side) ("BUY" ∷ "SELL" ∷ [])
            && lt (whole 0) i.reference_price
            && lt (whole 0) i.requested_notional
            && le i.requested_notional c.paper_max_position_notional
            && ltb_ℤ open_trades c.paper_max_open_trades))
  unfolding judge_intent
  judge_intent_lem i gates c open_trades = ground arith

  judge_wallet_lem :
      (score : Option (ScoreBreakdown F)) (i : PaperIntent F) (gates : List (String × Bool))
      (c : AppConfig F) (open_trades : ℤ)
      → all_passed gates ≡ (is_some score && (judge_intent i gates c open_trades).allowed)
      → let r = judge_wallet score i gates c open_trades in r.allowed ≡ all_passed r.gates
  unfolding judge_wallet
  judge_wallet_lem none i gates c open_trades h = ground (arith, h)
  judge_wallet_lem (some s) i gates c open_trades h =
      let more = gates ++ wallet_gates s c in
      ground (
        arith,
        h,
        all_passed-append gates (wallet_gates s c),
        judge_intent_lem i gates c open_trades,
        judge_intent_lem i more c open_trades,
      )

  -- What the acceptance of an intent says.
  pub record IsPaperOnly (i : PaperIntent F) (c : AppConfig F) (open_trades : ℤ) : Type 0 where
    pub no_execution : c.execution_enabled ≡ false
    pub no_testnet : c.testnet_execution_enabled ≡ false
    pub positive : lt (whole 0) i.requested_notional ≡ true
    pub bounded : le i.requested_notional c.paper_max_position_notional ≡ true
    pub has_room : ltb_ℤ open_trades c.paper_max_open_trades ≡ true

  judge_wallet-bounds :
      (score : Option (ScoreBreakdown F)) (i : PaperIntent F) (gates : List (String × Bool))
      (c : AppConfig F) (open_trades : ℤ)
      → (judge_wallet score i gates c open_trades).allowed ≡ true
      → (lt (whole 0) i.requested_notional ≡ true)
        × (le i.requested_notional c.paper_max_position_notional ≡ true)
        × (ltb_ℤ open_trades c.paper_max_open_trades ≡ true)
  unfolding judge_wallet
  judge_wallet-bounds none i gates c open_trades h = cc
  judge_wallet-bounds (some s) i gates c open_trades h =
      ground (arith, h, judge_intent_lem i (gates ++ wallet_gates s c) c open_trades)

  evaluate_paper_intent_lem :
      (i : PaperIntent F) (score : Option (ScoreBreakdown F)) (c : AppConfig F) (open_trades : ℤ)
      → let r = evaluate_paper_intent i score c open_trades in r.allowed ≡ all_passed r.gates
  unfolding evaluate_paper_intent
  evaluate_paper_intent_lem i score c open_trades =
      let gates = intent_gates i (is_some score) c open_trades in
      ground (
        arith,
        judge_wallet_lem score i gates c open_trades,
        judge_intent_lem i gates c open_trades,
      )

  -- An intent is accepted exactly if every gate in the record of the decision is passed; then no
  -- execution is enabled, on testnet neither, the notional is positive and within the limit, and
  -- there is room for another trade.
  pub evaluate_paper_intent-IsPaperOnly :
      (i : PaperIntent F) (score : Option (ScoreBreakdown F)) (c : AppConfig F) (open_trades : ℤ)
      → let r = evaluate_paper_intent i score c open_trades in
        (r.allowed ≡ all_passed r.gates) × (r.allowed ≡ true → IsPaperOnly i c open_trades)
  unfolding evaluate_paper_intent
  evaluate_paper_intent-IsPaperOnly i score c open_trades =
      let gates = intent_gates i (is_some score) c open_trades in
      (
        evaluate_paper_intent_lem i score c open_trades,
        λ h. ground (arith, h, judge_wallet-bounds score i gates c open_trades),
      )

  judge_score_lem :
      (score : Option F) (confidence : F) (gates : List (String × Bool)) (c : AppConfig F)
      (limits : RiskLimits F)
      → all_passed (erase unread_gate gates) ≡ true
      → let r = judge_score score confidence gates c limits in
        r.allowed ≡ all_passed (erase unread_gate r.gates)
  unfolding judge_score
  judge_score_lem none confidence gates c limits h =
      ground (arith, all_passed-failed "score_present" gates refl)
  judge_score_lem (some score) confidence gates c limits h = ground (
    arith,
    h,
    all_passed-failed "confidence_minimum" gates refl,
    all_passed-failed "testnet_confirmed" gates refl,
  )

  judge_signal_lem :
      (confidence : F) (x : SignalContext F) (c : AppConfig F) (limits : RiskLimits F)
      → let r = judge_signal confidence (signal_gates (some confidence) c) x c limits in
        r.allowed ≡ all_passed (erase unread_gate r.gates)
  unfolding judge_signal
  judge_signal_lem confidence x c limits =
      let gates = signal_gates (some confidence) c in
      ground (
        arith,
        all_passed-failed "mainnet_forbidden" gates refl,
        all_passed-failed "wallet_not_blocked" gates refl,
        all_passed-failed "data_sufficient" gates refl,
        judge_score_lem x.wallet_score confidence gates c limits,
      )

  -- A signal is allowed exactly if every gate in the record of the decision is passed but one: the
  -- gate on enabled execution is recorded and changes nothing.
  pub evaluate_observed_signal_lem :
      (signal : Option F) (x : SignalContext F) (c : AppConfig F) (limits : Option (RiskLimits F))
      → let r = evaluate_observed_signal signal x c limits in
        r.allowed ≡ all_passed (erase unread_gate r.gates)
  unfolding evaluate_observed_signal
  evaluate_observed_signal_lem none x c limits = refl
  evaluate_observed_signal_lem (some confidence) x c limits =
      judge_signal_lem confidence x c (get_or limits default_limits)
