-- ===== src/RiskEngine/Tests.antt =====
-- The gates on a concrete configuration.
use hyperliquid_smart_wallet.Prelude.{◌≡◌, refl, true, false, none, some, erase, lookup}
use hyperliquid_smart_wallet.Prelude.Int.{ℤ, pos}
use hyperliquid_smart_wallet.Float.Fixed.{fixed}
use hyperliquid_smart_wallet.RiskEngine.{
  WalletScoreStatus, ScoreBreakdown, AppConfig, SignalContext, PaperIntent, default_limits,
  judge_score, judge_signal, evaluate_observed_signal, evaluate_paper_intent,
}
use hyperliquid_smart_wallet.RiskEngine.Audit.{
  all_passed, unread_gate, IsPaperOnly, evaluate_paper_intent-IsPaperOnly,
  evaluate_observed_signal_lem,
}

abbrev config : AppConfig ℤ
config = record {
  allow_mainnet = false;
  mode = "OBSERVER";
  execution_enabled = false;
  testnet_execution_enabled = false;
  confirm_testnet_only = false;
  score_min_confidence = fixed.decimal 60 2;
  score_require_net_pnl = true;
  enable_paper_trading = true;
  paper_max_position_notional = fixed.decimal 1000 1;
  paper_max_open_trades = pos 3;
  paper_min_wallet_confidence = fixed.decimal 60 2;
  paper_min_sample_quality = fixed.decimal 60 2;
}

abbrev score : ScoreBreakdown ℤ
score = record {
  status = WalletScoreStatus.scored;
  sample_quality_score = fixed.decimal 80 0;
  confidence_score = fixed.decimal 75 0;
  profit_factor = some (fixed.decimal 2 0);
  net_pnl = none;
  risk_score = fixed.decimal 30 0;
}

abbrev intent : PaperIntent ℤ
intent = record {
  side = "buy";
  reference_price = fixed.decimal 100 0;
  requested_notional = fixed.decimal 50 0;
}

evaluate_paper_intent-IsPaperOnly_example :
    let r = evaluate_paper_intent intent (some score) config (pos 1) in
    (r.allowed ≡ all_passed r.gates) × (r.allowed ≡ true → IsPaperOnly intent config (pos 1))
evaluate_paper_intent-IsPaperOnly_example =
    evaluate_paper_intent-IsPaperOnly intent (some score) config (pos 1)

abbrev context : SignalContext ℤ
context = record {
  wallet_status = none;
  sample_size = some (pos 40);
  wallet_score = some (fixed.decimal 80 0);
}

-- With execution enabled outside paper trading a signal is allowed over its failed gate.
abbrev executing : AppConfig ℤ
executing = record config { execution_enabled = true }

abbrev confidence : ℤ
confidence = fixed.decimal 7 1

allowed_with_execution :
    let r = evaluate_observed_signal (some confidence) context executing none in
    (r.allowed ≡ true) × (lookup unread_gate r.gates ≡ some false)
unfolding evaluate_observed_signal judge_signal judge_score default_limits
allowed_with_execution = (refl, refl)

evaluate_observed_signal_lem_example :
    let r = evaluate_observed_signal (some confidence) context executing none in
    r.allowed ≡ all_passed (erase unread_gate r.gates)
evaluate_observed_signal_lem_example =
    evaluate_observed_signal_lem (some confidence) context executing none
