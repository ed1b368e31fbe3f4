-- ===== src/Copying/Tests.antt =====
-- The copying package on a concrete signal, in numbers with eight decimals.
use hyperliquid_smart_wallet.Prelude.{
  ◌+◌, ◌≡◌, ◌↔◌, ◌⊎◌, refl, true, false, List, [], ◌∷◌, none, some, if◌then◌else◌, keep, length,
  is_empty, lower, upper,
}
use hyperliquid_smart_wallet.Prelude.Int.{ℤ, pos, ◌-ℤ◌, ◌+ℤ◌}
use hyperliquid_smart_wallet.Float.{whole}
use hyperliquid_smart_wallet.Float.Fixed.{fixed, fixed-IsOrdered}
use hyperliquid_smart_wallet.Copying.{clamp}
use hyperliquid_smart_wallet.Copying.Score.{
  ScoreConfig, ScoreInput, default_score_config, freshness_factor, adverse_price_move_bps,
}
use hyperliquid_smart_wallet.Copying.Score.Sizing.{
  capped_simulated_notional, wanted_notional, target_notional, remaining_exposure,
}
use hyperliquid_smart_wallet.Copying.Score.Decision.{
  entry_check, score_entry, entry_reasons, copy_degradation, edge_after_costs, consensus_factor_of,
  crowding_penalty_bps, liquidity_of, liquidity_penalty_bps, adverse_of,
  score_realtime_copy_candidate,
}
use hyperliquid_smart_wallet.Copying.Score.Decision.Accepted.{IsEntry, Passes, score_iff}
use hyperliquid_smart_wallet.Copying.Kelly.{
  KellyConfig, KellyInput, default_kelly_config, consensus_boost, win_prob, win_prob_of_edge,
  win_loss, full_kelly, leader_confidence, kelly_used, sized_usdt, target_usdt, remaining_usdt,
  capped_usdt, kelly_criterion_size,
}
use hyperliquid_smart_wallet.Copying.Kelly.Bounds.{FitsLeader, kelly_criterion_size-bounds}
use hyperliquid_smart_wallet.Copying.Leaders.{
  LeaderTrade, LeaderPerformance, new_leader_tracker, new_performance, get_leader_performance,
}
use hyperliquid_smart_wallet.Copying.Leaders.Replay.{
  record_trades, is_of, is_win, replay, streak, record_trades-replay,
}

abbrev pub candidate : ScoreInput ℤ
candidate = record {
  action_type = "open_long";
  direction = "long";
  leader_expected_edge_bps = some (fixed.decimal 60 0);
  leader_consistency_factor = fixed.decimal 1 0;
  signal_age_ms = pos 0;
  consensus_wallets = pos 3;
  liquidity_score = fixed.decimal 9 1;
  leader_score = fixed.decimal 100 0;
  leader_reference_price = fixed.decimal 100 0;
  current_mid = some (fixed.decimal 100 0);
  leader_notional_usdt = fixed.decimal 1_000 0;
  current_open_exposure_usdt = fixed.decimal 0 0;
  current_open_positions = pos 0;
  max_open_positions = pos 5;
}

abbrev config : ScoreConfig ℤ
config = default_score_config

score_accepts : (score_realtime_copy_candidate candidate config).accepted ≡ true
unfolding default_score_config score_realtime_copy_candidate entry_check score_entry entry_reasons
    copy_degradation edge_after_costs consensus_factor_of crowding_penalty_bps liquidity_of
    liquidity_penalty_bps adverse_of adverse_price_move_bps clamp freshness_factor
    capped_simulated_notional wanted_notional target_notional remaining_exposure upper ◌-ℤ◌ ◌+ℤ◌
score_accepts = refl

score_iff_example :
    ((score_realtime_copy_candidate candidate config).accepted ≡ true)
    ↔ ((expected : ℤ) × IsEntry candidate expected × Passes candidate config expected)
score_iff_example = score_iff candidate config

abbrev kelly_config : KellyConfig ℤ
kelly_config = default_kelly_config (fixed.decimal 1_000 0)

abbrev question : KellyInput ℤ
question = record {
  edge_remaining_bps = fixed.decimal 55 0;
  leader_score = fixed.decimal 100 0;
  consensus_wallets = pos 3;
  win_rate_estimate = none;
  current_open_exposure_usdt = pos 0;
  leader_notional_usdt = fixed.decimal 3 0;
}

-- The leader put in 3 USDT, the copy 5.
kelly_above_leader :
    (kelly_criterion_size question kelly_config).position_size_usdt ≡ fixed.decimal 5 0
unfolding kelly_criterion_size default_kelly_config win_prob win_prob_of_edge consensus_boost
    full_kelly win_loss capped_usdt remaining_usdt target_usdt sized_usdt kelly_used
    leader_confidence clamp ◌-ℤ◌ ◌+ℤ◌
kelly_above_leader = refl

kelly_criterion_size-bounds_example :
    let size = (kelly_criterion_size question kelly_config).position_size_usdt in
    let amount = capped_usdt question kelly_config in
    (size ≡ pos 0)
    ⊎ ((size ≡ amount)
        × (fixed.le kelly_config.min_position_usdt amount ≡ true)
        × (fixed.le amount kelly_config.max_position_usdt ≡ true)
        × (fixed.le amount (remaining_usdt question kelly_config) ≡ true)
        × (fixed.lt (whole 0) question.leader_notional_usdt ≡ true
            → FitsLeader question kelly_config amount)
        × (fixed.lt (win_prob question) kelly_config.min_win_probability ≡ false)
        × (fixed.le (full_kelly question) (whole 0) ≡ false))
unfolding default_kelly_config sized_usdt kelly_used leader_confidence full_kelly win_loss win_prob
    win_prob_of_edge consensus_boost clamp ◌-ℤ◌ ◌+ℤ◌
kelly_criterion_size-bounds_example =
    kelly_criterion_size-bounds fixed-IsOrdered question kelly_config refl refl

abbrev pub lost : LeaderTrade ℤ
lost = record {
  leader_address = "0xAb";
  coin = "BTC";
  side = "LONG";
  entry_price = fixed.decimal 100 0;
  exit_price = fixed.decimal 99 0;
  notional_usdt = fixed.decimal 50 0;
  pnl_usdt = pos 0 -ℤ fixed.decimal 5 1;
  pnl_bps = pos 0 -ℤ fixed.decimal 100 0;
  entry_timestamp = fixed.decimal 1_000 0;
  exit_timestamp = fixed.decimal 1_060 0;
  hold_duration_ms = pos 60_000;
  signal_age_at_entry_ms = pos 500;
}

abbrev won : LeaderTrade ℤ
won = record lost { leader_address = "0xCD"; pnl_usdt = fixed.decimal 2 0 }

record_trades-replay_example :
    let ts : List (LeaderTrade ℤ) = lost ∷ won ∷ lost ∷ [] in
    let own = keep (is_of (lower "0xab")) ts in
    let p = replay own (new_performance (lower "0xab")) in
    (get_leader_performance "0xab" (record_trades ts new_leader_tracker)
      ≡ (if is_empty own then none else some p))
    × (p.total_trades ≡ length own)
    × (p.winning_trades ≡ length (keep is_win own))
    × (p.winning_trades + p.losing_trades ≡ p.total_trades)
    × (p.consecutive_losses ≡ streak 0 own)
record_trades-replay_example = record_trades-replay "0xab" (lost ∷ won ∷ lost ∷ [])

-- A leader with one large win, then four losses.
abbrev spent : LeaderPerformance ℤ
spent = record (new_performance "0xab") {
  total_trades = 8;
  winning_trades = 4;
  losing_trades = 4;
  total_pnl_usdt = fixed.decimal 10 0;
  consecutive_losses = 4;
}
