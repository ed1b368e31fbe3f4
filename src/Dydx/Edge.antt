-- ===== src/Dydx/Edge.antt =====
-- hyper_smart_observer/dydx_v4/edge_calculator.py: what is left of an edge after all costs. The texts
-- of reasons and notes are left out.
pub mod Decision
mod Tests
use hyperliquid_smart_wallet.Prelude.{
  Bool, true, false, not, ◌&&◌, List, [], ◌∷◌, Option, none, some, if◌then◌else◌,
}
use hyperliquid_smart_wallet.Prelude.Int.{ℤ, pos, ltb_ℤ, leb_ℤ, eqb_ℤ}
use hyperliquid_smart_wallet.Float.{Float, whole, max_of, min_of}

pub data EdgeReject : Type 0 where
  stale_signal edge_too_low : EdgeReject

pub record EdgeComponents (F : Type 0) : Type 0 where
  pub leader_expected_edge_bps : F
  pub leader_consistency_factor : F
  pub signal_freshness_score : F
  pub consensus_factor : F
  pub delay_cost_bps : F
  pub spread_bps : F
  pub slippage_bps : F
  pub fee_bps : F
  pub liquidity_penalty_bps : F
  pub adverse_price_move_bps : F
  pub crowding_penalty_bps : F
  pub funding_penalty_bps : F
  pub edge_remaining_bps : F
  pub accepted : Bool
  pub reject_reason : Option EdgeReject

-- The arguments of `calculate_edge`.
pub record EdgeQuestion (F : Type 0) : Type 0 where
  pub signal_age_ms : ℤ
  pub wallet_count : ℤ
  pub leader_winrate : F
  pub leader_profit_factor : F
  pub leader_trade_count : ℤ
  pub leader_expectancy_usdc : F
  pub paper_notional_usdc : F
  pub spread_bps : F
  pub slippage_bps : F
  pub fee_bps : F
  pub delay_ms : ℤ
  pub liquidity_penalty_bps : F
  pub adverse_price_move_bps : F
  pub funding_penalty_bps : F
  pub min_edge_bps : F

module _ {F : Type 0} ⦃f : Float F⦄ where
  open f use {add, sub, mul, div, neg, lt, le, feq, of_int, decimal}

  -- The properties `gross_edge_bps` and `total_cost_bps`.
  pub gross_edge_bps : EdgeComponents F → F
  gross_edge_bps c =
      mul
        (mul (mul c.leader_expected_edge_bps c.leader_consistency_factor) c.signal_freshness_score)
        c.consensus_factor

  pub total_cost_bps : EdgeComponents F → F
  total_cost_bps c =
      add
        (add
          (add
            (add (add (add (add c.delay_cost_bps c.spread_bps) c.slippage_bps) c.fee_bps)
              c.liquidity_penalty_bps)
            c.adverse_price_move_bps)
          c.crowding_penalty_bps)
        c.funding_penalty_bps

  pub signal_freshness_score : ℤ → F
  signal_freshness_score signal_age_ms =
      if leb_ℤ signal_age_ms (pos 0)
      then decimal 10 1
      else if leb_ℤ (pos 15_000) signal_age_ms
      then decimal 0 1
      else sub (decimal 10 1) (div (of_int signal_age_ms) (whole 15_000))

  abbrev pub history_factor : F → ℤ → F
  history_factor factor trade_count =
      if leb_ℤ (pos 50) trade_count
      then min_of (decimal 10 1) (mul factor (decimal 105 2))
      else if ltb_ℤ trade_count (pos 10)
      then mul factor (decimal 8 1)
      else factor

  pub leader_consistency_factor : F → F → ℤ → F
  leader_consistency_factor winrate profit_factor trade_count =
      if le winrate (whole 0) && le profit_factor (whole 0)
      then decimal 6 1
      else if le (decimal 60 2) winrate && le (decimal 20 1) profit_factor
      then history_factor (decimal 10 1) trade_count
      else if le (decimal 55 2) winrate
      then history_factor (decimal 9 1) trade_count
      else if le (decimal 50 2) winrate
      then history_factor (decimal 8 1) trade_count
      else if le (decimal 45 2) winrate
      then history_factor (decimal 65 2) trade_count
      else if le (decimal 40 2) winrate
      then history_factor (decimal 5 1) trade_count
      else decimal 0 1

  pub consensus_factor : ℤ → F
  consensus_factor wallet_count =
      if leb_ℤ wallet_count (pos 1)
      then decimal 5 1
      else if eqb_ℤ wallet_count (pos 2)
      then decimal 10 1
      else if eqb_ℤ wallet_count (pos 3)
      then decimal 110 2
      else if eqb_ℤ wallet_count (pos 4)
      then decimal 115 2
      else decimal 118 2

  pub leader_expected_edge_bps : F → F → F → F
  leader_expected_edge_bps expectancy avg_trade_size fallback_bps =
      let edge_bps = mul (div expectancy avg_trade_size) (whole 10_000) in
      if lt (whole 0) avg_trade_size && not (feq expectancy (whole 0))
      then max_of (decimal 0 1) (min_of edge_bps (decimal 1000 1))
      else fallback_bps

  -- The result before the first step, with the defaults of the record.
  pub initial_components : EdgeQuestion F → EdgeComponents F
  initial_components q = record {
    leader_expected_edge_bps = decimal 0 1;
    leader_consistency_factor = decimal 10 1;
    signal_freshness_score = decimal 10 1;
    consensus_factor = decimal 10 1;
    delay_cost_bps = decimal 0 1;
    spread_bps = q.spread_bps;
    slippage_bps = q.slippage_bps;
    fee_bps = q.fee_bps;
    liquidity_penalty_bps = q.liquidity_penalty_bps;
    adverse_price_move_bps = q.adverse_price_move_bps;
    crowding_penalty_bps = decimal 0 1;
    funding_penalty_bps = q.funding_penalty_bps;
    edge_remaining_bps = decimal 0 1;
    accepted = false;
    reject_reason = none;
  }

  -- Steps 2 to 6.
  pub with_factors : EdgeQuestion F → EdgeComponents F → EdgeComponents F
  with_factors q c = record c {
    leader_consistency_factor =
        leader_consistency_factor q.leader_winrate q.leader_profit_factor q.leader_trade_count;
    leader_expected_edge_bps =
        leader_expected_edge_bps q.leader_expectancy_usdc q.paper_notional_usdc (decimal 150 1);
    consensus_factor = consensus_factor q.wallet_count;
    delay_cost_bps =
        min_of (mul (div (of_int q.delay_ms) (decimal 10000 1)) (decimal 20 1)) (decimal 100 1);
    crowding_penalty_bps =
        if leb_ℤ (pos 4) q.wallet_count then decimal 30 1 else c.crowding_penalty_bps;
  }

  -- Steps 7 and 8.
  pub decide : F → EdgeComponents F → EdgeComponents F
  decide min_edge_bps c =
      let edge = sub (gross_edge_bps c) (total_cost_bps c) in
      let enough = le min_edge_bps edge in
      record c {
        edge_remaining_bps = edge;
        accepted = enough;
        reject_reason = if enough then none else some EdgeReject.edge_too_low;
      }

  pub calculate_edge : EdgeQuestion F → EdgeComponents F
  calculate_edge q =
      let score = signal_freshness_score q.signal_age_ms in
      let c : EdgeComponents F = record (initial_components q) { signal_freshness_score = score } in
      let stale : EdgeComponents F = record c {
        edge_remaining_bps = neg (decimal 9990 1);
        accepted = false;
        reject_reason = some EdgeReject.stale_signal;
      } in
      if le score (decimal 0 1) then stale else decide q.min_edge_bps (with_factors q c)
