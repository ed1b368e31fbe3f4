-- ===== src/Wallets/Tests.antt =====
-- Positions rebuilt from concrete fills.
use hyperliquid_smart_wallet.Prelude.{
  ◌≤◌, lower, String, ◌+◌, ◌++◌, contains, length, strip_left, strip_right, starts_with, is_inside,
  ◌≡◌, refl, false, not, ◌&&◌, List, [], ◌∷◌, none, some, if◌then◌else◌, keep, is_empty, arith,
}
use hyperliquid_smart_wallet.Prelude.Int.{ℤ, ◌+ℤ◌, pos, ◌-ℤ◌}
use hyperliquid_smart_wallet.Float.Fixed.{fixed, fixed-IsOrdered}
use hyperliquid_smart_wallet.Wallets.Address.{
  text_length, all_hex, hex_run, drop_text, is_full_wallet_address, is_truncated_wallet_display,
}
use hyperliquid_smart_wallet.Wallets.Queue.{Candidate, addresses_of, enqueue_wallets}
use hyperliquid_smart_wallet.Wallets.Queue.Selected.{
  IsNew, selected, wanted, enqueue_wallets-selected,
}
use hyperliquid_smart_wallet.Prelude.Sort.{sort_by}
use hyperliquid_smart_wallet.Wallets.Agreement.{EntryRow, wallet_count, best_onto, best_window}
use hyperliquid_smart_wallet.Wallets.Agreement.Windows.{
  is_inside_window, IsWindow, best_window-largest,
}
use hyperliquid_smart_wallet.Wallets.Delta.{
  PublicFill, is_none, signed_fill_size, build_position_delta_from_fill,
}
use hyperliquid_smart_wallet.Wallets.Delta.Classify.{HasAbs}
use hyperliquid_smart_wallet.Wallets.Delta.Eligible.{
  HasLiterals, build_position_delta_from_fill-eligible,
}
use hyperliquid_smart_wallet.Wallets.Rebuild.{
  new_coin_state, sort_fills_by_time, position_from_state, rebuild_positions_from_fills,
}
use hyperliquid_smart_wallet.Wallets.Rebuild.Replay.{
  is_of, is_delta_of, is_position_of, replay, deltas_from, rebuild_positions_from_fills-replay,
}
use hyperliquid_smart_wallet.Wallets.Rebuild.Closed.{
  IsConsistent, rebuild_positions_from_fills-IsConsistent,
}
use hyperliquid_smart_wallet.Prelude.{All}

abbrev bought : PublicFill ℤ
bought = record {
  time = some (pos 2_000);
  coin = some "btc";
  price = some (fixed.decimal 100 0);
  size = some (fixed.decimal 2 0);
  start_position = some (pos 0);
  side = some " Buy ";
  direction = none;
  source = none;
}

abbrev sold : PublicFill ℤ
sold = record bought {
  time = some (pos 3_000);
  side = none;
  direction = some "Close Long";
  start_position = none;
}

abbrev other : PublicFill ℤ
other = record bought { time = some (pos 1_000); coin = some "ETH"; price = none }

abbrev fills : List (PublicFill ℤ)
fills = sold ∷ other ∷ bought ∷ []

rebuild_positions_from_fills-replay_example :
    let own = sort_fills_by_time (keep (is_of "BTC") fills) in
    let result = rebuild_positions_from_fills "0xabc" fills in
    (keep (is_position_of "BTC") result.positions ≡ (
      if is_empty own
      then []
      else position_from_state "0xabc" "BTC" (replay "0xabc" own new_coin_state) ∷ []))
    × (keep (is_delta_of "BTC") result.deltas ≡ deltas_from "0xabc" own new_coin_state)
rebuild_positions_from_fills-replay_example =
    rebuild_positions_from_fills-replay "0xabc" "BTC" fills

rebuild_positions_from_fills-IsConsistent_example :
    All IsConsistent (rebuild_positions_from_fills "0xabc" fills).positions
rebuild_positions_from_fills-IsConsistent_example =
    rebuild_positions_from_fills-IsConsistent "0xabc" fills

fixed-HasAbs : HasAbs ℤ
fixed-HasAbs = ground arith

fixed-HasLiterals : HasLiterals ℤ
unfolding ◌-ℤ◌
fixed-HasLiterals = record {
  floor_low = refl;
  unclear_low = refl;
  one_high = refl;
  high = refl;
  high_timeless = refl;
  high_priceless = refl;
  high_bare = refl;
  low = refl;
  low_timeless = refl;
  low_priceless = refl;
  low_bare = refl;
}

build_position_delta_from_fill-eligible_example :
    (build_position_delta_from_fill "0xabc" other none).is_paper_eligible
    ≡ (not (is_none other.start_position) && not (is_none (signed_fill_size other)))
build_position_delta_from_fill-eligible_example =
    build_position_delta_from_fill-eligible fixed-IsOrdered fixed-HasLiterals "0xabc" other none

abbrev wallets : List (Candidate ℤ)
wallets =
    record {
      wallet_address = "0xABCDEF0123456789abcdef0123456789abcdef01";
      score = pos 5;
      source = "dom";
    }
    ∷ record { wallet_address = "0xabcd...ef01"; score = pos 4; source = "dom" }
    ∷ record {
      wallet_address = "0xabcdef0123456789abcdef0123456789abcdef01";
      score = pos 3;
      source = "dom";
    }
    ∷ []

-- The second is shown in part, and the third is the first again.
selects_one : selected [] wallets ≡ "0xabcdef0123456789abcdef0123456789abcdef01" ∷ []
unfolding selected lower is_truncated_wallet_display is_full_wallet_address text_length all_hex
    hex_run drop_text strip_left strip_right starts_with is_inside
selects_one = refl

enqueue_wallets-selected_example :
    let r = enqueue_wallets false (pos 9_000) wallets [] in
    let known = [] in
    let chosen = r.0.selected_wallets in
    IsNew known chosen
    × ((a : String) → contains a chosen ≡ (contains a (wanted wallets) && not (contains a known)))
    × (r.0.queued ≡ length chosen)
    × (r.0.queued + r.0.skipped ≡ length wallets)
    × (addresses_of r.1 ≡ [] ++ chosen)
enqueue_wallets-selected_example = enqueue_wallets-selected false (pos 9_000) wallets []

abbrev entries : List EntryRow
entries =
    record { wallet_address = "0xA"; observed_at_ms = pos 9_000 }
    ∷ record { wallet_address = "0xb"; observed_at_ms = pos 1_000 }
    ∷ record { wallet_address = "0xa"; observed_at_ms = pos 2_000 }
    ∷ []

-- Two different wallets agree within the first four seconds.
agrees : wallet_count (best_window (pos 4_000) entries) ≡ 2
unfolding best_window best_onto sort_by lower ◌+ℤ◌
agrees = refl

best_window-largest_example :
    let sorted = sort_by (λ (x : EntryRow). x.observed_at_ms) entries in
    IsWindow (pos 4_000) (best_window (pos 4_000) entries)
    × ((t : ℤ)
        → wallet_count (keep (is_inside_window t (pos 4_000)) sorted)
          ≤ wallet_count (best_window (pos 4_000) entries))
best_window-largest_example = best_window-largest (pos 4_000) entries refl
