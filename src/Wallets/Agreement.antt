-- ===== src/Wallets/Agreement.antt =====
-- src/hl_observer/wallets/delta_utils.py: the windows of `build_position_consensus` in which the most
-- wallets agree, for the entries of one coin and direction. The names of actions, the score and the
-- fields of the answer are left out.
pub mod Windows
use hyperliquid_smart_wallet.Prelude.{
  ℕ, String, Bool, List, [], ◌∷◌, map, Option, none, some, if◌then◌else◌, ltb, keep, lower,
}
use hyperliquid_smart_wallet.Prelude.Int.{ℤ, pos, ◌+ℤ◌, ltb_ℤ, leb_ℤ}
use hyperliquid_smart_wallet.Prelude.Sort.{sort_by}
use hyperliquid_smart_wallet.Prelude.Distinct.{distinct}

pub record EntryRow : Type 0 where
  pub wallet_address : String
  pub observed_at_ms : ℤ

abbrev pub wallets_of : List EntryRow → List String
wallets_of = map (λ (x : EntryRow). lower x.wallet_address)

abbrev pub wallet_count : List EntryRow → ℕ
wallet_count rows = distinct (wallets_of rows)

abbrev pub is_until : ℤ → EntryRow → Bool
is_until end_ms x = leb_ℤ x.observed_at_ms end_ms

-- The loop over the sorted rows, with the best candidate so far.
unfoldable pub best_onto : ℤ → List EntryRow → List EntryRow → List EntryRow
best_onto window_ms best [] = best
best_onto window_ms best (x ∷ xs) =
    let candidate = keep (is_until (x.observed_at_ms +ℤ window_ms)) (x ∷ xs) in
    best_onto window_ms
      (if ltb (wallet_count best) (wallet_count candidate) then candidate else best) xs

unfoldable pub best_window : ℤ → List EntryRow → List EntryRow
best_window window_ms rows = best_onto window_ms [] (sort_by (λ x. x.observed_at_ms) rows)

-- The group of one coin and direction, where enough wallets agree.
pub agreement : ℤ → ℤ → List EntryRow → Option (List EntryRow)
agreement window_ms min_wallets rows =
    let best = best_window window_ms rows in
    if ltb_ℤ (pos (wallet_count best)) min_wallets then none else some best
