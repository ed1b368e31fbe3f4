-- ===== src/Dydx/Stream/Consensus.antt =====
-- hyper_smart_observer/dydx_v4/stream_consensus.py: what `detect_consensus` finds.
use hyperliquid_smart_wallet.Prelude.{
  ◌+◌, ◌≡◌, refl, ap, ◌∙◌, String, Bool, true, ◌&&◌, List, [], ◌∷◌, map, if◌then◌else◌, str_eq,
  length, keep, is_empty, All, keys, lookup, length-insert, arith, eq_iff,
}
use hyperliquid_smart_wallet.Prelude.Int.{ℤ, pos, leb_ℤ, max_ℤ}
use hyperliquid_smart_wallet.Prelude.Sort.{sort_by, keep-sort_by, IsSortedBy, sort_by-IsSortedBy}
use hyperliquid_smart_wallet.Prelude.Distinct.{
  distinct, count_new, count_new-distinct, count_new-seen, is_key, is_key-insert,
}
use hyperliquid_smart_wallet.Dydx.Stream.{
  StreamItem, Group, StreamSignal, latest, vote, join_group, group_onto, signal_of, has_enough,
  fewest_last, detect_consensus,
}

-- The items, groups and signals of one market and direction.
abbrev pub item_for : String → String → StreamItem → Bool
item_for m d x = str_eq x.market_key m && str_eq x.direction d

abbrev pub group_for : String → String → Group → Bool
group_for m d g = str_eq g.market_key m && str_eq g.direction d

abbrev pub signal_for : String → String → StreamSignal → Bool
signal_for m d s = str_eq s.clob_pair_id m && str_eq s.direction d

keep-join_group :
    (m d : String) (x : StreamItem) (gs : List Group)
    → keep (group_for m d) (join_group x gs)
      ≡ (if item_for m d x then join_group x (keep (group_for m d) gs) else keep (group_for m d) gs)
unfolding join_group
keep-join_group m d x [] = ground arith
keep-join_group m d x (g ∷ gs) = ground (
  arith,
  keep-join_group m d x gs,
  eq_iff x.market_key g.market_key,
  eq_iff x.direction g.direction,
  eq_iff x.market_key m,
  eq_iff x.direction d,
  eq_iff g.market_key m,
  eq_iff g.direction d,
)

keep-group_onto :
    (m d : String) (gs : List Group) (xs : List StreamItem)
    → keep (group_for m d) (group_onto gs xs)
      ≡ group_onto (keep (group_for m d) gs) (keep (item_for m d) xs)
unfolding group_onto
keep-group_onto m d gs [] = refl
keep-group_onto m d gs (x ∷ xs) =
    ground (arith, keep-group_onto m d (join_group x gs) xs, keep-join_group m d x gs)

keep_swap {ℓ} :
    {A : Type ℓ} (p q : A → Bool) (xs : List A) → keep p (keep q xs) ≡ keep q (keep p xs)
keep_swap p q [] = refl
keep_swap p q (x ∷ xs) = ground (arith, keep_swap p q xs)

keep-signals :
    (m d : String) (gs : List Group)
    → keep (signal_for m d) (map signal_of gs) ≡ map signal_of (keep (group_for m d) gs)
unfolding signal_of
keep-signals m d [] = refl
keep-signals m d (g ∷ gs) = ground (arith, keep-signals m d gs)

-- The signals of a market and direction depend on its own fills only.
pub keep-detect_consensus :
    (m d : String) (min_wallets : ℤ) (items : List StreamItem)
    → keep (signal_for m d) (detect_consensus items min_wallets)
      ≡ detect_consensus (keep (item_for m d) items) min_wallets
unfolding detect_consensus
keep-detect_consensus m d min_wallets items =
    let enough = has_enough min_wallets in
    let gs = group_onto [] items in
    keep-sort_by fewest_last (signal_for m d) (map signal_of (keep enough gs))
    ∙ ap (sort_by fewest_last) (
        keep-signals m d (keep enough gs)
        ∙ ap (map signal_of)
            (keep_swap (group_for m d) enough gs ∙ ap (keep enough) (keep-group_onto m d [] items)))

abbrev pub votes_onto : List (String × ℤ) → List StreamItem → List (String × ℤ)
votes_onto owners [] = owners
votes_onto owners (x ∷ xs) = votes_onto (vote x owners) xs

abbrev pub group_of : String → String → List (String × ℤ) → Group
group_of m d owners = record { market_key = m; direction = d; owners = owners }

group_onto_one :
    (m d : String) (owners : List (String × ℤ)) (xs : List StreamItem)
    → All (λ x. item_for m d x ≡ true) xs
    → group_onto (group_of m d owners ∷ []) xs ≡ group_of m d (votes_onto owners xs) ∷ []
unfolding group_onto join_group
group_onto_one m d owners [] h = refl
group_onto_one m d owners (x ∷ xs) h =
    ground (arith, h.0, group_onto_one m d (vote x owners) xs h.1)

group_onto_own :
    (m d : String) (xs : List StreamItem)
    → All (λ x. item_for m d x ≡ true) xs
    → group_onto [] xs ≡ (if is_empty xs then [] else group_of m d (votes_onto [] xs) ∷ [])
unfolding group_onto join_group
group_onto_own m d [] h = refl
group_onto_own m d (x ∷ xs) h =
    ground (
      arith,
      h.0,
      eq_iff x.market_key m,
      eq_iff x.direction d,
      group_onto_one m d (vote x []) xs h.1,
    )

length-votes_onto :
    (owners : List (String × ℤ)) (xs : List StreamItem)
    → length (votes_onto owners xs)
      ≡ length owners + count_new (is_key owners) (map (λ (x : StreamItem). x.owner) xs)
length-votes_onto owners [] = omega arith
length-votes_onto owners (x ∷ xs) =
    let k = x.owner in
    let ts = latest (lookup k owners) x.ts_ms in
    let rest = map (λ (y : StreamItem). y.owner) xs in
    let next = rw (is_key-insert k ts owners) at (length-votes_onto (vote x owners) xs) in
    ground (arith, next, length-insert k ts owners, count_new-seen (is_key owners) k rest)

abbrev pub owners_of : List StreamItem → List String
owners_of = map (λ (x : StreamItem). x.owner)

All-kept {ℓ} : {A : Type ℓ} (p : A → Bool) (xs : List A) → All (λ x. p x ≡ true) (keep p xs)
All-kept p [] = tt
All-kept p (x ∷ xs) = ground (arith, All-kept p xs)

length-keys : (owners : List (String × ℤ)) → length (keys owners) ≡ length owners
length-keys [] = refl
length-keys (x ∷ xs) = omega (arith, length-keys xs)

length-votes : (xs : List StreamItem) → length (votes_onto [] xs) ≡ distinct (owners_of xs)
length-votes xs = omega (arith, length-votes_onto [] xs, count_new-distinct (owners_of xs))

detect_consensus-own :
    (m d : String) (min_wallets : ℤ) (xs : List StreamItem)
    → All (λ x. item_for m d x ≡ true) xs
    → detect_consensus xs min_wallets ≡ (
        if leb_ℤ (max_ℤ (pos 1) min_wallets) (pos (distinct (owners_of xs)))
        then signal_of (group_of m d (votes_onto [] xs)) ∷ []
        else [])
unfolding detect_consensus sort_by
detect_consensus-own m d min_wallets xs h = ground (arith, group_onto_own m d xs h, length-votes xs)

-- For each market and direction there is one signal if the number of different owners among its
-- fills reaches what is required and is not 0, and none otherwise; the signal has that number of
-- wallets, which are these owners with the latest times of each. The signals are listed by their
-- number of wallets, the largest first.
pub detect_consensus-distinct :
    (m d : String) (min_wallets : ℤ) (items : List StreamItem)
    → let own = keep (item_for m d) items in
      let n = distinct (owners_of own) in
      let signal = signal_of (group_of m d (votes_onto [] own)) in
      (keep (signal_for m d) (detect_consensus items min_wallets)
        ≡ (if leb_ℤ (max_ℤ (pos 1) min_wallets) (pos n) then signal ∷ [] else []))
      × (length signal.wallets ≡ n)
      × IsSortedBy fewest_last (detect_consensus items min_wallets)
unfolding signal_of detect_consensus
detect_consensus-distinct m d min_wallets items =
    let own = keep (item_for m d) items in
    let votes = votes_onto [] own in
    let found = keep (has_enough min_wallets) (group_onto [] items) in
    (
      keep-detect_consensus m d min_wallets items
          ∙ detect_consensus-own m d min_wallets own (All-kept (item_for m d) items),
      length-keys votes ∙ length-votes own,
      sort_by-IsSortedBy fewest_last (map signal_of found),
    )
