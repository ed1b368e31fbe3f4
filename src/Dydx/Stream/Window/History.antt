-- ===== src/Dydx/Stream/Window/History.antt =====
-- hyper_smart_observer/dydx_v4/stream_consensus.py: the window against the history of the fills.
use hyperliquid_smart_wallet.Prelude.{
  append_one, append_nothing, keep-append, ℕ, ◌≤◌, ◌≡◌, refl, String, Bool, true, List, [], ◌∷◌,
  ◌++◌, Option, none, some, if◌then◌else◌, length, keep, All, is_nonempty, ap, ◌+◌, arith,
  length-append, length-keep, ◌∙◌, Bool-cases, inl, inr,
}
use hyperliquid_smart_wallet.Prelude.Int.{ℤ, ◌-ℤ◌, leb_ℤ, -ℤ_parts}
use hyperliquid_smart_wallet.Dydx.Stream.{StreamItem, FillWindow, add_item, prune_window}
use hyperliquid_smart_wallet.Dydx.Stream.Window.{
  IsInOrder, is_fresh, pop_excess-short, pop_old-keep,
}

pub data Call : Type 0 where
  adds : String → Option String → String → ℤ → Call
  prunes : ℤ → Call

pub run : List Call → FillWindow → FillWindow
run [] w = w
run (Call.adds owner market direction ts ∷ cs) w = run cs (add_item owner market direction ts w)
run (Call.prunes now ∷ cs) w = run cs (prune_window now w)

-- The fills that the calls add, those without an owner or a market left out.
unfoldable pub history : List Call → List StreamItem
history [] = []
history (Call.adds owner none direction ts ∷ cs) = history cs
history (Call.adds owner (some market) direction ts ∷ cs) =
    let x : StreamItem = record {
      ts_ms = ts;
      owner = owner;
      market_key = market;
      direction = direction;
    } in
    let rest = history cs in if is_nonempty owner then x ∷ rest else rest
history (Call.prunes now ∷ cs) = history cs

-- No prune of the calls is later.
unfoldable pub IsBefore : ℤ → List Call → Type 0
IsBefore now [] = Unit
IsBefore now (Call.adds owner market direction ts ∷ cs) = IsBefore now cs
IsBefore now (Call.prunes earlier ∷ cs) = (leb_ℤ earlier now ≡ true) × IsBefore now cs

keep_later :
    (a b : ℤ) (xs : List StreamItem)
    → leb_ℤ a b ≡ true
    → keep (is_fresh b) (keep (is_fresh a) xs) ≡ keep (is_fresh b) xs
keep_later a b [] h = refl
keep_later a b (x ∷ xs) h = ground (arith, h, keep_later a b xs h)

All-part :
    (t : ℤ) (p : StreamItem → Bool) (xs ys : List StreamItem)
    → All (λ y. leb_ℤ t y.ts_ms ≡ true) (xs ++ ys)
    → All (λ y. leb_ℤ t y.ts_ms ≡ true) (keep p xs ++ ys)
All-part t p [] ys h = h
All-part t p (x ∷ xs) ys h = ground (arith, h.0, All-part t p xs ys h.1)

IsInOrder-part :
    (p : StreamItem → Bool) (xs ys : List StreamItem)
    → IsInOrder (xs ++ ys)
    → IsInOrder (keep p xs ++ ys)
unfolding IsInOrder
IsInOrder-part p [] ys h = h
IsInOrder-part p (x ∷ xs) ys h =
    ground (arith, All-part x.ts_ms p xs ys h.0, IsInOrder-part p xs ys h.1)

All-left :
    (t : ℤ) (xs ys : List StreamItem)
    → All (λ y. leb_ℤ t y.ts_ms ≡ true) (xs ++ ys)
    → All (λ y. leb_ℤ t y.ts_ms ≡ true) xs
All-left t [] ys h = tt
All-left t (x ∷ xs) ys h = (h.0, All-left t xs ys h.1)

IsInOrder-left : (xs ys : List StreamItem) → IsInOrder (xs ++ ys) → IsInOrder xs
unfolding IsInOrder
IsInOrder-left [] ys h = tt
IsInOrder-left (x ∷ xs) ys h = (All-left x.ts_ms xs ys h.0, IsInOrder-left xs ys h.1)

prune_window-keep :
    (now : ℤ) (w : FillWindow) (later : List StreamItem)
    → IsInOrder (w.items ++ later)
    → prune_window now w ≡ record w { items = keep (is_fresh (now -ℤ w.window_ms)) w.items }
unfolding prune_window
prune_window-keep now w later h =
    ap (λ xs. record w { items = xs })
      (pop_old-keep (now -ℤ w.window_ms) w.items (IsInOrder-left w.items later h))

add_item-append :
    (owner market direction : String) (ts : ℤ) (w : FillWindow)
    → length w.items + 1 ≤ w.maxlen
    → is_nonempty owner ≡ true
    → let x : StreamItem = record {
      ts_ms = ts;
      owner = owner;
      market_key = market;
      direction = direction;
    } in
      add_item owner (some market) direction ts w ≡ record w { items = w.items ++ (x ∷ []) }
unfolding add_item
add_item-append owner market direction ts w h e =
    let x : StreamItem = record {
      ts_ms = ts;
      owner = owner;
      market_key = market;
      direction = direction;
    } in
    let fits : length (w.items ++ (x ∷ [])) ≤ w.maxlen =
      omega (arith, length-append w.items (x ∷ []), h) in
    ground (arith, e, pop_excess-short w.maxlen (w.items ++ (x ∷ [])) fits)

shift_later : (a b c : ℤ) → leb_ℤ a b ≡ true → leb_ℤ (a -ℤ c) (b -ℤ c) ≡ true
shift_later a b c h = ground (arith, h, -ℤ_parts a c, -ℤ_parts b c)

-- What the window shows at the time `now`, in its own order.
abbrev pub fresh : ℤ → FillWindow → List StreamItem
fresh now w = keep (is_fresh (now -ℤ w.window_ms)) w.items

run-history_from :
    (cs : List Call) (now : ℤ) (w : FillWindow)
    → length w.items + length (history cs) ≤ w.maxlen
    → IsInOrder (w.items ++ history cs)
    → IsBefore now cs
    → (fresh now (run cs w) ≡ keep (is_fresh (now -ℤ w.window_ms)) (w.items ++ history cs))
      × IsInOrder (run cs w).items
unfolding run history IsBefore add_item
run-history_from [] now w h o b =
    let whole = append_nothing w.items in (ground (arith, whole), ground (arith, o, whole))
run-history_from (Call.adds owner none direction ts ∷ cs) now w h o b =
    run-history_from cs now w h o b
run-history_from (Call.adds owner (some market) direction ts ∷ cs) now w h o b =
    let x : StreamItem = record {
      ts_ms = ts;
      owner = owner;
      market_key = market;
      direction = direction;
    } in
    let w' : FillWindow = record w { items = w.items ++ (x ∷ []) } in
    let later = append_one w.items (history cs) x in
    let size = length-append w.items (x ∷ []) in
    elim (Bool-cases (is_nonempty owner)) [
      | inl e ↦
          let h' : length w'.items + length (history cs) ≤ w.maxlen = ground (arith, h, e, size) in
          let o' : IsInOrder (w'.items ++ history cs) = ground (arith, o, e, later) in
          let added = add_item-append owner market direction ts w (ground (arith, h, e)) e in
          ground (arith, e, later, added, run-history_from cs now w' h' o' b)
      | inr e ↦
          let kept : add_item owner (some market) direction ts w ≡ w = ground (arith, e) in
          ground (
            arith,
            e,
            kept,
            run-history_from cs now w (ground (arith, h, e)) (ground (arith, o, e)) b,
          )
    ]
run-history_from (Call.prunes earlier ∷ cs) now w h o b =
    let old = earlier -ℤ w.window_ms in
    let w' : FillWindow = record w { items = keep (is_fresh old) w.items } in
    let h' : length w'.items + length (history cs) ≤ w.maxlen =
      omega (arith, h, length-keep (is_fresh old) w.items) in
    let o' = IsInOrder-part (is_fresh old) w.items (history cs) o in
    let new = now -ℤ w.window_ms in
    ground (
      arith,
      prune_window-keep earlier w (history cs) o,
      run-history_from cs now w' h' o' b.1,
      keep-append (is_fresh new) w'.items (history cs),
      keep-append (is_fresh new) w.items (history cs),
      keep_later old new w.items (shift_later earlier now w.window_ms b.0),
    )

run-window_ms : (cs : List Call) (w : FillWindow) → (run cs w).window_ms ≡ w.window_ms
unfolding run add_item prune_window
run-window_ms [] w = refl
run-window_ms (Call.adds owner none direction ts ∷ cs) w = run-window_ms cs w
run-window_ms (Call.adds owner (some market) direction ts ∷ cs) w =
    run-window_ms cs (add_item owner (some market) direction ts w) ∙ ground arith
run-window_ms (Call.prunes now ∷ cs) w = run-window_ms cs (prune_window now w)

-- Where the fills come in the order of their times and fit into an empty window, the window pruned at
-- the end holds the fills of the whole history that are not older than it is long, in order, whatever
-- prunes came before.
pub run-history :
    (cs : List Call) (now window_ms : ℤ) (maxlen : ℕ)
    → length (history cs) ≤ maxlen
    → IsInOrder (history cs)
    → IsBefore now cs
    → let w : FillWindow = record { window_ms = window_ms; maxlen = maxlen; items = [] } in
      (prune_window now (run cs w)).items ≡ keep (is_fresh (now -ℤ window_ms)) (history cs)
unfolding prune_window
run-history cs now window_ms maxlen h o b =
    let w : FillWindow = record { window_ms = window_ms; maxlen = maxlen; items = [] } in
    let r = run-history_from cs now w (omega (arith, h)) o b in
    ground (
      arith,
      r.0,
      run-window_ms cs w,
      pop_old-keep (now -ℤ (run cs w).window_ms) (run cs w).items r.1,
    )
