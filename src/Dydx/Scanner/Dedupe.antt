-- ===== src/Dydx/Scanner/Dedupe.antt =====
-- hyper_smart_observer/dydx_v4/fast_scanner.py: the bounded memory of fills against a history that
-- forgets nothing.
use hyperliquid_smart_wallet.Prelude.{
  ℕ, zero, suc, ◌+◌, ◌-◌, ◌≤◌, String, ◌≡◌, refl, sym, ap, ◌∙◌, Bool, false, not, ◌&&◌, List, [],
  ◌∷◌, ◌++◌, if◌then◌else◌, contains, is_nonempty, str_eq, drop, length, length-append,
  contains-append, contains-keep, eq_iff, arith,
}
use hyperliquid_smart_wallet.Prelude.Int.{ℤ, pos, pos_part, max_ℤ}
use hyperliquid_smart_wallet.Dydx.Scanner.{
  FillDeduper, new_deduper, add_fill, remember_fill, forget_oldest, discard,
}

-- The specification: all ids that were accepted, oldest first, of which the last `n` count.
abbrev pub recent : ℕ → List String → List String
recent n past = drop (length past - n) past

abbrev pub is_new : ℕ → List String → String → Bool
is_new n past id = is_nonempty id && not (contains id (recent n past))

pub spec_answers : ℕ → List String → List String → List Bool
spec_answers n past [] = []
spec_answers n past (id ∷ ids) =
    let next = if is_new n past id then past ++ (id ∷ []) else past in
    is_new n past id ∷ spec_answers n next ids

-- The answers of the deduper to a sequence of ids.
unfoldable pub answers : List String → FillDeduper → List Bool
answers [] d = []
answers (id ∷ ids) d = (add_fill id d).1 ∷ answers ids (add_fill id d).0

abbrev IsUnique : List String → Type 0
IsUnique [] = Unit
IsUnique (x ∷ xs) = (contains x xs ≡ false) × IsUnique xs

contains-discard :
    (a b : String) (xs : List String)
    → contains a (discard b xs) ≡ (contains a xs && not (str_eq a b))
contains-discard a b xs = contains-keep (λ x. not (str_eq x b)) a xs

IsUnique-snoc :
    (a : String) (xs : List String)
    → IsUnique xs
    → contains a xs ≡ false
    → IsUnique (xs ++ (a ∷ []))
IsUnique-snoc a [] u h = (refl, tt)
IsUnique-snoc a (x ∷ xs) u h =
    ground
      (arith, u, h, eq_iff a x, eq_iff x a, contains-append x xs (a ∷ []), IsUnique-snoc a xs u.1)

drop-append : (n : ℕ) (xs ys : List String) → n ≤ length xs → drop n (xs ++ ys) ≡ drop n xs ++ ys
drop-append zero xs ys h = refl
drop-append (suc n) [] ys h = absurd (omega arith)
drop-append (suc n) (x ∷ xs) ys h = drop-append n xs ys (omega arith)

drop_next : (n : ℕ) (xs : List String) → drop 1 (drop n xs) ≡ drop (suc n) xs
drop_next zero xs = refl
drop_next (suc n) [] = refl
drop_next (suc n) (x ∷ xs) = drop_next n xs

drop_nothing : (n : ℕ) → [] ≡ drop {A = String} n []
drop_nothing zero = refl
drop_nothing (suc n) = refl

length-drop : (n : ℕ) (xs : List String) → length (drop n xs) ≡ length xs - n
length-drop zero xs = omega arith
length-drop (suc n) [] = omega arith
length-drop (suc n) (x ∷ xs) = omega (arith, length-drop n xs)

-- The window of a history that one id longer.
recent_short :
    (n : ℕ) (id : String) (past : List String)
    → length past + 1 ≤ n
    → recent n (past ++ (id ∷ [])) ≡ recent n past ++ (id ∷ [])
recent_short n id past h =
    let new : length (past ++ (id ∷ [])) - n ≡ 0 = omega (arith, length-append past (id ∷ [])) in
    let old : length past - n ≡ 0 = omega arith in rw (new, old) refl

recent_full :
    (n : ℕ) (id : String) (past : List String)
    → 1 ≤ n
    → n ≤ length past
    → recent n (past ++ (id ∷ [])) ≡ drop 1 (recent n past ++ (id ∷ []))
recent_full n id past p h =
    let m = length past - n in
    let e : length (past ++ (id ∷ [])) - n ≡ suc m = omega (arith, length-append past (id ∷ [])) in
    rw e (
      sym (drop_next m (past ++ (id ∷ [])))
      ∙ ap (drop 1) (drop-append m past (id ∷ []) (omega arith)))

-- The memory and the history agree: the queue is the end of the history, and the set has the members
-- of the queue, which are all different.
Agrees : ℕ → FillDeduper → List String → Type 0
Agrees n d past =
    (d.maxlen ≡ pos n)
    × (d.order ≡ recent n past)
    × ((a : String) → contains a d.seen ≡ contains a d.order)
    × IsUnique d.order

forget_oldest-same :
    (d : FillDeduper) (x : String) (xs : List String)
    → d.order ≡ x ∷ xs
    → ((a : String) → contains a d.seen ≡ contains a d.order)
    → IsUnique d.order
    → (a : String) → contains a (forget_oldest d).seen ≡ contains a (forget_oldest d).order
unfolding forget_oldest
forget_oldest-same d x xs e h u a =
    ground (arith, e, h a, u, contains-discard a x d.seen, eq_iff a x)

forget_oldest-order :
    (d : FillDeduper)
    → ((forget_oldest d).order ≡ drop 1 d.order) × ((forget_oldest d).maxlen ≡ d.maxlen)
unfolding forget_oldest
forget_oldest-order d = ground arith

forget_oldest-IsUnique : (d : FillDeduper) → IsUnique d.order → IsUnique (forget_oldest d).order
unfolding forget_oldest
forget_oldest-IsUnique d u = ground (arith, u)

snoc_cases :
    (a : String) (xs : List String) → (b : String) × (bs : List String) × (xs ++ (a ∷ []) ≡ b ∷ bs)
snoc_cases a [] = (a, [], refl)
snoc_cases a (x ∷ xs) = (x, xs ++ (a ∷ []), refl)

remember_fill-Agrees :
    (n : ℕ) (id : String) (d : FillDeduper) (past : List String)
    → 1 ≤ n
    → contains id d.order ≡ false
    → Agrees n d past
    → Agrees n (remember_fill id d) (past ++ (id ∷ []))
unfolding Agrees remember_fill
remember_fill-Agrees n id d past p h (l, w, s, u) =
    let e = record d { seen = id ∷ d.seen; order = d.order ++ (id ∷ []) } in
    let longer : (a : String) → contains a e.seen ≡ contains a e.order =
      λ a. ground (arith, s a, contains-append a d.order (id ∷ [])) in
    let alone = IsUnique-snoc id d.order u h in
    let first = snoc_cases id d.order in
    (
      ground (arith, l, forget_oldest-order e),
      ground (
        arith,
        l,
        w,
        forget_oldest-order e,
        recent_short n id past,
        recent_full n id past p,
        length-append (recent n past) (id ∷ []),
        length-drop (length past - n) past,
      ),
      λ a. ground (arith, longer a, forget_oldest-same e first.0 first.1 first.2 longer alone a),
      ground (arith, alone, forget_oldest-IsUnique e alone),
    )

Agrees-contains :
    (n : ℕ) (id : String) (d : FillDeduper) (past : List String)
    → Agrees n d past
    → (contains id d.seen ≡ contains id (recent n past))
      × (contains id d.order ≡ contains id (recent n past))
unfolding Agrees
Agrees-contains n id d past (l, w, s, u) = ground (arith, s id, w)

add_fill-Agrees :
    (n : ℕ) (id : String) (d : FillDeduper) (past : List String)
    → 1 ≤ n
    → Agrees n d past
    → ((add_fill id d).1 ≡ is_new n past id)
      × Agrees n (add_fill id d).0 (if is_new n past id then past ++ (id ∷ []) else past)
unfolding add_fill
add_fill-Agrees n id d past p g =
    ground (arith, g, Agrees-contains n id d past g, remember_fill-Agrees n id d past p)

answers-refine_from :
    (n : ℕ) (ids : List String) (d : FillDeduper) (past : List String)
    → 1 ≤ n
    → Agrees n d past
    → answers ids d ≡ spec_answers n past ids
unfolding answers spec_answers
answers-refine_from n [] d past p g = refl
answers-refine_from n (id ∷ ids) d past p g =
    let a = add_fill-Agrees n id d past p g in
    let next = if is_new n past id then past ++ (id ∷ []) else past in
    ground (arith, a.0, answers-refine_from n ids (add_fill id d).0 next p a.1)

-- For every sequence of ids the deduper, with its bounded memory, gives the answers of a history
-- that forgets nothing: an id is new exactly if it is not empty and is not among the last `maxlen`
-- ids that were new. A limit below one counts as one.
pub answers-refine :
    (maxlen : ℤ) (ids : List String)
    → answers ids (new_deduper maxlen) ≡ spec_answers (pos_part (max_ℤ (pos 1) maxlen)) [] ids
unfolding new_deduper Agrees
answers-refine maxlen ids =
    answers-refine_from (pos_part (max_ℤ (pos 1) maxlen)) ids (new_deduper maxlen) [] (ground arith)
      (ground arith, drop_nothing (0 - pos_part (max_ℤ (pos 1) maxlen)), λ a. refl, tt)
