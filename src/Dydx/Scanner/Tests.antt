-- ===== src/Dydx/Scanner/Tests.antt =====
-- The scanner on concrete fills and wallets.
use hyperliquid_smart_wallet.Prelude.{◌≡◌, refl, true, false, List, [], ◌∷◌, none}
use hyperliquid_smart_wallet.Prelude.Int.{ℤ, pos}
use hyperliquid_smart_wallet.Float.Fixed.{fixed}
use hyperliquid_smart_wallet.Dydx.Scanner.{
  ScannedFill, Scanner, new_deduper, new_meter, add_fill, remember_fill, forget_oldest,
}
use hyperliquid_smart_wallet.Dydx.Scanner.Dedupe.{answers, spec_answers, answers-refine}
use hyperliquid_smart_wallet.Dydx.Scanner.Hot.{HotSet, Changes, new_hot}
use hyperliquid_smart_wallet.Dydx.Scanner.Hot.Runs.{Call, IsFollowed, run, run-IsFollowed}

-- A memory of two: the first id is new again after two others.
answers_example :
    answers ("a" ∷ "a" ∷ "b" ∷ "c" ∷ "a" ∷ []) (new_deduper (pos 2))
    ≡ true ∷ false ∷ true ∷ true ∷ true ∷ []
unfolding answers new_deduper add_fill remember_fill forget_oldest
answers_example = refl

answers-refine_example :
    answers ("a" ∷ "a" ∷ "b" ∷ "c" ∷ "a" ∷ []) (new_deduper (pos 2))
    ≡ spec_answers 2 [] ("a" ∷ "a" ∷ "b" ∷ "c" ∷ "a" ∷ [])
answers-refine_example = answers-refine (pos 2) ("a" ∷ "a" ∷ "b" ∷ "c" ∷ "a" ∷ [])

abbrev calls : List (Call ℤ)
calls =
    Call.observes "w1" (fixed.decimal 5 0) (pos 1_000)
    ∷ Call.observes "w2" (fixed.decimal 3 0) (pos 2_000)
    ∷ Call.observes "w3" (fixed.decimal 4 0) (pos 3_000)
    ∷ Call.evicts (pos 1_500) (pos 3_000)
    ∷ []

run-IsFollowed_example : IsFollowed 2 (run calls (record { hot = new_hot (pos 2); subs = [] }))
run-IsFollowed_example = run-IsFollowed calls (pos 2)

abbrev crowded : HotSet ℤ × Changes
crowded = (
  record {
    capacity = pos 1;
    entries =
        ("w1", record { score = fixed.decimal 5 0; last_seen_ms = pos 1_000 })
        ∷ ("w2", record { score = fixed.decimal 3 0; last_seen_ms = pos 2_000 })
        ∷ [];
  },
  record { added = "w2" ∷ []; removed = [] },
)

abbrev fill : ScannedFill ℤ
fill = record {
  address = "dydx1abc";
  subaccount_number = 0;
  market_id = "BTC-USD";
  side = "BUY";
  size = fixed.decimal 1 0;
  price = fixed.decimal 100 0;
  created_at_ms = pos 1_000;
  fill_id = "f1";
  age_ms = pos 500;
  source = "WS";
}

abbrev scanner : Scanner ℤ
scanner = record {
  max_age_ms = pos 4_000;
  deduper = new_deduper (pos 200_000);
  meter = new_meter (fixed.decimal 100 1);
  fresh_queue = [];
  delivered = none;
}

abbrev batch : List (ScannedFill ℤ × ℤ)
batch =
    (fill, fixed.decimal 1 0)
    ∷ (fill, fixed.decimal 2 0)
    ∷ (record fill { fill_id = "f2"; age_ms = pos 9_000 }, fixed.decimal 3 0)
    ∷ []
