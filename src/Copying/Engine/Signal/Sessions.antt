-- ===== src/Copying/Engine/Signal/Sessions.antt =====
-- src/hl_observer/copying/viral_bot_engine.py: whole sessions of the engine.
use hyperliquid_smart_wallet.Prelude.{
  ℕ, ◌+◌, ◌≡◌, String, Bool, true, false, not, List, [], ◌∷◌, contains, lower, arith, length, keep,
  All, str_eq, contains-append, eq_iff,
}
use hyperliquid_smart_wallet.Prelude.Int.{ℤ}
use hyperliquid_smart_wallet.Float.{Float}
use hyperliquid_smart_wallet.Copying.Leaders.{LeaderTrade}
use hyperliquid_smart_wallet.Copying.Engine.{
  ViralEngine, SignalRequest, Clock, TradeDecision, is_accept, add_leader, record_closed_trade,
  force_eject_leader, reset_ejections,
}
use hyperliquid_smart_wallet.Copying.Engine.Signal.{evaluate_signal}

-- The calls that change the engine.
pub data Call (F : Type 0) : Type 0 where
  evaluates : Clock F → SignalRequest F → Call F
  closes : F → LeaderTrade F → Call F
  ejects : String → Call F
  resets : Call F

abbrev pub is_circuit : TradeDecision → Bool
is_circuit TradeDecision.reject_circuit_breaker = true
is_circuit d = false

abbrev pub is_kelly : TradeDecision → Bool
is_kelly TradeDecision.reject_kelly_no_edge = true
is_kelly d = false

abbrev pub is_ejected : TradeDecision → Bool
is_ejected TradeDecision.reject_leader_ejected = true
is_ejected d = false

-- A leader and what was decided of its signal.
abbrev pub Verdict : Type 0
Verdict = String × TradeDecision

abbrev pub count : (TradeDecision → Bool) → List Verdict → ℕ
count p vs = length (keep (λ (v : Verdict). p v.1) vs)

module _ {F : Type 0} ⦃f : Float F⦄ {Plan : Type 0} (select : String → F → ℤ → F → Plan) where
  -- The engine after the calls.
  pub run : List (Call F) → ViralEngine F → ViralEngine F
  run [] e = e
  run (Call.evaluates c q ∷ cs) e = run cs (evaluate_signal select c q e).0
  run (Call.closes now t ∷ cs) e = run cs (record_closed_trade now t e)
  run (Call.ejects address ∷ cs) e = run cs (force_eject_leader address e)
  run (Call.resets ∷ cs) e = run cs (reset_ejections e)

  -- What it decided in them.
  pub verdicts : List (Call F) → ViralEngine F → List Verdict
  verdicts [] e = []
  verdicts (Call.evaluates c q ∷ cs) e =
      let r = evaluate_signal select c q e in
      (lower q.leader_address, r.1.decision) ∷ verdicts cs r.0
  verdicts (Call.closes now t ∷ cs) e = verdicts cs (record_closed_trade now t e)
  verdicts (Call.ejects address ∷ cs) e = verdicts cs (force_eject_leader address e)
  verdicts (Call.resets ∷ cs) e = verdicts cs (reset_ejections e)

  -- The counters of `b` are those of `a` and one for each verdict.
  unfoldable pub Counts : ViralEngine F → List Verdict → ViralEngine F → Type 0
  Counts a vs b =
      (b.total_signals_evaluated ≡ a.total_signals_evaluated + length vs)
      × (b.total_accepted ≡ a.total_accepted + count is_accept vs)
      × (b.total_rejected ≡ a.total_rejected + count (λ d. not (is_accept d)) vs)
      × (b.total_circuit_breaker_blocks ≡ a.total_circuit_breaker_blocks + count is_circuit vs)
      × (b.total_kelly_rejects ≡ a.total_kelly_rejects + count is_kelly vs)
      × (b.total_leader_ejects ≡ a.total_leader_ejects + count is_ejected vs)

  pub Counts-evaluated :
      (c : Clock F) (q : SignalRequest F) (e : ViralEngine F)
      → let r = evaluate_signal select c q e in
        Counts e ((lower q.leader_address, r.1.decision) ∷ []) r.0
  unfolding Counts evaluate_signal
  Counts-evaluated c q e = ground arith

  pub Counts-closed :
      (now : F) (t : LeaderTrade F) (e : ViralEngine F) → Counts e [] (record_closed_trade now t e)
  unfolding Counts record_closed_trade force_eject_leader
  Counts-closed now t e = ground arith

  Counts-after :
      (a b c : ViralEngine F) (v : Verdict) (vs : List Verdict)
      → Counts a (v ∷ []) b
      → Counts b vs c
      → Counts a (v ∷ vs) c
  unfolding Counts
  Counts-after a b c v vs h k = ground (arith, h, k)

  Counts-same :
      (a b c : ViralEngine F) (vs : List Verdict) → Counts a [] b → Counts b vs c → Counts a vs c
  unfolding Counts
  Counts-same a b c vs h k = ground (arith, h, k)

  -- In every session each counter goes up by the number of the verdicts that it counts.
  pub run-Counts : (cs : List (Call F)) (e : ViralEngine F) → Counts e (verdicts cs e) (run cs e)
  unfolding Counts run verdicts force_eject_leader reset_ejections
  run-Counts [] e = ground arith
  run-Counts (Call.evaluates c q ∷ cs) e =
      let r = evaluate_signal select c q e in
      Counts-after e r.0 (run cs r.0) _ _ (Counts-evaluated c q e) (run-Counts cs r.0)
  run-Counts (Call.closes now t ∷ cs) e =
      let n = record_closed_trade now t e in
      Counts-same e n (run cs n) _ (Counts-closed now t e) (run-Counts cs n)
  run-Counts (Call.ejects address ∷ cs) e = run-Counts cs (force_eject_leader address e)
  run-Counts (Call.resets ∷ cs) e = run-Counts cs (reset_ejections e)

  abbrev pub has_reset : List (Call F) → Bool
  has_reset [] = false
  has_reset (Call.resets ∷ cs) = true
  has_reset (Call.evaluates c q ∷ cs) = has_reset cs
  has_reset (Call.closes now t ∷ cs) = has_reset cs
  has_reset (Call.ejects address ∷ cs) = has_reset cs

  contains-add_leader :
      (a b : String) (xs : List String) → contains a xs ≡ true → contains a (add_leader b xs) ≡ true
  contains-add_leader a b xs h = ground (arith, h, contains-append a xs (b ∷ []))

  contains-closed :
      (a : String) (now : F) (t : LeaderTrade F) (e : ViralEngine F)
      → contains a e.ejected_leaders ≡ true
      → contains a (record_closed_trade now t e).ejected_leaders ≡ true
  unfolding record_closed_trade force_eject_leader
  contains-closed a now t e h =
      ground (arith, h, contains-add_leader a (lower t.leader_address) e.ejected_leaders h)

  evaluate-ejected :
      (a : String) (c : Clock F) (q : SignalRequest F) (e : ViralEngine F)
      → contains a e.ejected_leaders ≡ true
      → let r = evaluate_signal select c q e in
        (str_eq (lower q.leader_address) a ≡ true
          → r.1.decision ≡ TradeDecision.reject_leader_ejected)
        × (contains a r.0.ejected_leaders ≡ true)
  unfolding evaluate_signal
  evaluate-ejected a c q e h = ground (arith, h, eq_iff (lower q.leader_address) a)

  -- Once a leader is ejected, each of its signals is rejected for it, until the ejections are reset.
  pub verdicts-ejected :
      (address : String) (cs : List (Call F)) (e : ViralEngine F)
      → contains address e.ejected_leaders ≡ true
      → has_reset cs ≡ false
      → All
          (λ (v : Verdict). str_eq v.0 address ≡ true → v.1 ≡ TradeDecision.reject_leader_ejected)
          (verdicts cs e)
  unfolding verdicts force_eject_leader
  verdicts-ejected a [] e h k = tt
  verdicts-ejected a (Call.evaluates c q ∷ cs) e h k =
      let r = evaluate-ejected a c q e h in
      (r.0, verdicts-ejected a cs (evaluate_signal select c q e).0 r.1 k)
  verdicts-ejected a (Call.closes now t ∷ cs) e h k =
      verdicts-ejected a cs (record_closed_trade now t e) (contains-closed a now t e h) k
  verdicts-ejected a (Call.ejects b ∷ cs) e h k =
      verdicts-ejected a cs (force_eject_leader b e)
        (contains-add_leader a (lower b) e.ejected_leaders h) k
  verdicts-ejected a (Call.resets ∷ cs) e h k = ground arith
