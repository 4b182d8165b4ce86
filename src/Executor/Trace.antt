-- ===== src/Executor/Trace.antt =====
-- The events and messages that the loop of
-- src/core/orchestration/src/instance_manager/protocol_executor.rs sends, in their order.
use quorumcrypt.Base.{
  String, ◌≡◌, refl, Option, none, some, List, [], ◌∷◌, ◌++◌, map, Bool-cases, inl, inr,
}
use quorumcrypt.Errors.{Result, ok, err, ProtocolError}
use quorumcrypt.Keys.{Bytes}
use quorumcrypt.Message.{NetMessage}
use quorumcrypt.Protocols.{RoundProtocol, MessageWrapper}
use quorumcrypt.Executor.{
  Phase, initial_round, round_phase, Output, started, finished, failed, out, Verdict, waiting,
  panicked, returned, Run, Flow, continue, stop, on_finalize, on_round, advance, on_update,
  on_unwrap, on_receive, follow, loop, run,
}

-- The events that end a run with a verdict.
abbrev pub Ends : Verdict → List Output → Type 0
Ends waiting l = l ≡ []
Ends panicked l = l ≡ []
Ends (returned (ok value)) l = l ≡ finished ∷ []
Ends (returned (err e)) l = (phase : Phase) × (l ≡ failed phase e ∷ [])

-- Outgoing messages, then the events that end a run.
abbrev pub Traced : Verdict → List Output → Type 0
Traced v l = (sent : List NetMessage) × (end : List Output) × (l ≡ map out sent ++ end) × Ends v end

abbrev FlowTraced : {P : Type 0} → Flow P → Type 0
FlowTraced (continue l p) = (sent : List NetMessage) × (l ≡ map out sent)
FlowTraced (stop l p v) = Traced v l

Traced-append :
    (sent : List NetMessage) (l : List Output) (v : Verdict)
    → Traced v l
    → Traced v (map out sent ++ l)
Traced-append [] l v t = t
Traced-append (m ∷ sent) l v t =
    let (after, end, e, h) = Traced-append sent l v t in (m ∷ after, end, rw e refl, h)

module _ {P : Type 0} where
  on_finalize-FlowTraced :
      (p : P) (r : Option (P × Result ProtocolError Bytes)) → FlowTraced (on_finalize p r)
  on_finalize-FlowTraced p none = ([], [], refl, refl)
  on_finalize-FlowTraced p (some (q, ok value)) = ([], finished ∷ [], refl, refl)
  on_finalize-FlowTraced p (some (q, err e)) = ([], _, refl, (_, refl))

  follow-Traced :
      (f : Flow P) (next : P → Run P)
      → FlowTraced f
      → ((q : P) → Traced (next q).verdict (next q).outputs)
      → Traced (follow f next).verdict (follow f next).outputs
  follow-Traced (stop l p v) next t h = t
  follow-Traced (continue l p) next (sent, e) h =
      rw e (Traced-append sent (next p).outputs (next p).verdict (h p))

module _ {P Message : Type 0} (R : RoundProtocol P Message) (w : MessageWrapper Message) where
  on_round-FlowTraced :
      (id : String) (phase : Phase) (p : P) (r : Option (P × Result ProtocolError Message))
      → FlowTraced (on_round R w id phase p r)
  on_round-FlowTraced id phase p none = ([], [], refl, refl)
  on_round-FlowTraced id phase p (some (q, err e)) = ([], _, refl, (_, refl))
  on_round-FlowTraced id phase p (some (q, ok m)) = elim (Bool-cases (w.is_default m)) [
    | inl e ↦ rw e ([], refl)
    | inr e ↦ rw e (w.wrap m id ∷ [], refl)
  ]

  advance-FlowTraced : (id : String) (p : P) → FlowTraced (advance R w id p)
  unfolding advance
  advance-FlowTraced id p = elim (Bool-cases (R.is_ready_to_finalize p)) [
    | inl e ↦ rw e (on_finalize-FlowTraced p (R.finalize p))
    | inr e ↦ elim (Bool-cases (R.is_ready_for_next_round p)) [
      | inl f ↦ rw (e, f) (on_round-FlowTraced id round_phase p (R.do_round p))
      | inr f ↦ rw (e, f) ([], refl)
    ]
  ]

  on_update-FlowTraced :
      (id : String) (p : P) (r : Option (P × Result ProtocolError (Unit {0})))
      → FlowTraced (on_update R w id p r)
  on_update-FlowTraced id p none = ([], [], refl, refl)
  on_update-FlowTraced id p (some (q, err e)) = ([], _, refl, (_, refl))
  on_update-FlowTraced id p (some (q, ok u)) = advance-FlowTraced id q

  on_unwrap-FlowTraced :
      (id : String) (p : P) (r : Option (Result ProtocolError Message))
      → FlowTraced (on_unwrap R w id p r)
  on_unwrap-FlowTraced id p none = ([], [], refl, refl)
  on_unwrap-FlowTraced id p (some (err e)) = ([], [], refl, refl)
  on_unwrap-FlowTraced id p (some (ok m)) = on_update-FlowTraced id p (R.update p m)

  on_receive-FlowTraced :
      (id : String) (p : P) (m : Option NetMessage) → FlowTraced (on_receive R w id p m)
  on_receive-FlowTraced id p none = ([], _, refl, (_, refl))
  on_receive-FlowTraced id p (some m) = on_unwrap-FlowTraced id p (w.unwrap m)

  loop-Traced :
      (id : String) (p : P) (inbox : List (Option NetMessage))
      → Traced (loop R w id p inbox).verdict (loop R w id p inbox).outputs
  unfolding loop
  loop-Traced id p [] = ([], [], refl, refl)
  loop-Traced id p (m ∷ inbox) =
      follow-Traced (on_receive R w id p m) (λ q. loop R w id q inbox)
        (on_receive-FlowTraced id p m) (λ q. loop-Traced id q inbox)

  -- Every run announces its start first, then sends messages of the protocol, and then, exactly if
  -- it returns, one last event: that it finished if a value is returned, and that it failed, with
  -- the error, if an error is. A run that panics or waits sends no such event.
  pub run-Traced :
      (id : String) (p : P) (inbox : List (Option NetMessage))
      → (rest : List Output) × ((run R w id p inbox).outputs ≡ started ∷ rest)
        × Traced (run R w id p inbox).verdict rest
  unfolding run
  run-Traced id p inbox =
      let first = on_round R w id initial_round p (R.do_round p) in
      let next : P → Run P = λ q. loop R w id q inbox in
      (
        _,
        refl,
        follow-Traced first next (on_round-FlowTraced id initial_round p (R.do_round p))
            (λ q. loop-Traced id q inbox),
      )
