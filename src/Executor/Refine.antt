-- ===== src/Executor/Refine.antt =====
-- One protocol in place of another under the executor of
-- src/core/orchestration/src/instance_manager/protocol_executor.rs: an abstraction of states that
-- respects the operations of `ThresholdRoundProtocol` respects whole runs.
use quorumcrypt.Base.{String, ◌≡◌, refl, Option, none, some, List, [], ◌∷◌, Bool-cases, inl, inr}
use quorumcrypt.Errors.{Result, ok, err, ProtocolError}
use quorumcrypt.Keys.{Bytes}
use quorumcrypt.Message.{NetMessage}
use quorumcrypt.Protocols.{RoundProtocol, MessageWrapper}
use quorumcrypt.Executor.{
  Phase, initial_round, round_phase, Run, Flow, continue, stop, on_finalize, on_round, advance,
  on_update, on_unwrap, on_receive, follow, loop, run,
}

module _ {P Q : Type 0} (abs : P → Q) where
  abbrev pub lift : {X : Type 0} → Option (P × X) → Option (Q × X)
  lift none = none
  lift (some (p, x)) = some (abs p, x)

  abbrev pub map_run : Run P → Run Q
  map_run r = record { outputs = r.outputs; protocol = abs r.protocol; verdict = r.verdict }

  abbrev map_flow : Flow P → Flow Q
  map_flow (continue l p) = continue l (abs p)
  map_flow (stop l p v) = stop l (abs p) v

  on_finalize-map_flow :
      (p : P) (r : Option (P × Result ProtocolError Bytes))
      → on_finalize (abs p) (lift r) ≡ map_flow (on_finalize p r)
  on_finalize-map_flow p none = refl
  on_finalize-map_flow p (some (q, ok value)) = refl
  on_finalize-map_flow p (some (q, err e)) = refl

  follow-map_flow :
      (f : Flow P) (g : Q → Run Q) (h : P → Run P)
      → ((p : P) → g (abs p) ≡ map_run (h p))
      → follow (map_flow f) g ≡ map_run (follow f h)
  follow-map_flow (stop l p v) g h e = refl
  follow-map_flow (continue l p) g h e = rw (e p) refl

-- The abstraction respects the five operations.
pub record Refines {P Q Message : Type 0} (R : RoundProtocol P Message)
    (S : RoundProtocol Q Message) (abs : P → Q) : Type 0 where
  pub do_round_eq : (p : P) → S.do_round (abs p) ≡ lift abs (R.do_round p)
  pub ready_round_eq : (p : P) → S.is_ready_for_next_round (abs p) ≡ R.is_ready_for_next_round p
  pub ready_finalize_eq : (p : P) → S.is_ready_to_finalize (abs p) ≡ R.is_ready_to_finalize p
  pub finalize_eq : (p : P) → S.finalize (abs p) ≡ lift abs (R.finalize p)
  pub update_eq : (p : P) (m : Message) → S.update (abs p) m ≡ lift abs (R.update p m)

module _ {P Q Message : Type 0} (R : RoundProtocol P Message) (S : RoundProtocol Q Message)
    (abs : P → Q) (w : MessageWrapper Message) (h : Refines R S abs) where
  on_round-map_flow :
      (id : String) (phase : Phase) (p : P) (r : Option (P × Result ProtocolError Message))
      → on_round S w id phase (abs p) (lift abs r) ≡ map_flow abs (on_round R w id phase p r)
  on_round-map_flow id phase p none = refl
  on_round-map_flow id phase p (some (q, err e)) = refl
  on_round-map_flow id phase p (some (q, ok m)) = elim (Bool-cases (w.is_default m)) [
    | inl e ↦ rw e refl
    | inr e ↦ rw e refl
  ]

  advance-map_flow :
      (id : String) (p : P) → advance S w id (abs p) ≡ map_flow abs (advance R w id p)
  unfolding advance
  advance-map_flow id p =
      rw (h.ready_finalize_eq p, h.ready_round_eq p, h.finalize_eq p, h.do_round_eq p)
        (elim (Bool-cases (R.is_ready_to_finalize p)) [
          | inl e ↦ rw e (on_finalize-map_flow abs p (R.finalize p))
          | inr e ↦ elim (Bool-cases (R.is_ready_for_next_round p)) [
            | inl f ↦ rw (e, f) (on_round-map_flow id round_phase p (R.do_round p))
            | inr f ↦ rw (e, f) refl
          ]
        ])

  on_update-map_flow :
      (id : String) (p : P) (r : Option (P × Result ProtocolError (Unit {0})))
      → on_update S w id (abs p) (lift abs r) ≡ map_flow abs (on_update R w id p r)
  on_update-map_flow id p none = refl
  on_update-map_flow id p (some (q, err e)) = refl
  on_update-map_flow id p (some (q, ok u)) = advance-map_flow id q

  on_unwrap-map_flow :
      (id : String) (p : P) (r : Option (Result ProtocolError Message))
      → on_unwrap S w id (abs p) r ≡ map_flow abs (on_unwrap R w id p r)
  on_unwrap-map_flow id p none = refl
  on_unwrap-map_flow id p (some (err e)) = refl
  on_unwrap-map_flow id p (some (ok m)) =
      rw (h.update_eq p m) (on_update-map_flow id p (R.update p m))

  on_receive-map_flow :
      (id : String) (p : P) (m : Option NetMessage)
      → on_receive S w id (abs p) m ≡ map_flow abs (on_receive R w id p m)
  on_receive-map_flow id p none = refl
  on_receive-map_flow id p (some m) = on_unwrap-map_flow id p (w.unwrap m)

  loop-map_run :
      (id : String) (p : P) (inbox : List (Option NetMessage))
      → loop S w id (abs p) inbox ≡ map_run abs (loop R w id p inbox)
  unfolding loop
  loop-map_run id p [] = refl
  loop-map_run id p (m ∷ inbox) = rw (on_receive-map_flow id p m) (
      follow-map_flow abs (on_receive R w id p m) (λ q. loop S w id q inbox)
        (λ q. loop R w id q inbox) (λ q. loop-map_run id q inbox))

  -- Under an abstraction of the protocol's states that respects its operations, a run sends the
  -- same events and messages in the same order, and has the same verdict, on every inbox.
  pub run-map_run :
      (id : String) (p : P) (inbox : List (Option NetMessage))
      → run S w id (abs p) inbox ≡ map_run abs (run R w id p inbox)
  unfolding run
  run-map_run id p inbox =
      rw
        (
          h.do_round_eq p,
          on_round-map_flow id initial_round p (R.do_round p),
          follow-map_flow abs (on_round R w id initial_round p (R.do_round p))
              (λ q. loop S w id q inbox) (λ q. loop R w id q inbox) (λ q. loop-map_run id q inbox),
        )
        refl
