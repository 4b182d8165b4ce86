-- ===== src/Executor/Answers.antt =====
-- What the answers of FROST's verification do to a run of
-- src/core/orchestration/src/instance_manager/protocol_executor.rs with the protocol of
-- src/core/protocols/src/frost/protocol.rs.
use quorumcrypt.Base.{String, ◌≡◌, refl, sym, ◌∙◌, Bool, true, Option, none, some, List, ℕ}
use quorumcrypt.Base.Dict.{values}
use quorumcrypt.Errors.{Result, ok, err, SchemeError}
use quorumcrypt.Executor.Refine.{Refines, lift, run-map_run}
use quorumcrypt.Executor.{run}
use quorumcrypt.Message.{NetMessage}
use quorumcrypt.Protocols.Frost.Rounds.{protocol}
use quorumcrypt.Protocols.Frost.{
  Frost, FrostProtocol, FrostMessage, FrostData, FrostOptions, verify_waiting, verify_new,
  find_waiting, take_commitment, take_share, on_commitment, update,
}
use quorumcrypt.Protocols.{MessageWrapper}

-- Panics and errors stay, every answer becomes "valid".
abbrev pub answered : Option (Result SchemeError Bool) → Option (Result SchemeError Bool)
answered none = none
answered (some (ok is_valid)) = some (ok true)
answered (some (err e)) = some (err e)

module _ {Nonce Commitment Share GroupElement : Type 0} where
  abbrev pub all_valid :
      Frost Nonce Commitment Share GroupElement → Frost Nonce Commitment Share GroupElement
  all_valid scheme = record scheme {
    verify_share = λ x key msg cs. answered (scheme.verify_share x key msg cs);
  }

lift_same : {P X : Type 0} (o : Option (P × X)) → ◌≡◌ {A = Option (P × X)} o (lift (λ p. p) o)
lift_same none = refl
lift_same (some (p, x)) = refl

module _ {Nonce Commitment Share GroupElement : Type 0}
    (scheme : Frost Nonce Commitment Share GroupElement) where
  verify_waiting-answered :
      (p : FrostProtocol Nonce Commitment Share GroupElement) (id : ℕ) (x : Share)
      (r : Option (Result SchemeError Bool))
      → verify_waiting (all_valid scheme) p id x (answered r) ≡ verify_waiting scheme p id x r
  verify_waiting-answered p id x none = refl
  verify_waiting-answered p id x (some (ok b)) = refl
  verify_waiting-answered p id x (some (err e)) = refl

  verify_new-answered :
      (p : FrostProtocol Nonce Commitment Share GroupElement) (id : ℕ) (x : Share)
      (r : Option (Result SchemeError Bool))
      → verify_new (all_valid scheme) p id x (answered r) ≡ verify_new scheme p id x r
  verify_new-answered p id x none = refl
  verify_new-answered p id x (some (ok b)) = refl
  verify_new-answered p id x (some (err e)) = refl

  find_waiting-answered :
      (p : FrostProtocol Nonce Commitment Share GroupElement) (id : ℕ) (o : Option Share)
      → find_waiting (all_valid scheme) p id o ≡ find_waiting scheme p id o
  find_waiting-answered p id none = refl
  find_waiting-answered p id (some x) = verify_waiting-answered p id x _

  on_commitment-answered :
      (p : FrostProtocol Nonce Commitment Share GroupElement) (id : ℕ) (c : Commitment)
      (options : FrostOptions)
      → on_commitment (all_valid scheme) p id c options ≡ on_commitment scheme p id c options
  unfolding take_commitment
  on_commitment-answered p id c FrostOptions.precompute_only = refl
  on_commitment-answered p id c FrostOptions.precomputation = rw (find_waiting-answered _ id _) refl
  on_commitment-answered p id c FrostOptions.no_precomputation =
      rw (find_waiting-answered _ id _) refl

  take_share-answered :
      (p : FrostProtocol Nonce Commitment Share GroupElement) (id : ℕ) (x : Share)
      → take_share (all_valid scheme) p id x ≡ take_share scheme p id x
  unfolding take_share
  take_share-answered p id x =
      rw
        (verify_new-answered p id x
          (scheme.verify_share x p.key.pubkey p.msg (values p.commitment_list)))
        refl

  update-answered :
      (p : FrostProtocol Nonce Commitment Share GroupElement) (m : FrostMessage Commitment Share)
      (d : FrostData Commitment Share)
      → m.data_of ≡ d
      → update (all_valid scheme) p m ≡ update scheme p m
  unfolding update
  update-answered p m (FrostData.commitment c) e = rw e (on_commitment-answered p m.id c p.options)
  update-answered p m (FrostData.share x) e = rw e (take_share-answered p m.id x)
  update-answered p m (FrostData.precomputations cs) e = rw e refl
  update-answered p m FrostData.default e = rw e refl

  answered-Refines : Refines (protocol scheme) (protocol (all_valid scheme)) (λ p. p)
  unfolding protocol
  answered-Refines = record {
    do_round_eq = λ p. lift_same _;
    ready_round_eq = λ p. refl;
    ready_finalize_eq = λ p. refl;
    finalize_eq = λ p. lift_same _;
    update_eq = λ p m. update-answered p m m.data_of refl ∙ lift_same _;
  }

  -- From every state and on every inbox a run of FROST sends the same, ends in the same state and has
  -- the same verdict as the run in which every share that is verified without an error or a panic is answered
  -- with "valid": what the verification answers is never looked at.
  pub run-all_valid :
      (w : MessageWrapper (FrostMessage Commitment Share)) (id : String)
      (p : FrostProtocol Nonce Commitment Share GroupElement) (inbox : List (Option NetMessage))
      → run (protocol scheme) w id p inbox ≡ run (protocol (all_valid scheme)) w id p inbox
  run-all_valid w id p inbox = sym (
      run-map_run (protocol scheme) (protocol (all_valid scheme)) (λ q. q) w answered-Refines id p
        inbox)
