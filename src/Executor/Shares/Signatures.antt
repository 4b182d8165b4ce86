-- ===== src/Executor/Shares/Signatures.antt =====
-- The signature protocol of src/core/protocols/src/threshold_signature/protocol.rs as a collector of
-- shares.
use quorumcrypt.Base.{
  ◌≡◌, refl, Bool, Option, none, some, List, arith, Bool-cases, inl, inr, Option-cases, is_some,
  contains, ℕ_discrete,
}
use quorumcrypt.Errors.{Result, ok, err, SchemeError, ProtocolError, scheme_error}
use quorumcrypt.Executor.Refine.{Refines, lift}
use quorumcrypt.Keys.{Bytes, PrivateKeyShare, get_public_key, private_threshold}
use quorumcrypt.Protocols.Collect.{settled, try_accept-accept}
use quorumcrypt.Protocols.Collector.{Collector, take_share, collecting}
use quorumcrypt.Protocols.Signature
use quorumcrypt.Protocols.Signature.{
  ThresholdSignature, SignatureMessage, ThresholdSignatureProtocol,
}
use quorumcrypt.Executor.Shares.{lift_outcome}

abbrev pub signature_share : {Share : Type 0} → SignatureMessage Share → Option Share
signature_share (SignatureMessage.share_message x) = some x
signature_share SignatureMessage.default = none

module _ {Share Sig : Type 0} (scheme : ThresholdSignature Share Sig) where
  -- The bytes of a signature; the encoding is unwrapped.
  abbrev pub signature_bytes : Option (Result SchemeError Sig) → Option (Result ProtocolError Bytes)
  signature_bytes none = none
  signature_bytes (some (err e)) = some (err (scheme_error e))
  signature_bytes (some (ok sig)) = elim (scheme.to_bytes sig) [
    | ok bytes ↦ some (ok bytes)
    | err e ↦ none
  ]

  abbrev pub verify_for : Option Bytes → PrivateKeyShare → Share → Option (Result SchemeError Bool)
  verify_for none key x = none
  verify_for (some message) key x = scheme.verify_share x message (get_public_key key)

  abbrev pub sign_for : Option Bytes → Bytes → PrivateKeyShare → Option (Result ProtocolError Share)
  sign_for none label key = none
  sign_for (some message) label key = lift_outcome (scheme.partial_sign message label key)

  abbrev pub assemble_for :
      Option Bytes → PrivateKeyShare → List Share → Option (Result ProtocolError Bytes)
  assemble_for none key xs = none
  assemble_for (some message) key xs =
      signature_bytes (scheme.assemble xs message (get_public_key key))

  -- Without a message to sign there is no share, and nothing is verified or assembled.
  abbrev pub signature_collector : ThresholdSignatureProtocol Share Sig → Collector Share
  signature_collector p = record {
    get_id = scheme.get_id;
    threshold = private_threshold p.private_key;
    is_armed = λ x. is_some (verify_for p.message p.private_key x);
    own = sign_for p.message p.label p.private_key;
    verify = λ x. settled (verify_for p.message p.private_key x);
    assemble = assemble_for p.message p.private_key;
    shares = p.shares;
    is_done = p.finished;
  }

  signature_update_eq :
      (p : ThresholdSignatureProtocol Share Sig) (m : SignatureMessage Share)
      → take_share (signature_collector p) (signature_share m)
        ≡ lift signature_collector (Signature.update scheme p m)
  unfolding Signature.update
  signature_update_eq p SignatureMessage.default = refl
  signature_update_eq p (SignatureMessage.share_message x) = elim (Bool-cases p.finished) [
    | inl e ↦ rw e refl
    | inr e ↦
        elim (Bool-cases (contains ℕ_discrete (scheme.get_id x) p.shares.received_share_ids)) [
          | inl d ↦ rw (e, d) refl
          | inr d ↦ elim (Option-cases p.message) [
            | inl n ↦ rw (e, d, n) refl
            | inr (message, n) ↦
                let verify : Share → Option (Result SchemeError Bool) =
                  λ y. scheme.verify_share y message (get_public_key p.private_key) in
                let accepted = try_accept-accept scheme.get_id verify p.shares x in
                elim (Option-cases (verify x)) [
                  | inl k ↦ simp (e, d, n, accepted, k)
                  | inr (r, k) ↦ simp (e, d, n, accepted, k)
                ]
          ]
        ]
  ]

  pub signature-Refines :
      Refines
        (Signature.protocol scheme)
        (collecting SignatureMessage.share_message signature_share)
        signature_collector
  unfolding collecting Signature.protocol
  signature-Refines = record {
    do_round_eq = λ p. ground arith;
    ready_round_eq = λ p. refl;
    ready_finalize_eq = λ p. refl;
    finalize_eq = λ p. ground arith;
    update_eq = signature_update_eq;
  }
