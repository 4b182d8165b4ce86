-- ===== src/Protocols/Signature.antt =====
-- src/core/protocols/src/threshold_signature/protocol.rs and message_types.rs: the signature
-- protocol of the schemes that need one round. The schemes of src/core/schemes are an interface.
use quorumcrypt.Base.{
  ℕ, Bool, true, false, Option, none, some, List, leb, length, if◌then◌else◌, contains, ℕ_discrete,
}
use quorumcrypt.Errors.{Result, ok, err, SchemeError, ProtocolError, scheme_error}
use quorumcrypt.Keys.{Bytes, PublicKey, PrivateKeyShare, get_public_key, private_threshold}
use quorumcrypt.Protocols.{RoundProtocol, MessageWrapper, Json, wrap_json, unwrap_json}
use quorumcrypt.Protocols.Collect.{Collection, empty, add_own, try_accept}
use mathlib.Core.Option

-- `ThresholdSignature`, `SignatureShare::get_id` and `Signature::to_bytes`. A result of `none` is a
-- panic.
pub record ThresholdSignature (Share Signature : Type 0) : Type 0 where
  pub get_id : Share → ℕ
  pub partial_sign : Bytes → Bytes → PrivateKeyShare → Option (Result SchemeError Share)
  pub verify_share : Share → Bytes → PublicKey → Option (Result SchemeError Bool)
  pub assemble : List Share → Bytes → PublicKey → Option (Result SchemeError Signature)
  pub to_bytes : Signature → Result SchemeError Bytes

pub data SignatureMessage (Share : Type 0) : Type 0 where
  share_message : Share → SignatureMessage Share
  default : SignatureMessage Share

pub record ThresholdSignatureProtocol (Share Signature : Type 0) : Type 0 where
  pub private_key : PrivateKeyShare
  pub message : Option Bytes
  pub label : Bytes
  pub shares : Collection Share
  pub finished : Bool
  pub signature : Option Signature

module _ {Share Signature : Type 0} (scheme : ThresholdSignature Share Signature) where
  unfoldable pub new :
      PrivateKeyShare → Option Bytes → Bytes → ThresholdSignatureProtocol Share Signature
  new private_key message label = record {
    private_key = private_key;
    message = message;
    label = label;
    shares = empty;
    finished = false;
    signature = none;
  }

  unfoldable pub is_ready : ThresholdSignatureProtocol Share Signature → Bool
  is_ready p = leb (private_threshold p.private_key) (length p.shares.valid_shares)

  -- `message.unwrap()` and `to_bytes().unwrap()` panic.
  unfoldable pub finalize :
      ThresholdSignatureProtocol Share Signature
      → Option (ThresholdSignatureProtocol Share Signature × Result ProtocolError Bytes)
  finalize p = elim p.message [
    | none ↦ none
    | some message ↦
        elim (scheme.assemble p.shares.valid_shares message (get_public_key p.private_key)) [
          | none ↦ none
          | some (err e) ↦ some (p, err (scheme_error e))
          | some (ok sig) ↦ elim (scheme.to_bytes sig) [
            | err e ↦ none
            | ok bytes ↦ some (record p { signature = some sig; finished = true }, ok bytes)
          ]
        ]
  ]

  -- A message that is not a share runs into `todo!()`. The message to sign is unwrapped once the
  -- share is known not to be a duplicate.
  unfoldable pub update :
      ThresholdSignatureProtocol Share Signature
      → SignatureMessage Share
      → Option (ThresholdSignatureProtocol Share Signature × Result ProtocolError (Unit {0}))
  update p SignatureMessage.default = none
  update p (SignatureMessage.share_message share) =
      if p.finished
      then some (p, ok tt)
      else if contains ℕ_discrete (scheme.get_id share) p.shares.received_share_ids
      then some (p, ok tt)
      else elim p.message [
        | none ↦ none
        | some message ↦
            Option.map (λ shares. (record p { shares = shares }, ok tt))
              (try_accept scheme.get_id
                (λ x. scheme.verify_share x message (get_public_key p.private_key)) p.shares share)
      ]

  unfoldable pub do_round :
      ThresholdSignatureProtocol Share Signature
      → Option (
          ThresholdSignatureProtocol Share Signature
          × Result ProtocolError (SignatureMessage Share))
  do_round p = elim p.message [
    | none ↦ none
    | some message ↦ elim (scheme.partial_sign message p.label p.private_key) [
      | none ↦ none
      | some (err e) ↦ some (p, err (scheme_error e))
      | some (ok share) ↦ some (
        record p { shares = add_own scheme.get_id p.shares share },
        ok (SignatureMessage.share_message share),
      )
    ]
  ]

  -- The implementation of `ThresholdRoundProtocol`.
  unfoldable pub protocol :
      RoundProtocol (ThresholdSignatureProtocol Share Signature) (SignatureMessage Share)
  unfolding do_round is_ready finalize update
  protocol = record {
    do_round = do_round;
    is_ready_for_next_round = is_ready;
    is_ready_to_finalize = is_ready;
    finalize = finalize;
    update = update;
  }

unfoldable pub is_default : {Share : Type 0} → SignatureMessage Share → Bool
is_default SignatureMessage.default = true
is_default (SignatureMessage.share_message m) = false

-- The implementation of `ProtocolMessageWrapper`.
unfoldable pub wrapper :
    {Share : Type 0} → Json (SignatureMessage Share) → MessageWrapper (SignatureMessage Share)
unfolding is_default
wrapper json = record { wrap = wrap_json json; unwrap = unwrap_json json; is_default = is_default }
