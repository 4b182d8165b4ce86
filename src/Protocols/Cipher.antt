-- ===== src/Protocols/Cipher.antt =====
-- src/core/protocols/src/threshold_cipher/protocol.rs and message_types.rs: the decryption protocol.
-- The ciphers of src/core/schemes are an interface.
use quorumcrypt.Base.{
  ℕ, String, Bool, true, false, Option, none, some, List, [], leb, length, if◌then◌else◌,
}
use quorumcrypt.Errors.{
  Result, ok, err, SchemeError, ProtocolError, scheme_error, invalid_ciphertext,
}
use quorumcrypt.Keys.{Bytes, PublicKey, PrivateKeyShare, get_public_key, private_threshold}
use quorumcrypt.Protocols.{RoundProtocol, MessageWrapper, Json, wrap_json, unwrap_json}
use quorumcrypt.Protocols.Collect.{Collection, empty, add_own, try_accept}
use mathlib.Core.Option

-- `ThresholdCipher`, and `DecryptionShare::get_id`. A result of `none` is a panic.
pub record ThresholdCipher (Share Ciphertext : Type 0) : Type 0 where
  pub get_id : Share → ℕ
  pub verify_ciphertext : Ciphertext → PublicKey → Option (Result SchemeError Bool)
  pub partial_decrypt : Ciphertext → PrivateKeyShare → Option (Result SchemeError Share)
  pub verify_share : Share → Ciphertext → PublicKey → Option (Result SchemeError Bool)
  pub assemble : List Share → Ciphertext → Option (Result SchemeError Bytes)

pub record DecryptionShareMessage (Share : Type 0) : Type 0 where
  pub share : Share
  pub sender_id : ℕ

pub data DecryptionMessage (Share : Type 0) : Type 0 where
  share_message : DecryptionShareMessage Share → DecryptionMessage Share
  default : DecryptionMessage Share

pub record ThresholdCipherProtocol (Share Ciphertext : Type 0) : Type 0 where
  pub private_key : PrivateKeyShare
  pub ciphertext : Ciphertext
  pub instance_id : String
  pub shares : Collection Share
  pub decrypted : Bool
  pub decrypted_plaintext : Bytes

-- `DecryptionShareMessage::new`
unfoldable pub new_message : {Share : Type 0} → Share → DecryptionMessage Share
new_message x = DecryptionMessage.share_message (record { share = x; sender_id = 0 })

module _ {Share Ciphertext : Type 0} (cipher : ThresholdCipher Share Ciphertext) where
  unfoldable pub new :
      PrivateKeyShare → Ciphertext → String → ThresholdCipherProtocol Share Ciphertext
  new private_key ciphertext instance_id = record {
    private_key = private_key;
    ciphertext = ciphertext;
    instance_id = instance_id;
    shares = empty;
    decrypted = false;
    decrypted_plaintext = [];
  }

  unfoldable pub is_ready : ThresholdCipherProtocol Share Ciphertext → Bool
  is_ready p = leb (private_threshold p.private_key) (length p.shares.valid_shares)

  unfoldable pub finalize :
      ThresholdCipherProtocol Share Ciphertext
      → Option (ThresholdCipherProtocol Share Ciphertext × Result ProtocolError Bytes)
  finalize p = elim (cipher.assemble p.shares.valid_shares p.ciphertext) [
    | none ↦ none
    | some (ok plaintext) ↦
        some (record p { decrypted_plaintext = plaintext; decrypted = true }, ok plaintext)
    | some (err e) ↦ some (p, err (scheme_error e))
  ]

  -- A message that is not a share runs into `todo!()`.
  unfoldable pub update :
      ThresholdCipherProtocol Share Ciphertext
      → DecryptionMessage Share
      → Option (ThresholdCipherProtocol Share Ciphertext × Result ProtocolError (Unit {0}))
  update p DecryptionMessage.default = none
  update p (DecryptionMessage.share_message m) =
      if p.decrypted
      then some (p, ok tt)
      else Option.map (λ shares. (record p { shares = shares }, ok tt))
          (try_accept cipher.get_id
            (λ x. cipher.verify_share x p.ciphertext (get_public_key p.private_key)) p.shares
            m.share)

  unfoldable pub do_round :
      ThresholdCipherProtocol Share Ciphertext
      → Option (
          ThresholdCipherProtocol Share Ciphertext × Result ProtocolError (DecryptionMessage Share))
  unfolding new_message
  do_round p = elim (cipher.verify_ciphertext p.ciphertext (get_public_key p.private_key)) [
    | none ↦ none
    | some (err e) ↦ some (p, err (scheme_error e))
    | some (ok false) ↦ some (p, err invalid_ciphertext)
    | some (ok true) ↦ elim (cipher.partial_decrypt p.ciphertext p.private_key) [
      | none ↦ none
      | some (err e) ↦ some (p, err (scheme_error e))
      | some (ok share) ↦
          some (record p { shares = add_own cipher.get_id p.shares share }, ok (new_message share))
    ]
  ]

  -- The implementation of `ThresholdRoundProtocol`.
  unfoldable pub protocol :
      RoundProtocol (ThresholdCipherProtocol Share Ciphertext) (DecryptionMessage Share)
  unfolding do_round is_ready finalize update
  protocol = record {
    do_round = do_round;
    is_ready_for_next_round = is_ready;
    is_ready_to_finalize = is_ready;
    finalize = finalize;
    update = update;
  }

unfoldable pub is_default : {Share : Type 0} → DecryptionMessage Share → Bool
is_default DecryptionMessage.default = true
is_default (DecryptionMessage.share_message m) = false

-- The implementation of `ProtocolMessageWrapper`.
unfoldable pub wrapper :
    {Share : Type 0} → Json (DecryptionMessage Share) → MessageWrapper (DecryptionMessage Share)
unfolding is_default
wrapper json = record { wrap = wrap_json json; unwrap = unwrap_json json; is_default = is_default }
