-- ===== src/Keys.antt =====
-- src/core/schemes/src/keys/keys.rs: public keys and private key shares of every scheme, their byte
-- encodings and the identifier of a key. The fields that the six key structs of
-- src/core/schemes/src/dl_schemes and src/core/schemes/src/rsa_schemes share are written out; their group
-- elements and integers are kept as bytes.
pub mod Laws
use quorumcrypt.Base.{ℕ, String, ◌≡◌, Option, none, some, List}
use quorumcrypt.Errors.{Result, ok, err, SchemeError, serialization_failed, deserialization_failed}
use quorumcrypt.Schemes.{ThresholdScheme, Group, ThresholdOperation, get_id, from_id, get_operation}

abbrev pub Bytes : Type 0
Bytes = List ℕ

pub record SchemePublicKey : Type 0 where
  pub id : String
  pub group : Group
  pub n : ℕ
  pub k : ℕ
  pub elements : Bytes

pub record SchemePrivateKey : Type 0 where
  pub id : ℕ  -- u16, the share id
  pub xi : Bytes
  pub pubkey : SchemePublicKey

pub data PublicKey : Type 0 where
  sg02 bz03 bls04 cks05 sh00 frost : SchemePublicKey → PublicKey

pub data PrivateKeyShare : Type 0 where
  sg02 bz03 bls04 cks05 sh00 frost : SchemePrivateKey → PrivateKeyShare

-- The crates that the encodings stand on, and the encodings of the scheme structs themselves.
-- `write_sequence` is `asn1::write` of a sequence of a u8 and an octet string, `parse_sequence`
-- reads one back; `hash_id` is SHA-256 followed by base64.
pub record Codec : Type 0 where
  pub write_sequence : ℕ → Bytes → Option Bytes
  pub parse_sequence : Bytes → Option (ℕ × Bytes)
  pub parse-write :
      (tag : ℕ) (body out : Bytes)
      → write_sequence tag body ≡ some out
      → parse_sequence out ≡ some (tag, body)
  pub encode_public : ThresholdScheme → SchemePublicKey → Option Bytes
  pub decode_public : ThresholdScheme → Bytes → Option SchemePublicKey
  pub encode_private : ThresholdScheme → SchemePrivateKey → Option Bytes
  pub decode_private : ThresholdScheme → Bytes → Option SchemePrivateKey
  pub hash_id : Bytes → String
  pub base64 : Bytes → String
  pub base64_decode : String → Option Bytes

unfoldable pub public_scheme : PublicKey → ThresholdScheme
public_scheme (PublicKey.sg02 key) = ThresholdScheme.sg02
public_scheme (PublicKey.bz03 key) = ThresholdScheme.bz03
public_scheme (PublicKey.bls04 key) = ThresholdScheme.bls04
public_scheme (PublicKey.cks05 key) = ThresholdScheme.cks05
public_scheme (PublicKey.sh00 key) = ThresholdScheme.sh00
public_scheme (PublicKey.frost key) = ThresholdScheme.frost

unfoldable pub public_inner : PublicKey → SchemePublicKey
public_inner (PublicKey.sg02 key) = key
public_inner (PublicKey.bz03 key) = key
public_inner (PublicKey.bls04 key) = key
public_inner (PublicKey.cks05 key) = key
public_inner (PublicKey.sh00 key) = key
public_inner (PublicKey.frost key) = key

-- `PublicKey::get_key_id`, `get_group`, `get_threshold`, `get_n`, `get_operation`.
abbrev pub public_key_id : PublicKey → String
public_key_id key = (public_inner key).id

abbrev pub public_group : PublicKey → Group
public_group key = (public_inner key).group

abbrev pub public_threshold : PublicKey → ℕ
public_threshold key = (public_inner key).k

abbrev pub public_n : PublicKey → ℕ
public_n key = (public_inner key).n

abbrev pub public_operation : PublicKey → ThresholdOperation
public_operation key = get_operation (public_scheme key)

unfoldable pub private_scheme : PrivateKeyShare → ThresholdScheme
private_scheme (PrivateKeyShare.sg02 key) = ThresholdScheme.sg02
private_scheme (PrivateKeyShare.bz03 key) = ThresholdScheme.bz03
private_scheme (PrivateKeyShare.bls04 key) = ThresholdScheme.bls04
private_scheme (PrivateKeyShare.cks05 key) = ThresholdScheme.cks05
private_scheme (PrivateKeyShare.sh00 key) = ThresholdScheme.sh00
private_scheme (PrivateKeyShare.frost key) = ThresholdScheme.frost

unfoldable pub private_inner : PrivateKeyShare → SchemePrivateKey
private_inner (PrivateKeyShare.sg02 key) = key
private_inner (PrivateKeyShare.bz03 key) = key
private_inner (PrivateKeyShare.bls04 key) = key
private_inner (PrivateKeyShare.cks05 key) = key
private_inner (PrivateKeyShare.sh00 key) = key
private_inner (PrivateKeyShare.frost key) = key

-- `PrivateKeyShare::get_key_id`, `get_share_id`, `get_group`, `get_threshold`.
abbrev pub private_key_id : PrivateKeyShare → String
private_key_id key = (private_inner key).pubkey.id

abbrev pub share_id : PrivateKeyShare → ℕ
share_id key = (private_inner key).id

abbrev pub private_group : PrivateKeyShare → Group
private_group key = (private_inner key).pubkey.group

abbrev pub private_threshold : PrivateKeyShare → ℕ
private_threshold key = (private_inner key).pubkey.k

unfoldable pub get_public_key : PrivateKeyShare → PublicKey
get_public_key (PrivateKeyShare.sg02 key) = PublicKey.sg02 key.pubkey
get_public_key (PrivateKeyShare.bz03 key) = PublicKey.bz03 key.pubkey
get_public_key (PrivateKeyShare.bls04 key) = PublicKey.bls04 key.pubkey
get_public_key (PrivateKeyShare.cks05 key) = PublicKey.cks05 key.pubkey
get_public_key (PrivateKeyShare.sh00 key) = PublicKey.sh00 key.pubkey
get_public_key (PrivateKeyShare.frost key) = PublicKey.frost key.pubkey

make_public : ThresholdScheme → SchemePublicKey → PublicKey
make_public ThresholdScheme.sg02 key = PublicKey.sg02 key
make_public ThresholdScheme.bz03 key = PublicKey.bz03 key
make_public ThresholdScheme.bls04 key = PublicKey.bls04 key
make_public ThresholdScheme.cks05 key = PublicKey.cks05 key
make_public ThresholdScheme.sh00 key = PublicKey.sh00 key
make_public ThresholdScheme.frost key = PublicKey.frost key

make_private : ThresholdScheme → SchemePrivateKey → PrivateKeyShare
make_private ThresholdScheme.sg02 key = PrivateKeyShare.sg02 key
make_private ThresholdScheme.bz03 key = PrivateKeyShare.bz03 key
make_private ThresholdScheme.bls04 key = PrivateKeyShare.bls04 key
make_private ThresholdScheme.cks05 key = PrivateKeyShare.cks05 key
make_private ThresholdScheme.sh00 key = PrivateKeyShare.sh00 key
make_private ThresholdScheme.frost key = PrivateKeyShare.frost key

module _ (c : Codec) where
  -- The closure that each branch of `to_bytes` hands to `asn1::write`, and its error.
  unfoldable pub write_tagged : ThresholdScheme → Option Bytes → Result SchemeError Bytes
  write_tagged s none = err serialization_failed
  write_tagged s (some body) = elim (c.write_sequence (get_id s) body) [
    | none ↦ err serialization_failed
    | some out ↦ ok out
  ]

  unfoldable pub public_to_bytes : PublicKey → Result SchemeError Bytes
  unfolding write_tagged
  public_to_bytes (PublicKey.sg02 key) =
      write_tagged ThresholdScheme.sg02 (c.encode_public ThresholdScheme.sg02 key)
  public_to_bytes (PublicKey.bz03 key) =
      write_tagged ThresholdScheme.bz03 (c.encode_public ThresholdScheme.bz03 key)
  public_to_bytes (PublicKey.cks05 key) =
      write_tagged ThresholdScheme.cks05 (c.encode_public ThresholdScheme.cks05 key)
  public_to_bytes (PublicKey.bls04 key) =
      write_tagged ThresholdScheme.bls04 (c.encode_public ThresholdScheme.bls04 key)
  public_to_bytes (PublicKey.frost key) =
      write_tagged ThresholdScheme.frost (c.encode_public ThresholdScheme.frost key)
  public_to_bytes (PublicKey.sh00 key) =
      write_tagged ThresholdScheme.sh00 (c.encode_public ThresholdScheme.sh00 key)

  unfoldable pub private_to_bytes : PrivateKeyShare → Result SchemeError Bytes
  unfolding write_tagged
  private_to_bytes (PrivateKeyShare.sg02 key) =
      write_tagged ThresholdScheme.sg02 (c.encode_private ThresholdScheme.sg02 key)
  private_to_bytes (PrivateKeyShare.bz03 key) =
      write_tagged ThresholdScheme.bz03 (c.encode_private ThresholdScheme.bz03 key)
  private_to_bytes (PrivateKeyShare.cks05 key) =
      write_tagged ThresholdScheme.cks05 (c.encode_private ThresholdScheme.cks05 key)
  private_to_bytes (PrivateKeyShare.bls04 key) =
      write_tagged ThresholdScheme.bls04 (c.encode_private ThresholdScheme.bls04 key)
  private_to_bytes (PrivateKeyShare.frost key) =
      write_tagged ThresholdScheme.frost (c.encode_private ThresholdScheme.frost key)
  private_to_bytes (PrivateKeyShare.sh00 key) =
      write_tagged ThresholdScheme.sh00 (c.encode_private ThresholdScheme.sh00 key)

  -- The body of `from_bytes` once the sequence is read: an unknown scheme number and an inner key
  -- that does not parse are the same error.
  read_public : ℕ → Bytes → Result SchemeError PublicKey
  unfolding make_public
  read_public tag body = elim (from_id tag) [
    | none ↦ err deserialization_failed
    | some s ↦ elim (c.decode_public s body) [
      | none ↦ err deserialization_failed
      | some key ↦ ok (make_public s key)
    ]
  ]

  unfoldable pub public_from_bytes : Bytes → Result SchemeError PublicKey
  unfolding read_public
  public_from_bytes bytes = elim (c.parse_sequence bytes) [
    | none ↦ err deserialization_failed
    | some (tag, body) ↦ read_public tag body
  ]

  read_private : ℕ → Bytes → Result SchemeError PrivateKeyShare
  unfolding make_private
  read_private tag body = elim (from_id tag) [
    | none ↦ err deserialization_failed
    | some s ↦ elim (c.decode_private s body) [
      | none ↦ err deserialization_failed
      | some key ↦ ok (make_private s key)
    ]
  ]

  unfoldable pub private_from_bytes : Bytes → Result SchemeError PrivateKeyShare
  unfolding read_private
  private_from_bytes bytes = elim (c.parse_sequence bytes) [
    | none ↦ err deserialization_failed
    | some (tag, body) ↦ read_private tag body
  ]

  unfoldable pub public_pem : PublicKey → Result SchemeError String
  public_pem key = elim (public_to_bytes key) [ ok b ↦ ok (c.base64 b) | err e ↦ err e ]

  unfoldable pub public_from_pem : String → Result SchemeError PublicKey
  public_from_pem pem = elim (c.base64_decode pem) [
    | none ↦ err deserialization_failed
    | some bytes ↦ public_from_bytes bytes
  ]

  unfoldable pub private_pem : PrivateKeyShare → Result SchemeError String
  private_pem key = elim (private_to_bytes key) [ ok b ↦ ok (c.base64 b) | err e ↦ err e ]

  unfoldable pub private_from_pem : String → Result SchemeError PrivateKeyShare
  private_from_pem pem = elim (c.base64_decode pem) [
    | none ↦ err deserialization_failed
    | some bytes ↦ private_from_bytes bytes
  ]

  -- `key2id`, `none` where one of its two `unwrap`s panics.
  unfoldable pub key2id : PublicKey → Option String
  key2id key = elim (public_to_bytes key) [
    | err e ↦ none
    | ok bytes ↦ elim (c.parse_sequence bytes) [
      | none ↦ none
      | some (tag, body) ↦ some (c.hash_id body)
    ]
  ]
