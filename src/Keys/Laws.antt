-- ===== src/Keys/Laws.antt =====
-- Encodings of keys read back, and what the identifier of a key depends on
-- (src/core/schemes/src/keys/keys.rs).
use quorumcrypt.Base.{◌≡◌, refl, some, arith}
use quorumcrypt.Errors.{ok}
use quorumcrypt.Schemes.{get_id, from_id}
use quorumcrypt.Keys.{
  Bytes, Codec, PublicKey, PrivateKeyShare, public_scheme, public_inner, private_scheme,
  private_inner, public_to_bytes, public_from_bytes, private_to_bytes, private_from_bytes, key2id,
  get_public_key, private_key_id, public_key_id, public_group, private_group,
}

module _ (c : Codec) where
  -- A public key that was written is read back, scheme and all, if the encoding of the scheme's own
  -- struct reads that struct back.
  pub public_from_bytes-to_bytes :
      (key : PublicKey) (body out : Bytes)
      → c.encode_public (public_scheme key) (public_inner key) ≡ some body
      → c.decode_public (public_scheme key) body ≡ some (public_inner key)
      → public_to_bytes c key ≡ ok out
      → public_from_bytes c out ≡ ok key
  unfolding public_to_bytes public_from_bytes public_scheme public_inner get_id from_id
  public_from_bytes-to_bytes (PublicKey.sg02 key) body out e d h =
      ground (arith, c.parse-write 1 body out)
  public_from_bytes-to_bytes key body out e d h =
      ground (arith, c.parse-write (get_id (public_scheme key)) body out)

  -- So is a private key share.
  pub private_from_bytes-to_bytes :
      (key : PrivateKeyShare) (body out : Bytes)
      → c.encode_private (private_scheme key) (private_inner key) ≡ some body
      → c.decode_private (private_scheme key) body ≡ some (private_inner key)
      → private_to_bytes c key ≡ ok out
      → private_from_bytes c out ≡ ok key
  unfolding private_to_bytes private_from_bytes private_scheme private_inner get_id from_id
  private_from_bytes-to_bytes (PrivateKeyShare.sg02 key) body out e d h =
      ground (arith, c.parse-write 1 body out)
  private_from_bytes-to_bytes key body out e d h =
      ground (arith, c.parse-write (get_id (private_scheme key)) body out)

  -- The identifier of a public key that can be written is the hash of its scheme struct's encoding.
  pub key2id-public_to_bytes :
      (key : PublicKey) (body out : Bytes)
      → c.encode_public (public_scheme key) (public_inner key) ≡ some body
      → public_to_bytes c key ≡ ok out
      → key2id c key ≡ some (c.hash_id body)
  unfolding public_to_bytes key2id public_scheme public_inner get_id
  key2id-public_to_bytes (PublicKey.sg02 key) body out e h =
      ground (arith, c.parse-write 1 body out)
  key2id-public_to_bytes key body out e h =
      ground (arith, c.parse-write (get_id (public_scheme key)) body out)

pub public_key_id-get_public_key :
    (share : PrivateKeyShare) → public_key_id (get_public_key share) ≡ private_key_id share
unfolding get_public_key public_inner private_inner
public_key_id-get_public_key (PrivateKeyShare.sg02 key) = refl
public_key_id-get_public_key _ = refl

pub public_scheme-get_public_key :
    (share : PrivateKeyShare) → public_scheme (get_public_key share) ≡ private_scheme share
unfolding get_public_key public_scheme private_scheme
public_scheme-get_public_key (PrivateKeyShare.sg02 key) = refl
public_scheme-get_public_key _ = refl

pub public_group-get_public_key :
    (share : PrivateKeyShare) → public_group (get_public_key share) ≡ private_group share
unfolding get_public_key public_inner private_inner
public_group-get_public_key (PrivateKeyShare.sg02 key) = refl
public_group-get_public_key _ = refl
