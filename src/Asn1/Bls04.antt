-- ===== src/Asn1/Bls04.antt =====
-- `to_bytes` and `from_bytes` of the structs of src/core/schemes/src/dl_schemes/signatures/bls04.rs. What is read
-- comes with its group.
pub mod Laws
use quorumcrypt.Asn1.{
  Element, integer, octets, Asn1, Wire, group_code, Parsed, Parser, done, ◌>>=◌, return, continue,
  known_group, or_panic, or_refuse, read_u16, read_group, read_octets, read_decoded, read_many,
  finish, read_elements, parse_with, write_elements, write_nested, with_octets, read_inner,
  or_serialization_failed,
}
use quorumcrypt.Base.{ℕ, Option, none, some, List, [], ◌∷◌, ◌++◌, map}
use quorumcrypt.Dl.Bls04.{Bls04PublicKey, Bls04PrivateKey, Bls04SignatureShare, Bls04Signature}
use quorumcrypt.Errors.{Result, ok, err, SchemeError}
use quorumcrypt.Keys.{Bytes}
use quorumcrypt.Schemes.{Group}

module _ {F G H : Type 0} (c : Asn1) (w : Wire F G H) where
  abbrev pub public_elements : Bls04PublicKey G → List Element
  public_elements key =
      integer (group_code w.group)
      ∷ integer key.n
      ∷ integer key.k
      ∷ octets (w.element_bytes key.y)
      ∷ map (λ a. octets (w.element_bytes a)) key.verification_key

  unfoldable pub public_to_bytes : Bls04PublicKey G → Result SchemeError Bytes
  public_to_bytes key = write_elements c (public_elements key)

  abbrev pub read_public : Bytes → Parser (Group × Bls04PublicKey G)
  read_public bytes = do
    group ← read_group
    n ← read_u16
    k ← read_u16
    y ← read_decoded (w.element group)
    verification_key ← read_many (w.element group) n
    return (
      group,
      record { n = n; k = k; y = y; verification_key = verification_key; id = w.calc_key_id bytes },
    )

  unfoldable pub public_from_bytes : Bytes → Option (Result SchemeError (Group × Bls04PublicKey G))
  public_from_bytes bytes = parse_with c (read_public bytes) bytes

  abbrev pub private_elements : Bls04PrivateKey F G → Bytes → List Element
  private_elements key pubbytes =
      integer key.id ∷ octets (w.scalar_bytes key.xi) ∷ octets pubbytes ∷ []

  unfoldable pub private_to_bytes : Bls04PrivateKey F G → Result SchemeError Bytes
  unfolding public_to_bytes
  private_to_bytes key =
      write_nested c (with_octets (private_elements key) (public_to_bytes key.pubkey))

  abbrev pub read_private : Parser (Group × Bls04PrivateKey F G)
  read_private = do
    id ← read_u16
    bytes ← read_octets
    pubbytes ← read_octets
    pubkey ← read_inner (public_from_bytes pubbytes)
    xi ← or_panic (w.scalar pubkey.0 bytes)
    return (pubkey.0, record { id = id; xi = xi; pubkey = pubkey.1 })

  unfoldable pub private_from_bytes :
      Bytes → Option (Result SchemeError (Group × Bls04PrivateKey F G))
  unfolding public_from_bytes
  private_from_bytes bytes = parse_with c read_private bytes

  abbrev pub share_elements : Bls04SignatureShare H → List Element
  share_elements share =
      integer share.id
      ∷ integer (group_code w.group)
      ∷ octets share.label
      ∷ octets (w.element2_bytes share.get_data)
      ∷ []

  unfoldable pub share_to_bytes : Bls04SignatureShare H → Result SchemeError Bytes
  share_to_bytes share = write_elements c (share_elements share)

  abbrev pub read_share : Parser (Group × Bls04SignatureShare H)
  read_share = do
    id ← read_u16
    group ← read_group
    label ← read_octets
    element ← read_decoded (w.element2 group)
    return (group, record { id = id; label = label; get_data = element })

  unfoldable pub share_from_bytes :
      Bytes → Option (Result SchemeError (Group × Bls04SignatureShare H))
  share_from_bytes bytes = parse_with c read_share bytes

  abbrev pub signature_elements : Bls04Signature H → List Element
  signature_elements signature =
      integer (group_code w.group) ∷ octets (w.element2_bytes signature.sig) ∷ []

  unfoldable pub signature_to_bytes : Bls04Signature H → Result SchemeError Bytes
  signature_to_bytes signature = write_elements c (signature_elements signature)

  abbrev pub read_signature : Parser (Group × Bls04Signature H)
  read_signature = do
    group ← read_group
    sig ← read_decoded (w.element2 group)
    return (group, record { sig = sig })

  unfoldable pub signature_from_bytes :
      Bytes → Option (Result SchemeError (Group × Bls04Signature H))
  signature_from_bytes bytes = parse_with c read_signature bytes
