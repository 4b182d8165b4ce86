-- ===== src/Asn1/Frost.antt =====
-- `to_bytes` and `from_bytes` of the structs of src/core/schemes/src/dl_schemes/signatures/frost.rs. What is read
-- comes with its group.
pub mod Laws
use quorumcrypt.Asn1.{
  Element, integer, octets, Asn1, Wire, group_code, Parsed, Parser, done, ◌>>=◌, return, continue,
  known_group, or_panic, or_refuse, read_u16, read_group, read_octets, read_decoded, read_many,
  finish, read_elements, parse_with, write_elements, write_nested, with_octets, read_inner,
  or_serialization_failed,
}
use quorumcrypt.Base.{ℕ, Option, none, some, List, [], ◌∷◌, ◌++◌, map}
use quorumcrypt.Dl.Frost.{
  FrostPublicKey, FrostPrivateKey, PublicCommitment, Nonce, FrostSignatureShare, FrostSignature,
}
use quorumcrypt.Errors.{Result, ok, err, SchemeError}
use quorumcrypt.Keys.{Bytes}
use quorumcrypt.Schemes.{Group}

module _ {F G H : Type 0} (c : Asn1) (w : Wire F G H) where
  abbrev pub public_elements : FrostPublicKey G → List Element
  public_elements key =
      integer (group_code key.group)
      ∷ integer key.n
      ∷ integer key.k
      ∷ octets (w.element_bytes key.y)
      ∷ map (λ a. octets (w.element_bytes a)) key.h

  unfoldable pub public_to_bytes : FrostPublicKey G → Result SchemeError Bytes
  public_to_bytes key = write_elements c (public_elements key)

  abbrev pub read_public : Bytes → Parser (FrostPublicKey G)
  read_public bytes = do
    group ← read_group
    n ← read_u16
    k ← read_u16
    y ← read_decoded (w.element group)
    h ← read_many (w.element group) n
    return (record { n = n; k = k; y = y; h = h; id = w.calc_key_id bytes; group = group })

  unfoldable pub public_from_bytes : Bytes → Option (Result SchemeError (FrostPublicKey G))
  public_from_bytes bytes = parse_with c (read_public bytes) bytes

  abbrev pub private_elements : FrostPrivateKey F G → Bytes → List Element
  private_elements key pubbytes =
      integer key.id ∷ octets (w.scalar_bytes key.x) ∷ octets pubbytes ∷ []

  unfoldable pub private_to_bytes : FrostPrivateKey F G → Result SchemeError Bytes
  unfolding public_to_bytes
  private_to_bytes key =
      write_nested c (with_octets (private_elements key) (public_to_bytes key.pubkey))

  abbrev pub read_private : Parser (FrostPrivateKey F G)
  read_private = do
    id ← read_u16
    bytes ← read_octets
    pubbytes ← read_octets
    pubkey ← read_inner (public_from_bytes pubbytes)
    x ← or_panic (w.scalar pubkey.group bytes)
    return (record { id = id; x = x; pubkey = pubkey })

  unfoldable pub private_from_bytes : Bytes → Option (Result SchemeError (FrostPrivateKey F G))
  unfolding public_from_bytes
  private_from_bytes bytes = parse_with c read_private bytes

  abbrev pub commitment_elements : PublicCommitment G → List Element
  commitment_elements commitment =
      integer commitment.id
      ∷ integer (group_code w.group)
      ∷ octets (w.element_bytes commitment.hiding_nonce_commitment)
      ∷ octets (w.element_bytes commitment.binding_nonce_commitment)
      ∷ []

  unfoldable pub commitment_to_bytes : PublicCommitment G → Result SchemeError Bytes
  commitment_to_bytes commitment = write_elements c (commitment_elements commitment)

  abbrev pub read_commitment : Parser (Group × PublicCommitment G)
  read_commitment = do
    id ← read_u16
    group ← read_group
    hiding_nonce_commitment ← read_decoded (w.element group)
    binding_nonce_commitment ← read_decoded (w.element group)
    return (
      group,
      record {
        id = id;
        hiding_nonce_commitment = hiding_nonce_commitment;
        binding_nonce_commitment = binding_nonce_commitment;
      },
    )

  unfoldable pub commitment_from_bytes :
      Bytes → Option (Result SchemeError (Group × PublicCommitment G))
  commitment_from_bytes bytes = parse_with c read_commitment bytes

  abbrev pub nonce_elements : Nonce F → List Element
  nonce_elements nonce =
      integer (group_code nonce.group)
      ∷ octets (w.scalar_bytes nonce.hiding_nonce)
      ∷ octets (w.scalar_bytes nonce.binding_nonce)
      ∷ []

  unfoldable pub nonce_to_bytes : Nonce F → Result SchemeError Bytes
  nonce_to_bytes nonce = write_elements c (nonce_elements nonce)

  abbrev pub read_nonce : Parser (Nonce F)
  read_nonce = do
    group ← read_group
    hiding_nonce ← read_decoded (w.scalar group)
    binding_nonce ← read_decoded (w.scalar group)
    return (record { hiding_nonce = hiding_nonce; binding_nonce = binding_nonce; group = group })

  unfoldable pub nonce_from_bytes : Bytes → Option (Result SchemeError (Nonce F))
  nonce_from_bytes bytes = parse_with c read_nonce bytes

  abbrev pub share_elements : FrostSignatureShare F → List Element
  share_elements share =
      integer share.id ∷ integer (group_code w.group) ∷ octets (w.scalar_bytes share.get_share) ∷ []

  unfoldable pub share_to_bytes : FrostSignatureShare F → Result SchemeError Bytes
  share_to_bytes share = write_elements c (share_elements share)

  abbrev pub read_share : Parser (Group × FrostSignatureShare F)
  read_share = do
    id ← read_u16
    group ← read_group
    scalar_of ← read_decoded (w.scalar group)
    return (group, record { id = id; get_share = scalar_of })

  unfoldable pub share_from_bytes :
      Bytes → Option (Result SchemeError (Group × FrostSignatureShare F))
  share_from_bytes bytes = parse_with c read_share bytes

  abbrev pub signature_elements : FrostSignature F G → List Element
  signature_elements signature =
      integer (group_code w.group)
      ∷ octets (w.element_bytes signature.commitment)
      ∷ octets (w.scalar_bytes signature.z)
      ∷ []

  unfoldable pub signature_to_bytes : FrostSignature F G → Result SchemeError Bytes
  signature_to_bytes signature = write_elements c (signature_elements signature)

  abbrev pub read_signature : Parser (Group × FrostSignature F G)
  read_signature = do
    group ← read_group
    commitment ← read_decoded (w.element group)
    z ← read_decoded (w.scalar group)
    return (group, record { commitment = commitment; z = z })

  unfoldable pub signature_from_bytes :
      Bytes → Option (Result SchemeError (Group × FrostSignature F G))
  signature_from_bytes bytes = parse_with c read_signature bytes
