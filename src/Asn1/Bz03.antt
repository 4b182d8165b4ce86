-- ===== src/Asn1/Bz03.antt =====
-- `to_bytes` and `from_bytes` of the structs of src/core/schemes/src/dl_schemes/ciphers/bz03.rs. What is read
-- comes with its group.
pub mod Laws
use quorumcrypt.Asn1.{
  Element, integer, octets, Asn1, Wire, group_code, Parsed, Parser, done, ◌>>=◌, return, continue,
  known_group, or_panic, or_refuse, read_u16, read_group, read_octets, read_decoded, read_many,
  finish, read_elements, parse_with, write_elements, write_nested, with_octets, read_inner,
  or_serialization_failed,
}
use quorumcrypt.Base.{ℕ, Option, none, some, List, [], ◌∷◌, ◌++◌, map}
use quorumcrypt.Dl.Bz03.{Bz03PublicKey, Bz03PrivateKey, Bz03Ciphertext, Bz03DecryptionShare}
use quorumcrypt.Errors.{Result, ok, err, SchemeError}
use quorumcrypt.Keys.{Bytes}
use quorumcrypt.Schemes.{Group}

module _ {F G H : Type 0} (c : Asn1) (w : Wire F G H) where
  abbrev pub public_elements : Bz03PublicKey G H → List Element
  public_elements key =
      integer (group_code w.group)
      ∷ integer key.n
      ∷ integer key.k
      ∷ octets (w.element2_bytes key.y)
      ∷ map (λ a. octets (w.element_bytes a)) key.verification_key

  unfoldable pub public_to_bytes : Bz03PublicKey G H → Result SchemeError Bytes
  public_to_bytes key = write_elements c (public_elements key)

  abbrev pub read_public : Bytes → Parser (Group × Bz03PublicKey G H)
  read_public bytes = do
    group ← read_group
    n ← read_u16
    k ← read_u16
    y ← read_decoded (w.element2 group)
    verification_key ← read_many (w.element group) n
    return (
      group,
      record { n = n; k = k; y = y; verification_key = verification_key; id = w.calc_key_id bytes },
    )

  unfoldable pub public_from_bytes : Bytes → Option (Result SchemeError (Group × Bz03PublicKey G H))
  public_from_bytes bytes = parse_with c (read_public bytes) bytes

  abbrev pub private_elements : Bz03PrivateKey F G H → Bytes → List Element
  private_elements key pubbytes =
      integer key.id ∷ octets (w.scalar_bytes key.xi) ∷ octets pubbytes ∷ []

  unfoldable pub private_to_bytes : Bz03PrivateKey F G H → Result SchemeError Bytes
  unfolding public_to_bytes
  private_to_bytes key =
      write_nested c (with_octets (private_elements key) (public_to_bytes key.pubkey))

  abbrev pub read_private : Parser (Group × Bz03PrivateKey F G H)
  read_private = do
    id ← read_u16
    bytes ← read_octets
    pubbytes ← read_octets
    pubkey ← read_inner (public_from_bytes pubbytes)
    xi ← or_panic (w.scalar pubkey.0 bytes)
    return (pubkey.0, record { id = id; xi = xi; pubkey = pubkey.1 })

  unfoldable pub private_from_bytes :
      Bytes → Option (Result SchemeError (Group × Bz03PrivateKey F G H))
  unfolding public_from_bytes
  private_from_bytes bytes = parse_with c read_private bytes

  abbrev pub share_elements : Bz03DecryptionShare H → List Element
  share_elements share =
      integer share.id
      ∷ integer (group_code w.group)
      ∷ octets share.label
      ∷ octets (w.element2_bytes share.get_data)
      ∷ []

  unfoldable pub share_to_bytes : Bz03DecryptionShare H → Result SchemeError Bytes
  share_to_bytes share = write_elements c (share_elements share)

  abbrev pub read_share : Parser (Group × Bz03DecryptionShare H)
  read_share = do
    id ← read_u16
    group ← read_group
    label ← read_octets
    element ← read_decoded (w.element2 group)
    return (group, record { id = id; label = label; get_data = element })

  unfoldable pub share_from_bytes :
      Bytes → Option (Result SchemeError (Group × Bz03DecryptionShare H))
  share_from_bytes bytes = parse_with c read_share bytes

  abbrev pub ciphertext_elements : Bz03Ciphertext G H → List Element
  ciphertext_elements ct =
      integer (group_code w.group)
      ∷ octets ct.label
      ∷ octets ct.ctxt
      ∷ octets (w.element2_bytes ct.u)
      ∷ octets (w.element_bytes ct.hr)
      ∷ octets ct.c_k
      ∷ octets (w.as_bytes ct.key_id)
      ∷ []

  unfoldable pub ciphertext_to_bytes : Bz03Ciphertext G H → Result SchemeError Bytes
  ciphertext_to_bytes ct = write_elements c (ciphertext_elements ct)

  abbrev pub read_ciphertext : Parser (Group × Bz03Ciphertext G H)
  read_ciphertext = do
    group ← read_group
    label ← read_octets
    ctxt ← read_octets
    u ← read_decoded (w.element2 group)
    hr ← read_decoded (w.element group)
    c_k ← read_octets
    text ← read_octets
    key_id ← or_refuse (w.from_utf8 text)
    return
        (group, record { label = label; ctxt = ctxt; u = u; hr = hr; c_k = c_k; key_id = key_id })

  unfoldable pub ciphertext_from_bytes :
      Bytes → Option (Result SchemeError (Group × Bz03Ciphertext G H))
  ciphertext_from_bytes bytes = parse_with c read_ciphertext bytes
