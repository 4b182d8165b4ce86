-- ===== src/Asn1/Cks05.antt =====
-- `to_bytes` and `from_bytes` of the structs of src/core/schemes/src/dl_schemes/coins/cks05.rs. What is read
-- comes with its group.
pub mod Laws
use quorumcrypt.Asn1.{
  Element, integer, octets, Asn1, Wire, group_code, Parsed, Parser, done, ◌>>=◌, return, continue,
  known_group, or_panic, or_refuse, read_u16, read_group, read_octets, read_decoded, read_many,
  finish, read_elements, parse_with, write_elements, write_nested, with_octets, read_inner,
  or_serialization_failed,
}
use quorumcrypt.Base.{ℕ, Option, none, some, List, [], ◌∷◌, ◌++◌, map}
use quorumcrypt.Dl.Cks05.{Cks05PublicKey, Cks05PrivateKey, Cks05CoinShare}
use quorumcrypt.Errors.{Result, ok, err, SchemeError}
use quorumcrypt.Keys.{Bytes}
use quorumcrypt.Schemes.{Group}

module _ {F G H : Type 0} (c : Asn1) (w : Wire F G H) where
  abbrev pub public_elements : Cks05PublicKey G → List Element
  public_elements key =
      integer (group_code w.group)
      ∷ integer key.n
      ∷ integer key.k
      ∷ octets (w.element_bytes key.y)
      ∷ map (λ a. octets (w.element_bytes a)) key.verification_key

  unfoldable pub public_to_bytes : Cks05PublicKey G → Result SchemeError Bytes
  public_to_bytes key = write_elements c (public_elements key)

  abbrev pub read_public : Bytes → Parser (Group × Cks05PublicKey G)
  read_public bytes = do
    group ← read_group
    n ← read_u16
    k ← read_u16
    y ← read_decoded (w.element group)
    verification_key ← read_many (w.element group) n
    return (
      group,
      record { n = n; k = k; y = y; verification_key = verification_key; id = w.calc_key_id bytes },
    )

  unfoldable pub public_from_bytes : Bytes → Option (Result SchemeError (Group × Cks05PublicKey G))
  public_from_bytes bytes = parse_with c (read_public bytes) bytes

  abbrev pub private_elements : Cks05PrivateKey F G → Bytes → List Element
  private_elements key pubbytes =
      integer key.id ∷ octets (w.scalar_bytes key.xi) ∷ octets pubbytes ∷ []

  unfoldable pub private_to_bytes : Cks05PrivateKey F G → Result SchemeError Bytes
  unfolding public_to_bytes
  private_to_bytes key =
      write_nested c (with_octets (private_elements key) (public_to_bytes key.pubkey))

  abbrev pub read_private : Parser (Group × Cks05PrivateKey F G)
  read_private = do
    id ← read_u16
    bytes ← read_octets
    pubbytes ← read_octets
    pubkey ← read_inner (public_from_bytes pubbytes)
    xi ← or_panic (w.scalar pubkey.0 bytes)
    return (pubkey.0, record { id = id; xi = xi; pubkey = pubkey.1 })

  unfoldable pub private_from_bytes :
      Bytes → Option (Result SchemeError (Group × Cks05PrivateKey F G))
  unfolding public_from_bytes
  private_from_bytes bytes = parse_with c read_private bytes

  abbrev pub share_elements : Cks05CoinShare F G → List Element
  share_elements share =
      integer share.id
      ∷ integer (group_code w.group)
      ∷ octets (w.element_bytes share.get_data)
      ∷ octets (w.scalar_bytes share.c)
      ∷ octets (w.scalar_bytes share.z)
      ∷ []

  unfoldable pub share_to_bytes : Cks05CoinShare F G → Result SchemeError Bytes
  share_to_bytes share = write_elements c (share_elements share)

  abbrev pub read_share : Parser (Group × Cks05CoinShare F G)
  read_share = do
    id ← read_u16
    group ← read_group
    element ← read_decoded (w.element group)
    c ← read_decoded (w.scalar group)
    z ← read_decoded (w.scalar group)
    return (group, record { id = id; get_data = element; c = c; z = z })

  unfoldable pub share_from_bytes : Bytes → Option (Result SchemeError (Group × Cks05CoinShare F G))
  share_from_bytes bytes = parse_with c read_share bytes
