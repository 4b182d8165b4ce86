-- ===== src/Asn1/Sg02.antt =====
-- `to_bytes` and `from_bytes` of the structs of src/core/schemes/src/dl_schemes/ciphers/sg02.rs. What is read
-- comes with its group.
pub mod Laws
use quorumcrypt.Asn1.{
  Element, integer, octets, Asn1, Wire, group_code, Parsed, Parser, done, ◌>>=◌, return, continue,
  known_group, or_panic, or_refuse, read_u16, read_group, read_octets, read_decoded, read_many,
  finish, read_elements, parse_with, write_elements, write_nested, with_octets, read_inner,
  or_serialization_failed,
}
use quorumcrypt.Base.{ℕ, Option, none, some, List, [], ◌∷◌, ◌++◌, map}
use quorumcrypt.Dl.Sg02.{Sg02PublicKey, Sg02PrivateKey, Sg02Ciphertext, Sg02DecryptionShare}
use quorumcrypt.Errors.{Result, ok, err, SchemeError}
use quorumcrypt.Keys.{Bytes}
use quorumcrypt.Schemes.{Group}

module _ {F G H : Type 0} (c : Asn1) (w : Wire F G H) where
  abbrev pub public_elements : Sg02PublicKey G → List Element
  public_elements key =
      integer (group_code w.group)
      ∷ integer key.n
      ∷ integer key.k
      ∷ octets (w.element_bytes key.y)
      ∷ (map (λ a. octets (w.element_bytes a)) key.verification_key
          ++ (octets (w.element_bytes key.g_bar) ∷ []))

  unfoldable pub public_to_bytes : Sg02PublicKey G → Result SchemeError Bytes
  public_to_bytes key = write_elements c (public_elements key)

  abbrev pub read_public : Bytes → Parser (Group × Sg02PublicKey G)
  read_public bytes = do
    group ← read_group
    n ← read_u16
    k ← read_u16
    y ← read_decoded (w.element group)
    verification_key ← read_many (w.element group) n
    g_bar ← read_decoded (w.element group)
    return (
      group,
      record {
        n = n;
        k = k;
        y = y;
        verification_key = verification_key;
        g_bar = g_bar;
        id = w.calc_key_id bytes;
      },
    )

  unfoldable pub public_from_bytes : Bytes → Option (Result SchemeError (Group × Sg02PublicKey G))
  public_from_bytes bytes = parse_with c (read_public bytes) bytes

  abbrev pub private_elements : Sg02PrivateKey F G → Bytes → List Element
  private_elements key pubbytes =
      integer key.id ∷ octets (w.scalar_bytes key.xi) ∷ octets pubbytes ∷ []

  unfoldable pub private_to_bytes : Sg02PrivateKey F G → Result SchemeError Bytes
  unfolding public_to_bytes
  private_to_bytes key =
      write_nested c (with_octets (private_elements key) (public_to_bytes key.pubkey))

  abbrev pub read_private : Parser (Group × Sg02PrivateKey F G)
  read_private = do
    id ← read_u16
    bytes ← read_octets
    pubbytes ← read_octets
    pubkey ← read_inner (public_from_bytes pubbytes)
    xi ← or_panic (w.scalar pubkey.0 bytes)
    return (pubkey.0, record { id = id; xi = xi; pubkey = pubkey.1 })

  unfoldable pub private_from_bytes :
      Bytes → Option (Result SchemeError (Group × Sg02PrivateKey F G))
  unfolding public_from_bytes
  private_from_bytes bytes = parse_with c read_private bytes

  abbrev pub ciphertext_elements : Sg02Ciphertext F G → List Element
  ciphertext_elements ct =
      integer (group_code w.group)
      ∷ octets ct.label
      ∷ octets ct.ctxt
      ∷ octets (w.element_bytes ct.u)
      ∷ octets (w.element_bytes ct.u_bar)
      ∷ octets (w.scalar_bytes ct.e)
      ∷ octets (w.scalar_bytes ct.f)
      ∷ octets ct.c_k
      ∷ octets (w.as_bytes ct.key_id)
      ∷ []

  unfoldable pub ciphertext_to_bytes : Sg02Ciphertext F G → Result SchemeError Bytes
  ciphertext_to_bytes ct = write_elements c (ciphertext_elements ct)

  abbrev pub read_ciphertext : Parser (Group × Sg02Ciphertext F G)
  read_ciphertext = do
    group ← read_group
    label ← read_octets
    msg ← read_octets
    u ← read_decoded (w.element group)
    u_bar ← read_decoded (w.element group)
    e ← read_decoded (w.scalar group)
    f ← read_decoded (w.scalar group)
    c_k ← read_octets
    text ← read_octets
    key_id ← or_refuse (w.from_utf8 text)
    return (
      group,
      record {
        label = label;
        ctxt = msg;
        u = u;
        u_bar = u_bar;
        e = e;
        f = f;
        c_k = c_k;
        key_id = key_id;
      },
    )

  unfoldable pub ciphertext_from_bytes :
      Bytes → Option (Result SchemeError (Group × Sg02Ciphertext F G))
  ciphertext_from_bytes bytes = parse_with c read_ciphertext bytes

  abbrev pub share_elements : Sg02DecryptionShare F G → List Element
  share_elements share =
      integer share.id
      ∷ integer (group_code w.group)
      ∷ octets share.label
      ∷ octets (w.element_bytes share.get_data)
      ∷ octets (w.scalar_bytes share.ei)
      ∷ octets (w.scalar_bytes share.fi)
      ∷ []

  unfoldable pub share_to_bytes : Sg02DecryptionShare F G → Result SchemeError Bytes
  share_to_bytes share = write_elements c (share_elements share)

  abbrev pub read_share : Parser (Group × Sg02DecryptionShare F G)
  read_share = do
    id ← read_u16
    group ← read_group
    label ← read_octets
    share ← read_decoded (w.element group)
    ei ← read_decoded (w.scalar group)
    fi ← read_decoded (w.scalar group)
    return (group, record { id = id; get_data = share; label = label; ei = ei; fi = fi })

  unfoldable pub share_from_bytes :
      Bytes → Option (Result SchemeError (Group × Sg02DecryptionShare F G))
  share_from_bytes bytes = parse_with c read_share bytes
