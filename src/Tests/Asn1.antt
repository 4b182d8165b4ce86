-- ===== src/Tests/Asn1.antt =====
-- Runs of the encodings of the structs of src/core/schemes/src/dl_schemes.
use quorumcrypt.Asn1.Foreign.{share_from_bytes_panic}
use quorumcrypt.Asn1.Narrow.{share_from_bytes_wrap}
use quorumcrypt.Asn1.Sg02
use quorumcrypt.Asn1.Sg02.Laws.{private_from_bytes-to_bytes}
use quorumcrypt.Asn1.Bls04
use quorumcrypt.Asn1.Bz03
use quorumcrypt.Asn1.Cks05
use quorumcrypt.Asn1.Frost
use quorumcrypt.Asn1.{read_u16, read_group, read_octets, read_decoded, integer, octets, group_code}
use quorumcrypt.Base.{◌≡◌, refl, false, none, some, [], ◌∷◌, arith}
use quorumcrypt.Dl.Sg02.{Sg02PublicKey, Sg02PrivateKey}
use quorumcrypt.Errors.{ok}
use quorumcrypt.Keys.{Bytes}
use quorumcrypt.Schemes.{ed25519, rsa512, is_dl}
use quorumcrypt.Tests.Field.{Three, t0, t1, t2}
use quorumcrypt.Tests.Wire.{format, wire}

abbrev public_key : Sg02PublicKey Three
public_key = record {
  n = 2;
  k = 2;
  y = t1;
  verification_key = t2 ∷ t0 ∷ [];
  g_bar = t1;
  id = "key";
}

abbrev private_key : Sg02PrivateKey Three Three
private_key = record { id = 1; xi = t2; pubkey = public_key }

-- The elements of the public key are the octets of the third of the private key.
abbrev written : Bytes
written =
    0 ∷ 1 ∷ 1 ∷ 3 ∷ 0 ∷ 1 ∷ 1 ∷ 3 ∷ 1 ∷ 3 ∷ 1 ∷ 3 ∷ 2 ∷ 3 ∷ 1 ∷ 2 ∷ 4 ∷ 1 ∷ 2 ∷ 2 ∷ 1 ∷ 2 ∷ 3 ∷ 1
    ∷ 0 ∷ []

private_key_written : Sg02.private_to_bytes format wire private_key ≡ ok written
unfolding Sg02.private_to_bytes group_code
private_key_written = refl

private_from_bytes-to_bytes_example :
    Sg02.private_from_bytes format wire written ≡ some (ok (ed25519, private_key))
private_from_bytes-to_bytes_example =
    private_from_bytes-to_bytes format wire private_key written (omega arith) (omega arith)
      (omega arith) refl (λ b h. refl) private_key_written

-- A share of the group `Rsa512`.
abbrev foreign_share : Bytes
foreign_share = 0 ∷ 1 ∷ 0 ∷ 3 ∷ 1 ∷ 0 ∷ 1 ∷ 2 ∷ 0 ∷ []

no_curve : is_dl rsa512 ≡ false
unfolding is_dl
no_curve = refl

foreign_parsed :
    format.parse foreign_share
    ≡ some (integer 1 ∷ integer (group_code rsa512) ∷ octets [] ∷ octets (1 ∷ []) ∷ [])
unfolding group_code
foreign_parsed = refl

share_from_bytes_panic_example :
    (Sg02.share_from_bytes format wire foreign_share ≡ none)
    × (Bz03.share_from_bytes format wire foreign_share ≡ none)
    × (Bls04.share_from_bytes format wire foreign_share ≡ none)
    × (Cks05.share_from_bytes format wire foreign_share ≡ none)
    × (Frost.share_from_bytes format wire foreign_share ≡ none)
    × (Frost.commitment_from_bytes format wire foreign_share ≡ none)
share_from_bytes_panic_example =
    share_from_bytes_panic format wire rsa512 1 [] (1 ∷ []) [] foreign_share no_curve (omega arith)
      foreign_parsed

-- A share of ed25519 whose id is 2 ^ 16 + 1, and the one whose id is 1.
abbrev wide_share : Bytes
wide_share = 0 ∷ 65537 ∷ 0 ∷ 2 ∷ 1 ∷ 6 ∷ 0 ∷ 1 ∷ 3 ∷ 0 ∷ []

abbrev narrow_share : Bytes
narrow_share = 0 ∷ 1 ∷ 0 ∷ 2 ∷ 1 ∷ 6 ∷ 0 ∷ 1 ∷ 3 ∷ 0 ∷ []

narrow_share_read :
    Bls04.share_from_bytes format wire narrow_share
    ≡ some (ok (ed25519, record { id = 1; label = 5 ∷ []; get_data = t2 }))
unfolding Bls04.share_from_bytes read_u16 read_group read_octets read_decoded
narrow_share_read = refl

share_from_bytes_wrap_example :
    (Sg02.share_from_bytes format wire wide_share ≡ Sg02.share_from_bytes format wire narrow_share)
    × (Bz03.share_from_bytes format wire wide_share
        ≡ Bz03.share_from_bytes format wire narrow_share)
    × (Bls04.share_from_bytes format wire wide_share
        ≡ Bls04.share_from_bytes format wire narrow_share)
    × (Cks05.share_from_bytes format wire wide_share
        ≡ Cks05.share_from_bytes format wire narrow_share)
    × (Frost.share_from_bytes format wire wide_share
        ≡ Frost.share_from_bytes format wire narrow_share)
    × (Frost.commitment_from_bytes format wire wide_share
        ≡ Frost.commitment_from_bytes format wire narrow_share)
share_from_bytes_wrap_example =
    share_from_bytes_wrap format wire 65537 (integer 2 ∷ octets (5 ∷ []) ∷ octets (2 ∷ []) ∷ [])
      wide_share narrow_share (omega arith) refl refl
