-- ===== src/Asn1/Foreign.antt =====
-- Messages of src/core/schemes/src/dl_schemes that name a group without a curve.
use quorumcrypt.Asn1.Bls04
use quorumcrypt.Asn1.Bz03
use quorumcrypt.Asn1.Cks05
use quorumcrypt.Asn1.Frost
use quorumcrypt.Asn1.Read.{read_group_lem, read_u16_lem}
use quorumcrypt.Asn1.Sg02
use quorumcrypt.Asn1.{Element, integer, octets, Asn1, Wire, group_code, read_decoded, read_elements}
use quorumcrypt.Base.{ℕ, ◌^◌, ◌<◌, ◌≡◌, refl, ap, ◌∙◌, false, none, some, List, ◌∷◌}
use quorumcrypt.Keys.{Bytes}
use quorumcrypt.Schemes.{Group, is_dl}

module _ {F G H : Type 0} (c : Asn1) (w : Wire F G H) where
  -- A message whose elements are an id of 16 bits, the number of a group without a curve and two octet
  -- strings, whatever follows, is not refused: as a share of SG02, BZ03, BLS04, CKS05 or FROST, and as
  -- a commitment of FROST, it makes the server panic.
  pub share_from_bytes_panic :
      (r : Group) (id : ℕ) (label body : Bytes) (rest : List Element) (bytes : Bytes)
      → is_dl r ≡ false
      → id < 2 ^ 16
      → c.parse bytes
        ≡ some (integer id ∷ integer (group_code r) ∷ octets label ∷ octets body ∷ rest)
      → (Sg02.share_from_bytes c w bytes ≡ none)
        × (Bz03.share_from_bytes c w bytes ≡ none)
        × (Bls04.share_from_bytes c w bytes ≡ none)
        × (Cks05.share_from_bytes c w bytes ≡ none)
        × (Frost.share_from_bytes c w bytes ≡ none)
        × (Frost.commitment_from_bytes c w bytes ≡ none)
  unfolding Sg02.share_from_bytes Bz03.share_from_bytes Bls04.share_from_bytes
      Cks05.share_from_bytes Frost.share_from_bytes Frost.commitment_from_bytes read_decoded
  share_from_bytes_panic r id label body rest bytes h hi p = (
    ap (read_elements (Sg02.read_share c w)) p
        ∙ rw (read_u16_lem id _ hi) (rw (read_group_lem r _) (rw (w.element_none r body h) refl)),
    ap (read_elements (Bz03.read_share c w)) p
        ∙ rw (read_u16_lem id _ hi) (rw (read_group_lem r _) (rw (w.element2_none r body h) refl)),
    ap (read_elements (Bls04.read_share c w)) p
        ∙ rw (read_u16_lem id _ hi) (rw (read_group_lem r _) (rw (w.element2_none r body h) refl)),
    ap (read_elements (Cks05.read_share c w)) p
        ∙ rw (read_u16_lem id _ hi) (rw (read_group_lem r _) (rw (w.element_none r label h) refl)),
    ap (read_elements (Frost.read_share c w)) p
        ∙ rw (read_u16_lem id _ hi) (rw (read_group_lem r _) (rw (w.scalar_none r label h) refl)),
    ap (read_elements (Frost.read_commitment c w)) p
        ∙ rw (read_u16_lem id _ hi) (rw (read_group_lem r _) (rw (w.element_none r label h) refl)),
  )
