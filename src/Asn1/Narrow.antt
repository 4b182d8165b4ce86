-- ===== src/Asn1/Narrow.antt =====
-- Ids in the messages of src/core/schemes/src/dl_schemes, which are written as 64 bits and kept as 16.
use quorumcrypt.Asn1.Bls04
use quorumcrypt.Asn1.Bz03
use quorumcrypt.Asn1.Cks05
use quorumcrypt.Asn1.Frost
use quorumcrypt.Asn1.Sg02
use quorumcrypt.Asn1.{Element, integer, Asn1, Wire, done, read_u16}
use quorumcrypt.Base.{
  ℕ, ◌^◌, ◌%◌, ◌<◌, ◌≡◌, refl, sym, ap, ◌∙◌, some, List, ◌∷◌, ltb, if_true, arith,
}
use quorumcrypt.Keys.{Bytes}

read_u16-wrap :
    (n : ℕ) (es : List Element)
    → n < 2 ^ 64
    → read_u16 (integer n ∷ es) ≡ read_u16 (integer (n % 2 ^ 16) ∷ es)
unfolding read_u16
read_u16-wrap n es h =
    if_true (ltb n (2 ^ 64)) _ _ (ground arith)
    ∙ ap (λ m. done m es) (omega arith)
    ∙ sym (
        if_true (ltb (n % 2 ^ 16) (2 ^ 64)) _ _
          (let k : n % 2 ^ 16 < 2 ^ 64 = omega arith in ground arith))

module _ {F G H : Type 0} (c : Asn1) (w : Wire F G H) where
  -- Two messages that differ in the first element only, an id of 64 bits in one of them and that id
  -- modulo 2 ^ 16 in the other, are read alike, as a share of SG02, BZ03, BLS04, CKS05 or FROST, and
  -- as a commitment of FROST.
  pub share_from_bytes_wrap :
      (id : ℕ) (rest : List Element) (bytes narrow : Bytes)
      → id < 2 ^ 64
      → c.parse bytes ≡ some (integer id ∷ rest)
      → c.parse narrow ≡ some (integer (id % 2 ^ 16) ∷ rest)
      → (Sg02.share_from_bytes c w bytes ≡ Sg02.share_from_bytes c w narrow)
        × (Bz03.share_from_bytes c w bytes ≡ Bz03.share_from_bytes c w narrow)
        × (Bls04.share_from_bytes c w bytes ≡ Bls04.share_from_bytes c w narrow)
        × (Cks05.share_from_bytes c w bytes ≡ Cks05.share_from_bytes c w narrow)
        × (Frost.share_from_bytes c w bytes ≡ Frost.share_from_bytes c w narrow)
        × (Frost.commitment_from_bytes c w bytes ≡ Frost.commitment_from_bytes c w narrow)
  unfolding Sg02.share_from_bytes Bz03.share_from_bytes Bls04.share_from_bytes
      Cks05.share_from_bytes Frost.share_from_bytes Frost.commitment_from_bytes
  share_from_bytes_wrap id rest bytes narrow h p q =
      let e = read_u16-wrap id rest h in
      (
        rw (p, q, e) refl,
        rw (p, q, e) refl,
        rw (p, q, e) refl,
        rw (p, q, e) refl,
        rw (p, q, e) refl,
        rw (p, q, e) refl,
      )
