-- ===== src/Asn1/Frost/Laws.antt =====
-- The structs of src/core/schemes/src/dl_schemes/signatures/frost.rs are read back from what is
-- written.
use quorumcrypt.Asn1.Read.{
  read_group_lem, read_u16_lem, read_many_all, parse_with-write_elements, written_nested,
  element_at, scalar_at,
}
use quorumcrypt.Asn1.Frost
use quorumcrypt.Asn1.{Asn1, Wire, read_decoded, read_octets}
use quorumcrypt.Base.{◌^◌, ◌<◌, ◌≡◌, refl, sym, ap, ◌∙◌, some, length}
use quorumcrypt.Dl.Frost.{
  FrostPublicKey, FrostPrivateKey, PublicCommitment, Nonce, FrostSignatureShare, FrostSignature,
}
use quorumcrypt.Errors.{ok}
use quorumcrypt.Keys.{Bytes}

module _ {F G H : Type 0} (c : Asn1) (w : Wire F G H) where
  pub public_from_bytes-to_bytes :
      (key : FrostPublicKey G) (bytes : Bytes)
      → key.n < 2 ^ 16
      → key.k < 2 ^ 16
      → key.n ≡ length key.h
      → key.group ≡ w.group
      → Frost.public_to_bytes c w key ≡ ok bytes
      → key.id ≡ w.calc_key_id bytes
      → Frost.public_from_bytes c w bytes ≡ some (ok key)
  unfolding Frost.public_to_bytes Frost.public_from_bytes read_decoded
  public_from_bytes-to_bytes key bytes hn hk en eg e ei =
      parse_with-write_elements c (Frost.read_public c w bytes)
        (record key { id = w.calc_key_id bytes }) (Frost.public_elements c w key) bytes
        (rw (read_group_lem key.group _) (
          rw (read_u16_lem key.n _ hn) (
            rw (read_u16_lem key.k _ hk) (
              rw (element_at w key.group eg key.y) (
                rw
                  (read_many_all (w.element key.group) w.element_bytes key.n key.h en
                    (element_at w key.group eg))
                  refl)))))
        e
      ∙ ap (λ i. some (ok (record key { id = i }))) (sym ei)

  -- A private key that was written is read back, if the number of verification keys of its public key
  -- is `n`, the numbers are of 16 bits, and the public key's id is that of its encoding.
  pub private_from_bytes-to_bytes :
      (key : FrostPrivateKey F G) (bytes : Bytes)
      → key.id < 2 ^ 16
      → key.pubkey.n < 2 ^ 16
      → key.pubkey.k < 2 ^ 16
      → key.pubkey.n ≡ length key.pubkey.h
      → key.pubkey.group ≡ w.group
      → ((b : Bytes)
          → Frost.public_to_bytes c w key.pubkey ≡ ok b
          → key.pubkey.id ≡ w.calc_key_id b)
      → Frost.private_to_bytes c w key ≡ ok bytes
      → Frost.private_from_bytes c w bytes ≡ some (ok key)
  unfolding Frost.private_to_bytes Frost.private_from_bytes read_octets
  private_from_bytes-to_bytes key bytes hi hn hk en eg ei e =
      let (b, q, r) =
        written_nested c (Frost.private_elements c w key) (Frost.public_to_bytes c w key.pubkey)
          bytes e in
      parse_with-write_elements c (Frost.read_private c w) key (Frost.private_elements c w key b)
        bytes
        (rw (read_u16_lem key.id _ hi) (
          rw (public_from_bytes-to_bytes key.pubkey b hn hk en eg q (ei b q))
            (rw (scalar_at w key.pubkey.group eg key.x) refl)))
        r

  pub commitment_from_bytes-to_bytes :
      (commitment : PublicCommitment G) (bytes : Bytes)
      → commitment.id < 2 ^ 16
      → Frost.commitment_to_bytes c w commitment ≡ ok bytes
      → Frost.commitment_from_bytes c w bytes ≡ some (ok (w.group, commitment))
  unfolding Frost.commitment_to_bytes Frost.commitment_from_bytes read_decoded
  commitment_from_bytes-to_bytes commitment bytes h e =
      parse_with-write_elements c (Frost.read_commitment c w) (w.group, commitment)
        (Frost.commitment_elements c w commitment) bytes
        (rw (read_u16_lem commitment.id _ h) (simp (read_group_lem, w.element-bytes))) e

  pub nonce_from_bytes-to_bytes :
      (nonce : Nonce F) (bytes : Bytes)
      → nonce.group ≡ w.group
      → Frost.nonce_to_bytes c w nonce ≡ ok bytes
      → Frost.nonce_from_bytes c w bytes ≡ some (ok nonce)
  unfolding Frost.nonce_to_bytes Frost.nonce_from_bytes read_decoded
  nonce_from_bytes-to_bytes nonce bytes g e =
      parse_with-write_elements c (Frost.read_nonce c w) nonce (Frost.nonce_elements c w nonce)
        bytes (rw (read_group_lem nonce.group _) (simp (scalar_at w nonce.group g))) e

  pub share_from_bytes-to_bytes :
      (share : FrostSignatureShare F) (bytes : Bytes)
      → share.id < 2 ^ 16
      → Frost.share_to_bytes c w share ≡ ok bytes
      → Frost.share_from_bytes c w bytes ≡ some (ok (w.group, share))
  unfolding Frost.share_to_bytes Frost.share_from_bytes read_decoded
  share_from_bytes-to_bytes share bytes h e =
      parse_with-write_elements c (Frost.read_share c w) (w.group, share)
        (Frost.share_elements c w share) bytes
        (rw (read_u16_lem share.id _ h) (simp (read_group_lem, w.scalar-bytes))) e

  pub signature_from_bytes-to_bytes :
      (signature : FrostSignature F G) (bytes : Bytes)
      → Frost.signature_to_bytes c w signature ≡ ok bytes
      → Frost.signature_from_bytes c w bytes ≡ some (ok (w.group, signature))
  unfolding Frost.signature_to_bytes Frost.signature_from_bytes read_decoded
  signature_from_bytes-to_bytes signature bytes e =
      parse_with-write_elements c (Frost.read_signature c w) (w.group, signature)
        (Frost.signature_elements c w signature) bytes
        (simp (read_group_lem, w.element-bytes, w.scalar-bytes)) e
