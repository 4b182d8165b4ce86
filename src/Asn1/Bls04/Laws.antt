-- ===== src/Asn1/Bls04/Laws.antt =====
-- The structs of src/core/schemes/src/dl_schemes/signatures/bls04.rs are read back from what is
-- written.
use quorumcrypt.Asn1.Read.{
  read_group_lem, read_u16_lem, read_many_all, parse_with-write_elements, written_nested,
}
use quorumcrypt.Asn1.Bls04
use quorumcrypt.Asn1.{Asn1, Wire, read_decoded, read_octets}
use quorumcrypt.Base.{◌^◌, ◌<◌, ◌≡◌, refl, sym, ap, ◌∙◌, some, length}
use quorumcrypt.Dl.Bls04.{Bls04PublicKey, Bls04PrivateKey, Bls04SignatureShare, Bls04Signature}
use quorumcrypt.Errors.{ok}
use quorumcrypt.Keys.{Bytes}

module _ {F G H : Type 0} (c : Asn1) (w : Wire F G H) where
  pub public_from_bytes-to_bytes :
      (key : Bls04PublicKey G) (bytes : Bytes)
      → key.n < 2 ^ 16
      → key.k < 2 ^ 16
      → key.n ≡ length key.verification_key
      → Bls04.public_to_bytes c w key ≡ ok bytes
      → key.id ≡ w.calc_key_id bytes
      → Bls04.public_from_bytes c w bytes ≡ some (ok (w.group, key))
  unfolding Bls04.public_to_bytes Bls04.public_from_bytes read_decoded
  public_from_bytes-to_bytes key bytes hn hk en e ei =
      parse_with-write_elements c (Bls04.read_public c w bytes)
        (w.group, record key { id = w.calc_key_id bytes }) (Bls04.public_elements c w key) bytes
        (rw (read_group_lem w.group _) (
          rw (read_u16_lem key.n _ hn) (
            rw (read_u16_lem key.k _ hk) (
              rw (w.element-bytes key.y) (
                rw
                  (read_many_all (w.element w.group) w.element_bytes key.n key.verification_key en
                    (w.element-bytes))
                  refl)))))
        e
      ∙ ap (λ i. some (ok (w.group, record key { id = i }))) (sym ei)

  -- A private key that was written is read back, if the number of verification keys of its public key
  -- is `n`, the numbers are of 16 bits, and the public key's id is that of its encoding.
  pub private_from_bytes-to_bytes :
      (key : Bls04PrivateKey F G) (bytes : Bytes)
      → key.id < 2 ^ 16
      → key.pubkey.n < 2 ^ 16
      → key.pubkey.k < 2 ^ 16
      → key.pubkey.n ≡ length key.pubkey.verification_key
      → ((b : Bytes)
          → Bls04.public_to_bytes c w key.pubkey ≡ ok b
          → key.pubkey.id ≡ w.calc_key_id b)
      → Bls04.private_to_bytes c w key ≡ ok bytes
      → Bls04.private_from_bytes c w bytes ≡ some (ok (w.group, key))
  unfolding Bls04.private_to_bytes Bls04.private_from_bytes read_octets
  private_from_bytes-to_bytes key bytes hi hn hk en ei e =
      let (b, q, r) =
        written_nested c (Bls04.private_elements c w key) (Bls04.public_to_bytes c w key.pubkey)
          bytes e in
      parse_with-write_elements c (Bls04.read_private c w) (w.group, key)
        (Bls04.private_elements c w key b) bytes
        (rw (read_u16_lem key.id _ hi) (
          rw (public_from_bytes-to_bytes key.pubkey b hn hk en q (ei b q))
            (rw (w.scalar-bytes key.xi) refl)))
        r

  pub share_from_bytes-to_bytes :
      (share : Bls04SignatureShare H) (bytes : Bytes)
      → share.id < 2 ^ 16
      → Bls04.share_to_bytes c w share ≡ ok bytes
      → Bls04.share_from_bytes c w bytes ≡ some (ok (w.group, share))
  unfolding Bls04.share_to_bytes Bls04.share_from_bytes read_decoded
  share_from_bytes-to_bytes share bytes h e =
      parse_with-write_elements c (Bls04.read_share c w) (w.group, share)
        (Bls04.share_elements c w share) bytes
        (rw (read_u16_lem share.id _ h) (simp (read_group_lem, w.element2-bytes))) e

  pub signature_from_bytes-to_bytes :
      (signature : Bls04Signature H) (bytes : Bytes)
      → Bls04.signature_to_bytes c w signature ≡ ok bytes
      → Bls04.signature_from_bytes c w bytes ≡ some (ok (w.group, signature))
  unfolding Bls04.signature_to_bytes Bls04.signature_from_bytes read_decoded
  signature_from_bytes-to_bytes signature bytes e =
      parse_with-write_elements c (Bls04.read_signature c w) (w.group, signature)
        (Bls04.signature_elements c w signature) bytes (simp (read_group_lem, w.element2-bytes)) e
