-- ===== src/Asn1/Cks05/Laws.antt =====
-- The structs of src/core/schemes/src/dl_schemes/coins/cks05.rs are read back from what is
-- written.
use quorumcrypt.Asn1.Read.{
  read_group_lem, read_u16_lem, read_many_all, parse_with-write_elements, written_nested,
}
use quorumcrypt.Asn1.Cks05
use quorumcrypt.Asn1.{Asn1, Wire, read_decoded, read_octets}
use quorumcrypt.Base.{◌^◌, ◌<◌, ◌≡◌, refl, sym, ap, ◌∙◌, some, length}
use quorumcrypt.Dl.Cks05.{Cks05PublicKey, Cks05PrivateKey, Cks05CoinShare}
use quorumcrypt.Errors.{ok}
use quorumcrypt.Keys.{Bytes}

module _ {F G H : Type 0} (c : Asn1) (w : Wire F G H) where
  pub public_from_bytes-to_bytes :
      (key : Cks05PublicKey G) (bytes : Bytes)
      → key.n < 2 ^ 16
      → key.k < 2 ^ 16
      → key.n ≡ length key.verification_key
      → Cks05.public_to_bytes c w key ≡ ok bytes
      → key.id ≡ w.calc_key_id bytes
      → Cks05.public_from_bytes c w bytes ≡ some (ok (w.group, key))
  unfolding Cks05.public_to_bytes Cks05.public_from_bytes read_decoded
  public_from_bytes-to_bytes key bytes hn hk en e ei =
      parse_with-write_elements c (Cks05.read_public c w bytes)
        (w.group, record key { id = w.calc_key_id bytes }) (Cks05.public_elements c w key) bytes
        (rw (read_group_lem w.group _) (
          rw (read_u16_lem key.n _ hn) (
            rw (read_u16_lem key.k _ hk) (
              rw (w.element-bytes key.y) (
                rw
                  (read_many_all (w.element w.group) w.element_bytes key.n key.verification_key en
                    (w.element-bytes))
                  refl)))))
        e
      ∙ ap (λ i. some (ok (w.group, record key { id = i }))) (sym ei)

  -- A private key that was written is read back, if the number of verification keys of its public key
  -- is `n`, the numbers are of 16 bits, and the public key's id is that of its encoding.
  pub private_from_bytes-to_bytes :
      (key : Cks05PrivateKey F G) (bytes : Bytes)
      → key.id < 2 ^ 16
      → key.pubkey.n < 2 ^ 16
      → key.pubkey.k < 2 ^ 16
      → key.pubkey.n ≡ length key.pubkey.verification_key
      → ((b : Bytes)
          → Cks05.public_to_bytes c w key.pubkey ≡ ok b
          → key.pubkey.id ≡ w.calc_key_id b)
      → Cks05.private_to_bytes c w key ≡ ok bytes
      → Cks05.private_from_bytes c w bytes ≡ some (ok (w.group, key))
  unfolding Cks05.private_to_bytes Cks05.private_from_bytes read_octets
  private_from_bytes-to_bytes key bytes hi hn hk en ei e =
      let (b, q, r) =
        written_nested c (Cks05.private_elements c w key) (Cks05.public_to_bytes c w key.pubkey)
          bytes e in
      parse_with-write_elements c (Cks05.read_private c w) (w.group, key)
        (Cks05.private_elements c w key b) bytes
        (rw (read_u16_lem key.id _ hi) (
          rw (public_from_bytes-to_bytes key.pubkey b hn hk en q (ei b q))
            (rw (w.scalar-bytes key.xi) refl)))
        r

  pub share_from_bytes-to_bytes :
      (share : Cks05CoinShare F G) (bytes : Bytes)
      → share.id < 2 ^ 16
      → Cks05.share_to_bytes c w share ≡ ok bytes
      → Cks05.share_from_bytes c w bytes ≡ some (ok (w.group, share))
  unfolding Cks05.share_to_bytes Cks05.share_from_bytes read_decoded
  share_from_bytes-to_bytes share bytes h e =
      parse_with-write_elements c (Cks05.read_share c w) (w.group, share)
        (Cks05.share_elements c w share) bytes
        (rw (read_u16_lem share.id _ h) (simp (read_group_lem, w.element-bytes, w.scalar-bytes))) e
