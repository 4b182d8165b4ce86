-- ===== src/Asn1/Bz03/Laws.antt =====
-- The structs of src/core/schemes/src/dl_schemes/ciphers/bz03.rs are read back from what is
-- written.
use quorumcrypt.Asn1.Read.{
  read_group_lem, read_u16_lem, read_many_all, parse_with-write_elements, written_nested,
}
use quorumcrypt.Asn1.Bz03
use quorumcrypt.Asn1.{Asn1, Wire, read_decoded, read_octets}
use quorumcrypt.Base.{◌^◌, ◌<◌, ◌≡◌, refl, sym, ap, ◌∙◌, some, length}
use quorumcrypt.Dl.Bz03.{Bz03PublicKey, Bz03PrivateKey, Bz03Ciphertext, Bz03DecryptionShare}
use quorumcrypt.Errors.{ok}
use quorumcrypt.Keys.{Bytes}

module _ {F G H : Type 0} (c : Asn1) (w : Wire F G H) where
  pub public_from_bytes-to_bytes :
      (key : Bz03PublicKey G H) (bytes : Bytes)
      → key.n < 2 ^ 16
      → key.k < 2 ^ 16
      → key.n ≡ length key.verification_key
      → Bz03.public_to_bytes c w key ≡ ok bytes
      → key.id ≡ w.calc_key_id bytes
      → Bz03.public_from_bytes c w bytes ≡ some (ok (w.group, key))
  unfolding Bz03.public_to_bytes Bz03.public_from_bytes read_decoded
  public_from_bytes-to_bytes key bytes hn hk en e ei =
      parse_with-write_elements c (Bz03.read_public c w bytes)
        (w.group, record key { id = w.calc_key_id bytes }) (Bz03.public_elements c w key) bytes
        (rw (read_group_lem w.group _) (
          rw (read_u16_lem key.n _ hn) (
            rw (read_u16_lem key.k _ hk) (
              rw (w.element2-bytes key.y) (
                rw
                  (read_many_all (w.element w.group) w.element_bytes key.n key.verification_key en
                    (w.element-bytes))
                  refl)))))
        e
      ∙ ap (λ i. some (ok (w.group, record key { id = i }))) (sym ei)

  -- A private key that was written is read back, if the number of verification keys of its public key
  -- is `n`, the numbers are of 16 bits, and the public key's id is that of its encoding.
  pub private_from_bytes-to_bytes :
      (key : Bz03PrivateKey F G H) (bytes : Bytes)
      → key.id < 2 ^ 16
      → key.pubkey.n < 2 ^ 16
      → key.pubkey.k < 2 ^ 16
      → key.pubkey.n ≡ length key.pubkey.verification_key
      → ((b : Bytes) → Bz03.public_to_bytes c w key.pubkey ≡ ok b → key.pubkey.id ≡ w.calc_key_id b)
      → Bz03.private_to_bytes c w key ≡ ok bytes
      → Bz03.private_from_bytes c w bytes ≡ some (ok (w.group, key))
  unfolding Bz03.private_to_bytes Bz03.private_from_bytes read_octets
  private_from_bytes-to_bytes key bytes hi hn hk en ei e =
      let (b, q, r) =
        written_nested c (Bz03.private_elements c w key) (Bz03.public_to_bytes c w key.pubkey) bytes
          e in
      parse_with-write_elements c (Bz03.read_private c w) (w.group, key)
        (Bz03.private_elements c w key b) bytes
        (rw (read_u16_lem key.id _ hi) (
          rw (public_from_bytes-to_bytes key.pubkey b hn hk en q (ei b q))
            (rw (w.scalar-bytes key.xi) refl)))
        r

  pub share_from_bytes-to_bytes :
      (share : Bz03DecryptionShare H) (bytes : Bytes)
      → share.id < 2 ^ 16
      → Bz03.share_to_bytes c w share ≡ ok bytes
      → Bz03.share_from_bytes c w bytes ≡ some (ok (w.group, share))
  unfolding Bz03.share_to_bytes Bz03.share_from_bytes read_decoded
  share_from_bytes-to_bytes share bytes h e =
      parse_with-write_elements c (Bz03.read_share c w) (w.group, share)
        (Bz03.share_elements c w share) bytes
        (rw (read_u16_lem share.id _ h) (simp (read_group_lem, w.element2-bytes))) e

  pub ciphertext_from_bytes-to_bytes :
      (ct : Bz03Ciphertext G H) (bytes : Bytes)
      → Bz03.ciphertext_to_bytes c w ct ≡ ok bytes
      → Bz03.ciphertext_from_bytes c w bytes ≡ some (ok (w.group, ct))
  unfolding Bz03.ciphertext_to_bytes Bz03.ciphertext_from_bytes read_decoded
  ciphertext_from_bytes-to_bytes ct bytes e =
      parse_with-write_elements c (Bz03.read_ciphertext c w) (w.group, ct)
        (Bz03.ciphertext_elements c w ct) bytes
        (simp (read_group_lem, w.element-bytes, w.element2-bytes, w.from_utf8-as_bytes)) e
