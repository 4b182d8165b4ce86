-- ===== src/Asn1/Sg02/Laws.antt =====
-- The structs of src/core/schemes/src/dl_schemes/ciphers/sg02.rs are read back from what is written.
use quorumcrypt.Asn1.Read.{
  read_group_lem, read_u16_lem, read_many_count, parse_with-write_elements, written_nested,
}
use quorumcrypt.Asn1.Sg02
use quorumcrypt.Asn1.{Asn1, Wire, read_decoded, read_octets}
use quorumcrypt.Base.{◌^◌, ◌<◌, ◌≡◌, refl, sym, ap, ◌∙◌, some, length}
use quorumcrypt.Dl.Sg02.{Sg02PublicKey, Sg02PrivateKey, Sg02Ciphertext, Sg02DecryptionShare}
use quorumcrypt.Errors.{ok}
use quorumcrypt.Keys.{Bytes}

module _ {F G H : Type 0} (c : Asn1) (w : Wire F G H) where
  pub share_from_bytes-to_bytes :
      (share : Sg02DecryptionShare F G) (bytes : Bytes)
      → share.id < 2 ^ 16
      → Sg02.share_to_bytes c w share ≡ ok bytes
      → Sg02.share_from_bytes c w bytes ≡ some (ok (w.group, share))
  unfolding Sg02.share_to_bytes Sg02.share_from_bytes read_decoded
  share_from_bytes-to_bytes share bytes h e =
      parse_with-write_elements c (Sg02.read_share c w) (w.group, share)
        (Sg02.share_elements c w share) bytes
        (rw (read_u16_lem share.id _ h) (simp (read_group_lem, w.element-bytes, w.scalar-bytes))) e

  pub ciphertext_from_bytes-to_bytes :
      (ct : Sg02Ciphertext F G) (bytes : Bytes)
      → Sg02.ciphertext_to_bytes c w ct ≡ ok bytes
      → Sg02.ciphertext_from_bytes c w bytes ≡ some (ok (w.group, ct))
  unfolding Sg02.ciphertext_to_bytes Sg02.ciphertext_from_bytes read_decoded
  ciphertext_from_bytes-to_bytes ct bytes e =
      parse_with-write_elements c (Sg02.read_ciphertext c w) (w.group, ct)
        (Sg02.ciphertext_elements c w ct) bytes
        (simp (read_group_lem, w.element-bytes, w.scalar-bytes, w.from_utf8-as_bytes)) e

  pub public_from_bytes-to_bytes :
      (key : Sg02PublicKey G) (bytes : Bytes)
      → key.n < 2 ^ 16
      → key.k < 2 ^ 16
      → key.n ≡ length key.verification_key
      → Sg02.public_to_bytes c w key ≡ ok bytes
      → key.id ≡ w.calc_key_id bytes
      → Sg02.public_from_bytes c w bytes ≡ some (ok (w.group, key))
  unfolding Sg02.public_to_bytes Sg02.public_from_bytes read_decoded
  public_from_bytes-to_bytes key bytes hn hk en e ei =
      parse_with-write_elements c (Sg02.read_public c w bytes)
        (w.group, record key { id = w.calc_key_id bytes }) (Sg02.public_elements c w key) bytes
        (rw (read_group_lem w.group _) (
          rw (read_u16_lem key.n _ hn) (
            rw (read_u16_lem key.k _ hk) (
              rw (w.element-bytes key.y) (
                rw
                  (read_many_count (w.element w.group) w.element_bytes key.n key.verification_key _
                    en w.element-bytes)
                  (rw (w.element-bytes key.g_bar) refl))))))
        e
      ∙ ap (λ i. some (ok (w.group, record key { id = i }))) (sym ei)

  -- A private key that was written is read back, if the number of verification keys of its public key
  -- is `n`, the numbers are of 16 bits, and the public key's id is that of its encoding.
  pub private_from_bytes-to_bytes :
      (key : Sg02PrivateKey F G) (bytes : Bytes)
      → key.id < 2 ^ 16
      → key.pubkey.n < 2 ^ 16
      → key.pubkey.k < 2 ^ 16
      → key.pubkey.n ≡ length key.pubkey.verification_key
      → ((b : Bytes) → Sg02.public_to_bytes c w key.pubkey ≡ ok b → key.pubkey.id ≡ w.calc_key_id b)
      → Sg02.private_to_bytes c w key ≡ ok bytes
      → Sg02.private_from_bytes c w bytes ≡ some (ok (w.group, key))
  unfolding Sg02.private_to_bytes Sg02.private_from_bytes read_octets
  private_from_bytes-to_bytes key bytes hi hn hk en ei e =
      let (b, q, r) =
        written_nested c (Sg02.private_elements c w key) (Sg02.public_to_bytes c w key.pubkey) bytes
          e in
      parse_with-write_elements c (Sg02.read_private c w) (w.group, key)
        (Sg02.private_elements c w key b) bytes
        (rw (read_u16_lem key.id _ hi) (
          rw (public_from_bytes-to_bytes key.pubkey b hn hk en q (ei b q))
            (rw (w.scalar-bytes key.xi) refl)))
        r
