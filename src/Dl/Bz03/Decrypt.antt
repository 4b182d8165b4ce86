-- ===== src/Dl/Bz03/Decrypt.antt =====
-- The threshold decryption of src/core/schemes/src/dl_schemes/ciphers/bz03.rs.
use quorumcrypt.Algebra.{Scalars, GroupOperations, Pairing}
use quorumcrypt.Base.{ℕ, ◌≤◌, ◌<◌, ◌≡◌, refl, sym, ap, ◌∙◌, true, some, List, map, length}
use quorumcrypt.Dl.Bz03.Exact.{verify_share_data, verify_ciphertext_power}
use quorumcrypt.Dl.Bz03.{
  Bz03PublicKey, Bz03DecryptionShare, Bz03Ciphertext, bz03_share, hash_bytes, seal, encrypt,
  open_with, assemble, verify_share, verify_ciphertext,
}
use quorumcrypt.Dl.Keys.{dealt_keys, unseal_masked}
use quorumcrypt.Dl.Proofs.{pow-pow_comm}
use quorumcrypt.Dl.{Primitives, slice}
use quorumcrypt.Errors.{ok}
use quorumcrypt.Keys.{Bytes}
use quorumcrypt.Protocols.Collect.Sound.{Every, Every-map}
use quorumcrypt.Sharing.Lagrange.{AreIds}
use quorumcrypt.Sharing.Recover.{IsDealing, interpolate-IsDealing}
use mathlib.Core.Option

module _ {F G H T : Type 0} ⦃s : Scalars F⦄ {g : GroupOperations F G s} {g2 : GroupOperations F H s}
    (e : Pairing F G H T s g g2) (p : Primitives F) where
  encrypt-seal :
      (msg label : Bytes) (pk : Bz03PublicKey G H) (r : F) (ikm : Bytes) (ct : Bz03Ciphertext G H)
      → encrypt g g2 p msg label pk r ikm ≡ some ct
      → (nonce : Bytes) × (slice 12 (g2.to_bytes (g2.pow pk.y r)) ≡ some nonce)
        × (ct ≡ seal g g2 p msg label pk r ikm nonce)
  unfolding encrypt
  encrypt-seal msg label pk r ikm ct eq =
      let (nonce, q, m) =
        (Option.map-eq-some_iff (seal g g2 p msg label pk r ikm)
            (slice 12 (g2.to_bytes (g2.pow pk.y r)))).0
          eq in
      (nonce, q, sym m)

  -- A message that is encrypted is verified.
  pub verify_ciphertext-encrypt :
      (msg label : Bytes) (pk : Bz03PublicKey G H) (r : F) (ikm : Bytes) (ct : Bz03Ciphertext G H)
      → encrypt g g2 p msg label pk r ikm ≡ some ct
      → verify_ciphertext e p ct ≡ ok true
  unfolding seal
  verify_ciphertext-encrypt msg label pk r ikm ct eq =
      let (nonce, n, q) = encrypt-seal msg label pk r ikm ct eq in
      ap (verify_ciphertext e p) q
      ∙ verify_ciphertext_power e p (seal g g2 p msg label pk r ikm nonce) r refl refl

  open_with-seal :
      (msg label : Bytes) (pk : Bz03PublicKey G H) (r : F) (ikm nonce : Bytes)
      → slice 12 (g2.to_bytes (g2.pow pk.y r)) ≡ some nonce
      → open_with g2 p (seal g g2 p msg label pk r ikm nonce) (g2.pow pk.y r) ≡ some (ok msg)
  unfolding open_with seal hash_bytes
  open_with-seal msg label pk r ikm nonce n =
      unseal_masked p (g2.to_bytes (g2.pow pk.y r)) ikm nonce msg n

  -- What is encrypted under the power of the generator by a dealt secret is assembled from shares that
  -- are verified, whoever made them, at least as many as the threshold and with different ids below
  -- the bound.
  pub assemble-verify_share :
      (k n : ℕ) (x : F) (parts : ℕ → F) (pk : Bz03PublicKey G H) (msg label : Bytes) (r : F)
      (ikm : Bytes) (ct : Bz03Ciphertext G H) (shares : List (Bz03DecryptionShare H))
      → IsDealing k x parts
      → pk.y ≡ g2.pow g2.new x
      → pk.verification_key ≡ dealt_keys g parts n
      → encrypt g g2 p msg label pk r ikm ≡ some ct
      → AreIds s.bound (map (λ share. share.id) shares)
      → k ≤ length shares
      → 0 < k
      → Every (λ share. verify_share e share ct pk ≡ some (ok true)) shares
      → assemble g2 p shares ct ≡ some (ok msg)
  unfolding assemble Option.bind seal
  assemble-verify_share k n x parts pk msg label r ikm ct shares dealt ey ev eq a m z h =
      let (nonce, q, ec) = encrypt-seal msg label pk r ikm ct eq in
      ap (λ o. Option.bind o (open_with g2 p ct))
        (interpolate-IsDealing g2 bz03_share k x parts ct.u shares dealt a m z (
          Every-map (λ share. verify_share e share ct pk ≡ some (ok true))
            (λ share. share.get_data ≡ g2.pow ct.u (parts share.id)) shares
            (λ share. verify_share_data e parts n share ct pk ev) h))
      ∙ ap (λ c. open_with g2 p c (g2.pow c.u x)) ec
      ∙ ap (open_with g2 p (seal g g2 p msg label pk r ikm nonce))
          (pow-pow_comm g2 g2.new r x ∙ ap (λ y. g2.pow y r) (sym ey))
      ∙ open_with-seal msg label pk r ikm nonce q
