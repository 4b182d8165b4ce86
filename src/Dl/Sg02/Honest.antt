-- ===== src/Dl/Sg02/Honest.antt =====
-- Honest runs of the cipher of src/core/schemes/src/dl_schemes/ciphers/sg02.rs.
use quorumcrypt.Algebra.{Scalars, GroupOperations, ◌⊕◌, ◌⊗◌}
use quorumcrypt.Base.{◌≡◌, refl, sym, ap, ◌∙◌, true, ◌↔◌, ◌⊎◌, ◌<◌, length, none, some, List}
use quorumcrypt.Dl.Proofs.{div-pow, div-pow_answer}
use quorumcrypt.Dl.Sg02.{
  Sg02PublicKey, Sg02PrivateKey, Sg02Ciphertext, Sg02DecryptionShare, sg02_share, seal, encrypt,
  verify_ciphertext, h, h1, h2, partial_decrypt, check_share, verify_share, assemble, open_with,
}
use quorumcrypt.Dl.Keys.{unseal_masked, verification_key_of-none}
use quorumcrypt.Sharing.{interpolate}
use quorumcrypt.Errors.{ok}
use mathlib.Core.Option
use quorumcrypt.Dl.{Primitives, slice, verification_key_of}
use quorumcrypt.Keys.{Bytes}

module _ {F G : Type 0} ⦃s : Scalars F⦄ (g : GroupOperations F G s) (p : Primitives F) where
  -- A ciphertext whose challenge is the hash of its parts and of the powers by a nonce `t`, and whose
  -- response answers it, is verified, whatever the masked key, the label and the sealed message.
  pub verify_ciphertext-answered :
      (ct : Sg02Ciphertext F G) (pk : Sg02PublicKey G) (r t : F)
      → ct.u ≡ g.pow g.new r
      → ct.u_bar ≡ g.pow pk.g_bar r
      → ct.f ≡ t ⊕ ct.e ⊗ r
      → ct.e ≡ h1 g p ct.c_k ct.label ct.u (g.pow g.new t) ct.u_bar (g.pow pk.g_bar t)
      → verify_ciphertext g p ct pk ≡ true
  unfolding verify_ciphertext
  verify_ciphertext-answered ct pk r t eu eb ef ee =
      let a : ct.f ≡ t ⊕ r ⊗ ct.e = ef ∙ ap (λ v. t ⊕ v) (s.mul_comm ct.e r) in
      ap
        (λ w. s.equals ct.e (
          h1 g p ct.c_k ct.label ct.u w ct.u_bar
            (g.div (g.pow pk.g_bar ct.f) (g.pow ct.u_bar ct.e))))
        (div-pow_answer g g.new ct.u ct.f t r ct.e a eu)
      ∙ ap (λ w_bar. s.equals ct.e (h1 g p ct.c_k ct.label ct.u (g.pow g.new t) ct.u_bar w_bar))
          (div-pow_answer g pk.g_bar ct.u_bar ct.f t r ct.e a eb)
      ∙ ap (s.equals ct.e) (sym ee)
      ∙ s.equals_refl ct.e

  -- A message that is encrypted, with any nonce, is verified.
  verify_ciphertext-seal :
      (msg label : Bytes) (pk : Sg02PublicKey G) (r : F) (ikm : Bytes) (t : F) (nonce : Bytes)
      → verify_ciphertext g p (seal g p msg label pk r ikm t nonce) pk ≡ true
  unfolding seal
  verify_ciphertext-seal msg label pk r ikm t nonce =
      verify_ciphertext-answered (seal g p msg label pk r ikm t nonce) pk r t refl refl refl refl

  pub encrypt-seal :
      (msg label : Bytes) (pk : Sg02PublicKey G) (r : F) (ikm : Bytes) (t : F)
      (ct : Sg02Ciphertext F G)
      → encrypt g p msg label pk r ikm t ≡ some ct
      → (nonce : Bytes) × (slice 12 (g.to_bytes (g.pow pk.y r)) ≡ some nonce)
        × (ct ≡ seal g p msg label pk r ikm t nonce)
  unfolding encrypt
  encrypt-seal msg label pk r ikm t ct eq =
      let (nonce, q, e) =
        (Option.map-eq-some_iff (seal g p msg label pk r ikm t)
            (slice 12 (g.to_bytes (g.pow pk.y r)))).0
          eq in
      (nonce, q, sym e)

  -- A message that is encrypted is verified.
  pub verify_ciphertext-encrypt :
      (msg label : Bytes) (pk : Sg02PublicKey G) (r : F) (ikm : Bytes) (t : F)
      (ct : Sg02Ciphertext F G)
      → encrypt g p msg label pk r ikm t ≡ some ct
      → verify_ciphertext g p ct pk ≡ true
  verify_ciphertext-encrypt msg label pk r ikm t ct eq =
      let (nonce, n, q) = encrypt-seal msg label pk r ikm t ct eq in
      ap (λ c. verify_ciphertext g p c pk) q ∙ verify_ciphertext-seal msg label pk r ikm t nonce

  -- An honest share is verified, for every ciphertext and nonce, when the key under its id is the
  -- power of the generator by its part of the secret.
  pub verify_share-partial_decrypt :
      (ct : Sg02Ciphertext F G) (pk : Sg02PublicKey G) (sk : Sg02PrivateKey F G) (si : F)
      → verification_key_of pk.verification_key sk.id ≡ some (g.pow g.new sk.xi)
      → verify_share g p (partial_decrypt g p ct sk si) ct pk ≡ some true
  unfolding verify_share partial_decrypt
  verify_share-partial_decrypt ct pk sk si e =
      let ei = h2 g p (g.pow ct.u sk.xi) (g.pow ct.u si) (g.pow g.new si) in
      ap (Option.map (check_share g p (partial_decrypt g p ct sk si) ct)) e
      ∙ ap some (
          ap
            (λ w. s.equals ei (
              h2 g p (g.pow ct.u sk.xi) w
                (g.div (g.pow g.new (si ⊕ sk.xi ⊗ ei)) (g.pow (g.pow g.new sk.xi) ei))))
            (div-pow g ct.u si sk.xi ei)
          ∙ ap (λ w. s.equals ei (h2 g p (g.pow ct.u sk.xi) (g.pow ct.u si) w))
              (div-pow g g.new si sk.xi ei)
          ∙ s.equals_refl ei)

  -- A share is not verified but a panic exactly for an id that is zero or above the number of
  -- verification keys.
  pub verify_share-panic :
      (ct : Sg02Ciphertext F G) (pk : Sg02PublicKey G) (share : Sg02DecryptionShare F G)
      → (verify_share g p share ct pk ≡ none)
        ↔ ((share.id ≡ 0) ⊎ (length pk.verification_key < share.id))
  unfolding verify_share
  verify_share-panic ct pk share =
      let f = check_share g p share ct in
      let (a, b) = verification_key_of-none pk.verification_key share.id in
      (λ e. a ((Option.map-eq-none_iff f _).0 e), λ t. (Option.map-eq-none_iff f _).1 (b t))

  open_with-seal :
      (msg label : Bytes) (pk : Sg02PublicKey G) (r : F) (ikm : Bytes) (t : F) (nonce : Bytes)
      → slice 12 (g.to_bytes (g.pow pk.y r)) ≡ some nonce
      → open_with g p (seal g p msg label pk r ikm t nonce) (g.pow pk.y r) ≡ some (ok msg)
  unfolding open_with seal h
  open_with-seal msg label pk r ikm t nonce n =
      unseal_masked p (g.to_bytes (g.pow pk.y r)) ikm nonce msg n

  -- The message that was encrypted is assembled from shares that interpolate to the masking element.
  pub assemble-encrypt :
      (msg label : Bytes) (pk : Sg02PublicKey G) (r : F) (ikm : Bytes) (t : F)
      (ct : Sg02Ciphertext F G) (shares : List (Sg02DecryptionShare F G))
      → encrypt g p msg label pk r ikm t ≡ some ct
      → interpolate g sg02_share shares ≡ some (g.pow pk.y r)
      → assemble g p shares ct ≡ some (ok msg)
  unfolding assemble Option.bind
  assemble-encrypt msg label pk r ikm t ct shares eq e =
      let (nonce, n, q) = encrypt-seal msg label pk r ikm t ct eq in
      ap (λ o. Option.bind o (open_with g p ct)) e
      ∙ ap (λ c. open_with g p c (g.pow pk.y r)) q
      ∙ open_with-seal msg label pk r ikm t nonce n
