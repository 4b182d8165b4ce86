-- ===== src/Executor/Assembled.antt =====
-- What a plaintext, a coin and a signature are assembled from, when the executor
-- (src/core/orchestration/src/instance_manager/protocol_executor.rs) runs the one-round protocols of
-- src/core/protocols/src.
use quorumcrypt.Base.{
  ℕ, String, ◌≡◌, refl, ap, ◌∙◌, ◌≤◌, Bool, true, false, Option, none, some, List, [], ◌∷◌, leb,
  length, arith,
}
use quorumcrypt.Errors.{Result, ok, err, SchemeError}
use quorumcrypt.Executor.Refine.{run-map_run}
use quorumcrypt.Executor.Safety.{run-Certified_ok}
use quorumcrypt.Executor.Shares.{
  checked_share, lift_outcome, coin_outcome, cipher_collector, cipher_share, cipher-Refines,
  coin_collector, coin_share, coin-Refines,
}
use quorumcrypt.Executor.Shares.Signatures.{
  signature_bytes, signature_collector, signature_share, signature-Refines,
}
use quorumcrypt.Executor.{returned, run}
use quorumcrypt.Keys.{Bytes, PrivateKeyShare, get_public_key, private_threshold}
use quorumcrypt.Message.{NetMessage}
use quorumcrypt.Protocols.Cipher
use quorumcrypt.Protocols.Cipher.{ThresholdCipher, DecryptionMessage, new_message}
use quorumcrypt.Protocols.Coin
use quorumcrypt.Protocols.Coin.{ThresholdCoin, CoinMessage}
use quorumcrypt.Protocols.Collect.{settled}
use quorumcrypt.Protocols.Collect.Sound.{HasDistinctIds, IsTrusted, Every}
use quorumcrypt.Protocols.Signature
use quorumcrypt.Protocols.Signature.{ThresholdSignature, SignatureMessage}
use quorumcrypt.Protocols.{MessageWrapper}

module _ {A : Type 0} where
  lift_outcome-ok :
      (r : Option (Result SchemeError A)) (a : A) → lift_outcome r ≡ some (ok a) → r ≡ some (ok a)
  lift_outcome-ok none a h = ground arith
  lift_outcome-ok (some (ok x)) a h = ground arith
  lift_outcome-ok (some (err e)) a h = ground arith

  checked_share-ok :
      (v : Option (Result SchemeError Bool)) (s : Option (Result SchemeError A)) (own : A)
      → checked_share v s ≡ some (ok own)
      → (v ≡ some (ok true)) × (s ≡ some (ok own))
  checked_share-ok none s own h = ground arith
  checked_share-ok (some (ok true)) s own h = (refl, lift_outcome-ok s own h)
  checked_share-ok (some (ok false)) s own h = ground arith
  checked_share-ok (some (err e)) s own h = ground arith

leb-le : (a b : ℕ) → leb a b ≡ true → a ≤ b
leb-le a b h = ground arith

module _ {Share Ciphertext : Type 0} (cipher : ThresholdCipher Share Ciphertext) where
  -- A decryption that returns a plaintext was run on a ciphertext that was found valid, and the
  -- plaintext was assembled from at least as many shares as the key's threshold, with different
  -- ids, each of them the server's own or verified for this ciphertext, whatever messages came in
  -- whatever order.
  pub decryption-certified :
      (w : MessageWrapper (DecryptionMessage Share)) (key : PrivateKeyShare)
      (ciphertext : Ciphertext) (id : String) (inbox : List (Option NetMessage)) (plaintext : Bytes)
      → (run (Cipher.protocol cipher) w id (Cipher.new cipher key ciphertext id) inbox).verdict
        ≡ returned (ok plaintext)
      → (own : Share) × (xs : List Share) × (cipher.verify_ciphertext ciphertext
            (get_public_key key)
          ≡ some (ok true))
        × (cipher.partial_decrypt ciphertext key ≡ some (ok own))
        × (private_threshold key ≤ length xs)
        × HasDistinctIds cipher.get_id
            (λ x. settled (cipher.verify_share x ciphertext (get_public_key key)))
            xs
        × Every
            (IsTrusted cipher.get_id
              (λ x. settled (cipher.verify_share x ciphertext (get_public_key key)))
              own)
            xs
        × (cipher.assemble xs ciphertext ≡ some (ok plaintext))
  unfolding Cipher.new
  decryption-certified w key ciphertext id inbox plaintext h =
      let p = Cipher.new cipher key ciphertext id in
      let e =
        run-map_run (Cipher.protocol cipher) _ (cipher_collector cipher) w (cipher-Refines cipher)
          id p inbox in
      let (own, o, c) =
        run-Certified_ok new_message cipher_share w id (cipher_collector cipher p) plaintext inbox
          refl (ap (λ r. r.verdict) e ∙ h) in
      let (xs, n, d, t, a) = c in
      let (v, s) = checked_share-ok _ _ own o in
      (own, xs, v, s, leb-le _ _ n, d, t, lift_outcome-ok _ plaintext a)

coin_outcome-ok :
    (r : Option (Result SchemeError ℕ)) (bytes : Bytes)
    → coin_outcome r ≡ some (ok bytes)
    → (value : ℕ) × (r ≡ some (ok value)) × (bytes ≡ value ∷ [])
coin_outcome-ok none bytes h = ground arith
coin_outcome-ok (some (ok value)) bytes h = (value, refl, ground arith)
coin_outcome-ok (some (err e)) bytes h = ground arith

module _ {Share : Type 0} (scheme : ThresholdCoin Share) where
  -- A coin that is returned was assembled from at least as many shares as the key's threshold,
  -- with different ids, each of them the server's own or verified for the coin's name.
  pub coin-certified :
      (w : MessageWrapper (CoinMessage Share)) (key : PrivateKeyShare) (name : Bytes) (id : String)
      (inbox : List (Option NetMessage)) (bytes : Bytes)
      → (run (Coin.protocol scheme) w id (Coin.new key name) inbox).verdict ≡ returned (ok bytes)
      → (own : Share) × (xs : List Share) × (value : ℕ) × (scheme.create_share name key
          ≡ some (ok own))
        × (private_threshold key ≤ length xs)
        × HasDistinctIds scheme.get_id
            (λ x. settled (scheme.verify_share x name (get_public_key key)))
            xs
        × Every
            (IsTrusted scheme.get_id
              (λ x. settled (scheme.verify_share x name (get_public_key key)))
              own)
            xs
        × (scheme.assemble xs ≡ some (ok value))
        × (bytes ≡ value ∷ [])
  unfolding Coin.new
  coin-certified w key name id inbox bytes h =
      let p = Coin.new {Share = Share} key name in
      let e =
        run-map_run (Coin.protocol scheme) _ (coin_collector scheme) w (coin-Refines scheme) id p
          inbox in
      let (own, o, c) =
        run-Certified_ok CoinMessage.share_message coin_share w id (coin_collector scheme p) bytes
          inbox refl (ap (λ r. r.verdict) e ∙ h) in
      let (xs, n, d, t, a) = c in
      let (value, v, b) = coin_outcome-ok _ bytes a in
      (own, xs, value, lift_outcome-ok _ own o, leb-le _ _ n, d, t, v, b)

module _ {Share Sig : Type 0} (scheme : ThresholdSignature Share Sig) where
  signature_bytes-ok :
      (r : Option (Result SchemeError Sig)) (bytes : Bytes)
      → signature_bytes scheme r ≡ some (ok bytes)
      → (sig : Sig) × (r ≡ some (ok sig)) × (scheme.to_bytes sig ≡ ok bytes)
  signature_bytes-ok none bytes h = ground arith
  signature_bytes-ok (some (ok sig)) bytes h = (sig, refl, ground arith)
  signature_bytes-ok (some (err e)) bytes h = ground arith

  -- A signature that is returned was assembled, for the message, from at least as many shares as
  -- the key's threshold, with different ids, each of them the server's own or verified for the
  -- message; what is returned are its bytes.
  pub signature-certified :
      (w : MessageWrapper (SignatureMessage Share)) (key : PrivateKeyShare) (message label : Bytes)
      (id : String) (inbox : List (Option NetMessage)) (bytes : Bytes)
      → (run
          (Signature.protocol scheme)
          w
          id
          (Signature.new scheme key (some message) label)
          inbox).verdict
        ≡ returned (ok bytes)
      → (own : Share) × (xs : List Share) × (sig : Sig) × (scheme.partial_sign message label key
          ≡ some (ok own))
        × (private_threshold key ≤ length xs)
        × HasDistinctIds scheme.get_id
            (λ x. settled (scheme.verify_share x message (get_public_key key)))
            xs
        × Every
            (IsTrusted scheme.get_id
              (λ x. settled (scheme.verify_share x message (get_public_key key)))
              own)
            xs
        × (scheme.assemble xs message (get_public_key key) ≡ some (ok sig))
        × (scheme.to_bytes sig ≡ ok bytes)
  unfolding Signature.new
  signature-certified w key message label id inbox bytes h =
      let p = Signature.new scheme key (some message) label in
      let e =
        run-map_run (Signature.protocol scheme) _ (signature_collector scheme) w
          (signature-Refines scheme) id p inbox in
      let (own, o, c) =
        run-Certified_ok SignatureMessage.share_message signature_share w id
          (signature_collector scheme p) bytes inbox refl (ap (λ r. r.verdict) e ∙ h) in
      let (xs, n, d, t, a) = c in
      let (sig, v, b) = signature_bytes-ok _ bytes a in
      (own, xs, sig, lift_outcome-ok _ own o, leb-le _ _ n, d, t, v, b)
