-- ===== src/Executor/Returns.antt =====
-- That decryptions, coins and signatures return: the executor of
-- src/core/orchestration/src/instance_manager/protocol_executor.rs with the one-round protocols of
-- src/core/protocols/src, once enough shares have come.
use quorumcrypt.Base.{
  ℕ, String, ◌≡◌, refl, sym, ap, subst, is_some, ◌∙◌, ◌≤◌, true, Option, some, List, [], ◌∷◌, map,
  take, leb, length, arith,
}
use quorumcrypt.Errors.{ok}
use quorumcrypt.Executor.Progress.{run-Concluded, conclude}
use quorumcrypt.Executor.Refine.{run-map_run}
use quorumcrypt.Executor.Shares.{
  lift_outcome, coin_outcome, cipher_collector, cipher_share, cipher-Refines, coin_collector,
  coin_share, coin-Refines,
}
use quorumcrypt.Executor.Shares.Signatures.{
  signature_bytes, signature_collector, signature_share, signature-Refines,
}
use quorumcrypt.Executor.{run}
use quorumcrypt.Keys.{Bytes, PrivateKeyShare, get_public_key, private_threshold}
use quorumcrypt.Message.{NetMessage}
use quorumcrypt.Protocols.Cipher
use quorumcrypt.Protocols.Cipher.{ThresholdCipher, DecryptionMessage, new_message}
use quorumcrypt.Protocols.Coin
use quorumcrypt.Protocols.Coin.{ThresholdCoin, CoinMessage}
use quorumcrypt.Protocols.Collect.{empty, add_own, accept_all, settled}
use quorumcrypt.Protocols.Collect.Prefix.{accept_all-take}
use quorumcrypt.Protocols.Collect.Sound.{HasDistinctIds, Every, Every-map}
use quorumcrypt.Protocols.Signature
use quorumcrypt.Protocols.Signature.{ThresholdSignature, SignatureMessage}
use quorumcrypt.Protocols.{MessageWrapper}

le-leb : (a b : ℕ) → a ≤ b → leb a b ≡ true
le-leb a b h = ground arith

leb-le : (a b : ℕ) → leb a b ≡ true → a ≤ b
leb-le a b h = ground arith

take_all : {A : Type 0} (xs : List A) → take (length xs) xs ≡ xs
take_all [] = refl
take_all (x ∷ xs) = rw (take_all xs) refl

-- The messages by which other servers send their shares to the instance.
abbrev pub shares_inbox :
    {Share Message : Type 0}
    → MessageWrapper Message
    → (Share → Message)
    → String
    → List Share
    → List (Option NetMessage)
shares_inbox w to_message id xs = map (λ x. some (w.wrap (to_message x) id)) xs

module _ {Share Ciphertext : Type 0} (cipher : ThresholdCipher Share Ciphertext) where
  -- The shares that a server holds as valid after it made its own and then handled a list.
  abbrev pub held : PrivateKeyShare → Ciphertext → Share → List Share → List Share
  held key ciphertext own xs =
      (accept_all cipher.get_id
        (λ x. settled (cipher.verify_share x ciphertext (get_public_key key)))
        (add_own cipher.get_id empty own) xs).valid_shares

  -- A decryption of a valid ciphertext ends as soon as the messages of the other servers, with shares
  -- of any quality but none on whose verification the server panics, bring the shares that are held
  -- up to the threshold. It returns what is assembled from the shares held at that moment, and panics
  -- if this assembly does. At least one message is needed.
  pub decryption-returns :
      (w : MessageWrapper (DecryptionMessage Share)) (key : PrivateKeyShare)
      (ciphertext : Ciphertext) (id : String) (own x : Share) (xs : List Share)
      → ((y : Share) → w.unwrap (w.wrap (new_message y) id) ≡ some (ok (new_message y)))
      → cipher.verify_ciphertext ciphertext (get_public_key key) ≡ some (ok true)
      → cipher.partial_decrypt ciphertext key ≡ some (ok own)
      → Every (λ y. is_some (cipher.verify_share y ciphertext (get_public_key key)) ≡ true) (x ∷ xs)
      → private_threshold key ≤ length (held key ciphertext own (x ∷ xs))
      → (n : ℕ) × (private_threshold key ≤ length (held key ciphertext own (take n (x ∷ xs))))
        × ((run
              (Cipher.protocol cipher)
              w
              id
              (Cipher.new cipher key ciphertext id)
              (shares_inbox w new_message id (x ∷ xs))).verdict
            ≡ conclude (
                lift_outcome
                  (cipher.assemble (held key ciphertext own (take n (x ∷ xs))) ciphertext)))
  unfolding Cipher.new new_message
  decryption-returns w key ciphertext id own x xs read valid made armed enough =
      let p = Cipher.new cipher key ciphertext id in
      let e =
        run-map_run (Cipher.protocol cipher) _ (cipher_collector cipher) w (cipher-Refines cipher)
          id p (shares_inbox w new_message id (x ∷ xs)) in
      let (n, m, v) =
        run-Concluded new_message cipher_share w id (cipher_collector cipher p) read (λ y. refl)
          refl own x xs (rw (valid, made) refl) refl armed (le-leb _ _ enough) in
      (n, leb-le _ _ m, ap (λ r. r.verdict) (sym e) ∙ v)

  -- If the servers whose shares come are honest, with shares that verify and ids that differ from
  -- each other and from the server's own, then as many of them as the threshold asks for beside the
  -- server, and at least one, are enough: the run ends with what is assembled from the server's share
  -- and the first of theirs, or in a panic if this assembly panics.
  pub decryption-honest :
      (w : MessageWrapper (DecryptionMessage Share)) (key : PrivateKeyShare)
      (ciphertext : Ciphertext) (id : String) (own x : Share) (xs : List Share)
      → ((y : Share) → w.unwrap (w.wrap (new_message y) id) ≡ some (ok (new_message y)))
      → cipher.verify_ciphertext ciphertext (get_public_key key) ≡ some (ok true)
      → cipher.partial_decrypt ciphertext key ≡ some (ok own)
      → HasDistinctIds cipher.get_id
          (λ y. settled (cipher.verify_share y ciphertext (get_public_key key)))
          (own ∷ x ∷ xs)
      → Every (λ y. cipher.verify_share y ciphertext (get_public_key key) ≡ some (ok true)) (x ∷ xs)
      → private_threshold key ≤ length (own ∷ x ∷ xs)
      → (n : ℕ) × (private_threshold key ≤ length (own ∷ take n (x ∷ xs)))
        × ((run
              (Cipher.protocol cipher)
              w
              id
              (Cipher.new cipher key ciphertext id)
              (shares_inbox w new_message id (x ∷ xs))).verdict
            ≡ conclude (lift_outcome (cipher.assemble (own ∷ take n (x ∷ xs)) ciphertext)))
  decryption-honest w key ciphertext id own x xs read valid made distinct good enough =
      let whole : (n : ℕ) → held key ciphertext own (take n (x ∷ xs)) ≡ own ∷ take n (x ∷ xs) = λ n.
        accept_all-take cipher.get_id _ own n (x ∷ xs) distinct
          (Every-map _ _ (x ∷ xs) (λ y e. ap settled e) good) in
      let all : held key ciphertext own (x ∷ xs) ≡ own ∷ x ∷ xs =
        ap (held key ciphertext own) (sym (take_all (x ∷ xs)))
        ∙ whole (length (x ∷ xs))
        ∙ ap (λ l. own ∷ l) (take_all (x ∷ xs)) in
      let (n, m, v) =
        decryption-returns w key ciphertext id own x xs read valid made
          (Every-map _ _ (x ∷ xs) (λ y e. ap is_some e) good)
          (subst (λ l. private_threshold key ≤ length l) (sym all) enough) in
      (
        n,
        subst (λ l. private_threshold key ≤ length l) (whole n) m,
        v ∙ ap (λ l. conclude (lift_outcome (cipher.assemble l ciphertext))) (whole n),
      )

module _ {Share : Type 0} (scheme : ThresholdCoin Share) where
  -- The shares that a server holds as valid after it made its own and then handled a list.
  abbrev pub held_coins : PrivateKeyShare → Bytes → Share → List Share → List Share
  held_coins key name own xs =
      (accept_all scheme.get_id (λ x. settled (scheme.verify_share x name (get_public_key key)))
        (add_own scheme.get_id empty own) xs).valid_shares

  -- A coin ends as soon as the messages of the other servers, with shares of any quality but none on
  -- whose verification the server panics, bring the shares that are held up to the threshold; at
  -- least one message is needed.
  pub coin-returns :
      (w : MessageWrapper (CoinMessage Share)) (key : PrivateKeyShare) (name : Bytes) (id : String)
      (own x : Share) (xs : List Share)
      → ((y : Share)
          → w.unwrap (w.wrap (CoinMessage.share_message y) id)
            ≡ some (ok (CoinMessage.share_message y)))
      → scheme.create_share name key ≡ some (ok own)
      → Every (λ y. is_some (scheme.verify_share y name (get_public_key key)) ≡ true) (x ∷ xs)
      → private_threshold key ≤ length (held_coins key name own (x ∷ xs))
      → (n : ℕ) × (private_threshold key ≤ length (held_coins key name own (take n (x ∷ xs))))
        × ((run
              (Coin.protocol scheme)
              w
              id
              (Coin.new key name)
              (shares_inbox w CoinMessage.share_message id (x ∷ xs))).verdict
            ≡ conclude (coin_outcome (scheme.assemble (held_coins key name own (take n (x ∷ xs))))))
  unfolding Coin.new
  coin-returns w key name id own x xs read made armed enough =
      let p = Coin.new {Share = Share} key name in
      let e =
        run-map_run (Coin.protocol scheme) _ (coin_collector scheme) w (coin-Refines scheme) id p
          (shares_inbox w CoinMessage.share_message id (x ∷ xs)) in
      let (n, m, v) =
        run-Concluded CoinMessage.share_message coin_share w id (coin_collector scheme p) read
          (λ y. refl) refl own x xs (rw made refl) refl armed (le-leb _ _ enough) in
      (n, leb-le _ _ m, ap (λ r. r.verdict) (sym e) ∙ v)

module _ {Share Sig : Type 0} (scheme : ThresholdSignature Share Sig) where
  -- The shares that a server holds as valid after it made its own and then handled a list.
  abbrev pub held_signatures : PrivateKeyShare → Bytes → Share → List Share → List Share
  held_signatures key message own xs =
      (accept_all scheme.get_id (λ x. settled (scheme.verify_share x message (get_public_key key)))
        (add_own scheme.get_id empty own) xs).valid_shares

  -- A signature ends as soon as the messages of the other servers, with shares of any quality but none
  -- on whose verification the server panics, bring the shares that are held up to the threshold; at
  -- least one message is needed.
  pub signature-returns :
      (w : MessageWrapper (SignatureMessage Share)) (key : PrivateKeyShare) (message label : Bytes)
      (id : String) (own x : Share) (xs : List Share)
      → ((y : Share)
          → w.unwrap (w.wrap (SignatureMessage.share_message y) id)
            ≡ some (ok (SignatureMessage.share_message y)))
      → scheme.partial_sign message label key ≡ some (ok own)
      → Every (λ y. is_some (scheme.verify_share y message (get_public_key key)) ≡ true) (x ∷ xs)
      → private_threshold key ≤ length (held_signatures key message own (x ∷ xs))
      → (n : ℕ) × (private_threshold key
          ≤ length (held_signatures key message own (take n (x ∷ xs))))
        × ((run
              (Signature.protocol scheme)
              w
              id
              (Signature.new scheme key (some message) label)
              (shares_inbox w SignatureMessage.share_message id (x ∷ xs))).verdict
            ≡ conclude (
                signature_bytes scheme (
                  scheme.assemble
                    (held_signatures key message own (take n (x ∷ xs)))
                    message
                    (get_public_key key))))
  unfolding Signature.new
  signature-returns w key message label id own x xs read made armed enough =
      let p = Signature.new scheme key (some message) label in
      let e =
        run-map_run (Signature.protocol scheme) _ (signature_collector scheme) w
          (signature-Refines scheme) id p
          (shares_inbox w SignatureMessage.share_message id (x ∷ xs)) in
      let (n, m, v) =
        run-Concluded SignatureMessage.share_message signature_share w id
          (signature_collector scheme p) read (λ y. refl) refl own x xs (rw made refl) refl armed
          (le-leb _ _ enough) in
      (n, leb-le _ _ m, ap (λ r. r.verdict) (sym e) ∙ v)
