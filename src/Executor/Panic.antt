-- ===== src/Executor/Panic.antt =====
-- A message that ends a run of src/core/orchestration/src/instance_manager/protocol_executor.rs in a panic,
-- with the cipher of src/core/schemes/src/dl_schemes/ciphers/sg02.rs.
use quorumcrypt.Algebra.{Scalars, GroupOperations}
use quorumcrypt.Base.{
  ℕ, String, ◌<◌, ◌≡◌, ◌≢◌, ◌⊎◌, refl, sym, ap, ◌∙◌, inl, inr, true, false, Option, none, some,
  List, [], ◌∷◌, length, Bool-cases, contains, ℕ_discrete, arith,
}
use quorumcrypt.Dl.Sg02.Honest.{verify_share-panic}
use quorumcrypt.Dl.Sg02.{
  Sg02PrivateKey, Sg02Ciphertext, Sg02DecryptionShare, verify_ciphertext, partial_decrypt,
}
use quorumcrypt.Dl.{Primitives}
use quorumcrypt.Errors.{ok}
use quorumcrypt.Executor.Quorum.{RunsSg02}
use quorumcrypt.Executor.{panicked, run, loop}
use quorumcrypt.Keys.{PrivateKeyShare, get_public_key}
use quorumcrypt.Message.{NetMessage}
use quorumcrypt.Protocols.Cipher
use quorumcrypt.Protocols.Cipher.{ThresholdCipher, DecryptionMessage, new_message}
use quorumcrypt.Protocols.Collect.{add_own, empty, try_accept}
use quorumcrypt.Protocols.{RoundProtocol, MessageWrapper}
use mathlib.Core.Option

module _ {P Message : Type 0} (R : RoundProtocol P Message) (w : MessageWrapper Message) where
  run_panic :
      (id : String) (p q : P) (message y : Message) (m : NetMessage)
      (inbox : List (Option NetMessage))
      → R.do_round p ≡ some (q, ok message)
      → w.unwrap m ≡ some (ok y)
      → R.update q y ≡ none
      → (run R w id p (some m ∷ inbox)).verdict ≡ panicked
  unfolding run loop
  run_panic id p q message y m inbox e u n = elim (Bool-cases (w.is_default message)) [
    | inl d ↦ rw (e, d, u, n) refl
    | inr d ↦ rw (e, d, u, n) refl
  ]

module _ {Share Ciphertext : Type 0} (cipher : ThresholdCipher Share Ciphertext)
    (key : PrivateKeyShare) (ct : Ciphertext) (id : String) (own : Share) where
  -- The state after the first round.
  abbrev started_state : Cipher.ThresholdCipherProtocol Share Ciphertext
  started_state = record (Cipher.new cipher key ct id) { shares = add_own cipher.get_id empty own }

  first_round :
      cipher.verify_ciphertext ct (get_public_key key) ≡ some (ok true)
      → cipher.partial_decrypt ct key ≡ some (ok own)
      → (Cipher.protocol cipher).do_round (Cipher.new cipher key ct id)
        ≡ some (started_state, ok (new_message own))
  unfolding Cipher.protocol Cipher.do_round Cipher.new
  first_round valid made = rw (Cipher.do_round, valid, made) refl

  update_panic :
      (x : Share)
      → cipher.get_id x ≢ cipher.get_id own
      → cipher.verify_share x ct (get_public_key key) ≡ none
      → (Cipher.protocol cipher).update started_state (new_message x) ≡ none
  unfolding Cipher.protocol Cipher.update Cipher.new add_own try_accept new_message
  update_panic x n e =
      let fresh : contains ℕ_discrete (cipher.get_id x) (cipher.get_id own ∷ []) ≡ false =
        ground (arith, n) in
      rw (fresh, e) refl

module _ {F G : Type 0} ⦃s : Scalars F⦄ (g : GroupOperations F G s) (p : Primitives F) where
  -- A server whose operations are those of SG02 runs a decryption of a ciphertext that is verified. If
  -- the first message is read as a share whose id is zero or above the number of verification keys,
  -- and is not the server's own, the run panics, whatever the rest of the share is and whatever
  -- messages follow.
  pub decryption-panic :
      (cipher : ThresholdCipher (Sg02DecryptionShare F G) (Sg02Ciphertext F G))
      (w : MessageWrapper (DecryptionMessage (Sg02DecryptionShare F G))) (key : PrivateKeyShare)
      (own : Sg02PrivateKey F G) (si : ℕ → F) (ct : Sg02Ciphertext F G) (id : String)
      (m : NetMessage) (x : Sg02DecryptionShare F G) (inbox : List (Option NetMessage))
      → RunsSg02 g p cipher key own si
      → verify_ciphertext g p ct own.pubkey ≡ true
      → w.unwrap m ≡ some (ok (new_message x))
      → (x.id ≡ 0) ⊎ (length own.pubkey.verification_key < x.id)
      → x.id ≢ own.id
      → (run (Cipher.protocol cipher) w id (Cipher.new cipher key ct id) (some m ∷ inbox)).verdict
        ≡ panicked
  unfolding Cipher.protocol Cipher.new partial_decrypt
  decryption-panic cipher w key own si ct id m x inbox runs valid read out other =
      let mine = partial_decrypt g p ct own (si own.id) in
      let fresh : cipher.get_id x ≢ cipher.get_id mine =
        λ e. other (sym (runs.get_id_eq x) ∙ e ∙ runs.get_id_eq mine) in
      run_panic (Cipher.protocol cipher) w id (Cipher.new cipher key ct id) _ (new_message mine)
        (new_message x) m inbox
        (first_round cipher key ct id mine
          (runs.verify_ciphertext_eq ct ∙ ap (λ b. some (ok b)) valid) (runs.partial_decrypt_eq ct))
        read
        (update_panic cipher key ct id mine x fresh (
          runs.verify_share_eq x ct
          ∙ ap (Option.map ok) ((verify_share-panic g p ct own.pubkey x).1 out)))
