-- ===== src/Executor/Waits.antt =====
-- When a run of src/core/orchestration/src/instance_manager/protocol_executor.rs still waits for
-- messages, and that it is over once it does not.
use quorumcrypt.Base.{
  String, ◌≡◌, ◌≢◌, refl, true, Option, some, List, [], ◌∷◌, ◌++◌, leb, Bool-cases, inl, inr,
}
use quorumcrypt.Errors.{ok}
use quorumcrypt.Executor.{
  waiting, Run, Flow, stop, continue, on_round, on_receive, follow, loop, run, initial_round,
}
use quorumcrypt.Keys.{PrivateKeyShare, get_public_key, private_threshold}
use quorumcrypt.Message.{NetMessage}
use quorumcrypt.Protocols.Cipher
use quorumcrypt.Protocols.Cipher.{ThresholdCipher, DecryptionMessage, new_message}
use quorumcrypt.Protocols.Collect.{add_own, empty}
use quorumcrypt.Protocols.{RoundProtocol, MessageWrapper}

follow_ended :
    {P : Type 0} (f : Flow P) (g h : P → Run P)
    → ((q : P) → (g q).verdict ≢ waiting → h q ≡ g q)
    → (follow f g).verdict ≢ waiting
    → follow f h ≡ follow f g
follow_ended (stop l q v) g h e n = refl
follow_ended (continue l q) g h e n = rw (e q n) refl

module _ {P Message : Type 0} (R : RoundProtocol P Message) (w : MessageWrapper Message) where
  loop_ended :
      (id : String) (p : P) (inbox more : List (Option NetMessage))
      → (loop R w id p inbox).verdict ≢ waiting
      → loop R w id p (inbox ++ more) ≡ loop R w id p inbox
  unfolding loop
  loop_ended id p [] more n = absurd (n refl)
  loop_ended id p (m ∷ inbox) more n =
      follow_ended (on_receive R w id p m) (λ q. loop R w id q inbox)
        (λ q. loop R w id q (inbox ++ more)) (λ q k. loop_ended id q inbox more k) n

  -- A run that no longer waits is over: messages that come after those that ended it change
  -- neither what it sent nor its state nor its verdict.
  pub run_ended :
      (id : String) (p : P) (inbox more : List (Option NetMessage))
      → (run R w id p inbox).verdict ≢ waiting
      → run R w id p (inbox ++ more) ≡ run R w id p inbox
  unfolding run
  run_ended id p inbox more n =
      let first = on_round R w id initial_round p (R.do_round p) in
      let before : P → Run P = λ q. loop R w id q inbox in
      rw
        (follow_ended first before (λ q. loop R w id q (inbox ++ more))
          (λ q k. loop_ended id q inbox more k) n)
        refl

  -- After a first round that succeeds, a run waits for a message.
  run-first :
      (id : String) (p q : P) (message : Message)
      → R.do_round p ≡ some (q, ok message)
      → ((run R w id p []).protocol ≡ q) × ((run R w id p []).verdict ≡ waiting)
  unfolding run loop
  run-first id p q message e = elim (Bool-cases (w.is_default message)) [
    | inl d ↦ rw (e, d) (refl, refl)
    | inr d ↦ rw (e, d) (refl, refl)
  ]

module _ {Share Ciphertext : Type 0} (cipher : ThresholdCipher Share Ciphertext) where
  -- After the round in which it makes its own share, a server waits for a message even if its key's
  -- threshold is at most one, so that the protocol is ready to finalize.
  pub decryption-alone :
      (w : MessageWrapper (DecryptionMessage Share)) (key : PrivateKeyShare)
      (ciphertext : Ciphertext) (id : String) (own : Share)
      → cipher.verify_ciphertext ciphertext (get_public_key key) ≡ some (ok true)
      → cipher.partial_decrypt ciphertext key ≡ some (ok own)
      → leb (private_threshold key) 1 ≡ true
      → (Cipher.is_ready cipher
            (run (Cipher.protocol cipher) w id (Cipher.new cipher key ciphertext id) []).protocol
          ≡ true)
        × ((run (Cipher.protocol cipher) w id (Cipher.new cipher key ciphertext id) []).verdict
            ≡ waiting)
  unfolding Cipher.protocol Cipher.do_round Cipher.new Cipher.is_ready add_own
  decryption-alone w key ciphertext id own valid made one =
      let p = Cipher.new cipher key ciphertext id in
      let q = record p { shares = add_own cipher.get_id empty own } in
      let made_share : (Cipher.protocol cipher).do_round p ≡ some (q, ok (new_message own)) =
        rw (Cipher.do_round, valid, made) refl in
      let (state, waits) =
        run-first (Cipher.protocol cipher) w id p q (new_message own) made_share in
      (rw state one, waits)
