-- ===== src/Tests/Protocols.antt =====
-- Runs of the one-round protocols under the executor: shares are numbers, a share below ten
-- verifies, and what is assembled is the list of the shares.
use quorumcrypt.Base.{
  ℕ, ◌≡◌, refl, ◌≤◌, Bool, true, false, Option, some, List, [], ◌∷◌, map, take, ltb, length, arith,
  contains, ℕ_discrete,
}
use quorumcrypt.Errors.{Result, ok, SchemeError}
use quorumcrypt.Executor.Assembled.{decryption-certified}
use quorumcrypt.Executor.Returns.{held, shares_inbox, decryption-returns, decryption-honest}
use quorumcrypt.Executor.Shares.{lift_outcome}
use quorumcrypt.Executor.Progress.{conclude}
use quorumcrypt.Executor.Trace.{Traced, run-Traced}
use quorumcrypt.Executor.{Output, started, returned, run, loop, advance}
use quorumcrypt.Keys.{PrivateKeyShare, get_public_key, private_threshold, private_inner}
use quorumcrypt.Message.{NetMessage}
use quorumcrypt.Protocols.Cipher
use quorumcrypt.Protocols.Cipher.{ThresholdCipher, DecryptionMessage, new_message}
use quorumcrypt.Protocols.Collect.Order.{accept_all-barred}
use quorumcrypt.Protocols.Collect.Sound.{HasDistinctIds, IsTrusted, Every}
use quorumcrypt.Protocols.Collect.{
  settled, is_verified, add_own, empty, accept, try_accept, accept_all,
}
use quorumcrypt.Protocols.{MessageWrapper, Json, wrap_json, unwrap_json}
use quorumcrypt.Tests.Data.{share}

abbrev pub verify : ℕ → Result SchemeError Bool
verify x = ok (ltb x 10)

abbrev cipher : ThresholdCipher ℕ ℕ
cipher = record {
  get_id = λ x. x;
  verify_ciphertext = λ c k. some (ok true);
  partial_decrypt = λ c k. some (ok 1);
  verify_share = λ x c k. some (verify x);
  assemble = λ xs c. some (ok xs);
}

abbrev decryption_json : Json (DecryptionMessage ℕ)
decryption_json = record {
  print = λ m. elim m [
    | DecryptionMessage.share_message s ↦ s.share ∷ []
    | DecryptionMessage.default ↦ []
  ];
  parse = λ b. elim b [ [] ↦ some DecryptionMessage.default | x ∷ xs ↦ some (new_message x) ];
  is_utf8 = λ b. true;
}

abbrev decryption_wrapper : MessageWrapper (DecryptionMessage ℕ)
decryption_wrapper = Cipher.wrapper decryption_json

abbrev pub server_key : PrivateKeyShare
server_key = share "key"

program : Unit {0}
unfolding ℕ_discrete run loop advance Cipher.protocol Cipher.new Cipher.do_round Cipher.update
    Cipher.finalize Cipher.is_ready is_verified get_public_key private_inner Cipher.wrapper
    wrap_json unwrap_json new_message accept accept_all add_own try_accept
program = tt

-- A share that does not verify, then one that does.
abbrev decryption_inbox : List (Option NetMessage)
decryption_inbox = shares_inbox decryption_wrapper new_message "i" (12 ∷ 3 ∷ [])

decryption_run :
    (run
      (Cipher.protocol cipher)
      decryption_wrapper
      "i"
      (Cipher.new cipher server_key 0 "i")
      decryption_inbox).verdict
    ≡ returned (ok (1 ∷ 3 ∷ []))
unfolding program
decryption_run = refl

decryption_read :
    (y : ℕ)
    → decryption_wrapper.unwrap (decryption_wrapper.wrap (new_message y) "i")
      ≡ some (ok (new_message y))
unfolding program
decryption_read y = refl

abbrev decryption_verify : ℕ → Result SchemeError Bool
decryption_verify x = settled (cipher.verify_share x 0 (get_public_key server_key))

decryption-certified_example :
    (own : ℕ) × (xs : List ℕ) × (cipher.verify_ciphertext 0 (get_public_key server_key)
      ≡ some (ok true))
    × (cipher.partial_decrypt 0 server_key ≡ some (ok own))
    × (private_threshold server_key ≤ length xs)
    × HasDistinctIds cipher.get_id decryption_verify xs
    × Every (IsTrusted cipher.get_id decryption_verify own) xs
    × (cipher.assemble xs 0 ≡ some (ok (1 ∷ 3 ∷ [])))
decryption-certified_example =
    decryption-certified cipher decryption_wrapper server_key 0 "i" decryption_inbox (1 ∷ 3 ∷ [])
      decryption_run

decryption-returns_example :
    (n : ℕ) × (private_threshold server_key
      ≤ length (held cipher server_key 0 1 (take n (12 ∷ 3 ∷ []))))
    × ((run
          (Cipher.protocol cipher)
          decryption_wrapper
          "i"
          (Cipher.new cipher server_key 0 "i")
          decryption_inbox).verdict
        ≡ conclude
            (lift_outcome (cipher.assemble (held cipher server_key 0 1 (take n (12 ∷ 3 ∷ []))) 0)))
unfolding program
decryption-returns_example =
    decryption-returns cipher decryption_wrapper server_key 0 "i" 1 12 (3 ∷ []) decryption_read refl
      refl (refl, (refl, tt)) (omega arith)

decryption-honest_example :
    (n : ℕ) × (private_threshold server_key ≤ length {A = ℕ} (1 ∷ take n (5 ∷ 3 ∷ [])))
    × ((run
          (Cipher.protocol cipher)
          decryption_wrapper
          "i"
          (Cipher.new cipher server_key 0 "i")
          (shares_inbox decryption_wrapper new_message "i" (5 ∷ 3 ∷ []))).verdict
        ≡ conclude (lift_outcome (cipher.assemble (1 ∷ take n (5 ∷ 3 ∷ [])) 0)))
unfolding program
decryption-honest_example =
    decryption-honest cipher decryption_wrapper server_key 0 "i" 1 5 (3 ∷ []) decryption_read refl
      refl (refl, (refl, (refl, tt))) (refl, (refl, tt)) (omega arith)

run-Traced_example :
    (rest : List Output) × ((run
        (Cipher.protocol cipher)
        decryption_wrapper
        "i"
        (Cipher.new cipher server_key 0 "i")
        decryption_inbox).outputs
      ≡ started ∷ rest)
    × Traced
        (run
          (Cipher.protocol cipher)
          decryption_wrapper
          "i"
          (Cipher.new cipher server_key 0 "i")
          decryption_inbox).verdict
        rest
run-Traced_example =
    run-Traced (Cipher.protocol cipher) decryption_wrapper "i" (Cipher.new cipher server_key 0 "i")
      decryption_inbox

verify_12 : is_verified (verify 12) ≡ false
unfolding program
verify_12 = refl

accept_all-barred_example :
    contains ℕ_discrete 12 (
      map
        (λ x. x)
        (accept_all (λ x. x) verify (accept (λ x. x) verify empty 12) (12 ∷ 3 ∷ [])).valid_shares)
    ≡ false
accept_all-barred_example =
    accept_all-barred (λ x. x) verify empty 12 (12 ∷ 3 ∷ []) verify_12 refl refl
