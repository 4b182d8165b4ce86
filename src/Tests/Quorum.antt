-- ===== src/Tests/Quorum.antt =====
-- A run of the decryption protocol with SG02 in the field with three elements, by the first of two servers.
use quorumcrypt.Base.{◌≡◌, refl, inl, inr, true, Option, some, [], ◌∷◌, arith}
use mathlib.Core.Option
use quorumcrypt.Dl.Sg02.{
  Sg02Ciphertext, Sg02DecryptionShare, verify_ciphertext, partial_decrypt, verify_share, assemble,
  seal, h, h1,
}
use quorumcrypt.Dl.Bits.{xor}
use quorumcrypt.Dl.{gen_symm_key, hash_residue}
use quorumcrypt.Errors.{ok}
use quorumcrypt.Executor.Quorum.{RunsSg02, shares_of, run-generate_sg02}
use quorumcrypt.Executor.Panic.{decryption-panic}
use quorumcrypt.Executor.Returns.{shares_inbox}
use quorumcrypt.Executor.{panicked, returned, run}
use quorumcrypt.Keys.{Bytes, PrivateKeyShare, private_inner}
use quorumcrypt.Protocols.Cipher
use quorumcrypt.Protocols.Cipher.{ThresholdCipher, DecryptionMessage, new_message}
use quorumcrypt.Protocols.{Json, unwrap_json-wrap_json}
use quorumcrypt.Tests.Data.{share}
use quorumcrypt.Tests.Field.{Three, t0, t1, t2, value, digit, field, group}
use quorumcrypt.Tests.Primitives.{primitives, key_ids, ones, text, one_and_two}
use quorumcrypt.Tests.Schemes.{
  sg02_public, sg02_key, sg02_keys, sg02_keys_made, sg02_sealed, text_encrypted,
}

abbrev Share : Type 0
Share = Sg02DecryptionShare Three Three

abbrev cipher : ThresholdCipher Share (Sg02Ciphertext Three Three)
cipher = record {
  get_id = λ x. x.id;
  verify_ciphertext =
      λ ct key. some (ok (verify_ciphertext ⦃s = field⦄ group primitives ct sg02_public));
  partial_decrypt =
      λ ct key. some (ok (partial_decrypt ⦃s = field⦄ group primitives ct (sg02_key 1 t2) t1));
  verify_share =
      λ x ct key. Option.map ok (verify_share ⦃s = field⦄ group primitives x ct sg02_public);
  assemble = λ xs ct. assemble ⦃s = field⦄ group primitives xs ct;
}

key : PrivateKeyShare
key = share "key"

abbrev print : DecryptionMessage Share → Bytes
print (DecryptionMessage.share_message m) =
    m.share.id ∷ value m.share.get_data ∷ value m.share.ei ∷ value m.share.fi ∷ m.share.label
print DecryptionMessage.default = []

abbrev parse : Bytes → Option (DecryptionMessage Share)
parse (i ∷ d ∷ e ∷ f ∷ label) =
    some (
      new_message
        (record { id = i; get_data = digit d; label = label; ei = digit e; fi = digit f }))
parse _ = some DecryptionMessage.default

abbrev json : Json (DecryptionMessage Share)
json = record { print = print; parse = parse; is_utf8 = λ b. true }

digit-value : (a : Three) → digit (value a) ≡ a
digit-value t0 = refl
digit-value t1 = refl
digit-value t2 = refl

parse-print : (y : Share) → parse (print (new_message y)) ≡ some (new_message y)
unfolding new_message
parse-print y = simp digit-value

share_read :
    (y : Share)
    → (Cipher.wrapper json).unwrap ((Cipher.wrapper json).wrap (new_message y) "i")
      ≡ some (ok (new_message y))
unfolding Cipher.wrapper
share_read y = unwrap_json-wrap_json json (new_message y) "i" refl (parse-print y)

server_runs : RunsSg02 ⦃s = field⦄ group primitives cipher key (sg02_key 1 t2) ones
unfolding private_inner key
server_runs = record {
  get_id_eq = λ x. refl;
  threshold_eq = refl;
  verify_ciphertext_eq = λ ct. refl;
  partial_decrypt_eq = λ ct. refl;
  verify_share_eq = λ x ct. refl;
  assemble_eq = λ xs ct. refl;
}

run-generate_sg02_example :
    (run
      (Cipher.protocol cipher)
      (Cipher.wrapper json)
      "i"
      (Cipher.new cipher key sg02_sealed "i")
      (shares_inbox
        (Cipher.wrapper json)
        new_message
        "i"
        (shares_of ⦃s = field⦄ group primitives ones sg02_sealed (sg02_key 2 t0 ∷ [])))).verdict
    ≡ returned (ok text)
run-generate_sg02_example =
    run-generate_sg02 ⦃s = field⦄ group key_ids primitives cipher (Cipher.wrapper json) key
      (sg02_key 1 t2) ones 1 2 ones t1 sg02_keys text [] t2 [] t1 sg02_sealed "i" (sg02_key 2 t0) []
      share_read server_runs sg02_keys_made (omega arith) text_encrypted
      (inl refl, (inr (inl refl), tt)) one_and_two (omega arith)

-- A share under the id zero.
abbrev nobody : Share
nobody = record { id = 0; get_data = t1; label = []; ei = t0; fi = t2 }

sealed_verified : verify_ciphertext ⦃s = field⦄ group primitives sg02_sealed sg02_public ≡ true
unfolding verify_ciphertext seal h1 hash_residue xor h gen_symm_key
sealed_verified = refl

decryption-panic_example :
    (run
      (Cipher.protocol cipher)
      (Cipher.wrapper json)
      "i"
      (Cipher.new cipher key sg02_sealed "i")
      (some ((Cipher.wrapper json).wrap (new_message nobody) "i") ∷ [])).verdict
    ≡ panicked
decryption-panic_example =
    decryption-panic ⦃s = field⦄ group primitives cipher (Cipher.wrapper json) key (sg02_key 1 t2)
      ones sg02_sealed "i" ((Cipher.wrapper json).wrap (new_message nobody) "i") nobody []
      server_runs sealed_verified (share_read nobody) (inl refl) (λ e. cc)
