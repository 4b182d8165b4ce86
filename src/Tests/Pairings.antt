-- ===== src/Tests/Pairings.antt =====
-- Runs of src/core/schemes/src/dl_schemes/signatures/bls04.rs and
-- src/core/schemes/src/dl_schemes/ciphers/bz03.rs, in the field with three elements.
use quorumcrypt.Base.{ℕ, ◌≡◌, refl, true, some, List, [], ◌∷◌, arith}
use quorumcrypt.Dl.Bls04.Sign.{verify-assemble, verify-pow}
use quorumcrypt.Dl.Bls04.{
  Bls04PublicKey, Bls04PrivateKey, Bls04SignatureShare, Bls04Signature, hash_element, partial_sign,
}
use quorumcrypt.Dl.Bls04.{
  assemble as bls04_assemble, verify as bls04_verify, verify_share as bls04_verify_share,
}
use quorumcrypt.Dl.Bz03.Decrypt.{assemble-verify_share}
use quorumcrypt.Dl.Bz03.Exact.{verify_ciphertext-pow}
use quorumcrypt.Dl.Bz03.{
  Bz03PublicKey, Bz03DecryptionShare, Bz03Ciphertext, seal, encrypt, verify_ciphertext,
  verify_share, assemble, hash_exponent, hash_bytes,
}
use quorumcrypt.Dl.Bz03.{hash_element as bz03_element}
use quorumcrypt.Dl.Bits.{xor, xor_bits}
use quorumcrypt.Dl.{gen_symm_key, hash_residue, expand_loop, zeros, slice, verification_key_of}
use quorumcrypt.Errors.{ok}
use quorumcrypt.Interface.Mixed.{assemble-scheme}
use quorumcrypt.Interface.{
  Ciphertext, DecryptionShare, ciphertext_scheme, share_scheme, unwrap_enum_vec,
}
use quorumcrypt.Interface.{assemble as wrapped_assemble}
use quorumcrypt.Protocols.Collect.Sound.{Every}
use quorumcrypt.Tests.Field.{Three, t0, t1, t2, field, group, pairing}
use quorumcrypt.Tests.Primitives.{primitives, text, one_and_two, line, line-IsDealing}

abbrev bls04_public : Bls04PublicKey Three
bls04_public = record { n = 2; k = 2; y = t1; verification_key = t2 ∷ t0 ∷ []; id = "key" }

abbrev bls04_key : ℕ → Three → Bls04PrivateKey Three Three
bls04_key i xi = record { id = i; xi = xi; pubkey = bls04_public }

abbrev bls04_shares : List (Bls04SignatureShare Three)
bls04_shares =
    partial_sign ⦃s = field⦄ group primitives text [] (bls04_key 1 t2)
    ∷ partial_sign ⦃s = field⦄ group primitives text [] (bls04_key 2 t0)
    ∷ []

verify-assemble_example :
    (sig : Bls04Signature Three) × (bls04_assemble ⦃s = field⦄ group bls04_shares ≡ some sig)
    × (bls04_verify ⦃s = field⦄ pairing primitives sig bls04_public text ≡ ok true)
unfolding bls04_verify_share verification_key_of hash_element hash_residue expand_loop partial_sign
verify-assemble_example =
    verify-assemble ⦃s = field⦄ pairing primitives 2 2 t1 line bls04_public text bls04_shares
      line-IsDealing refl refl one_and_two (omega arith) (omega arith) (refl, (refl, tt))

abbrev bls04_signed : Bls04Signature Three
bls04_signed = record { sig = t1 }

verify-pow_example :
    bls04_verify ⦃s = field⦄ pairing primitives
      (record {
        sig = group.pow t1 (
            field.mul_mod
              (field.inv_mod (hash_residue primitives text))
              (hash_residue primitives (1 ∷ 2 ∷ [])));
      })
      bls04_public
      (1 ∷ 2 ∷ [])
    ≡ ok true
unfolding bls04_verify hash_element hash_residue expand_loop
verify-pow_example =
    verify-pow ⦃s = field⦄ pairing primitives t1 bls04_public bls04_signed text (1 ∷ 2 ∷ []) refl
      (λ e. cc) refl

abbrev bz03_public : Bz03PublicKey Three Three
bz03_public = record { id = "key"; n = 2; k = 2; y = t1; verification_key = t2 ∷ t0 ∷ [] }

abbrev bz03_sealed : Bz03Ciphertext Three Three
bz03_sealed = seal ⦃s = field⦄ group group primitives text [] bz03_public t2 [] (2 ∷ zeros 11)

bz03_encrypted :
    encrypt ⦃s = field⦄ group group primitives text [] bz03_public t2 [] ≡ some bz03_sealed
unfolding encrypt slice
bz03_encrypted = refl

verify_ciphertext-pow_example :
    verify_ciphertext ⦃s = field⦄ pairing primitives (record bz03_sealed {
      label = text;
      ctxt = [];
      c_k = text;
      hr = group.pow bz03_sealed.hr (
          field.mul_mod
            (field.inv_mod
              (hash_exponent ⦃s = field⦄ group primitives bz03_sealed.u bz03_sealed.c_k))
            (hash_exponent ⦃s = field⦄ group primitives bz03_sealed.u text));
    })
    ≡ ok true
unfolding verify_ciphertext bz03_element hash_exponent seal hash_bytes gen_symm_key xor xor_bits
verify_ciphertext-pow_example =
    verify_ciphertext-pow ⦃s = field⦄ pairing primitives bz03_sealed text [] text (λ e. cc) refl

abbrev bz03_share_of : ℕ → Three → Bz03DecryptionShare Three
bz03_share_of i ui = record { id = i; get_data = ui; label = [] }

assemble-verify_share_example :
    assemble ⦃s = field⦄ group primitives (bz03_share_of 1 t1 ∷ bz03_share_of 2 t0 ∷ []) bz03_sealed
    ≡ some (ok text)
unfolding verify_share verification_key_of seal
assemble-verify_share_example =
    assemble-verify_share ⦃s = field⦄ pairing primitives 2 2 t1 line bz03_public text [] t2 []
      bz03_sealed (bz03_share_of 1 t1 ∷ bz03_share_of 2 t0 ∷ []) line-IsDealing refl refl
      bz03_encrypted one_and_two (omega arith) (omega arith) (refl, (refl, tt))

abbrev wrapped_sealed : Ciphertext Three Three Three
wrapped_sealed = Ciphertext.bz03 bz03_sealed

abbrev wrapped_shares : List (DecryptionShare Three Three Three)
wrapped_shares =
    DecryptionShare.bz03 (bz03_share_of 1 t1) ∷ DecryptionShare.bz03 (bz03_share_of 2 t0) ∷ []

wrapped_assembled :
    wrapped_assemble ⦃s = field⦄ group group primitives wrapped_shares (Ciphertext.bz03 bz03_sealed)
    ≡ some (ok text)
unfolding wrapped_assemble unwrap_enum_vec verify_share verification_key_of seal
wrapped_assembled =
    assemble-verify_share ⦃s = field⦄ pairing primitives 2 2 t1 line bz03_public text [] t2 []
      bz03_sealed (bz03_share_of 1 t1 ∷ bz03_share_of 2 t0 ∷ []) line-IsDealing refl refl
      bz03_encrypted one_and_two (omega arith) (omega arith) (refl, (refl, tt))

assemble-scheme_example :
    Every (λ share. share_scheme share ≡ ciphertext_scheme wrapped_sealed) wrapped_shares
assemble-scheme_example =
    assemble-scheme ⦃s = field⦄ group group primitives wrapped_shares (Ciphertext.bz03 bz03_sealed)
      text wrapped_assembled
