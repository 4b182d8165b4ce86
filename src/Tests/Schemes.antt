-- ===== src/Tests/Schemes.antt =====
-- Runs of the secret sharing, the key generator and the schemes of src/core/schemes/src/dl_schemes, in the
-- field with three elements.
use quorumcrypt.Base.{
  ℕ, ◌<◌, ◌≡◌, ◌↔◌, ◌⊎◌, refl, inl, inr, true, Option, none, some, List, [], ◌∷◌, map, length,
  arith,
}
use quorumcrypt.Dl.Sg02.{
  Sg02PublicKey, Sg02PrivateKey, Sg02Ciphertext, Sg02DecryptionShare, seal, encrypt,
  verify_ciphertext, partial_decrypt, verify_share, assemble,
}
use quorumcrypt.Dl.{zeros, slice}
use quorumcrypt.Errors.{ok}
use quorumcrypt.Dl.Sg02.Decrypt.{verify_ciphertext-panic}
use quorumcrypt.Dl.Sg02.Honest.{verify_share-panic}
use quorumcrypt.Generator.Dispatch.{generate_keys}
use quorumcrypt.Generator.Counted.{HasKeys}
use quorumcrypt.Generator.Guards.{generate_keys-HasKeys}
use quorumcrypt.Schemes.{ThresholdScheme, Group, check_valid_group}
use quorumcrypt.Generator.Quorum.{generate_sg02-decrypt}
use quorumcrypt.Generator.{generate_sg02, deal_keys_checked, number_keys_checked, new_sg02, to_u16}
use quorumcrypt.Protocols.Collect.Sound.{Every}
use quorumcrypt.Sharing.{range_from, shamir_share, share_out, horner_loop}
use quorumcrypt.Tests.Field.{Three, t0, t1, t2, field, group}
use quorumcrypt.Tests.Primitives.{primitives, key_ids, ones, text, one_and_two}
use mathlib.Core.Option

abbrev pub sg02_public : Sg02PublicKey Three
sg02_public = record {
  n = 2;
  k = 2;
  y = t1;
  verification_key = t2 ∷ t0 ∷ [];
  g_bar = t1;
  id = "key";
}

abbrev pub sg02_key : ℕ → Three → Sg02PrivateKey Three Three
sg02_key i xi = record { id = i; xi = xi; pubkey = sg02_public }

abbrev pub sg02_keys : List (Sg02PrivateKey Three Three)
sg02_keys = sg02_key 1 t2 ∷ sg02_key 2 t0 ∷ []

pub sg02_keys_made : generate_sg02 ⦃s = field⦄ group key_ids 2 2 ones t1 ≡ some sg02_keys
unfolding generate_sg02 deal_keys_checked number_keys_checked new_sg02 to_u16 shamir_share share_out
    horner_loop Option.bind
sg02_keys_made = refl

abbrev pub sg02_sealed : Sg02Ciphertext Three Three
sg02_sealed = seal ⦃s = field⦄ group primitives text [] sg02_public t2 [] t1 (2 ∷ zeros 11)

pub text_encrypted :
    encrypt ⦃s = field⦄ group primitives text [] sg02_public t2 [] t1 ≡ some sg02_sealed
unfolding encrypt slice
text_encrypted = refl

generate_sg02-decrypt_example :
    (verify_ciphertext ⦃s = field⦄ group primitives sg02_sealed sg02_public ≡ true)
    × Every
        (λ key.
          verify_share ⦃s = field⦄ group primitives
            (partial_decrypt ⦃s = field⦄ group primitives sg02_sealed key (ones key.id))
            sg02_sealed
            sg02_public
          ≡ some true)
        sg02_keys
    × (assemble ⦃s = field⦄ group primitives
          (map
            (λ key. partial_decrypt ⦃s = field⦄ group primitives sg02_sealed key (ones key.id))
            sg02_keys)
          sg02_sealed
        ≡ some (ok text))
generate_sg02-decrypt_example =
    generate_sg02-decrypt ⦃s = field⦄ group key_ids primitives 1 2 ones t1 sg02_keys (sg02_key 1 t2)
      text [] t2 [] t1 sg02_sealed sg02_keys ones sg02_keys_made (inl refl) text_encrypted
      (inl refl, (inr (inl refl), tt)) one_and_two (omega arith)

verify_ciphertext-panic_example :
    (ct : Sg02Ciphertext Three Three) × (ct.c_k ≡ [])
    × (verify_ciphertext ⦃s = field⦄ group primitives ct sg02_public ≡ true)
    × ((shares : List (Sg02DecryptionShare Three Three))
        → assemble ⦃s = field⦄ group primitives shares ct ≡ none)
verify_ciphertext-panic_example =
    verify_ciphertext-panic ⦃s = field⦄ group primitives sg02_public [] text [] t1 t2 (omega arith)

abbrev foreign_share : Sg02DecryptionShare Three Three
foreign_share = record { id = 3; get_data = t1; label = []; ei = t1; fi = t0 }

verify_share-panic_example :
    (verify_share ⦃s = field⦄ group primitives foreign_share sg02_sealed sg02_public ≡ none)
    ↔ ((foreign_share.id ≡ 0) ⊎ (length sg02_public.verification_key < foreign_share.id))
verify_share-panic_example =
    verify_share-panic ⦃s = field⦄ group primitives sg02_sealed sg02_public foreign_share

-- RSA keys that are only counted.
abbrev rsa_keys : ℕ → ℕ → ℕ → Option (List ℕ)
rsa_keys k n modsize = some (range_from 1 n)

generate_keys-HasKeys_example : HasKeys ⦃s = field⦄ group group key_ids rsa_keys 2 (
    generate_keys ⦃s = field⦄ group group key_ids rsa_keys 2 2 ones t1 ThresholdScheme.bls04
      Group.bn254)
unfolding check_valid_group
generate_keys-HasKeys_example =
    generate_keys-HasKeys ⦃s = field⦄ group group key_ids rsa_keys 2 2 ones t1 ThresholdScheme.bls04
      Group.bn254 (omega arith) (omega arith) (omega arith) (λ e. cc) (inl refl)
