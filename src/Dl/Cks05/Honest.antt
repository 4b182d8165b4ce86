-- ===== src/Dl/Cks05/Honest.antt =====
-- Honest shares of the coin of src/core/schemes/src/dl_schemes/coins/cks05.rs, and its bit.
use quorumcrypt.Algebra.{Scalars, GroupOperations, ◌⊕◌, ◌⊗◌}
use quorumcrypt.Base.{ℕ, ◌%◌, ◌≤◌, ◌≡◌, refl, ap, ◌∙◌, true, some, [], ◌∷◌, arith}
use quorumcrypt.Dl.Bits.{xor_bits, common_ones}
use quorumcrypt.Dl.Cks05.{
  Cks05PrivateKey, Cks05CoinShare, coin_loop, hash_element, h1, hash_bit, make_share, create_share,
  check_share, verify_share, mask,
}
use quorumcrypt.Dl.Proofs.{div-pow_answer}
use quorumcrypt.Dl.{Primitives, verification_key_of}
use quorumcrypt.Keys.{Bytes}
use mathlib.Core.Option

xor_bits_bit : (a b : ℕ) → a ≤ 1 → b ≤ 1 → xor_bits 8 a b ≤ 1
unfolding xor_bits
xor_bits_bit a b ha hb = omega arith

-- A loop that starts with a bit ends with a bit.
coin_loop_bit :
    (bit : ℕ) (bytes masks : Bytes) (coin : ℕ)
    → bit ≤ 1
    → coin_loop bit bytes masks ≡ some coin
    → coin ≤ 1
unfolding coin_loop
coin_loop_bit bit [] masks coin hb e = ground arith
coin_loop_bit bit (x ∷ bytes) [] coin hb e = cc
coin_loop_bit bit (x ∷ bytes) (m ∷ masks) coin hb e =
    coin_loop_bit (xor_bits 8 bit (common_ones 8 x m % 2)) bytes masks coin
      (xor_bits_bit bit (common_ones 8 x m % 2) hb (omega arith)) e

module _ {F G : Type 0} ⦃s : Scalars F⦄ (g : GroupOperations F G s) where
  -- A coin is a bit.
  pub hash_bit_bound : (x : G) (coin : ℕ) → hash_bit g x ≡ some coin → coin ≤ 1
  unfolding hash_bit
  hash_bit_bound x coin e = coin_loop_bit 0 (g.to_bytes x) mask coin (omega arith) e

module _ {F G : Type 0} ⦃s : Scalars F⦄ (g : GroupOperations F G s) (p : Primitives F) where
  check_share-make_share :
      (name : Bytes) (sk : Cks05PrivateKey F G) (t : F)
      → check_share g p (make_share g p name sk t (g.pow g.new sk.xi)) name (g.pow g.new sk.xi)
        ≡ true
  unfolding check_share make_share
  check_share-make_share name sk t =
      let hi = g.pow g.new sk.xi in
      let c_bar = hash_element g p name in
      let ci = g.pow c_bar sk.xi in
      let c = h1 g p g.new hi (g.pow g.new t) c_bar ci (g.pow c_bar t) in
      let e : t ⊕ c ⊗ sk.xi ≡ t ⊕ sk.xi ⊗ c = ap (λ v. t ⊕ v) (s.mul_comm c sk.xi) in
      ap
        (λ w.
          s.equals c
            (h1 g p g.new hi w c_bar ci (g.div (g.pow c_bar (t ⊕ c ⊗ sk.xi)) (g.pow ci c))))
        (div-pow_answer g g.new hi (t ⊕ c ⊗ sk.xi) t sk.xi c e refl)
      ∙ ap (λ w. s.equals c (h1 g p g.new hi (g.pow g.new t) c_bar ci w))
          (div-pow_answer g c_bar ci (t ⊕ c ⊗ sk.xi) t sk.xi c e refl)
      ∙ s.equals_refl c

  -- A private key whose verification key is the power of the generator by its part of the secret
  -- creates a share, and this share is verified.
  pub verify_share-create_share :
      (name : Bytes) (sk : Cks05PrivateKey F G) (t : F)
      → verification_key_of sk.pubkey.verification_key sk.id ≡ some (g.pow g.new sk.xi)
      → (share : Cks05CoinShare F G) × (create_share g p name sk t ≡ some share)
        × (verify_share g p share name sk.pubkey ≡ some true)
  unfolding create_share verify_share make_share
  verify_share-create_share name sk t e = (
    make_share g p name sk t (g.pow g.new sk.xi),
    ap (Option.map (make_share g p name sk t)) e,
    ap (Option.map (check_share g p (make_share g p name sk t (g.pow g.new sk.xi)) name)) e
        ∙ ap some (check_share-make_share name sk t),
  )
