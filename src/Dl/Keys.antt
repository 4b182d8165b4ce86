-- ===== src/Dl/Keys.antt =====
-- The symmetric keys that are masked, and the verification keys that are dealt.
use quorumcrypt.Algebra.{Scalars, GroupOperations}
use quorumcrypt.Base.{
  ℕ, zero, suc, ◌+◌, ◌<◌, ◌≡◌, ◌↔◌, ◌⊎◌, inl, refl, sym, ap, ◌∙◌, none, some, List, [], ◌∷◌, map,
  length, length-append, arith,
}
use quorumcrypt.Dl.Bits.{AreBytes, AreBytes-append, xor, xor-xor}
use quorumcrypt.Dl.{
  Primitives, gen_symm_key, zeros, verification_key_of, from_slice, slice, unseal, or_mac_failure,
}
use quorumcrypt.Errors.{ok}
use mathlib.Core.Option
use quorumcrypt.Keys.{Bytes}
use quorumcrypt.Sharing.{range_from}

pub length-zeros : (n : ℕ) → length (zeros n) ≡ n
length-zeros zero = refl
length-zeros (suc n) = omega (arith, length-zeros n)

pub zeros-AreBytes : (n : ℕ) → AreBytes (zeros n)
zeros-AreBytes zero = tt
zeros-AreBytes (suc n) = (omega arith, zeros-AreBytes n)

module _ {F : Type 0} (p : Primitives F) where
  pub length-gen_symm_key : (ikm : Bytes) → length (gen_symm_key p ikm) ≡ 32
  unfolding gen_symm_key
  length-gen_symm_key ikm =
      let prk = p.hkdf_extract [] ikm in
      length-append (p.hkdf_expand 16 prk (0 ∷ [])) (zeros 16)
      ∙ ap (λ n. n + 16) (p.length-hkdf_expand 16 prk (0 ∷ []))

  gen_symm_key-AreBytes : (ikm : Bytes) → AreBytes (gen_symm_key p ikm)
  unfolding gen_symm_key
  gen_symm_key-AreBytes ikm =
      AreBytes-append (p.hkdf_expand 16 (p.hkdf_extract [] ikm) (0 ∷ [])) (zeros 16)
        (p.hkdf_expand-AreBytes 16 (p.hkdf_extract [] ikm) (0 ∷ [])) (zeros-AreBytes 16)

  -- A key is unmasked by the hash that masks it.
  pub xor-gen_symm_key :
      (m ikm : Bytes)
      → xor (p.hash256 m) (xor (p.hash256 m) (gen_symm_key p ikm)) ≡ gen_symm_key p ikm
  xor-gen_symm_key m ikm =
      xor-xor (p.hash256 m) (gen_symm_key p ikm)
        (let a = length-gen_symm_key ikm in let b = p.length-hash256 m in omega arith)
        (gen_symm_key-AreBytes ikm)

  pub from_slice-gen_symm_key :
      (ikm : Bytes) → from_slice (gen_symm_key p ikm) ≡ some (gen_symm_key p ikm)
  unfolding from_slice
  from_slice-gen_symm_key ikm = let h = length-gen_symm_key ikm in ground arith

  -- A message sealed under a key that is masked by the hash of `bytes` is opened.
  pub unseal_masked :
      (bytes ikm nonce msg : Bytes)
      → slice 12 bytes ≡ some nonce
      → unseal p
          (from_slice (xor (p.hash256 bytes) (xor (p.hash256 bytes) (gen_symm_key p ikm))))
          (slice 12 bytes)
          (p.encrypt (gen_symm_key p ikm) nonce msg)
        ≡ some (ok msg)
  unfolding unseal or_mac_failure Option.bind
  unseal_masked bytes ikm nonce msg n =
      let key = gen_symm_key p ikm in
      let ctxt = p.encrypt key nonce msg in
      ap (λ k. unseal p (from_slice k) (slice 12 bytes) ctxt) (xor-gen_symm_key bytes ikm)
      ∙ ap (λ k. unseal p k (slice 12 bytes) ctxt) (from_slice-gen_symm_key ikm)
      ∙ ap (λ n. unseal p (some key) n ctxt) n
      ∙ ap (λ m. some (or_mac_failure m)) (p.decrypt-encrypt key nonce msg)

-- The key of a share that is dealt to an id of the range.
pub verification_key_of-map {ℓ} :
    {F : Type 0} {A : Type ℓ} (f : F → A) (parts : ℕ → F) (j n i : ℕ)
    → i < n
    → verification_key_of (map f (map parts (range_from j n))) (suc i) ≡ some (f (parts (j + i)))
unfolding verification_key_of
verification_key_of-map f parts j zero i h = absurd (omega arith)
verification_key_of-map f parts j (suc n) zero h = ap (λ m. some (f (parts m))) (omega arith)
verification_key_of-map f parts j (suc n) (suc i) h =
    verification_key_of-map f parts (suc j) n i (omega arith)
    ∙ ap (λ m. some (f (parts m))) (omega arith)

-- No key is found for zero and above the number of keys.
pub verification_key_of-none {ℓ} :
    {A : Type ℓ} (hs : List A) (i : ℕ)
    → (verification_key_of hs i ≡ none) ↔ ((i ≡ 0) ⊎ (length hs < i))
unfolding verification_key_of
verification_key_of-none [] i = (λ e. ground arith, λ t. refl)
verification_key_of-none (h ∷ hs) zero = (λ e. inl refl, λ t. refl)
verification_key_of-none (h ∷ hs) (suc zero) = (λ e. cc, λ t. ground arith)
verification_key_of-none (h ∷ hs) (suc (suc i)) =
    let (a, b) = verification_key_of-none hs (suc i) in
    (λ e. let t = a e in ground arith, λ t. b (ground arith))

module _ {F G : Type 0} ⦃s : Scalars F⦄ (g : GroupOperations F G s) where
  -- The verification keys of dealt parts.
  abbrev pub dealt_keys : (ℕ → F) → ℕ → List G
  dealt_keys parts n = map (λ xi. g.pow g.new xi) (map parts (range_from 1 n))

  dealt_keys_from :
      (parts : ℕ → F) (j n i : ℕ) (hi : G)
      → verification_key_of (map (λ xi. g.pow g.new xi) (map parts (range_from j n))) (suc i)
        ≡ some hi
      → hi ≡ g.pow g.new (parts (j + i))
  unfolding verification_key_of
  dealt_keys_from parts j zero i hi e = cc
  dealt_keys_from parts j (suc n) zero hi e =
      Option.some-injective hi _ (sym e) ∙ ap (λ m. g.pow g.new (parts m)) (omega arith)
  dealt_keys_from parts j (suc n) (suc i) hi e =
      dealt_keys_from parts (suc j) n i hi e ∙ ap (λ m. g.pow g.new (parts m)) (omega arith)

  -- A key that is found under an id is the power of the generator by the part for the id.
  pub verification_key_of-dealt_keys :
      (parts : ℕ → F) (n i : ℕ) (hi : G)
      → verification_key_of (dealt_keys parts n) i ≡ some hi
      → hi ≡ g.pow g.new (parts i)
  unfolding verification_key_of
  verification_key_of-dealt_keys parts zero i hi e = cc
  verification_key_of-dealt_keys parts (suc n) zero hi e = cc
  verification_key_of-dealt_keys parts (suc n) (suc i) hi e =
      dealt_keys_from parts 1 (suc n) i hi e ∙ ap (λ m. g.pow g.new (parts m)) (omega arith)
