-- ===== src/Dl/Frost/Guards.antt =====
-- When the operations of src/core/schemes/src/dl_schemes/signatures/frost.rs panic or fail.
use quorumcrypt.Algebra.{Scalars, GroupOperations}
use quorumcrypt.Base.{
  ℕ, ◌==◌, ◌≡◌, ◌≢◌, inl, inr, refl, sym, ap, ◌∙◌, false, Option, none, some, List, [], ◌∷◌, ◌++◌,
  map, arith, Has, Bool-cases, if_true, if_false,
}
use quorumcrypt.Dl.Frost.{
  FrostPublicKey, PublicCommitment, BindingFactor, FrostHash, get_context_string, unwrap,
  serialize_scalar, ascii, encode_uint16, h1, h4, h5, sort, binding_factor_for_participant,
  binding_factors, compute_binding_factors, encode_group_commitment_list, nonce_generate, h3,
}
use quorumcrypt.Errors.{ok, err, id_not_found}
use quorumcrypt.Keys.{Bytes}
use quorumcrypt.Schemes.{Group, bls12381, bn254, ed25519, rsa512, rsa1024, rsa2048, rsa4096}
use mathlib.Core.Option
use quorumcrypt.Sharing.Coefficients.{eq-of}

module _ {F G : Type 0} ⦃s : Scalars F⦄ (g : GroupOperations F G s) (p : FrostHash F) where
  -- The binding factor for an id, after the prefix of the hash.
  unfoldable pub factor_for : Bytes → ℕ → F
  factor_for prefix i =
      p.from_bytes (
        p.hash512 (ascii "FROST-ED25519-SHA512-v1" ++ (ascii "rho" ++ (prefix ++ encode_uint16 i))))

  abbrev pub factors_for : Bytes → List (PublicCommitment G) → List (BindingFactor F)
  factors_for prefix cs = map (λ c. record { id = c.id; factor = factor_for prefix c.id }) cs

  binding_factors-ed25519 :
      (prefix : Bytes) (cs : List (PublicCommitment G))
      → binding_factors g p prefix ed25519 cs ≡ some (factors_for prefix cs)
  unfolding binding_factors h1 get_context_string Option.bind factor_for
  binding_factors-ed25519 prefix [] = refl
  binding_factors-ed25519 prefix (c ∷ cs) = rw (binding_factors-ed25519 prefix cs) refl

  -- What the hash of a binding factor begins with.
  unfoldable pub prefix_for : FrostPublicKey G → List (PublicCommitment G) → Bytes → Bytes
  prefix_for pk cs msg =
      g.to_bytes pk.y
      ++ (p.hash512 (ascii "FROST-ED25519-SHA512-v1" ++ (ascii "msg" ++ msg))
          ++ p.hash512 (
              ascii "FROST-ED25519-SHA512-v1"
              ++ (ascii "com" ++ encode_group_commitment_list g (sort cs))))

  compute_binding_factors-ed25519 :
      (pk : FrostPublicKey G) (cs : List (PublicCommitment G)) (msg : Bytes)
      → compute_binding_factors g p pk cs msg ed25519
        ≡ some (sort cs, factors_for (prefix_for pk cs msg) (sort cs))
  unfolding compute_binding_factors h4 h5 get_context_string Option.bind prefix_for
  compute_binding_factors-ed25519 pk cs msg =
      ap (Option.map (λ factors. (sort cs, factors)))
        (binding_factors-ed25519 (prefix_for pk cs msg) (sort cs))

  pub compute_binding_factors-group :
      (pk : FrostPublicKey G) (cs : List (PublicCommitment G)) (msg : Bytes) (group : Group)
      → group ≡ ed25519
      → compute_binding_factors g p pk cs msg group
        ≡ some (sort cs, factors_for (prefix_for pk cs msg) (sort cs))
  compute_binding_factors-group pk cs msg group e =
      ap (compute_binding_factors g p pk cs msg) e ∙ compute_binding_factors-ed25519 pk cs msg

  later :
      (j i : ℕ) (cs : List (PublicCommitment G))
      → i == j ≡ false
      → Has i (j ∷ map (λ c. c.id) cs)
      → Has i (map (λ c. c.id) cs)
  later j i cs q (inl e) = absurd (ground arith)
  later j i cs q (inr h) = h

  -- A factor is found exactly for the ids of the commitments.
  pub binding_factor_for_participant-ok :
      (prefix : Bytes) (cs : List (PublicCommitment G)) (i : ℕ)
      → Has i (map (λ c. c.id) cs)
      → binding_factor_for_participant (factors_for prefix cs) i
        ≡ ok (record { id = i; factor = factor_for prefix i })
  unfolding binding_factor_for_participant
  binding_factor_for_participant-ok prefix [] i h = elim h [ ]
  binding_factor_for_participant-ok prefix (c ∷ cs) i h = elim (Bool-cases (i == c.id)) [
    | inl q ↦
        if_true (i == c.id) _ _ q
        ∙ ap (λ j. ok (record { id = j; factor = factor_for prefix j })) (sym (eq-of i c.id q))
    | inr q ↦
        if_false (i == c.id) _ _ q
        ∙ binding_factor_for_participant-ok prefix cs i (later c.id i cs q h)
  ]

  pub binding_factor_for_participant-err :
      (prefix : Bytes) (cs : List (PublicCommitment G)) (i : ℕ)
      → ¬ Has i (map (λ c. c.id) cs)
      → binding_factor_for_participant (factors_for prefix cs) i ≡ err id_not_found
  unfolding binding_factor_for_participant
  binding_factor_for_participant-err prefix [] i h = refl
  binding_factor_for_participant-err prefix (c ∷ cs) i h =
      ground (arith, binding_factor_for_participant-err prefix cs i (λ x. h (inr x)), h)

  pub compute_binding_factors-none :
      (pk : FrostPublicKey G) (cs : List (PublicCommitment G)) (msg : Bytes) (group : Group)
      → group ≢ ed25519
      → compute_binding_factors g p pk cs msg group ≡ none
  unfolding compute_binding_factors h4 get_context_string Option.bind
  compute_binding_factors-none pk cs msg bls12381 n = refl
  compute_binding_factors-none pk cs msg bn254 n = refl
  compute_binding_factors-none pk cs msg ed25519 n = absurd (n refl)
  compute_binding_factors-none pk cs msg rsa512 n = refl
  compute_binding_factors-none pk cs msg rsa1024 n = refl
  compute_binding_factors-none pk cs msg rsa2048 n = refl
  compute_binding_factors-none pk cs msg rsa4096 n = refl

  unwrap_context_none :
      {B : Type 0} (f : Bytes → B) (group : Group)
      → group ≢ ed25519
      → Option.map f (unwrap (get_context_string group)) ≡ none
  unfolding get_context_string
  unwrap_context_none f bls12381 n = refl
  unwrap_context_none f bn254 n = refl
  unwrap_context_none f ed25519 n = absurd (n refl)
  unwrap_context_none f rsa512 n = refl
  unwrap_context_none f rsa1024 n = refl
  unwrap_context_none f rsa2048 n = refl
  unwrap_context_none f rsa4096 n = refl

  pub nonce_generate-none :
      (secret : F) (group : Group) (bytes : Bytes)
      → group ≢ ed25519
      → nonce_generate p secret group bytes ≡ none
  unfolding nonce_generate h3 Option.bind
  nonce_generate-none secret group bytes n = bind_none (serialize_scalar p secret)
    where
      bind_none : (o : Option Bytes) → Option.bind o (λ b. h3 p (bytes ++ b) group) ≡ none
      bind_none none = refl
      bind_none (some b) = unwrap_context_none _ group n
