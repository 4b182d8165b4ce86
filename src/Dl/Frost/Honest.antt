-- ===== src/Dl/Frost/Honest.antt =====
-- Shares that `partial_sign` of src/core/schemes/src/dl_schemes/signatures/frost.rs makes, and what
-- `verify_share` compares.
use quorumcrypt.Algebra.{Scalars, GroupOperations, ◌⊕◌, ◌⊗◌}
use quorumcrypt.Base.{ℕ, ◌≡◌, refl, sym, ap, ◌∙◌, true, some, List}
use quorumcrypt.Dl.Frost.Guards.{
  factor_for, prefix_for, binding_factor_for_participant-ok, compute_binding_factors-group,
}
use quorumcrypt.Dl.Frost.Ids.{ids_of, Has-Reordered, Has-commitment_for_participant}
use quorumcrypt.Dl.Frost.Order.{sort-Reordered}
use quorumcrypt.Dl.Frost.Outcomes.{
  commitment_product, compute_group_commitment_lem, group_element, partial_sign-ok,
}
use quorumcrypt.Dl.Frost.Signing.{
  partial_sign, verify_share, verify_for, check_commitment, check_share, make_share,
}
use quorumcrypt.Dl.Frost.{
  FrostPublicKey, FrostPrivateKey, PublicCommitment, Nonce, FrostSignatureShare, FrostHash,
  CurveOperations, sort, commitment_for_participant, compute_challenge,
}
use quorumcrypt.Dl.{verification_key_of}
use quorumcrypt.Errors.{ok}
use quorumcrypt.Keys.{Bytes}
use quorumcrypt.Schemes.{ed25519}
use quorumcrypt.Sharing.{lagrange_coeff}
use mathlib.Core.Option

module _ {F G : Type 0} ⦃s : Scalars F⦄ {g : GroupOperations F G s} (o : CurveOperations F G s g)
    (p : FrostHash F) where
  -- The challenge of a list of commitments, and the coefficient of an id.
  abbrev pub challenge_of : FrostPublicKey G → List (PublicCommitment G) → Bytes → F
  challenge_of pk cs msg =
      compute_challenge g p (commitment_product o p o.identity (prefix_for g p pk cs msg) (sort cs))
        pk msg

  abbrev pub coefficient_of : List (PublicCommitment G) → ℕ → F
  coefficient_of cs i = lagrange_coeff (ids_of (sort cs)) i

  -- What a share for `c` has to be the power of.
  unfoldable pub expected :
      FrostPublicKey G → List (PublicCommitment G) → Bytes → PublicCommitment G → ℕ → G → G
  expected pk cs msg c i hi =
      g.mul
        (g.mul c.hiding_nonce_commitment
          (g.pow c.binding_nonce_commitment (factor_for g p (prefix_for g p pk cs msg) i)))
        (g.pow hi (coefficient_of cs i ⊗ challenge_of pk cs msg))

  -- A verification with a commitment under the share's id is the comparison of two elements, by the
  -- key under the id.
  pub verify_share_lem :
      (share : FrostSignatureShare F) (pk : FrostPublicKey G) (msg : Bytes)
      (cs : List (PublicCommitment G)) (c : PublicCommitment G)
      → pk.group ≡ ed25519
      → commitment_for_participant cs share.id ≡ ok c
      → verify_share o p share pk msg cs
        ≡ Option.map ok (
            Option.map
              (λ hi. o.eq (g.pow g.new share.get_share) (expected pk cs msg c share.id hi))
              (verification_key_of pk.h share.id))
  unfolding verify_share verify_for check_commitment check_share expected Option.bind
  verify_share_lem share pk msg cs c eg ec =
      let prefix = prefix_for g p pk cs msg in
      let h =
        Has-Reordered share.id (sort-Reordered cs)
          (Has-commitment_for_participant cs share.id c ec) in
      ap (verify_for o p share pk msg cs) ec
      ∙ rw (compute_binding_factors-group g p pk cs msg pk.group eg) (
          rw (binding_factor_for_participant-ok g p prefix (sort cs) share.id h)
            (rw (compute_group_commitment_lem o p prefix (sort cs)) refl))

  response_lem :
      (d e r x l c : F)
      → g.pow g.new ((d ⊕ e ⊗ r) ⊕ (l ⊗ x) ⊗ c)
        ≡ g.mul (g.mul (g.pow g.new d) (g.pow (g.pow g.new e) r)) (g.pow (g.pow g.new x) (l ⊗ c))
  response_lem d e r x l c =
      g.pow-add g.new (d ⊕ e ⊗ r) ((l ⊗ x) ⊗ c)
      ∙ ap (λ v. g.mul v (g.pow g.new ((l ⊗ x) ⊗ c)))
          (g.pow-add g.new d (e ⊗ r) ∙ ap (g.mul (g.pow g.new d)) (g.pow-mul_mod g.new e r))
      ∙ ap (λ v. g.mul (g.mul (g.pow g.new d) (g.pow (g.pow g.new e) r)) (g.pow g.new v))
          (ap (λ v. v ⊗ c) (s.mul_comm l x) ∙ s.mul_assoc x l c)
      ∙ ap (g.mul (g.mul (g.pow g.new d) (g.pow (g.pow g.new e) r))) (g.pow-mul_mod g.new x (l ⊗ c))

  -- A signer whose commitment of its nonce is found under its id, and whose verification key is the
  -- power of the generator by its part of the secret, makes a share, and the share is verified.
  pub verify_share-partial_sign :
      (nonce : Nonce F) (cs : List (PublicCommitment G)) (msg : Bytes) (key : FrostPrivateKey F G)
      (c : PublicCommitment G)
      → nonce.group ≡ ed25519
      → key.pubkey.group ≡ ed25519
      → commitment_for_participant cs key.id ≡ ok c
      → c.hiding_nonce_commitment ≡ g.pow g.new nonce.hiding_nonce
      → c.binding_nonce_commitment ≡ g.pow g.new nonce.binding_nonce
      → verification_key_of key.pubkey.h key.id ≡ some (g.pow g.new key.x)
      → (share : FrostSignatureShare F) × (gc : G) × (partial_sign o p nonce cs msg key key.id
          ≡ some (ok (share, gc)))
        × (verify_share o p share key.pubkey msg cs ≡ some (ok true))
  unfolding make_share expected
  verify_share-partial_sign nonce cs msg key c en ek ec eh eb ev =
      let factor = factor_for g p (prefix_for g p key.pubkey cs msg) key.id in
      let gc = group_element o p key cs msg in
      let share = make_share o p nonce (sort cs) msg key key.id factor gc in
      (
        share,
        gc,
        partial_sign-ok o p nonce cs msg key key.id en (
            Has-Reordered key.id (sort-Reordered cs)
              (Has-commitment_for_participant cs key.id c ec)),
        verify_share_lem share key.pubkey msg cs c ek ec
            ∙ ap
                (λ v. Option.map ok (
                  Option.map
                    (λ hi.
                      o.eq (g.pow g.new share.get_share) (expected key.pubkey cs msg c key.id hi))
                    v))
                ev
            ∙ ap (λ b. some (ok b))
                ((o.eq_iff (g.pow g.new share.get_share)
                    (expected key.pubkey cs msg c key.id (g.pow g.new key.x))).1
                  (response_lem nonce.hiding_nonce nonce.binding_nonce factor key.x
                      (coefficient_of cs key.id) (challenge_of key.pubkey cs msg)
                    ∙ ap
                        (λ v. g.mul (g.mul v (g.pow (g.pow g.new nonce.binding_nonce) factor)) (
                          g.pow (g.pow g.new key.x)
                            (coefficient_of cs key.id ⊗ challenge_of key.pubkey cs msg)))
                        (sym eh)
                    ∙ ap
                        (λ v. g.mul (g.mul c.hiding_nonce_commitment (g.pow v factor)) (
                          g.pow (g.pow g.new key.x)
                            (coefficient_of cs key.id ⊗ challenge_of key.pubkey cs msg)))
                        (sym eb))),
      )
