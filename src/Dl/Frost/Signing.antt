-- ===== src/Dl/Frost/Signing.antt =====
-- src/core/schemes/src/dl_schemes/signatures/frost.rs: shares of a signature, their verification and their
-- assembly.
use quorumcrypt.Algebra.{Scalars, GroupOperations, ◌⊕◌, ◌⊗◌}
use quorumcrypt.Base.{ℕ, zero, suc, Bool, Option, none, some, List, [], ◌∷◌}
use quorumcrypt.Dl.Frost.{
  FrostPublicKey, FrostPrivateKey, PublicCommitment, Nonce, BindingFactor, FrostSignatureShare,
  FrostSignature, FrostHash, CurveOperations, commitment_for_participant,
  participants_from_commitment_list, binding_factor_for_participant, compute_binding_factors,
  compute_challenge,
}
use quorumcrypt.Dl.{verification_key_of}
use quorumcrypt.Errors.{Result, ok, err, ◌>>=◌, SchemeError, id_not_found}
use quorumcrypt.Keys.{Bytes}
use quorumcrypt.Sharing.{lagrange_coeff}
use mathlib.Core.Option

module _ {F : Type 0} ⦃s : Scalars F⦄ where
  -- The loop over the first shares; `shares[i]` panics when there are fewer.
  unfoldable pub sum_shares : ℕ → F → List (FrostSignatureShare F) → Option F
  sum_shares zero z shares = some z
  sum_shares (suc k) z [] = none
  sum_shares (suc k) z (x ∷ shares) = sum_shares k (z ⊕ x.get_share) shares

  unfoldable pub assemble :
      {G : Type 0}
      → G
      → FrostPrivateKey F G
      → List (FrostSignatureShare F)
      → Option (FrostSignature F G)
  assemble group_commitment key shares =
      Option.map (λ z. record { commitment = group_commitment; z = z })
        (sum_shares key.pubkey.k s.nought shares)

module _ {F G : Type 0} ⦃s : Scalars F⦄ {g : GroupOperations F G s}
    (o : CurveOperations F G s g) where
  -- The loop on the commitments that are left.
  unfoldable pub group_commitment_loop :
      G → List (PublicCommitment G) → List (BindingFactor F) → Result SchemeError G
  group_commitment_loop group_commitment [] factors = ok group_commitment
  group_commitment_loop group_commitment (c ∷ cs) factors =
      elim (binding_factor_for_participant factors c.id) [
        | err e ↦ err id_not_found
        | ok b ↦
            group_commitment_loop
              (g.mul (g.mul group_commitment c.hiding_nonce_commitment)
                (g.pow c.binding_nonce_commitment b.factor))
              cs factors
      ]

  unfoldable pub compute_group_commitment :
      List (PublicCommitment G) → List (BindingFactor F) → Result SchemeError G
  unfolding group_commitment_loop
  compute_group_commitment commitment_list factors =
      group_commitment_loop o.identity commitment_list factors

  module _ (p : FrostHash F) where
    unfoldable pub get_group_commitment :
        List (PublicCommitment G) → Bytes → FrostPrivateKey F G → Option (Result SchemeError G)
    get_group_commitment commitment_list message key =
        Option.map (λ (sorted, factors). compute_group_commitment sorted factors)
          (compute_binding_factors g p key.pubkey commitment_list message key.pubkey.group)

    -- The share, from the nonce, the binding factor and the group commitment.
    unfoldable pub make_share :
        Nonce F
        → List (PublicCommitment G)
        → Bytes
        → FrostPrivateKey F G
        → ℕ
        → F
        → G
        → FrostSignatureShare F
    make_share nonce sorted message key node_id factor group_commitment =
        let lambda_i = lagrange_coeff (participants_from_commitment_list sorted) node_id in
        let challenge = compute_challenge g p group_commitment key.pubkey message in
        record {
          id = node_id;
          get_share =
              (nonce.hiding_nonce ⊕ nonce.binding_nonce ⊗ factor) ⊕ (lambda_i ⊗ key.x) ⊗ challenge;
        }

    -- After the binding factors are computed.
    unfoldable pub sign_with_factors :
        Nonce F
        → Bytes
        → FrostPrivateKey F G
        → ℕ
        → List (PublicCommitment G) × List (BindingFactor F)
        → Result SchemeError (FrostSignatureShare F × G)
    unfolding make_share compute_group_commitment
    sign_with_factors nonce message key node_id (sorted, factors) =
        binding_factor_for_participant factors node_id >>= λ b.
        compute_group_commitment sorted factors >>= λ group_commitment.
        ok (make_share nonce sorted message key node_id b.factor group_commitment, group_commitment)

    unfoldable pub partial_sign :
        Nonce F
        → List (PublicCommitment G)
        → Bytes
        → FrostPrivateKey F G
        → ℕ
        → Option (Result SchemeError (FrostSignatureShare F × G))
    unfolding sign_with_factors
    partial_sign nonce commitment_list message key node_id =
        Option.map (sign_with_factors nonce message key node_id)
          (compute_binding_factors g p key.pubkey commitment_list message nonce.group)

    -- Both sides of the comparison.
    unfoldable pub check_share :
        FrostSignatureShare F
        → FrostPublicKey G
        → Bytes
        → List (PublicCommitment G)
        → PublicCommitment G
        → F
        → G
        → Option Bool
    check_share share pubkey message sorted share_commitment factor group_commitment =
        let challenge = compute_challenge g p group_commitment pubkey message in
        let lambda_i = lagrange_coeff (participants_from_commitment_list sorted) share.id in
        Option.map
          (λ hi. o.eq (g.pow g.new share.get_share) (
            g.mul
              (g.mul share_commitment.hiding_nonce_commitment
                (g.pow share_commitment.binding_nonce_commitment factor))
              (g.pow hi (lambda_i ⊗ challenge))))
          (verification_key_of pubkey.h share.id)

    unfoldable pub check_commitment :
        FrostSignatureShare F
        → FrostPublicKey G
        → Bytes
        → List (PublicCommitment G)
        → PublicCommitment G
        → Result SchemeError (BindingFactor F)
        → Result SchemeError G
        → Option (Result SchemeError Bool)
    unfolding check_share
    check_commitment share pubkey message sorted share_commitment (err e) computed = some (err e)
    check_commitment share pubkey message sorted share_commitment (ok b) (err e) = some (err e)
    check_commitment share pubkey message sorted share_commitment (ok b) (ok group_commitment) =
        Option.map ok
          (check_share share pubkey message sorted share_commitment b.factor group_commitment)

    -- For the commitment that is found under the share's id.
    unfoldable pub verify_for :
        FrostSignatureShare F
        → FrostPublicKey G
        → Bytes
        → List (PublicCommitment G)
        → Result SchemeError (PublicCommitment G)
        → Option (Result SchemeError Bool)
    unfolding check_commitment compute_group_commitment
    verify_for share pubkey message commitment_list (err e) = some (err e)
    verify_for share pubkey message commitment_list (ok share_commitment) =
        Option.bind (compute_binding_factors g p pubkey commitment_list message pubkey.group)
          (λ (sorted, factors).
            check_commitment share pubkey message sorted share_commitment
              (binding_factor_for_participant factors share.id)
              (compute_group_commitment sorted factors))

    unfoldable pub verify_share :
        FrostSignatureShare F
        → FrostPublicKey G
        → Bytes
        → List (PublicCommitment G)
        → Option (Result SchemeError Bool)
    unfolding verify_for
    verify_share share pubkey message commitment_list =
        verify_for share pubkey message commitment_list
          (commitment_for_participant commitment_list share.id)

    unfoldable pub verify : FrostSignature F G → FrostPublicKey G → Bytes → Bool
    verify signature pk msg =
        let challenge = compute_challenge g p signature.commitment pk msg in
        o.eq (g.pow g.new signature.z) (g.mul signature.commitment (g.pow pk.y challenge))
