-- ===== src/Dl/Frost/Order.antt =====
-- The order in which commitments come from a hash map, in
-- src/core/schemes/src/dl_schemes/signatures/frost.rs.
use quorumcrypt.Algebra.{Scalars, GroupOperations}
use quorumcrypt.Base.{
  ℕ, ◌==◌, ◌≡◌, ◌≢◌, refl, ap, ◌∙◌, Bool, true, false, List, [], ◌∷◌, leb, arith, if◌then◌else◌,
}
use quorumcrypt.Dl.Frost.Signing.{get_group_commitment, partial_sign, verify_share, verify_for}
use quorumcrypt.Dl.Frost.{
  FrostPublicKey, FrostPrivateKey, PublicCommitment, Nonce, FrostSignatureShare, FrostHash,
  CurveOperations, insert_commitment, sort, commitment_for_participant, compute_binding_factors,
}
use quorumcrypt.Errors.{Result, ok, err, SchemeError}
use quorumcrypt.Keys.{Bytes}
use quorumcrypt.Schemes.{Group}

module _ {G : Type 0} where
  -- Neighbours with different ids are exchanged, any number of times.
  pub data Reordered : List (PublicCommitment G) → List (PublicCommitment G) → Type 0 where
    same : (cs : List (PublicCommitment G)) → Reordered cs cs
    skip :
        {cs ds : List (PublicCommitment G)} (c : PublicCommitment G)
        → Reordered cs ds
        → Reordered (c ∷ cs) (c ∷ ds)
    swap :
        (c d : PublicCommitment G) (cs : List (PublicCommitment G))
        → c.id ≢ d.id
        → Reordered (c ∷ d ∷ cs) (d ∷ c ∷ cs)
    chain :
        {cs ds es : List (PublicCommitment G)} → Reordered cs ds → Reordered ds es → Reordered cs es

  insert_commitment_comm :
      (c d : PublicCommitment G) (cs : List (PublicCommitment G))
      → c.id ≢ d.id
      → insert_commitment c (insert_commitment d cs) ≡ insert_commitment d (insert_commitment c cs)
  unfolding insert_commitment
  insert_commitment_comm c d [] n = ground arith
  insert_commitment_comm c d (e ∷ cs) n = ground (arith, insert_commitment_comm c d cs n)

  pub sort-Reordered_eq : {cs ds : List (PublicCommitment G)} → Reordered cs ds → sort cs ≡ sort ds
  unfolding sort
  sort-Reordered_eq (same cs) = refl
  sort-Reordered_eq (skip c r) = ap (insert_commitment c) (sort-Reordered_eq r)
  sort-Reordered_eq (swap c d cs n) = insert_commitment_comm c d (sort cs) n
  sort-Reordered_eq (chain r t) = sort-Reordered_eq r ∙ sort-Reordered_eq t

  insert_step :
      (c d : PublicCommitment G) (cs : List (PublicCommitment G)) (b : Bool)
      → leb c.id d.id ≡ b
      → Reordered (d ∷ c ∷ cs) (d ∷ insert_commitment c cs)
      → Reordered (c ∷ d ∷ cs) (if b then c ∷ d ∷ cs else d ∷ insert_commitment c cs)
  insert_step c d cs true e r = same _
  insert_step c d cs false e r = chain (swap c d cs (λ q. ground (arith, q))) r

  insert_commitment-Reordered :
      (c : PublicCommitment G) (cs : List (PublicCommitment G))
      → Reordered (c ∷ cs) (insert_commitment c cs)
  unfolding insert_commitment
  insert_commitment-Reordered c [] = same _
  insert_commitment-Reordered c (d ∷ cs) =
      insert_step c d cs (leb c.id d.id) refl (skip d (insert_commitment-Reordered c cs))

  pub sort-Reordered : (cs : List (PublicCommitment G)) → Reordered cs (sort cs)
  unfolding sort
  sort-Reordered [] = same []
  sort-Reordered (c ∷ cs) =
      chain (skip c (sort-Reordered cs)) (insert_commitment-Reordered c (sort cs))

  pub commitment_for_participant-Reordered :
      {cs ds : List (PublicCommitment G)} (i : ℕ)
      → Reordered cs ds
      → commitment_for_participant cs i ≡ commitment_for_participant ds i
  unfolding commitment_for_participant
  commitment_for_participant-Reordered i (same cs) = refl
  commitment_for_participant-Reordered i (skip c r) =
      ap (λ x. if i == c.id then ok c else x) (commitment_for_participant-Reordered i r)
  commitment_for_participant-Reordered i (swap c d cs n) = ground arith
  commitment_for_participant-Reordered i (chain r t) =
      commitment_for_participant-Reordered i r ∙ commitment_for_participant-Reordered i t

module _ {F G : Type 0} ⦃s : Scalars F⦄ {g : GroupOperations F G s} (o : CurveOperations F G s g)
    (p : FrostHash F) where
  compute_binding_factors-Reordered :
      {cs ds : List (PublicCommitment G)} (pk : FrostPublicKey G) (msg : Bytes) (group : Group)
      → Reordered cs ds
      → compute_binding_factors g p pk cs msg group ≡ compute_binding_factors g p pk ds msg group
  unfolding compute_binding_factors
  compute_binding_factors-Reordered pk msg group r = rw (sort-Reordered_eq r) refl

  verify_for-Reordered :
      {cs ds : List (PublicCommitment G)} (share : FrostSignatureShare F) (pk : FrostPublicKey G)
      (msg : Bytes) (found : Result SchemeError (PublicCommitment G))
      → Reordered cs ds
      → verify_for o p share pk msg cs found ≡ verify_for o p share pk msg ds found
  unfolding verify_for
  verify_for-Reordered share pk msg (err e) r = refl
  verify_for-Reordered share pk msg (ok c) r =
      rw (compute_binding_factors-Reordered pk msg pk.group r) refl

  -- Signing, verification and the commitment of the group do not depend on the order in which the
  -- commitments are given, as long as commitments with the same id keep theirs.
  pub partial_sign-Reordered :
      (cs ds : List (PublicCommitment G)) (nonce : Nonce F) (msg : Bytes)
      (key : FrostPrivateKey F G) (node_id : ℕ) (share : FrostSignatureShare F)
      (pk : FrostPublicKey G)
      → Reordered cs ds
      → (partial_sign o p nonce cs msg key node_id ≡ partial_sign o p nonce ds msg key node_id)
        × (verify_share o p share pk msg cs ≡ verify_share o p share pk msg ds)
        × (get_group_commitment o p cs msg key ≡ get_group_commitment o p ds msg key)
  unfolding partial_sign verify_share get_group_commitment
  partial_sign-Reordered cs ds nonce msg key node_id share pk r = (
    rw (compute_binding_factors-Reordered key.pubkey msg nonce.group r) refl,
    rw (commitment_for_participant-Reordered share.id r)
        (verify_for-Reordered share pk msg (commitment_for_participant ds share.id) r),
    rw (compute_binding_factors-Reordered key.pubkey msg key.pubkey.group r) refl,
  )
