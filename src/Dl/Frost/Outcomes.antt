-- ===== src/Dl/Frost/Outcomes.antt =====
-- What the operations of src/core/schemes/src/dl_schemes/signatures/frost.rs answer, on every branch.
use quorumcrypt.Algebra.{Scalars, GroupOperations}
use quorumcrypt.Base.{
  ℕ, ◌≡◌, ◌≢◌, ◌⊎◌, ℕ_discrete, inl, inr, refl, ap, none, some, List, [], ◌∷◌, map, Has,
}
use quorumcrypt.Dl.Frost.Guards.{
  factor_for, factors_for, prefix_for, binding_factor_for_participant-ok,
  binding_factor_for_participant-err, compute_binding_factors-group, compute_binding_factors-none,
  nonce_generate-none,
}
use quorumcrypt.Dl.Frost.Ids.{ids_of, Has-Reordered, back}
use quorumcrypt.Dl.Frost.Order.{sort-Reordered}
use quorumcrypt.Dl.Frost.Signing.{
  group_commitment_loop, compute_group_commitment, get_group_commitment, partial_sign,
  sign_with_factors, make_share,
}
use quorumcrypt.Dl.Frost.{
  FrostPrivateKey, PublicCommitment, Nonce, FrostSignatureShare, FrostHash, CurveOperations, sort,
  commit,
}
use quorumcrypt.Errors.{ok, err, id_not_found}
use quorumcrypt.Keys.{Bytes}
use quorumcrypt.Schemes.{Group_discrete, ed25519}
use mathlib.Core.Option

module _ {F G : Type 0} ⦃s : Scalars F⦄ {g : GroupOperations F G s} (o : CurveOperations F G s g)
    (p : FrostHash F) where
  -- The product of the commitments and the powers of the binding commitments, after `acc`.
  unfoldable pub commitment_product : G → Bytes → List (PublicCommitment G) → G
  commitment_product acc prefix [] = acc
  commitment_product acc prefix (c ∷ cs) =
      commitment_product
        (g.mul (g.mul acc c.hiding_nonce_commitment)
          (g.pow c.binding_nonce_commitment (factor_for g p prefix c.id)))
        prefix cs

  -- The ids of the first list stand in the second.
  abbrev AllHave : List (PublicCommitment G) → List (PublicCommitment G) → Type 0
  AllHave [] ds = Unit {0}
  AllHave (c ∷ cs) ds = Has c.id (map (λ d. d.id) ds) × AllHave cs ds

  AllHave-cons :
      (cs ds : List (PublicCommitment G)) (d : PublicCommitment G)
      → AllHave cs ds
      → AllHave cs (d ∷ ds)
  AllHave-cons [] ds d h = tt
  AllHave-cons (c ∷ cs) ds d (h, t) = (inr h, AllHave-cons cs ds d t)

  AllHave-self : (cs : List (PublicCommitment G)) → AllHave cs cs
  AllHave-self [] = tt
  AllHave-self (c ∷ cs) = (inl refl, AllHave-cons cs cs c (AllHave-self cs))

  group_commitment_loop_lem :
      (acc : G) (prefix : Bytes) (cs ds : List (PublicCommitment G))
      → AllHave cs ds
      → group_commitment_loop o acc cs (factors_for g p prefix ds)
        ≡ ok (commitment_product acc prefix cs)
  unfolding group_commitment_loop commitment_product
  group_commitment_loop_lem acc prefix [] ds h = refl
  group_commitment_loop_lem acc prefix (c ∷ cs) ds (h, t) =
      rw (binding_factor_for_participant-ok g p prefix ds c.id h, group_commitment_loop)
        (group_commitment_loop_lem
          (g.mul (g.mul acc c.hiding_nonce_commitment)
            (g.pow c.binding_nonce_commitment (factor_for g p prefix c.id)))
          prefix cs ds t)

  -- The binding factors that are computed are enough for the commitment of the group.
  pub compute_group_commitment_lem :
      (prefix : Bytes) (cs : List (PublicCommitment G))
      → compute_group_commitment o cs (factors_for g p prefix cs)
        ≡ ok (commitment_product o.identity prefix cs)
  unfolding compute_group_commitment
  compute_group_commitment_lem prefix cs =
      group_commitment_loop_lem o.identity prefix cs cs (AllHave-self cs)

  -- The commitment of the group that the commitments of a list make, in the order of their ids.
  abbrev pub group_element : FrostPrivateKey F G → List (PublicCommitment G) → Bytes → G
  group_element key cs msg =
      commitment_product o.identity (prefix_for g p key.pubkey cs msg) (sort cs)

  pub get_group_commitment-ed25519 :
      (cs : List (PublicCommitment G)) (msg : Bytes) (key : FrostPrivateKey F G)
      → key.pubkey.group ≡ ed25519
      → get_group_commitment o p cs msg key ≡ some (ok (group_element key cs msg))
  unfolding get_group_commitment
  get_group_commitment-ed25519 cs msg key e =
      rw (compute_binding_factors-group g p key.pubkey cs msg key.pubkey.group e)
        (ap some (compute_group_commitment_lem (prefix_for g p key.pubkey cs msg) (sort cs)))

  pub partial_sign-ok :
      (nonce : Nonce F) (cs : List (PublicCommitment G)) (msg : Bytes) (key : FrostPrivateKey F G)
      (node_id : ℕ)
      → nonce.group ≡ ed25519
      → Has node_id (map (λ c. c.id) (sort cs))
      → partial_sign o p nonce cs msg key node_id
        ≡ some (
            ok (
              make_share o p nonce
                  (sort cs)
                  msg
                  key
                  node_id
                  (factor_for g p (prefix_for g p key.pubkey cs msg) node_id)
                  (group_element key cs msg),
              group_element key cs msg,
            ))
  unfolding partial_sign sign_with_factors
  partial_sign-ok nonce cs msg key node_id e h =
      let prefix = prefix_for g p key.pubkey cs msg in
      rw (compute_binding_factors-group g p key.pubkey cs msg nonce.group e) (
        rw (binding_factor_for_participant-ok g p prefix (sort cs) node_id h)
          (rw (compute_group_commitment_lem prefix (sort cs)) refl))

  partial_sign-err :
      (nonce : Nonce F) (cs : List (PublicCommitment G)) (msg : Bytes) (key : FrostPrivateKey F G)
      (node_id : ℕ)
      → nonce.group ≡ ed25519
      → ¬ Has node_id (map (λ c. c.id) (sort cs))
      → partial_sign o p nonce cs msg key node_id ≡ some (err id_not_found)
  unfolding partial_sign sign_with_factors
  partial_sign-err nonce cs msg key node_id e h =
      rw (compute_binding_factors-group g p key.pubkey cs msg nonce.group e) (
        rw
          (binding_factor_for_participant-err g p (prefix_for g p key.pubkey cs msg) (sort cs)
            node_id h)
          refl)

  -- For a group that is not ed25519, whatever the key and the random bytes, committing, signing and
  -- the commitment of the group panic.
  pub commit_none :
      (key : FrostPrivateKey F G) (hiding_bytes binding_bytes : Bytes) (nonce : Nonce F)
      (cs : List (PublicCommitment G)) (msg : Bytes) (node_id : ℕ)
      → key.pubkey.group ≢ ed25519
      → nonce.group ≡ key.pubkey.group
      → (commit g p key hiding_bytes binding_bytes ≡ none)
        × (partial_sign o p nonce cs msg key node_id ≡ none)
        × (get_group_commitment o p cs msg key ≡ none)
  unfolding commit partial_sign get_group_commitment Option.bind
  commit_none key hiding_bytes binding_bytes nonce cs msg node_id n e = (
    rw (nonce_generate-none g p key.x key.pubkey.group hiding_bytes n) refl,
    rw (e, compute_binding_factors-none g p key.pubkey cs msg key.pubkey.group n) refl,
    rw (compute_binding_factors-none g p key.pubkey cs msg key.pubkey.group n) refl,
  )

  Has-cases : (i : ℕ) (is : List ℕ) → Has i is ⊎ (¬ Has i is)
  Has-cases i [] = inr (λ h. h)
  Has-cases i (j ∷ is) = elim (ℕ_discrete i j) [
    | yes e ↦ inl (inl e)
    | no n ↦ elim (Has-cases i is) [ inl h ↦ inl (inr h) | inr m ↦ inr (λ h. neither n m h) ]
  ]
    where
      neither : i ≢ j → ¬ Has i is → (i ≡ j) ⊎ Has i is → ⊥
      neither n m (inl e) = n e
      neither n m (inr h) = m h

  -- Signing panics for a group that is not ed25519. Otherwise it makes a share with the given id where
  -- the id is that of a commitment, and is refused where it is not.
  pub partial_sign_answers :
      (nonce : Nonce F) (cs : List (PublicCommitment G)) (msg : Bytes) (key : FrostPrivateKey F G)
      (node_id : ℕ)
      → ((nonce.group ≢ ed25519) × (partial_sign o p nonce cs msg key node_id ≡ none))
        ⊎ ((nonce.group ≡ ed25519)
            × Has node_id (ids_of cs)
            × ((share : FrostSignatureShare F) × (gc : G) × (share.id ≡ node_id)
                × (partial_sign o p nonce cs msg key node_id ≡ some (ok (share, gc)))))
        ⊎ ((nonce.group ≡ ed25519)
            × (¬ Has node_id (ids_of cs))
            × (partial_sign o p nonce cs msg key node_id ≡ some (err id_not_found)))
  unfolding partial_sign make_share
  partial_sign_answers nonce cs msg key node_id = elim (Group_discrete nonce.group ed25519) [
    | no n ↦ inl (n, rw (compute_binding_factors-none g p key.pubkey cs msg nonce.group n) refl)
    | yes e ↦ elim (Has-cases node_id (ids_of cs)) [
      | inl h ↦ inr (
          inl (
            e,
            h,
            (
              make_share o p nonce (sort cs) msg key node_id
                  (factor_for g p (prefix_for g p key.pubkey cs msg) node_id)
                  (group_element key cs msg),
              group_element key cs msg,
              refl,
              partial_sign-ok nonce cs msg key node_id e
                  (Has-Reordered node_id (sort-Reordered cs) h),
            ),
          ))
      | inr n ↦ inr (
          inr (
            e,
            n,
            partial_sign-err nonce cs msg key node_id e
                (λ h. n (Has-Reordered node_id (back (sort-Reordered cs)) h)),
          ))
    ]
  ]
