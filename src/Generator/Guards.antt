-- ===== src/Generator/Guards.antt =====
-- What `generate_keys` of src/core/schemes/src/keys/key_generator.rs accepts and refuses.
use quorumcrypt.Algebra.{Scalars, GroupOperations}
use quorumcrypt.Base.{
  ℕ, zero, suc, ◌^◌, ◌≤◌, ◌<◌, ◌≡◌, ◌≢◌, ◌⊎◌, inl, inr, refl, sym, subst, ◌∙◌, true, false, not,
  ◌||◌, Option, some, List, ltb, if_true, if_false, Bool-cases, arith,
}
use quorumcrypt.Errors.{err, SchemeError}
use quorumcrypt.Generator.Dispatch.{generate, generate_keys}
use quorumcrypt.Generator.{KeyIds}
use quorumcrypt.Schemes.{
  ThresholdScheme, Group, bls12381, bn254, ed25519, rsa512, rsa1024, rsa2048, rsa4096, is_dl,
  supports_pairings, check_valid_group,
}
use quorumcrypt.Generator.Counted.{
  guarded, refused, HasKeys, bz03-HasKeys, bls04-HasKeys, cks05-HasKeys, frost-HasKeys,
  sg02-HasKeys,
}

module _ {F G H K : Type 0} ⦃s : Scalars F⦄ (g : GroupOperations F G s) (g2 : GroupOperations F H s)
    (ids : KeyIds G H) (rsa_keys : ℕ → ℕ → ℕ → Option (List K)) where
  frost_curve :
      (group : Group)
      → (check_valid_group ThresholdScheme.frost group ≡ true)
        ⊎ ((ThresholdScheme.frost ≡ ThresholdScheme.frost) × (is_dl group ≡ true))
      → is_dl group ≡ true
  unfolding check_valid_group is_dl
  frost_curve group (inr (e, h)) = h
  frost_curve bls12381 (inl h) = cc
  frost_curve bn254 (inl h) = cc
  frost_curve ed25519 (inl h) = refl
  frost_curve rsa512 (inl h) = cc
  frost_curve rsa1024 (inl h) = cc
  frost_curve rsa2048 (inl h) = cc
  frost_curve rsa4096 (inl h) = cc

  generate-HasKeys :
      (k n : ℕ) (rng : ℕ → F) (g_bar : G) (scheme : ThresholdScheme) (group : Group)
      → n < 2 ^ 16
      → scheme ≢ ThresholdScheme.sh00
      → (check_valid_group scheme group ≡ true)
        ⊎ ((scheme ≡ ThresholdScheme.frost) × (is_dl group ≡ true))
      → HasKeys g g2 ids rsa_keys n (generate g g2 ids rsa_keys (suc k) n rng g_bar scheme group)
  unfolding generate check_valid_group
  generate-HasKeys k n rng g_bar ThresholdScheme.bz03 group b ne v =
      guarded (HasKeys g g2 ids rsa_keys n) (supports_pairings group) _ _ (ground arith) (
        guarded (HasKeys g g2 ids rsa_keys n) (is_dl group) _ _ (ground arith)
          (bz03-HasKeys g g2 ids rsa_keys k n rng))
  generate-HasKeys k n rng g_bar ThresholdScheme.sg02 group b ne v =
      guarded (HasKeys g g2 ids rsa_keys n) (is_dl group) _ _ (ground arith)
        (sg02-HasKeys g g2 ids rsa_keys k n rng g_bar b)
  generate-HasKeys k n rng g_bar ThresholdScheme.bls04 group b ne v =
      guarded (HasKeys g g2 ids rsa_keys n) (supports_pairings group) _ _ (ground arith) (
        guarded (HasKeys g g2 ids rsa_keys n) (is_dl group) _ _ (ground arith)
          (bls04-HasKeys g g2 ids rsa_keys k n rng))
  generate-HasKeys k n rng g_bar ThresholdScheme.cks05 group b ne v =
      guarded (HasKeys g g2 ids rsa_keys n) (is_dl group) _ _ (ground arith)
        (cks05-HasKeys g g2 ids rsa_keys k n rng)
  generate-HasKeys k n rng g_bar ThresholdScheme.frost group b ne v =
      subst (HasKeys g g2 ids rsa_keys n) (sym (if_true (is_dl group) _ _ (frost_curve group v)))
        (frost-HasKeys g g2 ids rsa_keys k n rng group)
  generate-HasKeys k n rng g_bar ThresholdScheme.sh00 group b ne v = absurd (ne refl)

  generate-err :
      (k n : ℕ) (rng : ℕ → F) (g_bar : G) (scheme : ThresholdScheme) (group : Group)
      → check_valid_group scheme group ≡ false
      → scheme ≢ ThresholdScheme.frost
      → (e : SchemeError) × (generate g g2 ids rsa_keys k n rng g_bar scheme group ≡ some (err e))
  unfolding generate check_valid_group
  generate-err k n rng g_bar ThresholdScheme.bz03 group v ne =
      refused (is_dl group) (supports_pairings group) _ _ _ v
  generate-err k n rng g_bar ThresholdScheme.sg02 group v ne =
      (_, if_true (not (is_dl group)) _ _ (ground arith))
  generate-err k n rng g_bar ThresholdScheme.bls04 group v ne =
      refused (is_dl group) (supports_pairings group) _ _ _ v
  generate-err k n rng g_bar ThresholdScheme.cks05 group v ne =
      (_, if_true (not (is_dl group)) _ _ (ground arith))
  generate-err k n rng g_bar ThresholdScheme.frost group v ne = absurd (ne refl)
  generate-err k n rng g_bar ThresholdScheme.sh00 group v ne =
      (_, if_true (is_dl group) _ _ (ground arith))

  -- For a threshold from one to the number of parties, of which there are fewer than 2 ^ 16, for every
  -- scheme but RSA and every group that is valid for it, and for FROST with any group that has a curve,
  -- as many keys as parties are generated.
  pub generate_keys-HasKeys :
      (k n : ℕ) (rng : ℕ → F) (g_bar : G) (scheme : ThresholdScheme) (group : Group)
      → 1 ≤ k
      → k ≤ n
      → n < 2 ^ 16
      → scheme ≢ ThresholdScheme.sh00
      → (check_valid_group scheme group ≡ true)
        ⊎ ((scheme ≡ ThresholdScheme.frost) × (is_dl group ≡ true))
      → HasKeys g g2 ids rsa_keys n (generate_keys g g2 ids rsa_keys k n rng g_bar scheme group)
  unfolding generate_keys
  generate_keys-HasKeys zero n rng g_bar scheme group one le b ne v = absurd (omega arith)
  generate_keys-HasKeys (suc k) n rng g_bar scheme group one le b ne v =
      subst (HasKeys g g2 ids rsa_keys n)
        (sym (if_false (ltb n (suc k) || ltb n 1) _ _ (ground arith)))
        (generate-HasKeys k n rng g_bar scheme group b ne v)

  -- A threshold above the number of parties, no party at all, and a group that is not valid for a
  -- scheme but FROST are refused with an error.
  pub generate_keys-err :
      (k n : ℕ) (rng : ℕ → F) (g_bar : G) (scheme : ThresholdScheme) (group : Group)
      → (n < k)
        ⊎ (n < 1)
        ⊎ ((check_valid_group scheme group ≡ false) × (scheme ≢ ThresholdScheme.frost))
      → (e : SchemeError) × (generate_keys g g2 ids rsa_keys k n rng g_bar scheme group
          ≡ some (err e))
  unfolding generate_keys
  generate_keys-err k n rng g_bar scheme group t = elim (Bool-cases (ltb n k || ltb n 1)) [
    | inl q ↦ (_, if_true (ltb n k || ltb n 1) _ _ q)
    | inr q ↦
        let v : check_valid_group scheme group ≡ false = ground arith in
        let ne : scheme ≢ ThresholdScheme.frost = ground arith in
        let (e, r) = generate-err k n rng g_bar scheme group v ne in
        (e, if_false (ltb n k || ltb n 1) _ _ q ∙ r)
  ]
