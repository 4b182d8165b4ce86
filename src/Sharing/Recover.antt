-- ===== src/Sharing/Recover.antt =====
-- The secret that `shamir_share` of src/core/schemes/src/dl_schemes/common.rs deals is recovered, in
-- the exponent, by `interpolate`.
use quorumcrypt.Algebra.Rings.{add-nought, mul-nought}
use quorumcrypt.Algebra.{Scalars, GroupOperations, ◌⊕◌, ◌⊗◌}
use quorumcrypt.Base.{
  ℕ, zero, suc, ◌+◌, ◌<◌, ◌≤◌, ◌≡◌, refl, sym, ap, subst, ◌∙◌, some, List, [], ◌∷◌, ◌++◌, map,
  length, length-append, length-map, arith,
}
use quorumcrypt.Protocols.Collect.Sound.{Every}
use quorumcrypt.Sharing.Coefficients.{lagrange_coeff-coefficient, coefficient}
use quorumcrypt.Sharing.Horner.{
  IsPolynomial, grow, grow_lem, horner_loop-IsPolynomial, horner_loop-last,
}
use quorumcrypt.Sharing.Interpolation.{at_zero-IsPolynomial}
use quorumcrypt.Sharing.Lagrange.{AreIds, weighted, weighted_congr}
use quorumcrypt.Sharing.{
  DlShare, range_from, draw, horner_loop, share_out, shamir_share, interpolate_loop, interpolate,
  lagrange_coeff,
}

module _ {F : Type 0} ⦃s : Scalars F⦄ where
  -- The values at the ids of a polynomial with `k` coefficients, whose value at zero is `x`.
  pub record IsDealing (k : ℕ) (x : F) (share : ℕ → F) : Type 0 where
    pub polynomial : F → F
    pub degree : IsPolynomial k polynomial
    pub secret : polynomial s.nought ≡ x
    pub values : (j : ℕ) → share j ≡ polynomial (s.new_int j)

  length-draw : (rng : ℕ → F) (i k : ℕ) → length (draw rng i k) ≡ k
  length-draw rng i zero = refl
  length-draw rng i (suc k) = omega (arith, length-draw rng (suc i) k)

  constant-IsPolynomial : (c : F) → IsPolynomial 1 (λ x. c)
  unfolding IsPolynomial
  constant-IsPolynomial c = (c, (λ x. s.nought), (λ x. refl), λ x. sym (add_product c x))
    where
      add_product : (c x : F) → c ⊕ x ⊗ s.nought ≡ c
      add_product c x = ap (λ y. c ⊕ y) (mul-nought x) ∙ add-nought c

  -- The polynomial of a list of coefficients that ends in the secret.
  loop-IsDealing :
      (x c : F) (cs : List F)
      → IsDealing (suc (suc (length cs))) x (λ j. horner_loop (s.new_int j) c (cs ++ (x ∷ [])))
  loop-IsDealing x c cs = record {
    polynomial = λ y. horner_loop y c (cs ++ (x ∷ []));
    degree =
        subst (λ n. IsPolynomial n (λ y. horner_loop y c (cs ++ (x ∷ [])))) (count_lem c cs x)
          (horner_loop-IsPolynomial 1 (λ y. c) (cs ++ (x ∷ [])) (constant-IsPolynomial c));
    secret = horner_loop-last c x cs;
    values = λ j. refl;
  }
    where
      count_lem : (c : F) (cs : List F) (x : F) → grow (cs ++ (x ∷ [])) 1 ≡ suc (suc (length cs))
      count_lem c cs x =
          grow_lem (cs ++ (x ∷ [])) 1 ∙ ap (λ n. n + 1) (length-append cs (x ∷ [])) ∙ omega arith

  single-IsDealing : (x : F) → IsDealing 1 x (λ j. horner_loop (s.new_int j) x [])
  unfolding horner_loop
  single-IsDealing x = record {
    polynomial = λ y. x;
    degree = constant-IsPolynomial x;
    secret = refl;
    values = λ j. refl;
  }

  module _ {G : Type 0} (g : GroupOperations F G s) where
    -- A secret is dealt, for every number of random draws but none, to the ids from one on: each
    -- share is the value of one polynomial whose number of coefficients is the threshold and whose
    -- value at zero is the secret; the verification keys are the powers of the generator.
    pub shamir_share-IsDealing :
        (x : F) (k n : ℕ) (rng : ℕ → F)
        → (share : ℕ → F) × IsDealing (suc k) x share
          × (shamir_share g x (suc k) n rng
              ≡ some (
                map share (range_from 1 n),
                map (λ xi. g.pow g.new xi) (map share (range_from 1 n)),
              ))
    unfolding shamir_share share_out
    shamir_share-IsDealing x zero n rng = (_, single-IsDealing x, refl)
    shamir_share-IsDealing x (suc k) n rng =
        let cs = draw rng 1 k in
        (
          (λ j. horner_loop (s.new_int j) (rng 0) (cs ++ (x ∷ []))),
          subst
              (λ m.
                IsDealing (suc (suc m)) x (λ j. horner_loop (s.new_int j) (rng 0) (cs ++ (x ∷ []))))
              (length-draw rng 1 k) (loop-IsDealing x (rng 0) cs),
          refl,
        )

    module _ {T : Type 0} (d : DlShare T G) where
      power_lem :
          (ids : List ℕ) (u : G) (t : T) (share : ℕ → F)
          → d.get_data t ≡ g.pow u (share (d.get_id t))
          → g.pow (d.get_data t) (lagrange_coeff ids (d.get_id t))
            ≡ g.pow u (share (d.get_id t) ⊗ coefficient ids (d.get_id t))
      power_lem ids u t share e =
          ap (λ v. g.pow v (lagrange_coeff ids (d.get_id t))) e
          ∙ sym (g.pow-mul_mod u (share (d.get_id t)) (lagrange_coeff ids (d.get_id t)))
          ∙ ap (λ c. g.pow u (share (d.get_id t) ⊗ c)) (lagrange_coeff-coefficient ids (d.get_id t))

      interpolate_loop_lem :
          (ids : List ℕ) (u : G) (a : F) (shares : List T) (share : ℕ → F)
          → Every (λ t. d.get_data t ≡ g.pow u (share (d.get_id t))) shares
          → interpolate_loop g d ids (g.pow u a) shares
            ≡ g.pow u (a ⊕ weighted ids (map d.get_id shares) share)
      unfolding interpolate_loop weighted
      interpolate_loop_lem ids u a [] share h = ap (g.pow u) (sym (add-nought a))
      interpolate_loop_lem ids u a (t ∷ shares) share (e, h) =
          let y = share (d.get_id t) in
          let l = coefficient ids (d.get_id t) in
          ap (λ v. interpolate_loop g d ids (g.mul (g.pow u a) v) shares)
            (power_lem ids u t share e)
          ∙ ap (λ v. interpolate_loop g d ids v shares) (sym (g.pow-add u a (y ⊗ l)))
          ∙ interpolate_loop_lem ids u (a ⊕ y ⊗ l) shares share h
          ∙ ap (g.pow u) (s.add_assoc a (y ⊗ l) _)

      -- From at least as many shares as the threshold, with different ids below the bound, whose
      -- data are the powers of one element `u` by the dealt shares, the power of `u` by the secret
      -- is interpolated.
      pub interpolate-IsDealing :
          (k : ℕ) (x : F) (share : ℕ → F) (u : G) (shares : List T)
          → IsDealing k x share
          → AreIds s.bound (map d.get_id shares)
          → k ≤ length shares
          → 0 < k
          → Every (λ t. d.get_data t ≡ g.pow u (share (d.get_id t))) shares
          → interpolate g d shares ≡ some (g.pow u x)
      unfolding interpolate weighted
      interpolate-IsDealing k x share u [] p a n m h = absurd (omega arith)
      interpolate-IsDealing k x share u (t ∷ shares) p a n m (e, h) =
          let ids = map d.get_id (t ∷ shares) in
          ap some (
            ap (λ v. interpolate_loop g d ids v shares) (power_lem ids u t share e)
            ∙ interpolate_loop_lem ids u (share (d.get_id t) ⊗ coefficient ids (d.get_id t)) shares
                share h
            ∙ ap (g.pow u) (
                weighted_congr ids ids ids share (λ i. p.polynomial (s.new_int i)) (λ i. refl)
                  p.values
                ∙ at_zero-IsPolynomial k p.polynomial ids p.degree a (count (t ∷ shares) n)
                ∙ p.secret))
        where
          count : (xs : List T) → k ≤ length xs → k ≤ length (map d.get_id xs)
          count xs n = subst (λ m. k ≤ m) (sym (length-map d.get_id xs)) n

      map_ids :
          {K : Type 0} (f : K → T) (id : K → ℕ) (keys : List K)
          → ((key : K) → d.get_id (f key) ≡ id key)
          → map d.get_id (map f keys) ≡ map id keys
      map_ids f id [] e = refl
      map_ids f id (key ∷ keys) e =
          ap (λ i. i ∷ map d.get_id (map f keys)) (e key)
          ∙ ap (λ is. id key ∷ is) (map_ids f id keys e)

      map_data :
          {K : Type 0} (f : K → T) (id : K → ℕ) (xi : K → F) (share : ℕ → F) (u : G) (keys : List K)
          → ((key : K) → d.get_id (f key) ≡ id key)
          → ((key : K) → d.get_data (f key) ≡ g.pow u (xi key))
          → Every (λ key. xi key ≡ share (id key)) keys
          → Every (λ t. d.get_data t ≡ g.pow u (share (d.get_id t))) (map f keys)
      map_data f id xi share u [] ei ed h = tt
      map_data f id xi share u (key ∷ keys) ei ed (e, h) = (
        ed key ∙ ap (g.pow u) (e ∙ ap share (sym (ei key))),
        map_data f id xi share u keys ei ed h,
      )

      -- The shares that keys of a dealing make of `u` interpolate to the power of `u` by the secret.
      pub interpolate-map :
          {K : Type 0} (f : K → T) (id : K → ℕ) (xi : K → F) (k : ℕ) (x : F) (share : ℕ → F) (u : G)
          (keys : List K)
          → ((key : K) → d.get_id (f key) ≡ id key)
          → ((key : K) → d.get_data (f key) ≡ g.pow u (xi key))
          → IsDealing k x share
          → AreIds s.bound (map id keys)
          → k ≤ length keys
          → 0 < k
          → Every (λ key. xi key ≡ share (id key)) keys
          → interpolate g d (map f keys) ≡ some (g.pow u x)
      interpolate-map f id xi k x share u keys ei ed p a n m h =
          interpolate-IsDealing k x share u (map f keys) p
            (subst (AreIds s.bound) (sym (map_ids f id keys ei)) a)
            (subst (λ l. k ≤ l) (sym (length-map f keys)) n) m
            (map_data f id xi share u keys ei ed h)
