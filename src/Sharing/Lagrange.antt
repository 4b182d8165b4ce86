-- ===== src/Sharing/Lagrange.antt =====
-- Interpolation at zero with the coefficients of src/core/schemes/src/dl_schemes/common.rs.
use quorumcrypt.Algebra.Rings.{ring, add-nought, nought-mul, mul-nought}
use quorumcrypt.Algebra.{Scalars, ◌⊕◌, ◌⊗◌}
use quorumcrypt.Base.{
  ℕ, ◌<◌, ◌==◌, ◌≡◌, ◌≢◌, refl, sym, ap, ◌∙◌, true, false, List, [], ◌∷◌, arith, if_true, if_false,
}
use quorumcrypt.Sharing.Coefficients.{factor, factor_lem, coefficient}

unfoldable pub IsFresh : ℕ → List ℕ → Type 0
IsFresh y [] = Unit {0}
IsFresh y (i ∷ is) = (i ≢ y) × IsFresh y is

differ : (i j : ℕ) → i ≢ j → i == j ≡ false
differ i j h = ground arith

same : (i : ℕ) → i == i ≡ true
same i = ground arith

-- Different ids below a bound.
unfoldable pub AreIds : ℕ → List ℕ → Type 0
unfolding IsFresh
AreIds bound [] = Unit {0}
AreIds bound (i ∷ is) = (i < bound) × IsFresh i is × AreIds bound is

module _ {F : Type 0} ⦃s : Scalars F⦄ where
  -- The sum of the values of `f` at `ys`, with the coefficients of `ids`.
  unfoldable pub weighted : List ℕ → List ℕ → (ℕ → F) → F
  weighted ids [] f = s.nought
  weighted ids (i ∷ ys) f = f i ⊗ coefficient ids i ⊕ weighted ids ys f

  pub weighted_congr :
      (ids js ys : List ℕ) (f g : ℕ → F)
      → ((i : ℕ) → ◌≡◌ {A = F} (coefficient ids i) (coefficient js i))
      → ((i : ℕ) → f i ≡ g i)
      → weighted ids ys f ≡ weighted js ys g
  unfolding weighted
  weighted_congr ids js [] f g h e = refl
  weighted_congr ids js (i ∷ ys) f g h e = rw (h i, e i, weighted_congr ids js ys f g h e) refl

  pub weighted_nought :
      (ids ys : List ℕ) (f : ℕ → F) → ((i : ℕ) → f i ≡ s.nought) → weighted ids ys f ≡ s.nought
  unfolding weighted
  weighted_nought ids [] f e = refl
  weighted_nought ids (i ∷ ys) f e =
      rw (e i, weighted_nought ids ys f e, nought-mul (coefficient ids i)) (s.nought-add s.nought)

  sum_lem : (c x k u v : F) → (c ⊕ x) ⊗ k ⊕ (c ⊗ u ⊕ v) ≡ c ⊗ (k ⊕ u) ⊕ (x ⊗ k ⊕ v)
  sum_lem c x k u v = simp ring

  pub weighted-add :
      (ids ys : List ℕ) (c : F) (f : ℕ → F)
      → weighted ids ys (λ i. c ⊕ f i) ≡ c ⊗ weighted ids ys (λ i. s.one) ⊕ weighted ids ys f
  unfolding weighted
  weighted-add ids [] c f = sym (add-nought _ ∙ mul-nought c)
  weighted-add ids (i ∷ ys) c f =
      ap (λ x. (c ⊕ f i) ⊗ coefficient ids i ⊕ x) (weighted-add ids ys c f)
      ∙ sum_lem c (f i) (coefficient ids i) (weighted ids ys (λ i. s.one)) (weighted ids ys f)
      ∙ ap (λ x. c ⊗ (x ⊕ weighted ids ys (λ i. s.one)) ⊕ weighted ids (i ∷ ys) f)
          (sym (s.one-mul (coefficient ids i)))

  shift_lem :
      (x y w g k : F) → x ⊗ w ⊕ y ≡ y ⊗ w → (x ⊗ g) ⊗ (w ⊗ k) ⊕ y ⊗ (g ⊗ k) ≡ y ⊗ (g ⊗ (w ⊗ k))
  shift_lem x y w g k h =
      (let q : (x ⊗ g) ⊗ (w ⊗ k) ⊕ y ⊗ (g ⊗ k) ≡ (x ⊗ w ⊕ y) ⊗ (g ⊗ k) = simp ring in q)
      ∙ ap (λ z. z ⊗ (g ⊗ k)) h
      ∙ (let q : (y ⊗ w) ⊗ (g ⊗ k) ≡ y ⊗ (g ⊗ (w ⊗ k)) = simp ring in q)

  gather_lem : (a b c d y e : F) → a ⊕ y ⊗ b ≡ y ⊗ e → (c ⊕ a) ⊕ y ⊗ (d ⊕ b) ≡ (c ⊕ y ⊗ d) ⊕ y ⊗ e
  gather_lem a b c d y e h =
      (let q : (c ⊕ a) ⊕ y ⊗ (d ⊕ b) ≡ (c ⊕ y ⊗ d) ⊕ (a ⊕ y ⊗ b) = simp ring in q)
      ∙ ap (λ z. (c ⊕ y ⊗ d) ⊕ z) h

  -- Multiplication of the values by the ids, with an id that is in the coefficients only.
  weighted_shift :
      (y : ℕ) (ids ys : List ℕ) (g : ℕ → F)
      → y < s.bound
      → IsFresh y ys
      → AreIds s.bound ys
      → weighted (y ∷ ids) ys (λ i. s.new_int i ⊗ g i) ⊕ s.new_int y ⊗ weighted ids ys g
        ≡ s.new_int y ⊗ weighted (y ∷ ids) ys g
  unfolding weighted IsFresh AreIds coefficient
  weighted_shift y ids [] g hy fr ar = s.nought-add _
  weighted_shift y ids (i ∷ ys) g hy (n, fr) (hi, _, ar) =
      let k = coefficient ids i in
      let w = factor y i in
      let x = s.new_int i in
      let z = s.new_int y in
      let new_factor : coefficient (y ∷ ids) i ≡ w ⊗ k = if_false (i == y) _ _ (differ i y n) in
      ap
        (λ c.
          ((x ⊗ g i) ⊗ c ⊕ weighted (y ∷ ids) ys (λ i. s.new_int i ⊗ g i))
          ⊕ z ⊗ (g i ⊗ k ⊕ weighted ids ys g))
        new_factor
      ∙ gather_lem _ _ _ _ z _ (weighted_shift y ids ys g hy fr ar)
      ∙ ap (λ v. v ⊕ z ⊗ weighted (y ∷ ids) ys g)
          (shift_lem x z w (g i) k (factor_lem y i hy hi (λ e. n (sym e))))
      ∙ sym (s.mul-add z _ _)
      ∙ ap (λ c. z ⊗ (g i ⊗ c ⊕ weighted (y ∷ ids) ys g)) (sym new_factor)

  -- With an id of its own.
  pub weighted_self :
      (y : ℕ) (ys : List ℕ) (f : ℕ → F)
      → weighted (y ∷ ys) (y ∷ ys) f ≡ f y ⊗ coefficient ys y ⊕ weighted (y ∷ ys) ys f
  unfolding weighted coefficient
  weighted_self y ys f = ap (λ c. f y ⊗ c ⊕ weighted (y ∷ ys) ys f) (if_true (y == y) _ _ (same y))

  -- Interpolation at zero.
  abbrev pub at_zero : List ℕ → (ℕ → F) → F
  at_zero ids f = weighted ids ids f

  pub at_zero_shift :
      (y : ℕ) (ys : List ℕ) (g : ℕ → F)
      → AreIds s.bound (y ∷ ys)
      → at_zero (y ∷ ys) (λ i. s.new_int i ⊗ g i) ⊕ s.new_int y ⊗ at_zero ys g
        ≡ s.new_int y ⊗ at_zero (y ∷ ys) g
  unfolding AreIds
  at_zero_shift y ys g (hy, fr, ar) =
      let z = s.new_int y in
      let k = coefficient ys y in
      ap (λ v. v ⊕ z ⊗ at_zero ys g) (weighted_self y ys (λ i. s.new_int i ⊗ g i))
      ∙ s.add_assoc _ _ _
      ∙ ap (λ v. (z ⊗ g y) ⊗ k ⊕ v) (weighted_shift y ys ys g hy fr ar)
      ∙ (let q : (z ⊗ g y) ⊗ k ⊕ z ⊗ weighted (y ∷ ys) ys g
              ≡ z ⊗ (g y ⊗ k ⊕ weighted (y ∷ ys) ys g) =
            ap (λ v. v ⊕ z ⊗ weighted (y ∷ ys) ys g) (s.mul_assoc z (g y) k)
            ∙ sym (s.mul-add z _ _) in
          q)
      ∙ ap (λ v. z ⊗ v) (sym (weighted_self y ys g))
