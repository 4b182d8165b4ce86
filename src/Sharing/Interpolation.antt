-- ===== src/Sharing/Interpolation.antt =====
-- Polynomials are recovered at zero by the coefficients of src/core/schemes/src/dl_schemes/common.rs.
use quorumcrypt.Algebra.Rings.{
  add-nought, mul-one, cancel_right, cancel_left, nought-mul, add_left_comm, add-mul,
}
use quorumcrypt.Algebra.{Scalars, ◌⊕◌, ◌⊗◌}
use quorumcrypt.Base.{ℕ, zero, suc, ◌≤◌, ◌≡◌, ◌≢◌, refl, sym, ap, ◌∙◌, List, [], ◌∷◌, length, arith}
use quorumcrypt.Sharing.Coefficients.{
  coefficient, coefficient_swap, difference-nonzero, difference-add,
}
use quorumcrypt.Sharing.Horner.{IsPolynomial}
use quorumcrypt.Sharing.Lagrange.{
  IsFresh, AreIds, weighted, weighted_congr, weighted_nought, weighted-add, weighted_self, at_zero,
  at_zero_shift,
}
use quorumcrypt.Sharing.{difference}

AreIds-skip : (b y z : ℕ) (ys : List ℕ) → AreIds b (y ∷ z ∷ ys) → AreIds b (y ∷ ys)
unfolding AreIds IsFresh
AreIds-skip b y z ys (hy, (_, fy), (_, _, a)) = (hy, fy, a)

AreIds-swap : (b y z : ℕ) (ys : List ℕ) → AreIds b (y ∷ z ∷ ys) → AreIds b (z ∷ y ∷ ys)
unfolding AreIds IsFresh
AreIds-swap b y z ys (hy, (n, fy), (hz, fz, a)) = (hz, ((λ e. n (sym e)), fz), (hy, fy, a))

AreIds-tail : (b y : ℕ) (ys : List ℕ) → AreIds b (y ∷ ys) → AreIds b ys
unfolding AreIds
AreIds-tail b y ys (_, _, a) = a

module _ {F : Type 0} ⦃s : Scalars F⦄ where
  weighted_swap :
      (ids : List ℕ) (y z : ℕ) (ys : List ℕ) (f : ℕ → F)
      → weighted ids (y ∷ z ∷ ys) f ≡ weighted ids (z ∷ y ∷ ys) f
  unfolding weighted
  weighted_swap ids y z ys f = add_left_comm _ _ _

  at_zero_swap :
      (y z : ℕ) (ys : List ℕ) (f : ℕ → F) → at_zero (y ∷ z ∷ ys) f ≡ at_zero (z ∷ y ∷ ys) f
  at_zero_swap y z ys f =
      weighted_congr (y ∷ z ∷ ys) (z ∷ y ∷ ys) (y ∷ z ∷ ys) f f (coefficient_swap y z ys)
        (λ i. refl)
      ∙ weighted_swap (z ∷ y ∷ ys) y z ys f

  -- From `m + y = y * a` and `m + z = z * a`.
  unit_lem : (m a y z d : F) → d ⊕ z ≡ y → d ≢ s.nought → m ⊕ y ≡ y ⊗ a → m ⊕ z ≡ z ⊗ a → a ≡ s.one
  unit_lem m a y z d e n hy hz = cancel_left d a n (
      cancel_right (d ⊗ a) d (m ⊕ z) (
        ap (λ v. d ⊗ a ⊕ v) hz
        ∙ sym (add-mul d z a)
        ∙ ap (λ v. v ⊗ a) e
        ∙ sym hy
        ∙ ap (λ v. m ⊕ v) (sym e)
        ∙ add_left_comm m d z))

  AreIds-difference :
      (y z : ℕ) (ys : List ℕ) → AreIds s.bound (y ∷ z ∷ ys) → ◌≢◌ {A = F} (difference y z) s.nought
  unfolding AreIds IsFresh
  AreIds-difference y z ys (hy, (n, _), (hz, _, _)) = difference-nonzero y z hy hz (λ e. n (sym e))

  -- The coefficients add up to one.
  at_zero_one :
      (ys : List ℕ) (y : ℕ) → AreIds s.bound (y ∷ ys) → at_zero (y ∷ ys) (λ i. s.one) ≡ s.one
  unfolding weighted coefficient
  at_zero_one [] y a = weighted_self y [] (λ i. s.one) ∙ add-nought _ ∙ s.one-mul s.one
  at_zero_one (z ∷ ys) y a =
      let step : (u v : ℕ)
          → AreIds s.bound (u ∷ v ∷ ys)
          → at_zero (v ∷ ys) (λ i. s.one) ≡ s.one
          → at_zero (u ∷ v ∷ ys) (λ i. s.new_int i ⊗ s.one) ⊕ s.new_int u
            ≡ s.new_int u ⊗ at_zero (u ∷ v ∷ ys) (λ i. s.one) =
        λ u v b one_v.
          ap (λ x. at_zero (u ∷ v ∷ ys) (λ i. s.new_int i ⊗ s.one) ⊕ x)
            (sym (mul-one (s.new_int u)) ∙ ap (λ x. s.new_int u ⊗ x) (sym one_v))
          ∙ at_zero_shift u (v ∷ ys) (λ i. s.one) b in
      unit_lem (at_zero (y ∷ z ∷ ys) (λ i. s.new_int i ⊗ s.one)) _ (s.new_int y) (s.new_int z)
        (difference y z) (difference-add y z) (AreIds-difference y z ys a)
        (step y z a (at_zero_one ys z (AreIds-tail s.bound y (z ∷ ys) a)))
        (ap (λ x. x ⊕ s.new_int z) (at_zero_swap y z ys (λ i. s.new_int i ⊗ s.one))
          ∙ step z y (AreIds-swap s.bound y z ys a)
              (at_zero_one ys y (AreIds-skip s.bound y z ys a))
          ∙ ap (λ x. s.new_int z ⊗ x) (at_zero_swap z y ys (λ i. s.one)))

  -- A polynomial with at most as many coefficients as there are ids has at zero the value that is
  -- interpolated from its values at the ids.
  pub at_zero-IsPolynomial :
      (n : ℕ) (f : F → F) (ids : List ℕ)
      → IsPolynomial n f
      → AreIds s.bound ids
      → n ≤ length ids
      → at_zero ids (λ i. f (s.new_int i)) ≡ f s.nought
  unfolding IsPolynomial
  at_zero-IsPolynomial zero f ids p a h =
      weighted_nought ids ids (λ i. f (s.new_int i)) (λ i. p (s.new_int i)) ∙ sym (p s.nought)
  at_zero-IsPolynomial (suc n) f [] p a h = absurd (omega arith)
  at_zero-IsPolynomial (suc n) f (y ∷ ys) (c, g, p, e) a h =
      let ids = y ∷ ys in
      let above = at_zero-IsPolynomial n g ids p a (omega arith) in
      let below = at_zero-IsPolynomial n g ys p (AreIds-tail s.bound y ys a) (omega arith) in
      let x : ℕ → F = λ i. s.new_int i ⊗ g (s.new_int i) in
      let gone : at_zero ids x ≡ s.nought =
        cancel_right (at_zero ids x) s.nought (s.new_int y ⊗ g s.nought) (
          ap (λ v. at_zero ids x ⊕ s.new_int y ⊗ v) (sym below)
          ∙ at_zero_shift y ys (λ i. g (s.new_int i)) a
          ∙ ap (λ v. s.new_int y ⊗ v) above
          ∙ sym (s.nought-add _)) in
      weighted_congr ids ids ids (λ i. f (s.new_int i)) (λ i. c ⊕ x i) (λ i. refl)
        (λ i. e (s.new_int i))
      ∙ weighted-add ids ids c x
      ∙ ap (λ v. c ⊗ v ⊕ at_zero ids x) (at_zero_one ys y a)
      ∙ ap (λ v. v ⊕ at_zero ids x) (mul-one c)
      ∙ ap (λ v. c ⊕ v) (gone ∙ sym (nought-mul (g s.nought)))
      ∙ sym (e s.nought)
