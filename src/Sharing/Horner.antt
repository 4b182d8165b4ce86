-- ===== src/Sharing/Horner.antt =====
-- The two evaluations of polynomials in src/core/schemes/src/dl_schemes/common.rs.
use quorumcrypt.Algebra.Rings.{ring, mul-nought, mul-one}
use quorumcrypt.Algebra.{Scalars, ◌⊕◌, ◌⊗◌}
use quorumcrypt.Base.{
  ℕ, zero, suc, ◌+◌, ◌≡◌, refl, sym, ap, ◌∙◌, some, List, [], ◌∷◌, ◌++◌, length, arith,
}
use quorumcrypt.Sharing.{horner_loop, horner, eval_loop, eval_pol}

module _ {F : Type 0} ⦃s : Scalars F⦄ where
  -- What the rounds of `horner` make of a sum.
  horner_loop-add :
      (x a b : F) (cs : List F)
      → horner_loop x (a ⊕ b) cs ≡ a ⊗ s.pow_mod x (length cs) ⊕ horner_loop x b cs
  unfolding horner_loop
  horner_loop-add x a b [] =
      ap (λ y. y ⊕ b) (sym (mul-one a) ∙ ap (λ y. a ⊗ y) (sym (s.pow_zero x)))
  horner_loop-add x a b (c ∷ cs) =
      ap (λ y. horner_loop x y cs) {y = a ⊗ x ⊕ (b ⊗ x ⊕ c)} (simp ring)
      ∙ horner_loop-add x (a ⊗ x) (b ⊗ x ⊕ c) cs
      ∙ ap (λ y. y ⊕ horner_loop x (b ⊗ x ⊕ c) cs)
          (s.mul_assoc a x _ ∙ ap (λ y. a ⊗ y) (sym (s.pow_suc x (length cs))))

  eval_loop-horner_loop :
      (x val c : F) (cs : List F) → eval_loop x val c cs ≡ val ⊕ horner_loop x c cs
  unfolding eval_loop horner_loop
  eval_loop-horner_loop x val c [] = refl
  eval_loop-horner_loop x val c (d ∷ cs) =
      eval_loop-horner_loop x (val ⊕ c ⊗ s.pow_mod x (length (d ∷ cs))) d cs
      ∙ s.add_assoc val _ _
      ∙ ap (λ y. val ⊕ y)
          (ap (λ y. y ⊕ horner_loop x d cs)
              (ap (λ y. c ⊗ y) (s.pow_suc x (length cs)) ∙ sym (s.mul_assoc c x _))
            ∙ sym (horner_loop-add x (c ⊗ x) d cs))

  -- Both evaluations agree at every point and on every list of coefficients; both panic on the
  -- empty list.
  pub eval_pol-horner : (x : F) (cs : List F) → eval_pol x cs ≡ horner x cs
  unfolding eval_pol horner
  eval_pol-horner x [] = refl
  eval_pol-horner x (c ∷ cs) =
      ap some (eval_loop-horner_loop x s.nought c cs ∙ s.nought-add (horner_loop x c cs))

  -- A polynomial with fewer than `n` coefficients, the constant one first.
  unfoldable pub IsPolynomial : ℕ → (F → F) → Type 0
  IsPolynomial zero f = (x : F) → f x ≡ s.nought
  IsPolynomial (suc n) f = (c : F) × (g : F → F) × IsPolynomial n g × ((x : F) → f x ≡ c ⊕ x ⊗ g x)

  abbrev pub grow : List F → ℕ → ℕ
  grow [] n = n
  grow (c ∷ cs) n = grow cs (suc n)

  pub grow_lem : (cs : List F) (n : ℕ) → grow cs n ≡ length cs + n
  grow_lem [] n = omega arith
  grow_lem (c ∷ cs) n = omega (arith, grow_lem cs (suc n))

  -- The rounds of `horner` add a coefficient each.
  pub horner_loop-IsPolynomial :
      (n : ℕ) (f : F → F) (cs : List F)
      → IsPolynomial n f
      → IsPolynomial (grow cs n) (λ x. horner_loop x (f x) cs)
  unfolding horner_loop IsPolynomial
  horner_loop-IsPolynomial n f [] p = p
  horner_loop-IsPolynomial n f (c ∷ cs) p =
      horner_loop-IsPolynomial (suc n) (λ x. f x ⊗ x ⊕ c) cs (c, f, p, λ x. simp ring)

  -- At zero the last coefficient is left.
  pub horner_loop-last : (r c : F) (cs : List F) → horner_loop s.nought r (cs ++ (c ∷ [])) ≡ c
  unfolding horner_loop
  horner_loop-last r c [] = ap (λ y. y ⊕ c) (mul-nought r) ∙ s.nought-add c
  horner_loop-last r c (d ∷ cs) = horner_loop-last (r ⊗ s.nought ⊕ d) c cs
