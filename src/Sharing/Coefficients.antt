-- ===== src/Sharing/Coefficients.antt =====
-- The factors of `lagrange_coeff` in src/core/schemes/src/dl_schemes/common.rs.
use quorumcrypt.Algebra.Rings.{ring, mul-one, mul_left_comm}
use quorumcrypt.Algebra.{Scalars, ◌⊕◌, ◌⊗◌}
use quorumcrypt.Base.{
  ℕ, ◌+◌, ◌-◌, ◌<◌, ◌==◌, ◌≡◌, ◌≢◌, refl, sym, ap, ◌∙◌, Bool, true, false, List, [], ◌∷◌, ltb,
  if◌then◌else◌, arith, Bool-cases, inl, inr, if_true, if_false,
}
use quorumcrypt.Sharing.{difference, lagrange_loop, lagrange_coeff}

pub eq-of : (i j : ℕ) → i == j ≡ true → i ≡ j
eq-of i j h = ground arith

ne-of : (i j : ℕ) → i == j ≡ false → i ≢ j
ne-of i j h e = ground arith

module _ {F : Type 0} ⦃s : Scalars F⦄ where
  -- The difference is the one of the residues, also where the order is added.
  pub difference-add : (j i : ℕ) → difference j i ⊕ s.new_int i ≡ s.new_int j
  difference-add j i = elim (Bool-cases (ltb j i)) [
    | inl h ↦
        ap (λ x. x ⊕ s.new_int i) (if_true (ltb j i) _ _ h)
        ∙ ap (λ x. s.sub s.order (s.new_int (i - j)) ⊕ x)
            (ap s.new_int {x = i} {y = (i - j) + j} (ground arith) ∙ s.new_int-add (i - j) j)
        ∙ sym (s.add_assoc _ _ _)
        ∙ ap (λ x. x ⊕ s.new_int j) (s.sub-add s.order _ ∙ s.order_nought)
        ∙ s.nought-add _
    | inr h ↦
        ap (λ x. x ⊕ s.new_int i) (if_false (ltb j i) _ _ h)
        ∙ sym (s.new_int-add (j - i) i)
        ∙ ap s.new_int {x = (j - i) + i} {y = j} (ground arith)
  ]

  pub difference-nonzero : (j i : ℕ) → j < s.bound → i < s.bound → j ≢ i → difference j i ≢ s.nought
  difference-nonzero j i hj hi n e = n (
      s.new_int_inj j i hj hi
        (sym (difference-add j i) ∙ ap (λ x. x ⊕ s.new_int i) e ∙ s.nought-add (s.new_int i)))

  -- The factor `j / (j - i)`.
  abbrev pub factor : ℕ → ℕ → F
  factor j i = s.inv_mod (difference j i) ⊗ s.new_int j

  -- `i * (j / (j - i)) + j = j * (j / (j - i))`
  pub factor_lem :
      (j i : ℕ)
      → j < s.bound
      → i < s.bound
      → j ≢ i
      → s.new_int i ⊗ factor j i ⊕ s.new_int j ≡ s.new_int j ⊗ factor j i
  factor_lem j i hj hi n =
      let d = difference j i in
      let w = factor j i in
      let whole : d ⊗ w ≡ s.new_int j =
        sym (s.mul_assoc d (s.inv_mod d) (s.new_int j))
        ∙ ap (λ x. x ⊗ s.new_int j) (s.mul-inv d (difference-nonzero j i hj hi n))
        ∙ s.one-mul (s.new_int j) in
      ap (λ x. s.new_int i ⊗ w ⊕ x) (sym whole)
      ∙ (let e : s.new_int i ⊗ w ⊕ d ⊗ w ≡ (d ⊕ s.new_int i) ⊗ w = simp ring in e)
      ∙ ap (λ x. x ⊗ w) (difference-add j i)

  -- The coefficient as a product.
  unfoldable pub coefficient : List ℕ → ℕ → F
  coefficient [] i = s.one
  coefficient (j ∷ js) i = if i == j then coefficient js i else factor j i ⊗ coefficient js i

  lagrange_loop-coefficient :
      (i : ℕ) (prod : F) (js : List ℕ) → lagrange_loop i prod js ≡ prod ⊗ coefficient js i
  unfolding lagrange_loop coefficient
  lagrange_loop-coefficient i prod [] = sym (mul-one prod)
  lagrange_loop-coefficient i prod (j ∷ js) = elim (Bool-cases (i == j)) [
    | inl h ↦
        ap (λ p. lagrange_loop i p js) (if_true (i == j) _ _ h)
        ∙ lagrange_loop-coefficient i prod js
        ∙ ap (λ c. prod ⊗ c) (sym (if_true (i == j) _ _ h))
    | inr h ↦
        ap (λ p. lagrange_loop i p js) (if_false (i == j) _ _ h)
        ∙ lagrange_loop-coefficient i (prod ⊗ factor j i) js
        ∙ s.mul_assoc prod (factor j i) (coefficient js i)
        ∙ ap (λ c. prod ⊗ c) (sym (if_false (i == j) _ _ h))
  ]

  pub lagrange_coeff-coefficient : (js : List ℕ) (i : ℕ) → lagrange_coeff js i ≡ coefficient js i
  unfolding lagrange_coeff
  lagrange_coeff-coefficient js i =
      lagrange_loop-coefficient i s.one js ∙ s.one-mul (coefficient js i)

  swap_branches :
      (a b : Bool) (x y c : F)
      → (if a then (if b then c else y ⊗ c) else x ⊗ (if b then c else y ⊗ c))
        ≡ (if b then (if a then c else x ⊗ c) else y ⊗ (if a then c else x ⊗ c))
  swap_branches true b x y c = refl
  swap_branches false true x y c = refl
  swap_branches false false x y c = mul_left_comm x y c

  -- The order of two ids does not matter.
  pub coefficient_swap :
      (j k : ℕ) (js : List ℕ) (i : ℕ) → coefficient (j ∷ k ∷ js) i ≡ coefficient (k ∷ j ∷ js) i
  unfolding coefficient
  coefficient_swap j k js i =
      swap_branches (i == j) (i == k) (factor j i) (factor k i) (coefficient js i)
