-- ===== src/Algebra/Rings.antt =====
-- Calculation with the residues of src/core/schemes/src/integers/sizedint.rs.
use quorumcrypt.Algebra.{Scalars, ◌⊕◌, ◌⊗◌}
use quorumcrypt.Base.{◌≡◌, ◌≢◌, sym, ap, ◌∙◌}

module _ {F : Type 0} ⦃s : Scalars F⦄ where
  pub add_left_comm : (a b c : F) → a ⊕ (b ⊕ c) ≡ b ⊕ (a ⊕ c)
  add_left_comm a b c =
      sym (s.add_assoc a b c) ∙ ap (λ x. x ⊕ c) (s.add_comm a b) ∙ s.add_assoc b a c

  pub mul_left_comm : (a b c : F) → a ⊗ (b ⊗ c) ≡ b ⊗ (a ⊗ c)
  mul_left_comm a b c =
      sym (s.mul_assoc a b c) ∙ ap (λ x. x ⊗ c) (s.mul_comm a b) ∙ s.mul_assoc b a c

  pub add-nought : (a : F) → a ⊕ s.nought ≡ a
  add-nought a = s.add_comm a s.nought ∙ s.nought-add a

  pub mul-one : (a : F) → a ⊗ s.one ≡ a
  mul-one a = s.mul_comm a s.one ∙ s.one-mul a

  -- `nought - a`
  neg_add : (a : F) → s.sub s.nought a ⊕ a ≡ s.nought
  neg_add a = s.sub-add s.nought a

  pub cancel_right : (a b c : F) → a ⊕ c ≡ b ⊕ c → a ≡ b
  cancel_right a b c h =
      let n = s.sub s.nought c in
      let back : (x : F) → (x ⊕ c) ⊕ n ≡ x =
        λ x. s.add_assoc x c n ∙ ap (λ y. x ⊕ y) (s.add_comm c n ∙ neg_add c) ∙ add-nought x in
      sym (back a) ∙ ap (λ x. x ⊕ n) h ∙ back b

  pub mul-nought : (a : F) → a ⊗ s.nought ≡ s.nought
  mul-nought a = cancel_right _ _ (a ⊗ s.nought) (
      sym (s.mul-add a s.nought s.nought)
      ∙ ap (λ x. a ⊗ x) (s.nought-add s.nought)
      ∙ sym (s.nought-add (a ⊗ s.nought)))

  pub nought-mul : (a : F) → s.nought ⊗ a ≡ s.nought
  nought-mul a = s.mul_comm s.nought a ∙ mul-nought a

  pub add-mul : (a b c : F) → (a ⊕ b) ⊗ c ≡ a ⊗ c ⊕ b ⊗ c
  add-mul a b c = simp (s.mul_comm _ c, s.mul-add c)

  pub cancel_left : (d a : F) → d ≢ s.nought → d ⊗ a ≡ d → a ≡ s.one
  cancel_left d a n h =
      let i = s.inv_mod d in
      sym (s.one-mul a)
      ∙ ap (λ x. x ⊗ a) (sym (s.mul-inv d n) ∙ s.mul_comm d i)
      ∙ s.mul_assoc i d a
      ∙ ap (λ x. i ⊗ x) h
      ∙ s.mul_comm i d
      ∙ s.mul-inv d n

  pub add_right_assoc : (a b c : F) → (a ⊕ b) ⊕ c ≡ a ⊕ (b ⊕ c)
  add_right_assoc = s.add_assoc

  pub add_swap : (a b : F) → a ⊕ b ≡ b ⊕ a
  add_swap = s.add_comm

  pub mul_right_assoc : (a b c : F) → (a ⊗ b) ⊗ c ≡ a ⊗ (b ⊗ c)
  mul_right_assoc = s.mul_assoc

  pub mul_swap : (a b : F) → a ⊗ b ≡ b ⊗ a
  mul_swap = s.mul_comm

  pub mul-add : (a b c : F) → a ⊗ (b ⊕ c) ≡ a ⊗ b ⊕ a ⊗ c
  mul-add = s.mul-add

  -- The inverse of a factor replaces it.
  pub cancel_factor : (a b i x : F) → a ⊗ i ≡ s.one → (a ⊗ x) ⊗ (i ⊗ b) ≡ b ⊗ x
  cancel_factor a b i x e =
      s.mul_assoc a x (i ⊗ b)
      ∙ ap (λ v. a ⊗ v) (mul_left_comm x i b)
      ∙ sym (s.mul_assoc a i (x ⊗ b))
      ∙ ap (λ v. v ⊗ (x ⊗ b)) e
      ∙ s.one-mul (x ⊗ b)
      ∙ s.mul_comm x b

-- Sums of products, sorted.
pub ruleset ring = (
  add_right_assoc, add_swap, add_left_comm, mul_right_assoc, mul_swap, mul_left_comm, mul-add,
  add-mul,
)
