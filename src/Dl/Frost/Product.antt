-- ===== src/Dl/Frost/Product.antt =====
-- Products over the signers, in src/core/schemes/src/dl_schemes/signatures/frost.rs.
use quorumcrypt.Algebra.{Scalars, GroupOperations, ◌⊕◌, ◌⊗◌}
use quorumcrypt.Algebra.Rings.{nought-mul, add-mul}
use quorumcrypt.Base.{
  ℕ, ◌≡◌, refl, sym, ap, ◌∙◌, inl, inr, Bool-cases, some, List, [], ◌∷◌, map, length,
}
use quorumcrypt.Dl.Frost.Signing.{sum_shares}
use quorumcrypt.Dl.Frost.{FrostSignatureShare, CurveOperations}
use quorumcrypt.Protocols.Collect.Sound.{Every}
use quorumcrypt.Sharing.Coefficients.{coefficient}
use quorumcrypt.Sharing.Lagrange.{weighted}
use mathlib.Core.HLevel.{hedberg}
use mathlib.Core.List.{Perm, foldr}
use mathlib.Core.List.Perm

module _ {F G : Type 0} ⦃s : Scalars F⦄ {g : GroupOperations F G s}
    (o : CurveOperations F G s g) where
  G-discrete : Discrete G
  G-discrete a b = elim (Bool-cases (o.eq a b)) [
    | inl h ↦ yes ((o.eq_iff a b).0 h)
    | inr h ↦ no (λ e. let q = (o.eq_iff a b).1 e in cc)
  ]

  abbrev pub product : (ℕ → G) → List ℕ → G
  product f is = foldr (λ i a. g.mul (f i) a) o.identity is

  mul_left_comm : (a b c : G) → g.mul a (g.mul b c) ≡ g.mul b (g.mul a c)
  mul_left_comm a b c =
      sym (g.mul_assoc a b c) ∙ ap (λ v. g.mul v c) (o.mul_comm a b) ∙ g.mul_assoc b a c

  pub product-Perm : (f : ℕ → G) (is js : List ℕ) → Perm is js → product f is ≡ product f js
  product-Perm f is js q =
      Perm.foldr-eq (hedberg G-discrete) (λ i a. g.mul (f i) a)
        (λ i j a. mul_left_comm (f i) (f j) a) q o.identity

  pub pow_nought : (a : G) → g.pow a s.nought ≡ o.identity
  pow_nought a =
      let z = g.pow a s.nought in
      let twice : g.mul z z ≡ g.mul o.identity z =
        sym (g.pow-add a s.nought s.nought)
        ∙ ap (g.pow a) (s.nought-add s.nought)
        ∙ sym (o.identity-mul z) in
      sym (g.mul-div z z) ∙ ap (λ v. g.div v z) twice ∙ g.mul-div o.identity z

  mul_identity : (a : G) → g.mul a o.identity ≡ a
  mul_identity a = o.mul_comm a o.identity ∙ o.identity-mul a

  -- Where each share is the logarithm of the value at its id, the sum of the shares is the logarithm
  -- of the product.
  pub sum_shares-product :
      (f : ℕ → G) (z : F) (shares : List (FrostSignatureShare F))
      → Every (λ x. g.pow g.new x.get_share ≡ f x.id) shares
      → (t : F) × (sum_shares (length shares) z shares ≡ some t)
        × (g.pow g.new t ≡ g.mul (g.pow g.new z) (product f (map (λ x. x.id) shares)))
  unfolding sum_shares
  sum_shares-product f z [] h = (z, refl, sym (mul_identity (g.pow g.new z)))
  sum_shares-product f z (x ∷ shares) (e, h) =
      let (t, q, r) = sum_shares-product f (z ⊕ x.get_share) shares h in
      let rest = product f (map (λ x. x.id) shares) in
      (
        t,
        q,
        r
            ∙ ap (λ v. g.mul v rest) (g.pow-add g.new z x.get_share ∙ ap (g.mul (g.pow g.new z)) e)
            ∙ g.mul_assoc (g.pow g.new z) (f x.id) rest,
      )

  interchange : (a b c d : G) → g.mul (g.mul a b) (g.mul c d) ≡ g.mul (g.mul a c) (g.mul b d)
  interchange a b c d =
      g.mul_assoc a b (g.mul c d)
      ∙ ap (g.mul a) (mul_left_comm b c d)
      ∙ sym (g.mul_assoc a c (g.mul b d))

  pub product-mul :
      (f h : ℕ → G) (is : List ℕ)
      → product (λ i. g.mul (f i) (h i)) is ≡ g.mul (product f is) (product h is)
  product-mul f h [] = sym (o.identity-mul o.identity)
  product-mul f h (i ∷ is) =
      ap (g.mul (g.mul (f i) (h i))) (product-mul f h is)
      ∙ interchange (f i) (h i) (product f is) (product h is)

  -- Powers of the generator by weighted parts.
  pub product-weighted :
      (parts : ℕ → F) (c : F) (ids is : List ℕ)
      → product (λ i. g.pow (g.pow g.new (parts i)) (coefficient ids i ⊗ c)) is
        ≡ g.pow (g.pow g.new (weighted ids is parts)) c
  unfolding weighted
  product-weighted parts c ids [] =
      sym (pow_nought g.new)
      ∙ ap (g.pow g.new) (sym (nought-mul c))
      ∙ g.pow-mul_mod g.new s.nought c
  product-weighted parts c ids (i ∷ is) =
      let w = weighted ids is parts in
      let l = coefficient ids i in
      ap (g.mul (g.pow (g.pow g.new (parts i)) (l ⊗ c))) (product-weighted parts c ids is)
      ∙ ap (λ v. g.mul v (g.pow (g.pow g.new w) c))
          (sym (g.pow-mul_mod g.new (parts i) (l ⊗ c))
            ∙ ap (g.pow g.new) (sym (s.mul_assoc (parts i) l c)))
      ∙ ap (g.mul (g.pow g.new ((parts i ⊗ l) ⊗ c))) (sym (g.pow-mul_mod g.new w c))
      ∙ sym (g.pow-add g.new ((parts i ⊗ l) ⊗ c) (w ⊗ c))
      ∙ ap (g.pow g.new) (sym (add-mul (parts i ⊗ l) w c))
      ∙ g.pow-mul_mod g.new (parts i ⊗ l ⊕ w) c
