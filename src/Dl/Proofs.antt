-- ===== src/Dl/Proofs.antt =====
-- The response of a proof of knowledge, in the schemes of src/core/schemes/src/dl_schemes, opens the
-- commitment.
use quorumcrypt.Algebra.{Scalars, GroupOperations, ◌⊕◌, ◌⊗◌}
use quorumcrypt.Base.{◌≡◌, sym, ap, ◌∙◌}

module _ {F G : Type 0} ⦃s : Scalars F⦄ (g : GroupOperations F G s) where
  -- The response is the nonce and the product of the secret and the challenge.
  pub div-pow : (b : G) (r x e : F) → g.div (g.pow b (r ⊕ x ⊗ e)) (g.pow (g.pow b x) e) ≡ g.pow b r
  div-pow b r x e =
      ap (g.div (g.pow b (r ⊕ x ⊗ e))) (sym (g.pow-mul_mod b x e))
      ∙ ap (λ v. g.div v (g.pow b (x ⊗ e))) (g.pow-add b r (x ⊗ e))
      ∙ g.mul-div (g.pow b r) (g.pow b (x ⊗ e))

  -- What answers a challenge opens the commitment, for a power that is only known by an equation.
  pub div-pow_answer :
      (b u : G) (f r x e : F)
      → f ≡ r ⊕ x ⊗ e
      → u ≡ g.pow b x
      → g.div (g.pow b f) (g.pow u e) ≡ g.pow b r
  div-pow_answer b u f r x e ef eu =
      ap (λ v. g.div (g.pow b v) (g.pow u e)) ef
      ∙ ap (λ v. g.div (g.pow b (r ⊕ x ⊗ e)) (g.pow v e)) eu
      ∙ div-pow b r x e

  pub pow-pow_comm : (b : G) (x y : F) → g.pow (g.pow b x) y ≡ g.pow (g.pow b y) x
  pow-pow_comm b x y =
      sym (g.pow-mul_mod b x y) ∙ ap (g.pow b) (s.mul_comm x y) ∙ g.pow-mul_mod b y x
