-- ===== src/Tests/Sharing.antt =====
-- Runs of src/core/schemes/src/dl_schemes/common.rs and of the coins of
-- src/core/schemes/src/dl_schemes/coins/cks05.rs, in the field with three elements.
use quorumcrypt.Base.{ℕ, ◌≡◌, refl, some, List, [], ◌∷◌, map, arith}
use quorumcrypt.Dl.Cks05.Toss.{assemble-public}
use quorumcrypt.Dl.Cks05.{
  Cks05PublicKey, Cks05PrivateKey, Cks05CoinShare, create_share, make_share, hash_bit, assemble,
}
use quorumcrypt.Dl.{hash_residue, verification_key_of}
use quorumcrypt.Sharing.Horner.{eval_pol-horner}
use quorumcrypt.Sharing.Recover.{IsDealing, shamir_share-IsDealing, interpolate-IsDealing}
use quorumcrypt.Sharing.{DlShare, range_from, eval_pol, horner, shamir_share, interpolate}
use quorumcrypt.Tests.Field.{Three, t0, t1, t2, field, group}
use quorumcrypt.Tests.Primitives.{primitives, ones, text, one_and_two, line, line-IsDealing}

eval_pol-horner_example :
    eval_pol ⦃s = field⦄ t2 (t1 ∷ t2 ∷ t1 ∷ []) ≡ horner ⦃s = field⦄ t2 (t1 ∷ t2 ∷ t1 ∷ [])
eval_pol-horner_example = eval_pol-horner ⦃s = field⦄ t2 (t1 ∷ t2 ∷ t1 ∷ [])

shamir_share-IsDealing_example :
    (share : ℕ → Three) × IsDealing ⦃s = field⦄ 2 t1 share
    × (shamir_share ⦃s = field⦄ group t1 2 2 ones
        ≡ some (
          map share (range_from 1 2),
          map (λ xi. group.pow group.new xi) (map share (range_from 1 2)),
        ))
shamir_share-IsDealing_example = shamir_share-IsDealing ⦃s = field⦄ group t1 1 2 ones

abbrev pairs : DlShare (ℕ × Three) Three
pairs = record { get_id = λ x. x.0; get_data = λ x. x.1 }

interpolate-IsDealing_example :
    interpolate ⦃s = field⦄ group pairs ((1, t1) ∷ (2, t0) ∷ []) ≡ some (group.pow t2 t1)
interpolate-IsDealing_example =
    interpolate-IsDealing ⦃s = field⦄ group pairs 2 t1 line t2 ((1, t1) ∷ (2, t0) ∷ [])
      line-IsDealing one_and_two (omega arith) (omega arith) (refl, (refl, tt))

abbrev cks05_public : Cks05PublicKey Three
cks05_public = record { n = 2; k = 2; y = t1; verification_key = t2 ∷ t0 ∷ []; id = "key" }

abbrev cks05_key : ℕ → Three → Cks05PrivateKey Three Three
cks05_key i xi = record { id = i; xi = xi; pubkey = cks05_public }

abbrev cks05_shares : List (Cks05CoinShare Three Three)
cks05_shares =
    make_share ⦃s = field⦄ group primitives text (cks05_key 1 t2) t1 t2
    ∷ make_share ⦃s = field⦄ group primitives text (cks05_key 2 t0) t2 t0
    ∷ []

assemble-public_example :
    assemble ⦃s = field⦄ group cks05_shares
    ≡ hash_bit ⦃s = field⦄ group (group.pow t1 (hash_residue primitives text))
unfolding create_share verification_key_of make_share
assemble-public_example =
    assemble-public ⦃s = field⦄ group primitives 2 t1 line text cks05_shares t1 line-IsDealing refl
      one_and_two (omega arith) (omega arith)
      ((cks05_key 1 t2, t1, refl, refl), ((cks05_key 2 t0, t2, refl, refl), tt))
