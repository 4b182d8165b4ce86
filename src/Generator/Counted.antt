-- ===== src/Generator/Counted.antt =====
-- How many keys the branches of `generate` make (src/core/schemes/src/keys/key_generator.rs).
use quorumcrypt.Algebra.{Scalars, GroupOperations}
use quorumcrypt.Base.{
  ℕ, suc, ◌^◌, ◌<◌, ◌≡◌, refl, ap, ◌∙◌, Bool, true, false, not, ◌&&◌, Option, some, List, map,
  length, length-map, if◌then◌else◌,
}
use quorumcrypt.Errors.{Result, ok, err, SchemeError}
use quorumcrypt.Generator.Dispatch.{GeneratedKey, succeed}
use quorumcrypt.Generator.{
  KeyIds, new_bz03, new_bls04, new_cks05, new_frost, generate_sg02, generate_bz03, generate_bls04,
  generate_cks05, generate_frost,
}
use quorumcrypt.Generator.Lengths.{deal_keys-length, deal_keys_checked-length}
use quorumcrypt.Schemes.{Group}

pub guarded {ℓ} :
    {A : Type ℓ} (P : A → Type 0) (a : Bool) (x y : A) → a ≡ true → P y → P (if not a then x else y)
guarded P true x y e h = h
guarded P false x y e h = cc

-- A failed guard is an error.
pub refused {ℓ} :
    {A : Type ℓ} (a b : Bool) (e f : SchemeError) (y : Option (Result SchemeError A))
    → (a && b) ≡ false
    → (d : SchemeError) × ((if not b then some (err e) else if not a then some (err f) else y)
        ≡ some (err d))
refused true true e f y h = cc
refused false true e f y h = (f, refl)
refused true false e f y h = (e, refl)
refused false false e f y h = (e, refl)

module _ {F G H K : Type 0} ⦃s : Scalars F⦄ (g : GroupOperations F G s) (g2 : GroupOperations F H s)
    (ids : KeyIds G H) (rsa_keys : ℕ → ℕ → ℕ → Option (List K)) where
  -- An outcome with `n` keys.
  abbrev pub HasKeys : ℕ → Option (Result SchemeError (List (GeneratedKey F G H K))) → Type 0
  HasKeys n o = (keys : List (GeneratedKey F G H K)) × (o ≡ some (ok keys)) × (length keys ≡ n)

  succeed-HasKeys :
      {A : Type 0} (f : A → GeneratedKey F G H K) (o : Option (List A)) (n : ℕ)
      → (keys : List A) × (o ≡ some keys) × (length keys ≡ n)
      → HasKeys n (succeed f o)
  succeed-HasKeys f o n (keys, e, l) = (map f keys, ap (succeed f) e, length-map f keys ∙ l)

  pub bz03-HasKeys :
      (k n : ℕ) (rng : ℕ → F)
      → HasKeys n (succeed GeneratedKey.bz03 (generate_bz03 g ids g2 (suc k) n rng))
  unfolding generate_bz03
  bz03-HasKeys k n rng =
      succeed-HasKeys GeneratedKey.bz03 (generate_bz03 g ids g2 (suc k) n rng) n (
        deal_keys-length g
          (λ h i xi. record {
            id = i;
            xi = xi;
            pubkey = new_bz03 g ids n (suc k) (g2.pow g2.new (rng 0)) h;
          })
          k n (rng 0) (λ i. rng (suc i)))

  pub bls04-HasKeys :
      (k n : ℕ) (rng : ℕ → F)
      → HasKeys n (succeed GeneratedKey.bls04 (generate_bls04 g ids (suc k) n rng))
  unfolding generate_bls04
  bls04-HasKeys k n rng =
      succeed-HasKeys GeneratedKey.bls04 (generate_bls04 g ids (suc k) n rng) n (
        deal_keys-length g
          (λ h i xi. record {
            id = i;
            xi = xi;
            pubkey = new_bls04 g ids n (suc k) (g.pow g.new (rng 0)) h;
          })
          k n (rng 0) (λ i. rng (suc i)))

  pub cks05-HasKeys :
      (k n : ℕ) (rng : ℕ → F)
      → HasKeys n (succeed GeneratedKey.cks05 (generate_cks05 g ids (suc k) n rng))
  unfolding generate_cks05
  cks05-HasKeys k n rng =
      succeed-HasKeys GeneratedKey.cks05 (generate_cks05 g ids (suc k) n rng) n (
        deal_keys-length g
          (λ h i xi. record {
            id = i;
            xi = xi;
            pubkey = new_cks05 g ids n (suc k) (g.pow g.new (rng 0)) h;
          })
          k n (rng 0) (λ i. rng (suc i)))

  pub frost-HasKeys :
      (k n : ℕ) (rng : ℕ → F) (group : Group)
      → HasKeys n (succeed GeneratedKey.frost (generate_frost g ids (suc k) n rng group))
  unfolding generate_frost
  frost-HasKeys k n rng group =
      succeed-HasKeys GeneratedKey.frost (generate_frost g ids (suc k) n rng group) n (
        deal_keys-length g
          (λ h i xi. record {
            id = i;
            x = xi;
            pubkey = new_frost g ids n (suc k) group (g.pow g.new (rng 0)) h;
          })
          k n (rng 0) (λ i. rng (suc i)))

  pub sg02-HasKeys :
      (k n : ℕ) (rng : ℕ → F) (g_bar : G)
      → n < 2 ^ 16
      → HasKeys n (succeed GeneratedKey.sg02 (generate_sg02 g ids (suc k) n rng g_bar))
  unfolding generate_sg02
  sg02-HasKeys k n rng g_bar b =
      succeed-HasKeys GeneratedKey.sg02 (generate_sg02 g ids (suc k) n rng g_bar) n
        (deal_keys_checked-length g _ k n (rng 0) (λ i. rng (suc i)) b)
