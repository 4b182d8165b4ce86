-- ===== src/Generator/Lengths.antt =====
-- How many keys src/core/schemes/src/keys/key_generator.rs makes of a dealt secret.
use quorumcrypt.Algebra.{Scalars, GroupOperations}
use quorumcrypt.Base.{
  ℕ, zero, suc, ◌+◌, ◌^◌, ◌≤◌, ◌<◌, ◌≡◌, refl, ap, ◌∙◌, none, some, List, [], ◌∷◌, map, length,
  length-map, ltb, if_true, arith,
}
use quorumcrypt.Generator.{number_keys, number_keys_checked, deal_keys, deal_keys_checked}
use quorumcrypt.Sharing.Recover.{shamir_share-IsDealing}
use quorumcrypt.Sharing.{range_from}
use mathlib.Core.Option

pub length-range_from : (j n : ℕ) → length (range_from j n) ≡ n
length-range_from j zero = refl
length-range_from j (suc n) = omega (arith, length-range_from (suc j) n)

pub length-number_keys :
    {F K : Type 0} (make : ℕ → F → K) (i : ℕ) (shares : List F)
    → length (number_keys make i shares) ≡ length shares
unfolding number_keys
length-number_keys make i [] = refl
length-number_keys make i (xi ∷ shares) = omega (arith, length-number_keys make (suc i) shares)

-- Ids that fit are converted.
pub number_keys_checked-some :
    {F K : Type 0} (make : ℕ → F → K) (i : ℕ) (shares : List F)
    → i + length shares ≤ 2 ^ 16
    → (keys : List K) × (number_keys_checked make i shares ≡ some keys)
      × (length keys ≡ length shares)
unfolding number_keys_checked
number_keys_checked-some make i [] h = ([], refl, refl)
number_keys_checked-some make i (xi ∷ shares) h =
    let (keys, e, l) = number_keys_checked-some make (suc i) shares (omega arith) in
    (
      make i xi ∷ keys,
      if_true (ltb i (2 ^ 16))
            (Option.map (λ ks. make i xi ∷ ks) (number_keys_checked make (suc i) shares)) none
            (ground arith)
          ∙ ap (Option.map (λ ks. make i xi ∷ ks)) e,
      omega (arith, l),
    )

module _ {F G : Type 0} ⦃s : Scalars F⦄ (g : GroupOperations F G s) where
  pub deal_keys-length :
      {K : Type 0} (make : List G → ℕ → F → K) (k n : ℕ) (x : F) (rng : ℕ → F)
      → (keys : List K) × (deal_keys g make (suc k) n x rng ≡ some keys) × (length keys ≡ n)
  unfolding deal_keys
  deal_keys-length make k n x rng =
      let (parts, dealt, e) = shamir_share-IsDealing g x k n rng in
      let shares = map parts (range_from 1 n) in
      let h = map (λ xi. g.pow g.new xi) shares in
      (
        number_keys (make h) 1 shares,
        ap (Option.map (λ (shares, h). number_keys (make h) 1 shares)) e,
        length-number_keys (make h) 1 shares
            ∙ length-map parts (range_from 1 n)
            ∙ length-range_from 1 n,
      )

  pub deal_keys_checked-length :
      {K : Type 0} (make : List G → ℕ → F → K) (k n : ℕ) (x : F) (rng : ℕ → F)
      → n < 2 ^ 16
      → (keys : List K) × (deal_keys_checked g make (suc k) n x rng ≡ some keys) × (length keys ≡ n)
  unfolding deal_keys_checked Option.bind
  deal_keys_checked-length make k n x rng b =
      let (parts, dealt, e) = shamir_share-IsDealing g x k n rng in
      let shares = map parts (range_from 1 n) in
      let h = map (λ xi. g.pow g.new xi) shares in
      let l = length-map parts (range_from 1 n) ∙ length-range_from 1 n in
      let (keys, q, m) = number_keys_checked-some (make h) 1 shares (omega arith) in
      (
        keys,
        ap (λ o. Option.bind o (λ (shares, h). number_keys_checked (make h) 1 shares)) e ∙ q,
        m ∙ l,
      )
