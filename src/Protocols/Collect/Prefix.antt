-- ===== src/Protocols/Collect/Prefix.antt =====
-- The first shares of a sequence that the protocols in src/core/protocols/src take whole.
use quorumcrypt.Base.{
  ℕ, zero, suc, ◌≡◌, refl, Bool, true, false, List, [], ◌∷◌, map, take, arith, ℕ_discrete, contains,
}
use quorumcrypt.Errors.{Result, ok, SchemeError}
use quorumcrypt.Protocols.Collect.Order.{IsFresh, accept_all-fresh}
use quorumcrypt.Protocols.Collect.Sound.{HasDistinctIds, Every, Every-map}
use quorumcrypt.Protocols.Collect.{empty, is_verified, add_own, accept_all}

pub Every-take :
    {A : Type 0} (P : A → Type 0) (n : ℕ) (xs : List A) → Every P xs → Every P (take n xs)
Every-take P zero xs h = tt
Every-take P (suc n) [] h = tt
Every-take P (suc n) (x ∷ xs) (p, h) = (p, Every-take P n xs h)

module _ {Share : Type 0} (get_id : Share → ℕ) (verify : Share → Result SchemeError Bool) where
  contains-take :
      (i n : ℕ) (xs : List Share)
      → contains ℕ_discrete i (map get_id xs) ≡ false
      → contains ℕ_discrete i (map get_id (take n xs)) ≡ false
  contains-take i zero xs h = refl
  contains-take i (suc n) [] h = refl
  contains-take i (suc n) (x ∷ xs) h = ground (arith, contains-take i n xs)

  HasDistinctIds-take :
      (n : ℕ) (xs : List Share)
      → HasDistinctIds get_id verify xs
      → HasDistinctIds get_id verify (take n xs)
  HasDistinctIds-take zero xs h = tt
  HasDistinctIds-take (suc n) [] h = tt
  HasDistinctIds-take (suc n) (x ∷ xs) (d, h) =
      (contains-take (get_id x) n xs d, HasDistinctIds-take n xs h)

  IsFresh-one :
      (own : Share) (xs : List Share)
      → contains ℕ_discrete (get_id own) (map get_id xs) ≡ false
      → IsFresh get_id verify (get_id own ∷ []) xs
  IsFresh-one own [] h = tt
  IsFresh-one own (x ∷ xs) h = (ground arith, IsFresh-one own xs ground arith)

  -- After the server's own share, any first part of a list of honest shares is taken whole.
  pub accept_all-take :
      (own : Share) (n : ℕ) (xs : List Share)
      → HasDistinctIds get_id verify (own ∷ xs)
      → Every (λ x. verify x ≡ ok true) xs
      → (accept_all get_id verify (add_own get_id empty own) (take n xs)).valid_shares
        ≡ own ∷ take n xs
  unfolding add_own is_verified
  accept_all-take own n xs (d, ds) v =
      accept_all-fresh get_id verify (add_own get_id empty own) (take n xs)
        (IsFresh-one own (take n xs) (contains-take (get_id own) n xs d))
        (HasDistinctIds-take n xs ds) (Every-take _ n xs (Every-map _ _ xs (λ x e. rw e refl) v))
