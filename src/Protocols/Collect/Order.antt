-- ===== src/Protocols/Collect/Order.antt =====
-- Which shares of a sequence the protocols in src/core/protocols/src take.
use quorumcrypt.Base.{
  ℕ, ◌≡◌, refl, sym, ◌∙◌, Bool, true, false, List, [], ◌∷◌, ◌++◌, map, arith, ℕ_discrete, contains,
}
use quorumcrypt.Errors.{Result, SchemeError}
use quorumcrypt.Protocols.Collect.Sound.{HasDistinctIds, Every, contains-append}
use quorumcrypt.Protocols.Collect.{Collection, is_verified, accept, accept_all}

append_nil : {A : Type 0} (xs : List A) → xs ++ [] ≡ xs
append_nil [] = refl
append_nil (x ∷ xs) = rw (append_nil xs) refl

append_cons :
    {A : Type 0} (xs : List A) (y : A) (ys : List A) → (xs ++ (y ∷ [])) ++ ys ≡ xs ++ (y ∷ ys)
append_cons [] y ys = refl
append_cons (x ∷ xs) y ys = rw (append_cons xs y ys) refl

module _ {Share : Type 0} (get_id : Share → ℕ) (verify : Share → Result SchemeError Bool) where
  -- The id is known, but no share that was taken has it.
  abbrev IsBarred : ℕ → Collection Share → Type 0
  IsBarred i c =
      (contains ℕ_discrete i c.received_share_ids ≡ true)
      × (contains ℕ_discrete i (map get_id c.valid_shares) ≡ false)

  accept-IsBarred :
      (i : ℕ) (c : Collection Share) (x : Share)
      → IsBarred i c
      → IsBarred i (accept get_id verify c x)
  unfolding accept
  accept-IsBarred i c x (k, n) =
      (ground arith, ground (arith, contains-append get_id verify i c.valid_shares x n))

  accept_all-IsBarred :
      (i : ℕ) (c : Collection Share) (xs : List Share)
      → IsBarred i c
      → IsBarred i (accept_all get_id verify c xs)
  unfolding accept_all
  accept_all-IsBarred i c [] h = h
  accept_all-IsBarred i c (x ∷ xs) h =
      accept_all-IsBarred i (accept get_id verify c x) xs (accept-IsBarred i c x h)

  -- Once a share that does not verify was handled whose id was new, no share with this id is ever
  -- taken, valid or not.
  pub accept_all-barred :
      (c : Collection Share) (bad : Share) (xs : List Share)
      → is_verified (verify bad) ≡ false
      → contains ℕ_discrete (get_id bad) c.received_share_ids ≡ false
      → contains ℕ_discrete (get_id bad) (map get_id c.valid_shares) ≡ false
      → contains ℕ_discrete
          (get_id bad)
          (map get_id (accept_all get_id verify (accept get_id verify c bad) xs).valid_shares)
        ≡ false
  unfolding accept
  accept_all-barred c bad xs u n o =
      (accept_all-IsBarred (get_id bad) (accept get_id verify c bad) xs
        (ground arith, ground arith)).1

  -- The ids of the list are not among the given ones.
  abbrev pub IsFresh : List ℕ → List Share → Type 0
  IsFresh ids [] = Unit {0}
  IsFresh ids (x ∷ xs) = (contains ℕ_discrete (get_id x) ids ≡ false) × IsFresh ids xs

  IsFresh-later :
      (x : Share) (ids : List ℕ) (xs : List Share)
      → contains ℕ_discrete (get_id x) (map get_id xs) ≡ false
      → IsFresh ids xs
      → IsFresh (get_id x ∷ ids) xs
  IsFresh-later x ids [] h f = tt
  IsFresh-later x ids (y ∷ xs) h (g, f) = (ground arith, IsFresh-later x ids xs ground arith f)

  accept-fresh :
      (c : Collection Share) (x : Share)
      → contains ℕ_discrete (get_id x) c.received_share_ids ≡ false
      → is_verified (verify x) ≡ true
      → accept get_id verify c x ≡ record {
        valid_shares = c.valid_shares ++ (x ∷ []);
        received_share_ids = get_id x ∷ c.received_share_ids;
      }
  unfolding accept
  accept-fresh c x f v = rw (f, v) refl

  -- Shares that verify, with ids that are new and differ from each other, are all taken, in the
  -- order in which they come.
  pub accept_all-fresh :
      (c : Collection Share) (xs : List Share)
      → IsFresh c.received_share_ids xs
      → HasDistinctIds get_id verify xs
      → Every (λ x. is_verified (verify x) ≡ true) xs
      → (accept_all get_id verify c xs).valid_shares ≡ c.valid_shares ++ xs
  unfolding accept_all
  accept_all-fresh c [] f d v = sym (append_nil c.valid_shares)
  accept_all-fresh c (x ∷ xs) (new_id, f) (d, ds) (v, vs) =
      let c' : Collection Share = record {
        valid_shares = c.valid_shares ++ (x ∷ []);
        received_share_ids = get_id x ∷ c.received_share_ids;
      } in
      rw (accept_all, accept-fresh c x new_id v)
        (accept_all-fresh c' xs (IsFresh-later x c.received_share_ids xs d f) ds vs
          ∙ append_cons c.valid_shares x xs)
