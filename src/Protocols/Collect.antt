-- ===== src/Protocols/Collect.antt =====
-- The collection of shares that the one-round protocols of src/core/protocols/src keep: the valid
-- shares in the order in which they were taken, and the share ids that were received
-- (`valid_shares` and `received_share_ids` of `ThresholdCipherProtocol`,
-- `ThresholdSignatureProtocol` and `ThresholdCoinProtocol`, whose `update` treat a share alike).
pub mod Sound
pub mod Order
pub mod Prefix
use quorumcrypt.Base.{
  Option, none, some, is_some, Bool-cases, Option-cases, inl, inr, ℕ, ◌≡◌, refl, sym, ap, Bool,
  true, false, List, [], ◌∷◌, ◌++◌, if◌then◌else◌, ℕ_discrete, contains,
}
use quorumcrypt.Errors.{Result, ok, err, SchemeError, id_not_found}

pub record Collection (Share : Type 0) : Type 0 where
  pub valid_shares : List Share
  pub received_share_ids : List ℕ

-- `HashSet::insert`
abbrev pub insert_id : ℕ → List ℕ → List ℕ
insert_id i ids = if contains ℕ_discrete i ids then ids else i ∷ ids

-- The `match verification_result`: an error counts as an invalid share.
unfoldable pub is_verified : Result SchemeError Bool → Bool
is_verified (ok is_valid) = is_valid
is_verified (err e) = false

-- A verification that panics counts as an error where it is only asked which shares are valid.
abbrev pub settled : Option (Result SchemeError Bool) → Result SchemeError Bool
settled none = err id_not_found
settled (some r) = r

module _ {Share : Type 0} where
  abbrev pub empty : Collection Share
  empty = record { valid_shares = []; received_share_ids = [] }

  -- The last two statements of `do_round`: the server's own share is taken without a check.
  unfoldable pub add_own : (Share → ℕ) → Collection Share → Share → Collection Share
  add_own get_id c x = record {
    valid_shares = c.valid_shares ++ (x ∷ []);
    received_share_ids = insert_id (get_id x) c.received_share_ids;
  }

  -- The part of `update` from the check for duplicates on, for a verification that does not panic. The
  -- id of a share is noted before the share is verified.
  unfoldable pub accept :
      (Share → ℕ) → (Share → Result SchemeError Bool) → Collection Share → Share → Collection Share
  unfolding is_verified
  accept get_id verify c x =
      if contains ℕ_discrete (get_id x) c.received_share_ids
      then c
      else let noted = record c {
        received_share_ids = insert_id (get_id x) c.received_share_ids;
      } in
        if is_verified (verify x)
        then record noted { valid_shares = c.valid_shares ++ (x ∷ []) }
        else noted

  -- The same, with the panic of the verification: a duplicate is not verified.
  unfoldable pub try_accept :
      (Share → ℕ)
      → (Share → Option (Result SchemeError Bool))
      → Collection Share
      → Share
      → Option (Collection Share)
  unfolding accept
  try_accept get_id verify c x =
      if contains ℕ_discrete (get_id x) c.received_share_ids then some c else elim (verify x) [
        | none ↦ none
        | some verification_result ↦ some (accept get_id (λ y. verification_result) c x)
      ]

  -- The shares of a list, one after the other.
  unfoldable pub accept_all :
      (Share → ℕ)
      → (Share → Result SchemeError Bool)
      → Collection Share
      → List Share
      → Collection Share
  accept_all get_id verify c [] = c
  accept_all get_id verify c (x ∷ xs) = accept_all get_id verify (accept get_id verify c x) xs

  -- A share whose id was received before changes nothing.
  pub accept_duplicate :
      (get_id : Share → ℕ) (verify : Share → Result SchemeError Bool) (c : Collection Share)
      (x : Share)
      → contains ℕ_discrete (get_id x) c.received_share_ids ≡ true
      → accept get_id verify c x ≡ c
  unfolding accept
  accept_duplicate get_id verify c x h = rw h refl

  accept_congr :
      (get_id : Share → ℕ) (f g : Share → Result SchemeError Bool) (c : Collection Share)
      (x : Share)
      → f x ≡ g x
      → accept get_id f c x ≡ accept get_id g c x
  unfolding accept
  accept_congr get_id f g c x e = rw e refl

  verification-cases :
      (get_id : Share → ℕ) (verify : Share → Option (Result SchemeError Bool))
      (c : Collection Share) (x : Share) (o : Option (Result SchemeError Bool))
      → verify x ≡ o
      → ◌≡◌ {A = Option (Collection Share)}
          (elim o [ none ↦ none | some r ↦ some (accept get_id (λ y. r) c x) ])
          (if is_some o then some (accept get_id (λ y. settled (verify y)) c x) else none)
  verification-cases get_id verify c x none e = refl
  verification-cases get_id verify c x (some r) e =
      ap some (accept_congr get_id (λ y. r) (λ y. settled (verify y)) c x (ap settled (sym e)))

  pub try_accept-accept :
      (get_id : Share → ℕ) (verify : Share → Option (Result SchemeError Bool))
      (c : Collection Share) (x : Share)
      → try_accept get_id verify c x ≡ (
          if contains ℕ_discrete (get_id x) c.received_share_ids
          then some c
          else if is_some (verify x)
          then some (accept get_id (λ y. settled (verify y)) c x)
          else none)
  unfolding try_accept
  try_accept-accept get_id verify c x =
      ap (λ o. if contains ℕ_discrete (get_id x) c.received_share_ids then some c else o)
        (verification-cases get_id verify c x (verify x) refl)
