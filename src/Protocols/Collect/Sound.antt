-- ===== src/Protocols/Collect/Sound.antt =====
-- What holds of the shares that `update` and `do_round` of the protocols in src/core/protocols/src
-- collect.
use quorumcrypt.Base.{
  ℕ, ◌≡◌, ◌≢◌, refl, ◌⊎◌, inl, inr, Bool, true, false, List, [], ◌∷◌, ◌++◌, map, arith, Bool-cases,
  ℕ_discrete, contains,
}
use quorumcrypt.Errors.{Result, SchemeError}
use quorumcrypt.Protocols.Collect.{Collection, empty, is_verified, add_own, accept}

module _ {A : Type 0} where
  abbrev pub Every : (A → Type 0) → List A → Type 0
  Every P [] = Unit {0}
  Every P (x ∷ xs) = P x × Every P xs

  pub Every-append :
      (P : A → Type 0) (xs : List A) (y : A) → Every P xs → P y → Every P (xs ++ (y ∷ []))
  Every-append P [] y h p = (p, tt)
  Every-append P (x ∷ xs) y (q, h) p = (q, Every-append P xs y h p)

  pub Every-map : (P Q : A → Type 0) (xs : List A) → ((x : A) → P x → Q x) → Every P xs → Every Q xs
  Every-map P Q [] f h = tt
  Every-map P Q (x ∷ xs) f (p, h) = (f x p, Every-map P Q xs f h)

contains_later :
    (i j : ℕ) (ids : List ℕ)
    → contains ℕ_discrete i ids ≡ true
    → contains ℕ_discrete i (j ∷ ids) ≡ true
contains_later i j ids h = ground arith

contains_here : (i : ℕ) (ids : List ℕ) → contains ℕ_discrete i (i ∷ ids) ≡ true
contains_here i ids = ground arith

module _ {Share : Type 0} (get_id : Share → ℕ) (verify : Share → Result SchemeError Bool) where
  -- No two shares of a list have the same id.
  abbrev pub HasDistinctIds : List Share → Type 0
  HasDistinctIds [] = Unit {0}
  HasDistinctIds (x ∷ xs) =
      (contains ℕ_discrete (get_id x) (map get_id xs) ≡ false) × HasDistinctIds xs

  -- A share is the server's own, or was verified.
  abbrev pub IsTrusted : Share → Share → Type 0
  IsTrusted own x = (x ≡ own) ⊎ (is_verified (verify x) ≡ true)

  abbrev pub IsReceived : List ℕ → Share → Type 0
  IsReceived ids x = contains ℕ_discrete (get_id x) ids ≡ true

  pub record IsSound (own : Share) (c : Collection Share) : Type 0 where
    pub distinct : HasDistinctIds c.valid_shares
    pub trusted : Every (IsTrusted own) c.valid_shares
    pub received : Every (IsReceived c.received_share_ids) c.valid_shares

  contains-received :
      (i : ℕ) (ids : List ℕ) (xs : List Share)
      → Every (IsReceived ids) xs
      → contains ℕ_discrete i ids ≡ false
      → contains ℕ_discrete i (map get_id xs) ≡ false
  contains-received i ids [] h e = refl
  contains-received i ids (x ∷ xs) (p, h) e = ground (arith, contains-received i ids xs h e)

  pub contains-append :
      (i : ℕ) (xs : List Share) (y : Share)
      → contains ℕ_discrete i (map get_id xs) ≡ false
      → get_id y ≢ i
      → contains ℕ_discrete i (map get_id (xs ++ (y ∷ []))) ≡ false
  contains-append i [] y e n = ground arith
  contains-append i (x ∷ xs) y e n = ground (arith, contains-append i xs y)

  HasDistinctIds-append :
      (xs : List Share) (y : Share)
      → HasDistinctIds xs
      → contains ℕ_discrete (get_id y) (map get_id xs) ≡ false
      → HasDistinctIds (xs ++ (y ∷ []))
  HasDistinctIds-append [] y h e = (refl, tt)
  HasDistinctIds-append (x ∷ xs) y (d, h) e =
      (contains-append (get_id x) xs y d ground arith, HasDistinctIds-append xs y h ground arith)

  -- The collection that the first round starts is sound.
  pub add_own-IsSound :
      (own : Share) (c : Collection Share) → c ≡ empty → IsSound own (add_own get_id c own)
  unfolding add_own
  add_own-IsSound own c e = rw e (record {
    distinct = (refl, tt);
    trusted = (inl refl, tt);
    received = (contains_here (get_id own) [], tt);
  })

  -- A share that is handled leaves the collection sound, whatever the share is.
  pub accept-IsSound :
      (own : Share) (c : Collection Share) (x : Share)
      → IsSound own c
      → IsSound own (accept get_id verify c x)
  unfolding accept
  accept-IsSound own c x v =
      let ids = c.received_share_ids in
      let later = get_id x ∷ ids in
      let noted : Every (IsReceived later) c.valid_shares =
        Every-map (IsReceived ids) (IsReceived later) c.valid_shares
          (λ y h. contains_later (get_id y) (get_id x) ids h) v.received in
      elim (Bool-cases (contains ℕ_discrete (get_id x) ids)) [
        | inl d ↦ rw d v
        | inr d ↦ elim (Bool-cases (is_verified (verify x))) [
          | inr n ↦
              rw (d, n) (record { distinct = v.distinct; trusted = v.trusted; received = noted })
          | inl y ↦
              rw (d, y)
                (record {
                  distinct =
                      HasDistinctIds-append c.valid_shares x v.distinct
                        (contains-received (get_id x) ids c.valid_shares v.received d);
                  trusted = Every-append (IsTrusted own) c.valid_shares x v.trusted (inr y);
                  received =
                      Every-append (IsReceived later) c.valid_shares x noted
                        (contains_here (get_id x) ids);
                })
        ]
      ]
