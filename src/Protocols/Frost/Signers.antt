-- ===== src/Protocols/Frost/Signers.antt =====
-- Whose commitments and shares the FROST protocol (src/core/protocols/src/frost/protocol.rs) keeps.
use quorumcrypt.Base.Dict.{values, lookup, insert, contains_key}
use quorumcrypt.Base.{
  ℕ, ◌≡◌, refl, subst, Bool, true, Option, none, some, [], ◌∷◌, Bool-cases, inl, inr, contains,
  ℕ_discrete, if_both, length,
}
use quorumcrypt.Errors.{Result, ok, err, SchemeError, ProtocolError}
use quorumcrypt.Protocols.Frost.{
  Frost, FrostMessage, FrostData, FrostOptions, no_precomputation, FrostProtocol, verify_waiting,
  find_waiting, take_commitment, verify_new, take_share, on_commitment, update,
  take_precomputations, is_empty, is_ready_to_finalize, has_all,
}
use quorumcrypt.Protocols.Frost.Entries.{
  IsValidAt, contains-remove_id, contains-insert_id, contains_key-insert, has_all-lookup,
  is_empty-contains, commitment_there, ready_parts, IsValidAt-unverified, IsValidAt-verified,
  IsValidAt-late, IsValidAt-early,
}

module _ {Nonce Commitment Share GroupElement : Type 0} where
  abbrev pub IsValid : FrostProtocol Nonce Commitment Share GroupElement → Type 0
  IsValid p =
      (i : ℕ)
      → IsValidAt (contains ℕ_discrete i p.signer_group)
          (contains_key ℕ_discrete i p.commitment_list) (contains_key ℕ_discrete i p.shares)
          (contains ℕ_discrete i p.not_verified_shares)

  -- After an operation that succeeds the state is valid.
  abbrev pub Keeps :
      Option (FrostProtocol Nonce Commitment Share GroupElement × Result ProtocolError (Unit {0}))
      → Type 0
  Keeps none = Unit {0}
  Keeps (some (p, err e)) = Unit {0}
  Keeps (some (p, ok u)) = IsValid p

module _ {Nonce Commitment Share GroupElement : Type 0}
    (scheme : Frost Nonce Commitment Share GroupElement) where
  verified-Keeps :
      (p : FrostProtocol Nonce Commitment Share GroupElement) (id : ℕ) (x : Share)
      → Keeps (verify_waiting scheme p id x (some (ok true)))
      → (r : Option (Result SchemeError Bool)) → Keeps (verify_waiting scheme p id x r)
  verified-Keeps p id x h none = tt
  verified-Keeps p id x h (some (err e)) = tt
  verified-Keeps p id x h (some (ok is_valid)) = h

  find_waiting-Keeps :
      (p : FrostProtocol Nonce Commitment Share GroupElement) (id : ℕ) (c : Commitment)
      → IsValid p
      → contains ℕ_discrete id p.signer_group ≡ true
      → (o : Option Share) → lookup ℕ_discrete id p.shares ≡ o
      → Keeps (
          find_waiting scheme
            (record p { commitment_list = insert ℕ_discrete id c p.commitment_list })
            id
            o)
  find_waiting-Keeps p id c v s none e = λ i.
      rw (contains_key-insert i id c p.commitment_list)
        (IsValidAt-early (ℕ_discrete i id) _ _ _ _ (λ a. rw a s) (λ a. rw (a, e) refl) (v i))
  find_waiting-Keeps p id c v s (some x) e =
      let d = insert ℕ_discrete id c p.commitment_list in
      verified-Keeps (record p { commitment_list = d }) id x
        (λ i.
          rw
            (
              contains_key-insert i id c p.commitment_list,
              contains_key-insert i id x p.shares,
              contains-remove_id i id p.not_verified_shares,
            )
            (IsValidAt-late (ℕ_discrete i id) _ _ _ _ (λ a. rw a s) (v i)))
        (scheme.verify_share x p.key.pubkey p.msg (values d))

  take_commitment-Keeps :
      (p : FrostProtocol Nonce Commitment Share GroupElement) (id : ℕ) (c : Commitment)
      → IsValid p
      → Keeps (take_commitment scheme p id c)
  unfolding take_commitment
  take_commitment-Keeps p id c v = elim (Bool-cases (contains ℕ_discrete id p.signer_group)) [
    | inr s ↦ rw s v
    | inl s ↦ simp s (
        if_both Keeps (contains_key ℕ_discrete id p.commitment_list) _ _ v
          (find_waiting-Keeps p id c v s (lookup ℕ_discrete id p.shares) refl))
  ]

  verify_new-Keeps :
      (p : FrostProtocol Nonce Commitment Share GroupElement) (id : ℕ) (x : Share)
      → IsValid p
      → contains ℕ_discrete id p.signer_group ≡ true
      → contains_key ℕ_discrete id p.commitment_list ≡ true
      → (r : Option (Result SchemeError Bool)) → Keeps (verify_new scheme p id x r)
  verify_new-Keeps p id x v s c none = tt
  verify_new-Keeps p id x v s c (some (err e)) = tt
  verify_new-Keeps p id x v s c (some (ok is_valid)) = λ i.
      rw (contains_key-insert i id x p.shares)
        (IsValidAt-verified (ℕ_discrete i id) _ _ _ _ (λ a. rw a s) (λ a. rw a c) (v i))

  take_share-Keeps :
      (p : FrostProtocol Nonce Commitment Share GroupElement) (id : ℕ) (x : Share)
      → IsValid p
      → Keeps (take_share scheme p id x)
  unfolding take_share
  take_share-Keeps p id x v = elim (Bool-cases (contains ℕ_discrete id p.signer_group)) [
    | inr s ↦ rw s v
    | inl s ↦ simp s (
        if_both Keeps (contains_key ℕ_discrete id p.shares) _ _ v
          (elim (Bool-cases (contains_key ℕ_discrete id p.commitment_list)) [
            | inl c ↦ simp c (verify_new-Keeps p id x v s c _)
            | inr c ↦ simp c (λ i.
                rw
                  (
                    contains_key-insert i id x p.shares,
                    contains-insert_id i id p.not_verified_shares,
                  )
                  (IsValidAt-unverified (ℕ_discrete i id) _ _ _ _ (λ a. rw a s) (λ a. rw a c)
                    (v i)))
          ]))
  ]

  on_commitment-Keeps :
      (p : FrostProtocol Nonce Commitment Share GroupElement) (id : ℕ) (c : Commitment)
      (o : FrostOptions)
      → IsValid p
      → Keeps (on_commitment scheme p id c o)
  on_commitment-Keeps p id c FrostOptions.precompute_only v = v
  on_commitment-Keeps p id c _ v = take_commitment-Keeps p id c v

  update-Keeps :
      (p : FrostProtocol Nonce Commitment Share GroupElement) (m : FrostMessage Commitment Share)
      → p.options ≡ no_precomputation
      → IsValid p
      → Keeps (update scheme p m)
  unfolding update take_precomputations
  update-Keeps p m o v =
      elim m.data_of as (λ d. Keeps (update scheme p (record m { data_of = d }))) [
        | FrostData.commitment c ↦ on_commitment-Keeps p m.id c p.options v
        | FrostData.share x ↦ take_share-Keeps p m.id x v
        | FrostData.precomputations [] ↦ tt
        | FrostData.precomputations (c ∷ cs) ↦
            if_both Keeps (contains ℕ_discrete m.id p.signer_group) _ _ (simp o v) v
        | FrostData.default ↦ tt
      ]

  -- Without precomputation, a message that is taken without an error keeps this: only signers have
  -- commitments and shares, and a signer's share is marked as unverified exactly while the signer's
  -- commitment is missing.
  pub update-IsValid :
      (p q : FrostProtocol Nonce Commitment Share GroupElement) (m : FrostMessage Commitment Share)
      → p.options ≡ no_precomputation
      → update scheme p m ≡ some (q, ok tt)
      → IsValid p
      → IsValid q
  update-IsValid p q m o e v = subst Keeps e (update-Keeps p m o v)

  -- A state of that kind that is ready to finalize has exactly as many shares as the threshold, and
  -- of every signer both the share and the commitment, so that the commitment of the group is
  -- computed from all signers'.
  pub is_ready_to_finalize_complete :
      (p : FrostProtocol Nonce Commitment Share GroupElement)
      → IsValid p
      → is_ready_to_finalize scheme p ≡ true
      → (length p.shares ≡ p.key.pubkey.k)
        × ((i : ℕ)
            → contains ℕ_discrete i p.signer_group ≡ true
            → (contains_key ℕ_discrete i p.commitment_list ≡ true)
              × (contains_key ℕ_discrete i p.shares ≡ true))
  unfolding is_ready_to_finalize
  is_ready_to_finalize_complete p v h =
      let (n, e, a) =
        ready_parts (length p.shares) p.key.pubkey.k (is_empty p.not_verified_shares)
          (has_all p.signer_group p.shares) h in
      (
        n,
        λ i s.
            let x = has_all-lookup p.signer_group p.shares i a s in
            (commitment_there _ _ _ _ (v i) s x (is_empty-contains p.not_verified_shares i e), x),
      )
