-- ===== src/KeyStore/Select.antt =====
-- What `get_key_by_id` and `get_key_by_scheme_and_group` of src/core/schemes/src/keys/key_store.rs
-- select.
use quorumcrypt.Base.{
  String, ◌≡◌, refl, subst, ◌↔◌, ◌⊎◌, inl, inr, Bool, true, false, some, List, [], ◌∷◌, arith,
  Bool-cases, Has, String_discrete,
}
use quorumcrypt.Base.Dict.{values, lookup}
use quorumcrypt.Errors.{ok, err}
use quorumcrypt.Schemes.{ThresholdScheme, Group}
use quorumcrypt.KeyStore.{
  KeyStore, KeyEntry, keep, is_match, select, select_default, get_key_by_scheme_and_group, no_match,
  get_key_by_id,
}
use quorumcrypt.KeyStore.Insert.{IsValid, EntryIsValid, ValidAt}

keep-Has :
    (p : KeyEntry → Bool) (e : KeyEntry) (l : List KeyEntry)
    → Has e (keep p l)
    → Has e l × (p e ≡ true)
keep-Has p e [] m = absurd m
keep-Has p e (x ∷ l) m = ground (arith, keep-Has p e l)

Has-keep :
    (p : KeyEntry → Bool) (e : KeyEntry) (l : List KeyEntry)
    → Has e l
    → p e ≡ true
    → Has e (keep p l)
Has-keep p e [] m h = m
Has-keep p e (x ∷ l) m h = ground (arith, Has-keep p e l)

select_default-ok : (l : List KeyEntry) (e : KeyEntry) → select_default l ≡ ok e → l ≡ e ∷ []
unfolding select_default
select_default-ok [] e h = ground arith
select_default-ok (x ∷ []) e h = ground arith
select_default-ok (x ∷ y ∷ l) e h = ground arith

abbrev pub is_flagged : KeyEntry → Bool
is_flagged e = e.is_default

select-ok :
    (l : List KeyEntry) (e : KeyEntry)
    → select l ≡ ok e
    → Has e l × ((l ≡ e ∷ []) ⊎ (keep is_flagged l ≡ e ∷ []))
unfolding select
select-ok [] e h = ground arith
select-ok (x ∷ []) e h = ground arith
select-ok (x ∷ y ∷ l) e h =
    let only = select_default-ok (keep is_flagged (x ∷ y ∷ l)) e h in
    let (there, flagged) = keep-Has is_flagged e (x ∷ y ∷ l) (rw only (inl refl)) in
    (there, inr only)

-- A key that is selected by scheme and group is stored, has that scheme and group, and is the only
-- such key or the only one of them that carries the default flag.
pub get_key_by_scheme_and_group-ok :
    (s : KeyStore) (scheme : ThresholdScheme) (group : Group) (e : KeyEntry)
    → get_key_by_scheme_and_group s scheme group ≡ ok e
    → Has e (values s.key_entries)
      × (is_match scheme group e ≡ true)
      × ((keep (is_match scheme group) (values s.key_entries) ≡ e ∷ [])
          ⊎ (keep is_flagged (keep (is_match scheme group) (values s.key_entries)) ≡ e ∷ []))
unfolding get_key_by_scheme_and_group
get_key_by_scheme_and_group-ok s scheme group e h =
    let (found, only) = select-ok (keep (is_match scheme group) (values s.key_entries)) e h in
    let (there, fits) = keep-Has (is_match scheme group) e (values s.key_entries) found in
    (there, fits, only)

select-no_match : (l : List KeyEntry) → select l ≡ err no_match → l ≡ []
unfolding select select_default
select-no_match [] h = refl
select-no_match (x ∷ []) h = cc
select-no_match (x ∷ y ∷ l) h = ground arith

keep_none :
    (p : KeyEntry → Bool) (l : List KeyEntry)
    → ((e : KeyEntry) → Has e l → p e ≡ false)
    → keep p l ≡ []
keep_none p [] h = refl
keep_none p (x ∷ l) h = rw (h x (inl refl)) (keep_none p l (λ e m. h e (inr m)))

-- The answer "no key matches" is given exactly when no stored key has the scheme and the group.
pub get_key_by_scheme_and_group-no_match :
    (s : KeyStore) (scheme : ThresholdScheme) (group : Group)
    → (get_key_by_scheme_and_group s scheme group ≡ err no_match)
      ↔ ((e : KeyEntry) → Has e (values s.key_entries) → is_match scheme group e ≡ false)
unfolding get_key_by_scheme_and_group select
get_key_by_scheme_and_group-no_match s scheme group =
    let p = is_match scheme group in
    (
      λ h e m. elim (Bool-cases (p e)) [
        | inl fits ↦
            absurd
              (rw (select-no_match (keep p (values s.key_entries)) h) at (Has-keep p e _ m fits))
        | inr no_fit ↦ no_fit
      ],
      λ h. rw (keep_none p (values s.key_entries) h),
    )

-- On a valid store, a key that is found by an identifier is stored under it, and the identifier of
-- the found key is the one that was asked for.
pub get_key_by_id-ok :
    (s : KeyStore) (id : String) (e : KeyEntry)
    → IsValid s
    → get_key_by_id s id ≡ ok e
    → (lookup String_discrete id s.key_entries ≡ some e) × EntryIsValid id e
unfolding get_key_by_id
get_key_by_id-ok s id e v h =
    let found : lookup String_discrete id s.key_entries ≡ some e = ground arith in
    (found, subst (ValidAt id) found (v.entries id))
