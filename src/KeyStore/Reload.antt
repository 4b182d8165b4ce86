-- ===== src/KeyStore/Reload.antt =====
-- What is read into the store of src/core/schemes/src/keys/key_store.rs is valid.
use quorumcrypt.Base.Dict.{lookup}
use quorumcrypt.Base.{◌≡◌, ap, subst, ◌∙◌, Option, some, List, [], ◌∷◌, ite, String_discrete}
use quorumcrypt.Errors.{Result, ok, err, SchemeError}
use quorumcrypt.KeyStore.Insert.{IsValid, insert-IsValid, insert_public-IsValid}
use quorumcrypt.KeyStore.Serial.{
  SerializedKeyEntry, insert_private_key, insert_public_key, read_private_entry, read_public_entry,
  read_entry, read_entries, from_entries, import_public_keys,
}
use quorumcrypt.KeyStore.{KeyStore, insert_private_key_as, insert_public_key_as, new}
use quorumcrypt.Keys.{
  Bytes, Codec, PublicKey, PrivateKeyShare, get_public_key, key2id, private_from_pem,
  public_from_pem, public_from_bytes,
}
use mathlib.Core.Option

-- What follows from both outcomes follows from the choice.
ite_either :
    {X Q : Type 0} (d : Dec X) (x y : Option KeyStore) (t : KeyStore)
    → (x ≡ some t → Q)
    → (y ≡ some t → Q)
    → ite d x y ≡ some t
    → Q
ite_either (yes a) x y t p q h = p h
ite_either (no a) x y t p q h = q h

module _ (c : Codec) where
  read_private_entry-IsValid :
      (s t : KeyStore) (r : Result SchemeError PrivateKeyShare)
      → IsValid s
      → read_private_entry c s r ≡ some t
      → IsValid t
  unfolding read_private_entry insert_private_key
  read_private_entry-IsValid s t (err e) v h = subst IsValid (Option.some-injective _ _ h) v
  read_private_entry-IsValid s t (ok key) v h =
      let (r, q, e) = (Option.map-eq-some_iff (λ r. r.0) (insert_private_key c s key)).0 h in
      let (id, k, m) =
        (Option.map-eq-some_iff (λ id. insert_private_key_as s key id)
            (key2id c (get_public_key key))).0
          q in
      subst IsValid (ap (λ r. r.0) m ∙ e) (insert-IsValid s key (get_public_key key) id v).0

  read_public_entry-IsValid :
      (s t : KeyStore) (r : Result SchemeError PublicKey)
      → IsValid s
      → read_public_entry c s r ≡ some t
      → IsValid t
  unfolding read_public_entry insert_public_key
  read_public_entry-IsValid s t (err e) v h = subst IsValid (Option.some-injective _ _ h) v
  read_public_entry-IsValid s t (ok key) v h =
      let (r, q, e) = (Option.map-eq-some_iff (λ r. r.0) (insert_public_key c s key)).0 h in
      let (id, k, m) =
        (Option.map-eq-some_iff (λ id. insert_public_key_as s key id) (key2id c key)).0 q in
      subst IsValid (ap (λ r. r.0) m ∙ e) (insert_public-IsValid s key id v)

  read_entry-IsValid :
      (s t : KeyStore) (entry : SerializedKeyEntry)
      → IsValid s
      → read_entry c s entry ≡ some t
      → IsValid t
  unfolding read_entry
  read_entry-IsValid s t entry v h =
      ite_either (String_discrete entry.key_type "secret")
        (read_private_entry c s (private_from_pem c entry.key))
        (read_public_entry c s (public_from_pem c entry.key)) t
        (read_private_entry-IsValid s t (private_from_pem c entry.key) v)
        (read_public_entry-IsValid s t (public_from_pem c entry.key) v) h

  read_entries-IsValid :
      (s t : KeyStore) (entries : List SerializedKeyEntry)
      → IsValid s
      → read_entries c s entries ≡ some t
      → IsValid t
  unfolding read_entries read_entry
  read_entries-IsValid s t [] v h = subst IsValid (Option.some-injective _ _ h) v
  read_entries-IsValid s t (entry ∷ entries) v h =
      let (u, q, r) =
        (Option.bind-eq-some_iff (read_entry c s entry) (λ u. read_entries c u entries)).0 h in
      read_entries-IsValid u t entries (read_entry-IsValid s u entry v q) r

  -- Whatever entries are read from a file, in whatever order and with whatever keys among them that do
  -- not parse or are refused, the store is valid.
  pub from_entries-IsValid :
      (entries : List SerializedKeyEntry) (t : KeyStore)
      → from_entries c entries ≡ some t
      → IsValid t
  unfolding from_entries new lookup
  from_entries-IsValid entries t h =
      read_entries-IsValid _ t entries (record { distinct = tt; entries = λ j. tt }) h

  import_step :
      (s t : KeyStore) (keys : List Bytes) (r : Result SchemeError (Unit {0}))
      → IsValid s
      → ((u : KeyStore) → IsValid u → import_public_keys c u keys ≡ some (t, r) → IsValid t)
      → (o : Result SchemeError PublicKey)
      → (elim o [
        | err e ↦ some (s, err e)
        | ok pk ↦ Option.bind (read_public_entry c s (ok pk)) (λ u. import_public_keys c u keys)
      ]
          ≡ some (t, r))
      → IsValid t
  import_step s t keys r v ih (err e) h =
      subst IsValid (ap (λ x. x.0) (Option.some-injective _ _ h)) v
  import_step s t keys r v ih (ok pk) h =
      let (u, q, m) =
        (Option.bind-eq-some_iff (read_public_entry c s (ok pk))
            (λ u. import_public_keys c u keys)).0
          h in
      ih u (read_public_entry-IsValid s u (ok pk) v q) m

  -- An import keeps the store valid, whether it ends with an error or not.
  pub import_public_keys-IsValid :
      (s t : KeyStore) (keys : List Bytes) (r : Result SchemeError (Unit {0}))
      → IsValid s
      → import_public_keys c s keys ≡ some (t, r)
      → IsValid t
  unfolding import_public_keys
  import_public_keys-IsValid s t [] r v h =
      subst IsValid (ap (λ x. x.0) (Option.some-injective _ _ h)) v
  import_public_keys-IsValid s t (key ∷ keys) r v h =
      import_step s t keys r v (λ u w k. import_public_keys-IsValid u t keys r w k)
        (public_from_bytes c key) h
