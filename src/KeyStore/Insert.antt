-- ===== src/KeyStore/Insert.antt =====
-- What the two insertions of src/core/schemes/src/keys/key_store.rs do to the entries.
use mathlib.Core.Option
use quorumcrypt.Base.{
  String, ◌≡◌, refl, ◌∙◌, ite, if_pos, if_neg, false, Option, none, some, arith, String_discrete,
  Bool-cases, inl, inr,
}
use quorumcrypt.Base.Dict.{
  map_values, lookup, remove, Distinct, contains_key, lookup-insert, lookup-remove,
  lookup-map_values, insert-Distinct, remove-Distinct, map_values-Distinct,
}
use quorumcrypt.Errors.{ok, err}
use quorumcrypt.Schemes.{ThresholdOperation, get_operation}
use quorumcrypt.Keys.{
  PublicKey, PrivateKeyShare, get_public_key, private_scheme, private_key_id, public_key_id,
}
use quorumcrypt.Keys.Laws.{public_key_id-get_public_key}
use quorumcrypt.KeyStore.{
  KeyStore, KeyEntry, KeyStoreError, insert_private_key_as, insert_public_key_as, put_private,
  put_public, demote, private_entry, public_entry, has_private, is_private_for,
}

-- What `put_private` leaves under every identifier.
lookup-put_private :
    (s : KeyStore) (key : PrivateKeyShare) (id j : String)
    → lookup String_discrete j (put_private s key id).key_entries
      ≡ ite (String_discrete id j) (some (private_entry s key id)) (
          Option.map
            (demote (get_operation (private_scheme key)))
            (lookup String_discrete j s.key_entries))
unfolding put_private
lookup-put_private s key id j =
    let op = get_operation (private_scheme key) in
    let m = map_values (demote op) s.key_entries in
    ground (
      arith,
      lookup-insert String_discrete id j (private_entry s key id) m,
      lookup-insert String_discrete id j (private_entry s key id) (remove String_discrete id m),
      lookup-remove String_discrete id j m,
      lookup-map_values String_discrete (demote op) j s.key_entries,
    )

-- A successful private insertion stores the key under its identifier and clears the default flag
-- of the other private keys of its operation; all other entries stay.
pub insert_private_key-lookup :
    (s : KeyStore) (key : PrivateKeyShare) (id j : String)
    → private_key_id key ≡ id
    → has_private (lookup String_discrete id s.key_entries) ≡ false
    → ((insert_private_key_as s key id).1 ≡ ok id)
      × (lookup String_discrete j (insert_private_key_as s key id).0.key_entries
          ≡ ite (String_discrete id j) (some (private_entry s key id)) (
              Option.map
                (demote (get_operation (private_scheme key)))
                (lookup String_discrete j s.key_entries)))
unfolding insert_private_key_as
insert_private_key-lookup s key id j e fresh = ground (arith, lookup-put_private s key id j)

-- A successful public insertion stores the key under its identifier and leaves all other entries.
pub insert_public_key-lookup :
    (s : KeyStore) (key : PublicKey) (id j : String)
    → public_key_id key ≡ id
    → lookup String_discrete id s.key_entries ≡ none
    → ((insert_public_key_as s key id).1 ≡ ok id)
      × (lookup String_discrete j (insert_public_key_as s key id).0.key_entries
          ≡ ite
              (String_discrete id j)
              (some (public_entry s key id))
              (lookup String_discrete j s.key_entries))
unfolding insert_public_key_as put_public
insert_public_key-lookup s key id j e fresh =
    ground (arith, lookup-insert String_discrete id j (public_entry s key id) s.key_entries)

-- An insertion that fails leaves the store as it was.
pub insert_err :
    (s : KeyStore) (key : PrivateKeyShare) (pk : PublicKey) (id : String) (e : KeyStoreError)
    → ((insert_private_key_as s key id).1 ≡ err e → (insert_private_key_as s key id).0 ≡ s)
      × ((insert_public_key_as s pk id).1 ≡ err e → (insert_public_key_as s pk id).0 ≡ s)
unfolding insert_private_key_as insert_public_key_as
insert_err s key pk id e = (λ h. ground arith, λ h. ground arith)

abbrev Pairs : Option PrivateKeyShare → PublicKey → Type 0
Pairs none pk = Unit {0}
Pairs (some sk) pk = get_public_key sk ≡ pk

-- What an entry under the identifier `j` satisfies: both copies of its identifier are `j`, and the
-- private share, where there is one, is a share of the entry's public key.
pub record EntryIsValid (j : String) (e : KeyEntry) : Type 0 where
  pub own_id : e.id ≡ j
  pub key_id : public_key_id e.pk ≡ j
  pub paired : Pairs e.sk e.pk

abbrev pub ValidAt : String → Option KeyEntry → Type 0
ValidAt j none = Unit {0}
ValidAt j (some e) = EntryIsValid j e

pub record IsValid (s : KeyStore) : Type 0 where
  pub distinct : Distinct String_discrete s.key_entries
  pub entries : (j : String) → ValidAt j (lookup String_discrete j s.key_entries)

demote-ValidAt :
    (op : ThresholdOperation) (j : String) (o : Option KeyEntry)
    → ValidAt j o
    → ValidAt j (Option.map (demote op) o)
demote-ValidAt op j none v = tt
demote-ValidAt op j (some e) v = elim (Bool-cases (is_private_for op e)) [
  | inl p ↦ rw p (record { own_id = v.own_id; key_id = v.key_id; paired = v.paired })
  | inr p ↦ rw p v
]

put_private-Distinct :
    (s : KeyStore) (key : PrivateKeyShare) (id : String)
    → Distinct String_discrete s.key_entries
    → Distinct String_discrete (put_private s key id).key_entries
unfolding put_private
put_private-Distinct s key id d =
    let m = map_values (demote (get_operation (private_scheme key))) s.key_entries in
    let dm = map_values-Distinct String_discrete _ s.key_entries d in
    elim (Bool-cases (contains_key String_discrete id m)) [
      | inl p ↦
          rw p (insert-Distinct String_discrete id _ _ (remove-Distinct String_discrete id m dm))
      | inr p ↦ rw p (insert-Distinct String_discrete id _ m dm)
    ]

put_private-IsValid :
    (s : KeyStore) (key : PrivateKeyShare) (id : String)
    → private_key_id key ≡ id
    → IsValid s
    → IsValid (put_private s key id)
put_private-IsValid s key id h v = record {
  distinct = put_private-Distinct s key id v.distinct;
  entries = λ j. rw (lookup-put_private s key id j) (elim (String_discrete id j) [
    | yes p ↦
        rw (if_pos _ p)
          (record { own_id = p; key_id = public_key_id-get_public_key key ∙ h ∙ p; paired = refl })
    | no p ↦ rw (if_neg _ p) (demote-ValidAt _ j _ (v.entries j))
  ]);
}

put_public-IsValid :
    (s : KeyStore) (key : PublicKey) (id : String)
    → public_key_id key ≡ id
    → IsValid s
    → IsValid (put_public s key id)
unfolding put_public
put_public-IsValid s key id h v = record {
  distinct = insert-Distinct String_discrete id _ s.key_entries v.distinct;
  entries = λ j. rw (lookup-insert String_discrete id j) (elim (String_discrete id j) [
    | yes p ↦ rw (if_pos _ p) (record { own_id = p; key_id = h ∙ p; paired = tt })
    | no p ↦ rw (if_neg _ p) (v.entries j)
  ]);
}

-- Both insertions keep the store valid, whether they succeed or fail.
pub insert-IsValid :
    (s : KeyStore) (key : PrivateKeyShare) (pk : PublicKey) (id : String)
    → IsValid s
    → IsValid (insert_private_key_as s key id).0 × IsValid (insert_public_key_as s pk id).0
unfolding insert_private_key_as insert_public_key_as
insert-IsValid s key pk id v =
    (ground (arith, put_private-IsValid s key id), ground (arith, put_public-IsValid s pk id))

pub insert_public-IsValid :
    (s : KeyStore) (pk : PublicKey) (id : String)
    → IsValid s
    → IsValid (insert_public_key_as s pk id).0
unfolding insert_public_key_as
insert_public-IsValid s pk id v = ground (arith, put_public-IsValid s pk id)
