-- ===== src/KeyStore/Defaults.antt =====
-- The default flag of src/core/schemes/src/keys/key_store.rs: how many private keys of an operation
-- carry it after an insertion.
use quorumcrypt.Base.{
  ℕ, ◌+◌, ◌≤◌, String, ◌≡◌, refl, ◌≢◌, inl, inr, Bool, true, false, ◌&&◌, none, [], ◌∷◌, arith,
  Bool-cases, String_discrete, if◌then◌else◌, length,
}
use quorumcrypt.Base.Dict.{
  Dict, values, map_values, lookup, insert, remove, contains_key, lookup-remove,
}
use quorumcrypt.Errors.{ok, err}
use quorumcrypt.Schemes.{
  ThresholdScheme, Group, ThresholdOperation, ThresholdOperation_discrete, get_operation,
}
use quorumcrypt.Keys.{PublicKey, PrivateKeyShare, private_scheme, private_key_id, private_group}
use quorumcrypt.Keys.Laws.{public_scheme-get_public_key, public_group-get_public_key}
use quorumcrypt.KeyStore.{
  KeyStore, KeyEntry, keep, insert_private_key_as, insert_public_key_as, put_private, put_public,
  demote, any_value, is_private_for, private_entry, public_entry, new, get_key_by_scheme_and_group,
  no_default, is_match,
}

abbrev pub is_default_for : ThresholdOperation → KeyEntry → Bool
is_default_for op e = is_private_for op e && e.is_default

-- How many private keys of the operation carry the default flag.
unfoldable pub count_defaults : ThresholdOperation → Dict String KeyEntry → ℕ
count_defaults op m = length (keep (is_default_for op) (values m))

count_defaults-demote :
    (op : ThresholdOperation) (m : Dict String KeyEntry)
    → count_defaults op (map_values (demote op) m) ≡ 0
unfolding count_defaults
count_defaults-demote op [] = refl
count_defaults-demote op ((k, e) ∷ m) = ground (arith, count_defaults-demote op m)

count_defaults-demote_ne :
    (op other : ThresholdOperation) (m : Dict String KeyEntry)
    → op ≢ other
    → count_defaults other (map_values (demote op) m) ≡ count_defaults other m
unfolding count_defaults
count_defaults-demote_ne op other [] h = refl
count_defaults-demote_ne op other ((k, e) ∷ m) h =
    ground (arith, count_defaults-demote_ne op other m h)

count_defaults-insert :
    (op : ThresholdOperation) (k : String) (e : KeyEntry) (m : Dict String KeyEntry)
    → lookup String_discrete k m ≡ none
    → count_defaults op (insert String_discrete k e m)
      ≡ count_defaults op m + (if is_default_for op e then 1 else 0)
unfolding count_defaults lookup insert
count_defaults-insert op k e [] h = ground arith
count_defaults-insert op k e ((j, f) ∷ m) h = ground (arith, count_defaults-insert op k e m)

count_defaults-remove :
    (op : ThresholdOperation) (k : String) (m : Dict String KeyEntry)
    → count_defaults op (remove String_discrete k m) ≤ count_defaults op m
unfolding count_defaults remove
count_defaults-remove op k [] = omega arith
count_defaults-remove op k ((j, f) ∷ m) = ground (arith, count_defaults-remove op k m)

count_defaults_none :
    (op : ThresholdOperation) (m : Dict String KeyEntry)
    → any_value (is_private_for op) m ≡ false
    → count_defaults op m ≡ 0
unfolding count_defaults
count_defaults_none op [] h = refl
count_defaults_none op ((j, f) ∷ m) h = ground (arith, count_defaults_none op m)

-- `put_private` for an operation of any key, where the entries were `n` after the demotion.
count_defaults-put_private :
    (s : KeyStore) (key : PrivateKeyShare) (id : String) (op : ThresholdOperation)
    → let demoted = map_values (demote (get_operation (private_scheme key))) s.key_entries in
      (n : ℕ) × (n ≤ count_defaults op demoted)
      × (count_defaults op (put_private s key id).key_entries
          ≡ n + (if is_default_for op (private_entry s key id) then 1 else 0))
unfolding put_private
count_defaults-put_private s key id op =
    let m = map_values (demote (get_operation (private_scheme key))) s.key_entries in
    let e = private_entry s key id in
    let rest = remove String_discrete id m in
    elim (Bool-cases (contains_key String_discrete id m)) [
      | inl there ↦ rw there (
        count_defaults op rest,
        count_defaults-remove op id m,
        count_defaults-insert op id e rest (ground (arith, lookup-remove String_discrete id id m)),
      )
      | inr fresh ↦
          rw fresh
            (count_defaults op m, omega arith, count_defaults-insert op id e m (ground arith))
    ]

-- After a successful private insertion, the operation of the key has one default if it had no
-- private key before, and none at all otherwise.
pub count_defaults-insert_private_key :
    (s : KeyStore) (key : PrivateKeyShare) (id : String)
    → (insert_private_key_as s key id).1 ≡ ok id
    → let op = get_operation (private_scheme key) in
      count_defaults op (insert_private_key_as s key id).0.key_entries
      ≡ (if any_value (is_private_for op) s.key_entries then 0 else 1)
unfolding insert_private_key_as
count_defaults-insert_private_key s key id h =
    let op = get_operation (private_scheme key) in
    ground (arith, count_defaults-put_private s key id op, count_defaults-demote op s.key_entries)

put_private-le_one :
    (s : KeyStore) (key : PrivateKeyShare) (id : String) (op : ThresholdOperation)
    → count_defaults op s.key_entries ≤ 1
    → count_defaults op (put_private s key id).key_entries ≤ 1
put_private-le_one s key id op h =
    let own = get_operation (private_scheme key) in
    elim (ThresholdOperation_discrete own op) [
      | yes p ↦
          ground
            (arith, count_defaults-put_private s key id op, count_defaults-demote own s.key_entries)
      | no p ↦ ground (
        arith,
        count_defaults-put_private s key id op,
        count_defaults-demote_ne own op s.key_entries p,
      )
    ]

put_public-defaults :
    (s : KeyStore) (key : PublicKey) (id : String) (op : ThresholdOperation)
    → lookup String_discrete id s.key_entries ≡ none
    → count_defaults op (put_public s key id).key_entries ≡ count_defaults op s.key_entries
unfolding put_public
put_public-defaults s key id op h =
    ground (arith, count_defaults-insert op id (public_entry s key id) s.key_entries)

-- Insertions never give an operation two default private keys.
pub insert-count_defaults-le_one :
    (s : KeyStore) (key : PrivateKeyShare) (pk : PublicKey) (id : String) (op : ThresholdOperation)
    → count_defaults op s.key_entries ≤ 1
    → (count_defaults op (insert_private_key_as s key id).0.key_entries ≤ 1)
      × (count_defaults op (insert_public_key_as s pk id).0.key_entries ≤ 1)
unfolding insert_private_key_as insert_public_key_as
insert-count_defaults-le_one s key pk id op h =
    (ground (arith, put_private-le_one s key id op), ground (arith, put_public-defaults s pk id op))

insert_first :
    (a : PrivateKeyShare) (id : String)
    → private_key_id a ≡ id
    → (insert_private_key_as new a id).0.key_entries ≡ (id, private_entry new a id) ∷ []
unfolding insert_private_key_as put_private new lookup insert
insert_first a id h = ground arith

insert_second :
    (s : KeyStore) (b : PrivateKeyShare) (id_a id_b : String) (e : KeyEntry)
    → private_key_id b ≡ id_b
    → id_a ≢ id_b
    → s.key_entries ≡ (id_a, e) ∷ []
    → is_private_for (get_operation (private_scheme b)) e ≡ true
    → (insert_private_key_as s b id_b).0.key_entries
      ≡ (id_a, record e { is_default = false })
        ∷ (id_b, record (private_entry s b id_b) { is_default = false })
        ∷ []
unfolding insert_private_key_as put_private lookup insert
insert_second s b id_a id_b e h apart only private = ground arith

select_unflagged :
    (s : KeyStore) (id_a id_b : String) (scheme : ThresholdScheme) (group : Group) (e f : KeyEntry)
    → s.key_entries ≡ (id_a, e) ∷ (id_b, f) ∷ []
    → is_match scheme group e ≡ true
    → is_match scheme group f ≡ true
    → e.is_default ≡ false
    → f.is_default ≡ false
    → get_key_by_scheme_and_group s scheme group ≡ err no_default
unfolding get_key_by_scheme_and_group
select_unflagged s id_a id_b scheme group e f h me mf de df = rw (h, me, mf, de, df) refl

-- Two private keys of one scheme and group that are inserted into an empty store leave no default
-- key, and a request by scheme and group is refused, in whichever order they come.
pub insert_two-no_default :
    (a b : PrivateKeyShare) (id_a id_b : String)
    → private_key_id a ≡ id_a
    → private_key_id b ≡ id_b
    → id_a ≢ id_b
    → private_scheme b ≡ private_scheme a
    → private_group b ≡ private_group a
    → let s = (insert_private_key_as (insert_private_key_as new a id_a).0 b id_b).0 in
      get_key_by_scheme_and_group s (private_scheme a) (private_group a) ≡ err no_default
insert_two-no_default a b id_a id_b ha hb apart scheme group =
    let one = (insert_private_key_as new a id_a).0 in
    select_unflagged _ id_a id_b _ _ _ _
      (insert_second one b id_a id_b (private_entry new a id_a) hb apart (insert_first a id_a ha)
        (ground arith))
      (ground (arith, public_scheme-get_public_key a, public_group-get_public_key a))
      (ground (arith, public_scheme-get_public_key b, public_group-get_public_key b)) refl refl
