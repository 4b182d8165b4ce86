-- ===== src/KeyStore.antt =====
-- src/core/schemes/src/keys/key_store.rs: the key entries of a server, the two insertions, the
-- selections by identifier and by scheme and group.
pub mod Insert
pub mod Select
pub mod Defaults
pub mod Serial
pub mod Reload
use quorumcrypt.Base.{
  ℕ, String, Bool, true, false, not, ◌&&◌, Option, none, some, List, [], ◌∷◌, map, is_some, ite,
  if◌then◌else◌, String_discrete,
}
use quorumcrypt.Base.Dict.{Dict, values, map_values, lookup, insert, remove, contains_key}
use quorumcrypt.Errors.{Result, ok, err}
use quorumcrypt.Schemes.{
  ThresholdScheme, Group, ThresholdOperation, encryption, signature, coin, ThresholdScheme_discrete,
  Group_discrete, ThresholdOperation_discrete, get_operation, group_name, scheme_name,
}
use quorumcrypt.Keys.{
  Bytes, Codec, PublicKey, PrivateKeyShare, public_scheme, public_key_id, public_group,
  public_operation, private_scheme, private_key_id, get_public_key, key2id, public_to_bytes,
  public_from_bytes, public_pem, private_pem, public_from_pem, private_from_pem,
}

pub data KeyStoreError : Type 0 where
  duplicate_entry : String → KeyStoreError
  id_mismatch : KeyStoreError
  id_not_found : String → KeyStoreError

pub record KeyEntry : Type 0 where
  pub id : String
  pub is_default : Bool
  pub sk : Option PrivateKeyShare
  pub pk : PublicKey

pub record KeyStore : Type 0 where
  pub key_entries : Dict String KeyEntry
  pub filename : Option String

unfoldable pub new : KeyStore
new = record { key_entries = []; filename = none }

abbrev pub is_same_operation : ThresholdOperation → ThresholdOperation → Bool
is_same_operation a b = ite (ThresholdOperation_discrete a b) true false

abbrev holds_operation : ThresholdOperation → Option PrivateKeyShare → Bool
holds_operation op none = false
holds_operation op (some sk) = is_same_operation (get_operation (private_scheme sk)) op

-- The filter of `matching_keys`: a private key of the operation.
abbrev pub is_private_for : ThresholdOperation → KeyEntry → Bool
is_private_for op e = holds_operation op e.sk

-- A public key, with or without its private share, of the operation.
abbrev pub is_public_for : ThresholdOperation → KeyEntry → Bool
is_public_for op e = is_same_operation (public_operation e.pk) op

abbrev pub any_value : (KeyEntry → Bool) → Dict String KeyEntry → Bool
any_value p [] = false
any_value p ((k, e) ∷ m) = if p e then true else any_value p m

abbrev pub has_private : Option KeyEntry → Bool
has_private none = false
has_private (some e) = is_some e.sk

-- The loop over `matching_keys` clears the flag of each.
abbrev pub demote : ThresholdOperation → KeyEntry → KeyEntry
demote op e = if is_private_for op e then record e { is_default = false } else e

-- The entry that `insert_private_key` stores.
abbrev pub private_entry : KeyStore → PrivateKeyShare → String → KeyEntry
private_entry s key key_id = record {
  id = key_id;
  is_default = not (any_value (is_private_for (get_operation (private_scheme key))) s.key_entries);
  sk = some key;
  pk = get_public_key key;
}

unfoldable pub put_private : KeyStore → PrivateKeyShare → String → KeyStore
put_private s key key_id =
    let demoted = map_values (demote (get_operation (private_scheme key))) s.key_entries in
    let cleared =
      if contains_key String_discrete key_id demoted
      then remove String_discrete key_id demoted
      else demoted in
    record s { key_entries = insert String_discrete key_id (private_entry s key key_id) cleared }

-- The entry that `insert_public_key` stores.
abbrev pub public_entry : KeyStore → PublicKey → String → KeyEntry
public_entry s key key_id = record {
  id = key_id;
  is_default = not (any_value (is_public_for (public_operation key)) s.key_entries);
  sk = none;
  pk = key;
}

unfoldable pub put_public : KeyStore → PublicKey → String → KeyStore
put_public s key key_id = record s {
  key_entries = insert String_discrete key_id (public_entry s key key_id) s.key_entries;
}

unfoldable pub insert_private_key_as :
    KeyStore → PrivateKeyShare → String → KeyStore × Result KeyStoreError String
insert_private_key_as s key key_id =
    ite (String_discrete key_id (private_key_id key))
      (if has_private (lookup String_discrete key_id s.key_entries)
        then (s, err (duplicate_entry key_id))
        else (put_private s key key_id, ok key_id))
      (s, err id_mismatch)

unfoldable pub insert_public_key_as :
    KeyStore → PublicKey → String → KeyStore × Result KeyStoreError String
insert_public_key_as s key key_id =
    ite (String_discrete key_id (public_key_id key))
      (if contains_key String_discrete key_id s.key_entries
        then (s, err (duplicate_entry key_id))
        else (put_public s key key_id, ok key_id))
      (s, err id_mismatch)

unfoldable pub get_key_by_id : KeyStore → String → Result KeyStoreError KeyEntry
get_key_by_id s id = elim (lookup String_discrete id s.key_entries) [
  | none ↦ err (id_not_found id)
  | some e ↦ ok e
]

-- Why no key is selected: the three error texts of `get_key_by_scheme_and_group`.
pub data SelectError : Type 0 where
  no_match no_default many_defaults : SelectError

abbrev pub keep : (KeyEntry → Bool) → List KeyEntry → List KeyEntry
keep p [] = []
keep p (e ∷ es) = if p e then e ∷ keep p es else keep p es

abbrev pub is_match : ThresholdScheme → Group → KeyEntry → Bool
is_match scheme group e =
    ite (ThresholdScheme_discrete (public_scheme e.pk) scheme)
      (ite (Group_discrete group (public_group e.pk)) true false) false

unfoldable pub select_default : List KeyEntry → Result SelectError KeyEntry
select_default [] = err no_default
select_default (e ∷ []) = ok e
select_default (e ∷ f ∷ es) = err many_defaults

unfoldable pub select : List KeyEntry → Result SelectError KeyEntry
unfolding select_default
select [] = err no_match
select (e ∷ []) = ok e
select (e ∷ f ∷ es) = select_default (keep (λ e. e.is_default) (e ∷ f ∷ es))

unfoldable pub get_key_by_scheme_and_group :
    KeyStore → ThresholdScheme → Group → Result SelectError KeyEntry
unfolding select
get_key_by_scheme_and_group s scheme group =
    select (keep (is_match scheme group) (values s.key_entries))

unfoldable pub get_keys_by_operation : KeyStore → ThresholdOperation → List KeyEntry
get_keys_by_operation s op = keep (is_public_for op) (values s.key_entries)

unfoldable pub get_encryption_keys : KeyStore → List KeyEntry
unfolding get_keys_by_operation
get_encryption_keys s = get_keys_by_operation s encryption

unfoldable pub get_signing_keys : KeyStore → List KeyEntry
unfolding get_keys_by_operation
get_signing_keys s = get_keys_by_operation s signature

unfoldable pub get_coin_keys : KeyStore → List KeyEntry
unfolding get_keys_by_operation
get_coin_keys s = get_keys_by_operation s coin
