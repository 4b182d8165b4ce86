-- ===== src/KeyStore/Serial.antt =====
-- The serialized form of the store of src/core/schemes/src/keys/key_store.rs: reading and writing its
-- entries and importing public keys. Files and serde's JSON are left out: what is read is the list of
-- entries. A result of `none` is a panic.
use quorumcrypt.Base.Dict.{Dict}
use quorumcrypt.Base.{String, Option, none, some, List, [], ◌∷◌, ite, String_discrete}
use quorumcrypt.Errors.{Result, ok, err, SchemeError}
use quorumcrypt.KeyStore.{
  KeyStore, KeyEntry, KeyStoreError, insert_private_key_as, insert_public_key_as, new,
}
use quorumcrypt.Keys.{
  Bytes, Codec, PublicKey, PrivateKeyShare, public_group, public_scheme, public_operation,
  public_from_bytes, public_pem, private_pem, public_from_pem, private_from_pem, key2id,
  get_public_key,
}
use quorumcrypt.Schemes.{ThresholdOperation, group_name, scheme_name}
use mathlib.Core.Option

pub record SerializedKeyEntry : Type 0 where
  pub id : String
  pub key_type : String
  pub group : String
  pub scheme : String
  pub operation : String
  pub key : String

-- `as_str_name` of an operation.
unfoldable pub operation_name : ThresholdOperation → String
operation_name ThresholdOperation.encryption = "Encryption"
operation_name ThresholdOperation.signature = "Signature"
operation_name ThresholdOperation.coin = "Coin"

module _ (c : Codec) where
  -- The identifier is computed from the key.
  unfoldable pub insert_private_key :
      KeyStore → PrivateKeyShare → Option (KeyStore × Result KeyStoreError String)
  insert_private_key s key =
      Option.map (λ key_id. insert_private_key_as s key key_id) (key2id c (get_public_key key))

  unfoldable pub insert_public_key :
      KeyStore → PublicKey → Option (KeyStore × Result KeyStoreError String)
  insert_public_key s key = Option.map (λ key_id. insert_public_key_as s key key_id) (key2id c key)

  -- One entry that is read: a key that does not parse is skipped, and so is an insertion that fails.
  unfoldable pub read_private_entry :
      KeyStore → Result SchemeError PrivateKeyShare → Option KeyStore
  unfolding insert_private_key
  read_private_entry s (err e) = some s
  read_private_entry s (ok key) = Option.map (λ r. r.0) (insert_private_key s key)

  unfoldable pub read_public_entry : KeyStore → Result SchemeError PublicKey → Option KeyStore
  unfolding insert_public_key
  read_public_entry s (err e) = some s
  read_public_entry s (ok key) = Option.map (λ r. r.0) (insert_public_key s key)

  unfoldable pub read_entry : KeyStore → SerializedKeyEntry → Option KeyStore
  unfolding read_private_entry read_public_entry
  read_entry s entry =
      ite (String_discrete entry.key_type "secret")
        (read_private_entry s (private_from_pem c entry.key))
        (read_public_entry s (public_from_pem c entry.key))

  -- The loop of `from` on the entries that are left.
  unfoldable pub read_entries : KeyStore → List SerializedKeyEntry → Option KeyStore
  unfolding read_entry Option.bind
  read_entries s [] = some s
  read_entries s (entry ∷ entries) = Option.bind (read_entry s entry) (λ t. read_entries t entries)

  unfoldable pub from_entries : List SerializedKeyEntry → Option KeyStore
  unfolding read_entries new
  from_entries entries = read_entries new entries

  -- The encoding of a key is unwrapped.
  unfoldable pub write_key : KeyEntry → Result SchemeError String
  write_key e = elim e.sk [ none ↦ public_pem c e.pk | some sk ↦ private_pem c sk ]

  abbrev pub key_type_of : Option PrivateKeyShare → String
  key_type_of none = "public"
  key_type_of (some sk) = "secret"

  unfoldable pub write_entry : String → KeyEntry → Option SerializedKeyEntry
  unfolding write_key operation_name
  write_entry id e = elim (write_key e) [
    | err f ↦ none
    | ok key ↦ some (record {
      id = id;
      key_type = key_type_of e.sk;
      group = group_name (public_group e.pk);
      scheme = scheme_name (public_scheme e.pk);
      operation = operation_name (public_operation e.pk);
      key = key;
    })
  ]

  unfoldable pub to_entries : Dict String KeyEntry → Option (List SerializedKeyEntry)
  unfolding write_entry
  to_entries [] = some []
  to_entries ((id, e) ∷ m) =
      let rest = to_entries m in
      elim (write_entry id e) [ none ↦ none | some x ↦ Option.map (λ xs. x ∷ xs) rest ]

  -- A key that does not parse ends the import; the keys before it stay.
  unfoldable pub import_public_keys :
      KeyStore → List Bytes → Option (KeyStore × Result SchemeError (Unit {0}))
  unfolding read_public_entry Option.bind
  import_public_keys s [] = some (s, ok tt)
  import_public_keys s (key ∷ keys) = elim (public_from_bytes c key) [
    | err e ↦ some (s, err e)
    | ok pk ↦ Option.bind (read_public_entry s (ok pk)) (λ t. import_public_keys t keys)
  ]
