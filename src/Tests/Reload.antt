-- ===== src/Tests/Reload.antt =====
-- A run of the reading of a store, src/core/schemes/src/keys/key_store.rs.
use quorumcrypt.Base.Dict.{lookup, insert, remove}
use quorumcrypt.Base.{String, String_discrete, ◌≡◌, refl, some, [], ◌∷◌}
use quorumcrypt.KeyStore.Insert.{IsValid}
use quorumcrypt.KeyStore.Reload.{from_entries-IsValid}
use quorumcrypt.KeyStore.Serial.{
  SerializedKeyEntry, from_entries, read_entries, read_entry, read_private_entry, read_public_entry,
  insert_private_key, insert_public_key,
}
use quorumcrypt.KeyStore.{KeyStore, new, insert_private_key_as, insert_public_key_as, put_private}
use quorumcrypt.Keys.{
  Codec, private_from_pem, private_from_bytes, public_from_pem, public_from_bytes, key2id,
  get_public_key, public_to_bytes, write_tagged, private_inner, public_inner,
}
use quorumcrypt.Schemes.{from_id, get_id, get_operation}
use quorumcrypt.Tests.Data.{codec, share}
use mathlib.Core.Option

abbrev texts : Codec
texts = record codec { base64_decode = λ s. some (1 ∷ 5 ∷ []) }

abbrev serialized : String → SerializedKeyEntry
serialized kind = record {
  id = "key";
  key_type = kind;
  group = "Bls12381";
  scheme = "Sg02";
  operation = "Encryption";
  key = "AQU=";
}

abbrev read_back : KeyStore
read_back = (insert_private_key_as new (share "key") "key").0

secret_read : from_entries texts (serialized "secret" ∷ serialized "public" ∷ []) ≡ some read_back
unfolding from_entries read_entries read_entry read_private_entry read_public_entry
    insert_private_key insert_public_key insert_private_key_as insert_public_key_as put_private new
    lookup insert remove private_from_pem private_from_bytes public_from_pem public_from_bytes
    key2id get_public_key public_to_bytes write_tagged from_id get_id get_operation String_discrete
    Option.bind private_inner public_inner
secret_read = refl

from_entries-IsValid_example : IsValid read_back
from_entries-IsValid_example =
    from_entries-IsValid texts (serialized "secret" ∷ serialized "public" ∷ []) read_back
      secret_read
