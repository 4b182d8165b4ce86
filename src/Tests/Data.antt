-- ===== src/Tests/Data.antt =====
-- A key, a store that holds it, a codec and a digest, for the runs. The hash functions are constant
-- or take the first byte: nothing that is run depends on more.
use quorumcrypt.Base.{ℕ, String, ◌≡◌, true, Option, none, some, [], ◌∷◌, arith}
use quorumcrypt.Keys.{Bytes, Codec, SchemePublicKey, SchemePrivateKey, PublicKey, PrivateKeyShare}
use quorumcrypt.KeyStore.{KeyEntry, KeyStore}
use quorumcrypt.Manager.Defs.{Ciphertext, StartInstanceRequest, Digest}
use quorumcrypt.Schemes.{bls12381, ThresholdScheme}

abbrev pub inner_key : String → SchemePublicKey
inner_key id = record { id = id; group = bls12381; n = 4; k = 2; elements = 7 ∷ [] }

abbrev pub inner_share : String → SchemePrivateKey
inner_share id = record { id = 1; xi = 5 ∷ []; pubkey = inner_key id }

abbrev pub share : String → PrivateKeyShare
share id = PrivateKeyShare.sg02 (inner_share id)

abbrev pub key : String → PublicKey
key id = PublicKey.sg02 (inner_key id)

abbrev pub entry : KeyEntry
entry = record { id = "key"; is_default = true; sk = some (share "key"); pk = key "key" }

abbrev pub store : KeyStore
store = record { key_entries = ("key", entry) ∷ []; filename = none }

abbrev pub read_tagged : Bytes → Option (ℕ × Bytes)
read_tagged [] = none
read_tagged (tag ∷ body) = some (tag, body)

pub read_tagged_lem :
    (tag : ℕ) (body out : Bytes) → some (tag ∷ body) ≡ some out → read_tagged out ≡ some (tag, body)
read_tagged_lem tag body out h = ground arith

abbrev pub codec : Codec
codec = record {
  write_sequence = λ tag body. some (tag ∷ body);
  parse_sequence = read_tagged;
  parse-write = read_tagged_lem;
  encode_public = λ s k. some k.elements;
  decode_public = λ s b. some (record (inner_key "key") { elements = b });
  encode_private = λ s k. some k.xi;
  decode_private = λ s b. some (record (inner_share "key") { xi = b });
  hash_id = λ b. "key";
  base64 = λ b. "";
  base64_decode = λ s. none;
}

abbrev pub first_byte : Bytes → String
first_byte [] = "empty"
first_byte (b ∷ bs) = "i"

abbrev pub digest : Digest
digest = record { hash = first_byte; as_bytes = λ s. [] }

abbrev pub ciphertext : Ciphertext
ciphertext = record {
  scheme = ThresholdScheme.sg02;
  group = bls12381;
  key_id = "key";
  ck = 1 ∷ [];
  body = [];
}

abbrev pub request : StartInstanceRequest
request = StartInstanceRequest.decryption ciphertext
