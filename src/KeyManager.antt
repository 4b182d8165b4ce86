-- ===== src/KeyManager.antt =====
-- src/core/orchestration/src/key_manager/key_manager.rs: the task that owns the key store and the FROST
-- precomputations, with `list_public_keys` of src/core/schemes/src/keys/key_store.rs. A command is
-- answered with a response; a result of `none` is a panic.
pub mod Queue
use quorumcrypt.Base.{ℕ, String, Option, none, some, List, [], ◌∷◌, ◌++◌, length, String_discrete}
use quorumcrypt.Base.Dict.{Dict, lookup, insert, values}
use quorumcrypt.Errors.{Result, ok, err}
use quorumcrypt.KeyStore.{
  KeyStore, KeyEntry, KeyStoreError, SelectError, get_key_by_id, get_key_by_scheme_and_group,
}
use quorumcrypt.Keys.{Bytes, Codec, public_operation, public_scheme, public_group, public_to_bytes}
use quorumcrypt.Schemes.{ThresholdScheme, ThresholdOperation, Group}
use mathlib.Core.Option

pub record PublicKeyEntry : Type 0 where
  pub id : String
  pub operation : ThresholdOperation
  pub scheme : ThresholdScheme
  pub group : Group
  pub key : Bytes

module _ (c : Codec) where
  abbrev list_entry : KeyEntry → Option PublicKeyEntry
  list_entry e = elim (public_to_bytes c e.pk) [
    | err _ ↦ none
    | ok key ↦ some (record {
      id = e.id;
      operation = public_operation e.pk;
      scheme = public_scheme e.pk;
      group = public_group e.pk;
      key = key;
    })
  ]

  unfoldable pub list_entries : List KeyEntry → Option (List PublicKeyEntry)
  list_entries [] = some []
  list_entries (e ∷ es) =
      let rest = list_entries es in
      elim (list_entry e) [ none ↦ none | some k ↦ Option.map (λ ks. k ∷ ks) rest ]

  -- The encoding of a key is unwrapped.
  unfoldable pub list_public_keys : KeyStore → Option (List PublicKeyEntry)
  unfolding list_entries
  list_public_keys s = list_entries (values s.key_entries)

-- `Vec::pop`: the last value, and the others.
unfoldable pub pop_last {ℓ} : {A : Type ℓ} → List A → Option (List A × A)
pop_last [] = none
pop_last (x ∷ []) = some ([], x)
pop_last (x ∷ y ∷ xs) = Option.map (λ (rest, z). (x ∷ rest, z)) (pop_last (y ∷ xs))

pub record KeyManager (P : Type 0) : Type 0 where
  pub keystore : KeyStore
  pub frost_precomputes : Dict String (List P)

pub data KeyManagerCommand (P : Type 0) : Type 0 where
  list_available_keys : KeyManagerCommand P
  get_key_by_id_command : String → KeyManagerCommand P
  get_key_by_scheme_and_group_command : ThresholdScheme → Group → KeyManagerCommand P
  pop_frost_precomputation : String → KeyManagerCommand P
  push_frost_precomputations : String → List P → KeyManagerCommand P

-- What is sent on the responder of a command.
pub data Response (P : Type 0) : Type 0 where
  listed : List PublicKeyEntry → Response P
  found : Result KeyStoreError KeyEntry → Response P
  selected : Result SelectError KeyEntry → Response P
  popped : Option P → Response P
  silent : Response P

module _ {P : Type 0} where
  -- The number of keys in the map, not that of the precomputations.
  unfoldable pub num_precomputations : KeyManager P → ℕ
  num_precomputations s = length s.frost_precomputes

  unfoldable pub append_precomputations : String → List P → KeyManager P → KeyManager P
  append_precomputations key_id precomputations s =
      elim (lookup String_discrete key_id s.frost_precomputes) [
        | none ↦ record s {
          frost_precomputes = insert String_discrete key_id precomputations s.frost_precomputes;
        }
        | some current ↦ record s {
          frost_precomputes =
              insert String_discrete key_id (precomputations ++ current) s.frost_precomputes;
        }
      ]

  -- The vector is changed in place when a value was popped.
  abbrev pub keep_rest : String → KeyManager P → Option (List P × P) → KeyManager P × Option P
  keep_rest key_id s none = (s, none)
  keep_rest key_id s (some (rest, x)) = (
    record s { frost_precomputes = insert String_discrete key_id rest s.frost_precomputes },
    some x,
  )

  unfoldable pub pop_precomputation : String → KeyManager P → KeyManager P × Option P
  unfolding pop_last
  pop_precomputation key_id s = elim (lookup String_discrete key_id s.frost_precomputes) [
    | none ↦ (s, none)
    | some vec ↦ keep_rest key_id s (pop_last vec)
  ]

  -- One round of `run`.
  unfoldable pub handle :
      Codec → KeyManager P → KeyManagerCommand P → Option (KeyManager P × Response P)
  unfolding append_precomputations pop_precomputation list_public_keys
  handle c s list_available_keys =
      Option.map (λ keys. (s, listed keys)) (list_public_keys c s.keystore)
  handle c s (get_key_by_id_command id) = some (s, found (get_key_by_id s.keystore id))
  handle c s (get_key_by_scheme_and_group_command scheme group) =
      some (s, selected (get_key_by_scheme_and_group s.keystore scheme group))
  handle c s (pop_frost_precomputation key_id) =
      let (t, x) = pop_precomputation key_id s in some (t, popped x)
  handle c s (push_frost_precomputations key_id precomputations) =
      some (append_precomputations key_id precomputations s, silent)
