-- ===== src/Generator/Dispatch.antt =====
-- `generate_keys` of src/core/schemes/src/keys/key_generator.rs: the guards of every scheme. The strong
-- primes and the keys of the RSA scheme, for a modulus of a number of bits, are a parameter.
use quorumcrypt.Algebra.{Scalars, GroupOperations}
use quorumcrypt.Base.{ℕ, not, ◌||◌, Option, none, some, List, map, ltb, if◌then◌else◌}
use quorumcrypt.Dl.Bls04.{Bls04PrivateKey}
use quorumcrypt.Dl.Bz03.{Bz03PrivateKey}
use quorumcrypt.Dl.Frost.{FrostPrivateKey}
use quorumcrypt.Dl.Cks05.{Cks05PrivateKey}
use quorumcrypt.Dl.Sg02.{Sg02PrivateKey}
use quorumcrypt.Errors.{
  Result, ok, err, SchemeError, invalid_params, curve_does_not_support_pairings, incompatible_group,
  wrong_group,
}
use quorumcrypt.Generator.{
  KeyIds, generate_sg02, generate_bz03, generate_bls04, generate_cks05, generate_frost,
}
use quorumcrypt.Schemes.{ThresholdScheme, Group, is_dl, supports_pairings}
use mathlib.Core.Option

pub data GeneratedKey (F G H K : Type 0) : Type 0 where
  bz03 : Bz03PrivateKey F G H → GeneratedKey F G H K
  sg02 : Sg02PrivateKey F G → GeneratedKey F G H K
  bls04 : Bls04PrivateKey F G → GeneratedKey F G H K
  cks05 : Cks05PrivateKey F G → GeneratedKey F G H K
  frost : FrostPrivateKey F G → GeneratedKey F G H K
  sh00 : K → GeneratedKey F G H K

-- `Ok` of the keys of a scheme, if their computation does not panic.
abbrev pub succeed :
    {A B : Type 0} → (A → B) → Option (List A) → Option (Result SchemeError (List B))
succeed f o = Option.map (λ keys. ok (map f keys)) o

-- The number of bits of the modulus.
unfoldable pub modsize_of : Group → Option ℕ
modsize_of Group.rsa512 = some 512
modsize_of Group.rsa1024 = some 1024
modsize_of Group.rsa2048 = some 2048
modsize_of Group.rsa4096 = some 4096
modsize_of _ = none

module _ {F G H K : Type 0} ⦃s : Scalars F⦄ (g : GroupOperations F G s) (g2 : GroupOperations F H s)
    (ids : KeyIds G H) (rsa_keys : ℕ → ℕ → ℕ → Option (List K)) where
  -- The body of the match on the scheme.
  unfoldable pub generate :
      ℕ
      → ℕ
      → (ℕ → F)
      → G
      → ThresholdScheme
      → Group
      → Option (Result SchemeError (List (GeneratedKey F G H K)))
  unfolding modsize_of
  generate k n rng g_bar ThresholdScheme.bz03 group =
      if not (supports_pairings group)
      then some (err curve_does_not_support_pairings)
      else if not (is_dl group)
      then some (err incompatible_group)
      else succeed GeneratedKey.bz03 (generate_bz03 g ids g2 k n rng)
  generate k n rng g_bar ThresholdScheme.sg02 group =
      if not (is_dl group)
      then some (err incompatible_group)
      else succeed GeneratedKey.sg02 (generate_sg02 g ids k n rng g_bar)
  generate k n rng g_bar ThresholdScheme.bls04 group =
      if not (supports_pairings group)
      then some (err curve_does_not_support_pairings)
      else if not (is_dl group)
      then some (err incompatible_group)
      else succeed GeneratedKey.bls04 (generate_bls04 g ids k n rng)
  generate k n rng g_bar ThresholdScheme.cks05 group =
      if not (is_dl group)
      then some (err incompatible_group)
      else succeed GeneratedKey.cks05 (generate_cks05 g ids k n rng)
  -- There is no guard: `get_order` panics for a group without curve.
  generate k n rng g_bar ThresholdScheme.frost group =
      if is_dl group then succeed GeneratedKey.frost (generate_frost g ids k n rng group) else none
  generate k n rng g_bar ThresholdScheme.sh00 group =
      if is_dl group then some (err incompatible_group) else elim (modsize_of group) [
        | none ↦ some (err wrong_group)
        | some modsize ↦ succeed GeneratedKey.sh00 (rsa_keys k n modsize)
      ]

  unfoldable pub generate_keys :
      ℕ
      → ℕ
      → (ℕ → F)
      → G
      → ThresholdScheme
      → Group
      → Option (Result SchemeError (List (GeneratedKey F G H K)))
  unfolding generate
  generate_keys k n rng g_bar scheme group =
      if ltb n k || ltb n 1
      then some (err (invalid_params none))
      else generate k n rng g_bar scheme group
