-- ===== src/Tests/Store.antt =====
-- The key store at concrete inputs.
use quorumcrypt.Base.{String, ◌≡◌, ◌≢◌, refl, arith, String_discrete}
use text.Mathlib.TextEquality.{eq_iff}
use quorumcrypt.Base.Dict.{insert, lookup}
use quorumcrypt.Errors.{err}
use quorumcrypt.Keys.{private_inner, private_scheme, get_public_key}
use quorumcrypt.KeyStore.{
  new, insert_private_key_as, get_key_by_scheme_and_group, no_default, put_private,
}
use quorumcrypt.KeyStore.Defaults.{insert_two-no_default}
use quorumcrypt.Schemes.{sg02, bls12381, get_operation}
use quorumcrypt.Tests.Data.{share}

program : Unit {0}
unfolding insert_private_key_as put_private new lookup insert String_discrete private_inner
    private_scheme get_public_key get_operation
program = tt

a_ne_b : ◌≢◌ {A = String} "a" "b"
a_ne_b = ground (arith, eq_iff "a" "b")

insert_two-no_default_example :
    get_key_by_scheme_and_group
      (insert_private_key_as (insert_private_key_as new (share "a") "a").0 (share "b") "b").0
      sg02
      bls12381
    ≡ err no_default
unfolding private_inner private_scheme
insert_two-no_default_example =
    insert_two-no_default (share "a") (share "b") "a" "b" refl refl a_ne_b refl refl
