-- ===== src/Schemes.antt =====
-- src/core/schemes/src/scheme_types_impl.rs: the threshold schemes, their groups and operations. The
-- enumerations, their numbers and their names are those of src/proto/src/scheme_types.proto.
pub mod Laws
use quorumcrypt.Base.{
  ℕ, String, Bool, true, false, not, ◌&&◌, Option, none, some, if◌then◌else◌, ◌==◌, String_discrete,
  ite,
}
use quorumcrypt.Errors.{Result, ok, err, SchemeError, unknown_scheme, unknown_group_string}

pub data ThresholdScheme : Type 0 where
  bz03 sg02 bls04 cks05 frost sh00 : ThresholdScheme

pub data Group : Type 0 where
  bls12381 bn254 ed25519 rsa512 rsa1024 rsa2048 rsa4096 : Group

pub data ThresholdOperation : Type 0 where
  encryption signature coin : ThresholdOperation

unfoldable pub ThresholdScheme_discrete : Discrete ThresholdScheme
ThresholdScheme_discrete = hlevel

unfoldable pub Group_discrete : Discrete Group
Group_discrete = hlevel

unfoldable pub ThresholdOperation_discrete : Discrete ThresholdOperation
ThresholdOperation_discrete = hlevel

-- `*self as u8`
unfoldable pub get_id : ThresholdScheme → ℕ
get_id bz03 = 0
get_id sg02 = 1
get_id bls04 = 2
get_id cks05 = 3
get_id frost = 4
get_id sh00 = 5

unfoldable pub from_id : ℕ → Option ThresholdScheme
from_id n =
    if n == 0
    then some bz03
    else if n == 1
    then some sg02
    else if n == 2
    then some bls04
    else if n == 3
    then some cks05
    else if n == 4
    then some frost
    else if n == 5
    then some sh00
    else none

-- `as_str_name`
unfoldable pub scheme_name : ThresholdScheme → String
scheme_name bz03 = "Bz03"
scheme_name sg02 = "Sg02"
scheme_name bls04 = "Bls04"
scheme_name cks05 = "Cks05"
scheme_name frost = "Frost"
scheme_name sh00 = "Sh00"

unfoldable pub group_name : Group → String
group_name bls12381 = "Bls12381"
group_name bn254 = "Bn254"
group_name ed25519 = "Ed25519"
group_name rsa512 = "Rsa512"
group_name rsa1024 = "Rsa1024"
group_name rsa2048 = "Rsa2048"
group_name rsa4096 = "Rsa4096"

unfoldable pub parse_scheme : String → Result SchemeError ThresholdScheme
parse_scheme s = ite (String_discrete s "Bz03") (ok bz03) (
    ite (String_discrete s "Sg02") (ok sg02) (
      ite (String_discrete s "Bls04") (ok bls04) (
        ite (String_discrete s "Cks05") (ok cks05) (
          ite (String_discrete s "Frost") (ok frost)
            (ite (String_discrete s "Sh00") (ok sh00) (err unknown_scheme))))))

unfoldable pub parse_group : String → Result SchemeError Group
parse_group s = ite (String_discrete s "bls12381") (ok bls12381) (
    ite (String_discrete s "bn254") (ok bn254) (
      ite (String_discrete s "ed25519") (ok ed25519) (
        ite (String_discrete s "rsa512") (ok rsa512) (
          ite (String_discrete s "rsa1024") (ok rsa1024) (
            ite (String_discrete s "rsa2048") (ok rsa2048)
              (ite (String_discrete s "rsa4096") (ok rsa4096) (err unknown_group_string)))))))

unfoldable pub is_interactive : ThresholdScheme → Bool
is_interactive frost = true
is_interactive _ = false

unfoldable pub is_dl : Group → Bool
is_dl bls12381 = true
is_dl bn254 = true
is_dl ed25519 = true
is_dl rsa512 = false
is_dl rsa1024 = false
is_dl rsa2048 = false
is_dl rsa4096 = false

unfoldable pub supports_pairings : Group → Bool
supports_pairings bls12381 = true
supports_pairings bn254 = true
supports_pairings ed25519 = false
supports_pairings rsa512 = false
supports_pairings rsa1024 = false
supports_pairings rsa2048 = false
supports_pairings rsa4096 = false

is_ed25519 : Group → Bool
is_ed25519 ed25519 = true
is_ed25519 _ = false

unfoldable pub check_valid_group : ThresholdScheme → Group → Bool
unfolding is_dl supports_pairings is_ed25519
check_valid_group bls04 group = is_dl group && supports_pairings group
check_valid_group bz03 group = is_dl group && supports_pairings group
check_valid_group cks05 group = is_dl group
check_valid_group frost group = is_ed25519 group
check_valid_group sg02 group = is_dl group
check_valid_group sh00 group = not (is_dl group)

unfoldable pub get_operation : ThresholdScheme → ThresholdOperation
get_operation bz03 = encryption
get_operation sg02 = encryption
get_operation bls04 = signature
get_operation cks05 = coin
get_operation frost = signature
get_operation sh00 = signature
