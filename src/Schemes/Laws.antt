-- ===== src/Schemes/Laws.antt =====
-- What the scheme descriptions of src/core/schemes/src/scheme_types_impl.rs promise one another.
use quorumcrypt.Base.{ℕ, ◌≡◌, refl, ◌↔◌, true, false, some, arith, String_discrete}
use quorumcrypt.Errors.{ok, err, unknown_group_string}
use quorumcrypt.Schemes.{
  ThresholdScheme, bz03, sg02, bls04, cks05, frost, sh00, Group, bls12381, ed25519, get_id, from_id,
  scheme_name, group_name, parse_scheme, parse_group, is_dl, check_valid_group,
}

pub from_id-get_id : (s : ThresholdScheme) → from_id (get_id s) ≡ some s
unfolding from_id get_id
from_id-get_id bz03 = refl
from_id-get_id _ = refl

get_id-from_id : (n : ℕ) (s : ThresholdScheme) → from_id n ≡ some s → get_id s ≡ n
unfolding from_id get_id
get_id-from_id n bz03 e = ground arith
get_id-from_id n _ e = ground arith

-- A number is read as a scheme exactly when it is the number of that scheme.
pub from_id_iff : (n : ℕ) (s : ThresholdScheme) → (from_id n ≡ some s) ↔ (get_id s ≡ n)
from_id_iff n s = (get_id-from_id n s, λ e. rw (← e) (from_id-get_id s))

-- The name of a scheme parses back to the scheme.
pub parse_scheme-scheme_name : (s : ThresholdScheme) → parse_scheme (scheme_name s) ≡ ok s
unfolding parse_scheme scheme_name String_discrete
parse_scheme-scheme_name bz03 = refl
parse_scheme-scheme_name _ = refl

pub parse_group-group_name : (g : Group) → parse_group (group_name g) ≡ err unknown_group_string
unfolding parse_group group_name String_discrete
parse_group-group_name bls12381 = refl
parse_group-group_name _ = refl

-- The group check pairs Sh00 with the RSA groups and every other scheme with discrete-log groups.
pub check_valid_group-is_dl :
    (s : ThresholdScheme) (g : Group)
    → check_valid_group s g ≡ true
    → (is_dl g ≡ false) ↔ (s ≡ sh00)
unfolding check_valid_group is_dl
check_valid_group-is_dl bz03 g h = (ground arith, ground arith)
check_valid_group-is_dl sg02 g h = (ground arith, ground arith)
check_valid_group-is_dl bls04 g h = (ground arith, ground arith)
check_valid_group-is_dl cks05 g h = (ground arith, ground arith)
check_valid_group-is_dl frost bls12381 h = cc
check_valid_group-is_dl frost ed25519 h = (ground arith, ground arith)
check_valid_group-is_dl frost _ h = cc
check_valid_group-is_dl sh00 g h = (ground arith, ground arith)
