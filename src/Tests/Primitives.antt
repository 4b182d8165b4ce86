-- ===== src/Tests/Primitives.antt =====
-- Concrete functions for what the models of src/core/schemes/src/dl_schemes take as parameters.
use quorumcrypt.Base.{ℕ, zero, suc, ◌%◌, ◌≡◌, refl, some, [], ◌∷◌, length, arith}
use quorumcrypt.Dl.Keys.{length-zeros, zeros-AreBytes}
use quorumcrypt.Dl.{Primitives, zeros}
use quorumcrypt.Generator.{KeyIds}
use quorumcrypt.Keys.{Bytes}
use quorumcrypt.Sharing.Horner.{IsPolynomial}
use quorumcrypt.Sharing.Lagrange.{AreIds, IsFresh}
use quorumcrypt.Sharing.Recover.{IsDealing}
use quorumcrypt.Tests.Field.{Three, t0, t1, t2, plus, times, residue, field}

-- The hash of a text counts its bytes.
abbrev pub first_byte : Bytes → Three
first_byte [] = t0
first_byte (zero ∷ bs) = t0
first_byte (suc zero ∷ bs) = t1
first_byte (suc (suc n) ∷ bs) = t2

abbrev pub primitives : Primitives Three
primitives = record {
  hash256 = λ m. length m % 256 ∷ zeros 31;
  from_bytes = first_byte;
  nbytes = 32;
  modbytes = 32;
  hkdf_extract = λ salt ikm. ikm;
  hkdf_expand = λ olen prk info. zeros olen;
  encrypt = λ key nonce m. m;
  decrypt = λ key nonce c. some c;
  length-hash256 = λ m. refl;
  length-hkdf_expand = λ olen prk info. length-zeros olen;
  hkdf_expand-AreBytes = λ olen prk info. zeros-AreBytes olen;
  decrypt-encrypt = λ key nonce m. refl;
}

abbrev pub key_ids : KeyIds Three Three
key_ids = record {
  bz03_bytes = λ key. [];
  sg02_bytes = λ key. [];
  bls04_bytes = λ key. [];
  cks05_bytes = λ key. [];
  frost_bytes = λ key. [];
  calc_key_id = λ bytes. "key";
}

abbrev pub ones : ℕ → Three
ones i = t1

abbrev pub text : Bytes
text = 7 ∷ []

pub one_and_two : AreIds 3 (1 ∷ 2 ∷ [])
unfolding AreIds IsFresh
one_and_two = (omega arith, ((λ e. omega (arith, e)), tt), (omega arith, tt, tt))

-- The values of the polynomial with both coefficients one.
abbrev pub line : ℕ → Three
line j = plus (residue j) t1

plus_nought : (x : Three) → t1 ≡ plus t1 (times x t0)
plus_nought x = ground arith

line_value : (x : Three) → plus x t1 ≡ plus t1 (times x t1)
line_value x = ground arith

pub line-IsDealing : IsDealing ⦃s = field⦄ 2 t1 line
unfolding IsPolynomial
line-IsDealing = record {
  polynomial = λ x. plus x t1;
  degree = (t1, λ x. t1, (t1, λ x. t0, λ x. refl, plus_nought), line_value);
  secret = refl;
  values = λ j. refl;
}
