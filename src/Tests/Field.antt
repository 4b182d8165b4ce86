-- ===== src/Tests/Field.antt =====
-- A field with three elements and a group of that order, on which the arithmetic of
-- src/core/schemes/src/integers/sizedint.rs and src/core/schemes/src/groups/group.rs is run.
use quorumcrypt.Algebra.{Scalars, GroupOperations, Pairing}
use quorumcrypt.Base.{
  ℕ, zero, suc, ◌+◌, ◌%◌, ◌<◌, ◌≡◌, ◌≢◌, ◌↔◌, refl, sym, ap, ◌∙◌, Bool, true, false, ◌∷◌, arith,
}
use quorumcrypt.Dl.{zeros}
use quorumcrypt.Errors.{Result, ok, SchemeError}

pub data Three : Type 0 where
  t0 t1 t2 : Three

abbrev pub plus : Three → Three → Three
plus t0 b = b
plus t1 t0 = t1
plus t1 t1 = t2
plus t1 t2 = t0
plus t2 t0 = t2
plus t2 t1 = t0
plus t2 t2 = t1

abbrev pub negate : Three → Three
negate t0 = t0
negate t1 = t2
negate t2 = t1

abbrev pub times : Three → Three → Three
times t0 b = t0
times t1 b = b
times t2 b = negate b

abbrev pub same : Three → Three → Bool
same t0 t0 = true
same t1 t1 = true
same t2 t2 = true
same _ _ = false

abbrev pub digit : ℕ → Three
digit zero = t0
digit (suc zero) = t1
digit (suc (suc n)) = t2

abbrev pub residue : ℕ → Three
residue n = digit (n % 3)

abbrev raise : Three → ℕ → Three
raise a zero = t1
raise a (suc n) = times a (raise a n)

pub plus_assoc : (a b c : Three) → plus (plus a b) c ≡ plus a (plus b c)
plus_assoc a b c = ground arith

pub plus_comm : (a b : Three) → plus a b ≡ plus b a
plus_comm a b = ground arith

pub times_assoc : (a b c : Three) → times (times a b) c ≡ times a (times b c)
times_assoc a b c = ground arith

pub times_comm : (a b : Three) → times a b ≡ times b a
times_comm a b = ground arith

pub times-plus : (a b c : Three) → times a (plus b c) ≡ plus (times a b) (times a c)
times-plus a b c = ground arith

pub times_self : (a : Three) → a ≢ t0 → times a a ≡ t1
times_self a h = ground arith

pub same_iff : (a b : Three) → (same a b ≡ true) ↔ (a ≡ b)
same_iff a b = (λ h. ground arith, λ h. ground arith)

pub digit-plus : (a b : ℕ) → a < 3 → b < 3 → digit ((a + b) % 3) ≡ plus (digit a) (digit b)
digit-plus zero zero h k = refl
digit-plus zero (suc zero) h k = refl
digit-plus zero (suc (suc zero)) h k = refl
digit-plus (suc zero) zero h k = refl
digit-plus (suc zero) (suc zero) h k = refl
digit-plus (suc zero) (suc (suc zero)) h k = refl
digit-plus (suc (suc zero)) zero h k = refl
digit-plus (suc (suc zero)) (suc zero) h k = refl
digit-plus (suc (suc zero)) (suc (suc zero)) h k = refl
digit-plus (suc (suc (suc a))) b h k = absurd (omega arith)
digit-plus a (suc (suc (suc b))) h k = absurd (omega arith)

pub residue-add : (m n : ℕ) → residue (m + n) ≡ plus (residue m) (residue n)
residue-add m n =
    let e : (m + n) % 3 ≡ (m % 3 + n % 3) % 3 = omega arith in
    ap digit e ∙ digit-plus (m % 3) (n % 3) (omega arith) (omega arith)

pub digit_inj : (m n : ℕ) → m < 3 → n < 3 → digit m ≡ digit n → m ≡ n
digit_inj m n h k e = ground arith

pub residue_inj : (m n : ℕ) → m < 3 → n < 3 → residue m ≡ residue n → m ≡ n
residue_inj m n h k e =
    let a : m % 3 ≡ m = omega arith in
    let b : n % 3 ≡ n = omega arith in digit_inj m n h k (ap digit (sym a) ∙ e ∙ ap digit b)

pub plus-negate : (a b : Three) → plus (plus a (negate b)) b ≡ a
plus-negate a b = ground arith

pub negate-plus : (a b : Three) → plus (plus a b) (negate b) ≡ a
negate-plus a b = ground arith

pub times_one : (a : Three) → times a t1 ≡ a
times_one a = ground arith

pub times_one_inj : (v w : Three) → times v t1 ≡ times w t1 → v ≡ w
times_one_inj v w h = ground arith

abbrev pub field : Scalars Three
field = record {
  nought = t0;
  one = t1;
  add = plus;
  sub = λ a b. plus a (negate b);
  mul_mod = times;
  inv_mod = λ a. a;
  pow_mod = raise;
  new_int = residue;
  order = t0;
  equals = same;
  bound = 3;
  add_assoc = plus_assoc;
  add_comm = plus_comm;
  nought-add = λ a. refl;
  sub-add = plus-negate;
  mul_assoc = times_assoc;
  mul_comm = times_comm;
  one-mul = λ a. refl;
  mul-add = times-plus;
  mul-inv = times_self;
  pow_zero = λ a. refl;
  pow_suc = λ a n. refl;
  new_int_zero = refl;
  new_int-add = residue-add;
  new_int_inj = residue_inj;
  order_nought = refl;
  equals_refl = λ a. (same_iff a a).1 refl;
}

abbrev pub value : Three → ℕ
value t0 = 0
value t1 = 1
value t2 = 2

abbrev pub group : GroupOperations Three Three field
group = record {
  new = t1;
  mul = plus;
  div = λ a b. plus a (negate b);
  pow = times;
  to_bytes = λ a. value a ∷ zeros 15;
  mul_assoc = plus_assoc;
  mul-div = negate-plus;
  pow_one = times_one;
  pow-add = times-plus;
  pow-mul_mod = λ a x y. sym (times_assoc a x y);
}

abbrev compared : Three → Three → Three → Three → Result SchemeError Bool
compared x y z w = ok (same (times x y) (times z w))

pub compared_iff : (x z y w : Three) → (compared x y z w ≡ ok true) ↔ (times x y ≡ times z w)
compared_iff x z y w =
    let (a, b) = same_iff (times x y) (times z w) in (λ h. a (cc), λ h. ap ok (b h))

abbrev pub pairing : Pairing Three Three Three Three field group group
pairing = record {
  pair = times;
  power = times;
  ddh = compared;
  ddh_pair = compared_iff;
  pair-pow = λ v w x. times_assoc v x w ∙ ap (times v) (times_comm x w);
  pair-pow_right = λ v w x. sym (times_assoc v w x);
  pair_inj = times_one_inj;
}
