-- ===== src/Algebra.antt =====
-- The arithmetic that the schemes of src/core/schemes/src/dl_schemes stand on:
-- `SizedBigInt` of src/core/schemes/src/integers/sizedint.rs and `GroupElement` of
-- src/core/schemes/src/groups/group.rs, both wrappers of the MIRACL library. A big integer stands for
-- its residue modulo the order of the group, so that `rmod` changes nothing.
pub mod Rings
use quorumcrypt.Base.{ℕ, zero, suc, ◌+◌, ◌<◌, ◌≡◌, ◌≢◌, ◌↔◌, Bool, true, List}
use quorumcrypt.Errors.{Result, ok, SchemeError}
use quorumcrypt.Keys.{Bytes}

-- The residues modulo the prime order: `add`, `sub`, `mul_mod`, `inv_mod`, `pow_mod`, `new_int` and
-- `equals`. The small integers, those below `bound`, have different residues.
pub record Scalars (F : Type 0) : Type 0 where
  pub nought : F
  pub one : F
  pub add : F → F → F
  pub sub : F → F → F
  pub mul_mod : F → F → F
  pub inv_mod : F → F
  pub pow_mod : F → ℕ → F
  pub new_int : ℕ → F
  pub order : F
  pub equals : F → F → Bool
  pub bound : ℕ
  pub add_assoc : (a b c : F) → add (add a b) c ≡ add a (add b c)
  pub add_comm : (a b : F) → add a b ≡ add b a
  pub nought-add : (a : F) → add nought a ≡ a
  pub sub-add : (a b : F) → add (sub a b) b ≡ a
  pub mul_assoc : (a b c : F) → mul_mod (mul_mod a b) c ≡ mul_mod a (mul_mod b c)
  pub mul_comm : (a b : F) → mul_mod a b ≡ mul_mod b a
  pub one-mul : (a : F) → mul_mod one a ≡ a
  pub mul-add : (a b c : F) → mul_mod a (add b c) ≡ add (mul_mod a b) (mul_mod a c)
  pub mul-inv : (a : F) → a ≢ nought → mul_mod a (inv_mod a) ≡ one
  pub pow_zero : (a : F) → pow_mod a 0 ≡ one
  pub pow_suc : (a : F) (n : ℕ) → pow_mod a (suc n) ≡ mul_mod a (pow_mod a n)
  pub new_int_zero : new_int 0 ≡ nought
  pub new_int-add : (m n : ℕ) → new_int (m + n) ≡ add (new_int m) (new_int n)
  pub new_int_inj : (m n : ℕ) → m < bound → n < bound → new_int m ≡ new_int n → m ≡ n
  pub order_nought : order ≡ nought
  pub equals_refl : (a : F) → equals a a ≡ true

module _ {F : Type 0} ⦃s : Scalars F⦄ where
  infixl 65 ◌⊕◌
  infixl 70 ◌⊗◌
  abbrev pub ◌⊕◌ : F → F → F
  a ⊕ b = s.add a b

  abbrev pub ◌⊗◌ : F → F → F
  a ⊗ b = s.mul_mod a b

-- A group of that order: `new` is the generator, `pow` the power by a residue.
pub record GroupOperations (F G : Type 0) (s : Scalars F) : Type 0 where
  pub new : G
  pub mul : G → G → G
  pub div : G → G → G
  pub pow : G → F → G
  pub to_bytes : G → Bytes
  pub mul_assoc : (a b c : G) → mul (mul a b) c ≡ mul a (mul b c)
  pub mul-div : (a b : G) → div (mul a b) b ≡ a
  pub pow_one : (a : G) → pow a s.one ≡ a
  pub pow-add : (a : G) (x y : F) → pow a (s.add x y) ≡ mul (pow a x) (pow a y)
  pub pow-mul_mod : (a : G) (x y : F) → pow a (s.mul_mod x y) ≡ pow (pow a x) y

-- A pairing of the second group with the first: `ddh` compares two of its values, and an element of the
-- second group is determined by its value at the generator.
pub record Pairing (F G H T : Type 0) (s : Scalars F) (g : GroupOperations F G s)
    (g2 : GroupOperations F H s) : Type 0 where
  pub pair : H → G → T
  pub power : T → F → T
  pub ddh : H → G → H → G → Result SchemeError Bool
  pub ddh_pair : (x z : H) (y w : G) → (ddh x y z w ≡ ok true) ↔ (pair x y ≡ pair z w)
  pub pair-pow : (v : H) (w : G) (x : F) → pair (g2.pow v x) w ≡ pair v (g.pow w x)
  pub pair-pow_right : (v : H) (w : G) (x : F) → pair v (g.pow w x) ≡ power (pair v w) x
  pub pair_inj : (v w : H) → pair v g.new ≡ pair w g.new → v ≡ w
