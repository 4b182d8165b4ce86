-- ===== src/Dl/Bits.antt =====
-- Bytes and their bits: `xor` of src/core/schemes/src/dl_schemes/common.rs, and the bitwise operators of
-- Rust that it and `H2` of src/core/schemes/src/dl_schemes/coins/cks05.rs use, on `w` bits.
use quorumcrypt.Base.{
  ℕ, zero, suc, ◌+◌, ◌*◌, ◌%◌, ◌^◌, ◌<◌, ◌≤◌, ◌≡◌, refl, ap, ◌∙◌, [], ◌∷◌, ◌++◌, length, arith,
}
use quorumcrypt.Keys.{Bytes}
use Prim.Native.Nat.{◌/◌}

-- `a ^ b`
unfoldable pub xor_bits : ℕ → ℕ → ℕ → ℕ
xor_bits zero a b = 0
xor_bits (suc w) a b = (a % 2 + b % 2) % 2 + 2 * xor_bits w (a / 2) (b / 2)

-- `(a & b).count_ones()`
unfoldable pub common_ones : ℕ → ℕ → ℕ → ℕ
common_ones zero a b = 0
common_ones (suc w) a b = a % 2 * (b % 2) + common_ones w (a / 2) (b / 2)

unfoldable pub xor : Bytes → Bytes → Bytes
xor [] v2 = []
xor (x1 ∷ v1) [] = []
xor (x1 ∷ v1) (x2 ∷ v2) = xor_bits 8 x1 x2 ∷ xor v1 v2

abbrev pub AreBytes : Bytes → Type 0
AreBytes [] = Unit {0}
AreBytes (x ∷ xs) = (x < 2 ^ 8) × AreBytes xs

pub AreBytes-append : (xs ys : Bytes) → AreBytes xs → AreBytes ys → AreBytes (xs ++ ys)
AreBytes-append [] ys h k = k
AreBytes-append (x ∷ xs) ys (p, h) k = (p, AreBytes-append xs ys h k)

xor_bits_step : (a b r : ℕ) → (a % 2 + ((a % 2 + b % 2) % 2 + 2 * r) % 2) % 2 ≡ b % 2
xor_bits_step a b r = omega arith

xor_bits_half : (a b r : ℕ) → ((a % 2 + b % 2) % 2 + 2 * r) / 2 ≡ r
xor_bits_half a b r = omega arith

half_bound : (w b : ℕ) → b < 2 ^ suc w → b / 2 < 2 ^ w
half_bound w b h = omega arith

-- Bits masked twice are themselves.
xor_bits-xor_bits : (w a b : ℕ) → b < 2 ^ w → xor_bits w a (xor_bits w a b) ≡ b
unfolding xor_bits
xor_bits-xor_bits zero a b h = omega arith
xor_bits-xor_bits (suc w) a b h =
    let r = xor_bits w (a / 2) (b / 2) in
    let q : xor_bits w (a / 2) (((a % 2 + b % 2) % 2 + 2 * r) / 2) ≡ b / 2 =
      ap (xor_bits w (a / 2)) (xor_bits_half a b r)
      ∙ xor_bits-xor_bits w (a / 2) (b / 2) (half_bound w b h) in
    let s = xor_bits_step a b r in omega arith

-- Bytes masked twice are themselves, for a mask that is long enough.
pub xor-xor : (v1 v2 : Bytes) → length v2 ≤ length v1 → AreBytes v2 → xor v1 (xor v1 v2) ≡ v2
unfolding xor
xor-xor [] [] n h = refl
xor-xor [] (x2 ∷ v2) n h = absurd (omega arith)
xor-xor (x1 ∷ v1) [] n h = refl
xor-xor (x1 ∷ v1) (x2 ∷ v2) n (p, h) =
    ap (λ x. x ∷ xor v1 (xor v1 v2)) (xor_bits-xor_bits 8 x1 x2 p)
    ∙ ap (λ v. x2 ∷ v) (xor-xor v1 v2 (omega arith) h)

pub length-xor : (v1 v2 : Bytes) → length v2 ≤ length v1 → length (xor v1 v2) ≡ length v2
unfolding xor
length-xor [] [] n = refl
length-xor [] (x2 ∷ v2) n = absurd (omega arith)
length-xor (x1 ∷ v1) [] n = refl
length-xor (x1 ∷ v1) (x2 ∷ v2) n = omega (arith, length-xor v1 v2 (omega arith))
