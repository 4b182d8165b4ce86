-- ===== src/Dl.antt =====
-- What the schemes of src/core/schemes/src/dl_schemes have in common: symmetric keys and nonces, the
-- hash of bytes to a residue that each of them writes out, and the responses of their proofs that two
-- discrete logarithms are equal. A result of `none` is a panic.
pub mod Bits
pub mod Proofs
pub mod Keys
pub mod Sg02
pub mod Cks05
pub mod Bls04
pub mod Bz03
pub mod Frost
use quorumcrypt.Algebra.{Scalars, GroupOperations}
use quorumcrypt.Base.{
  ℕ, zero, suc, ◌+◌, ◌-◌, ◌*◌, ◌%◌, ◌≡◌, Bool, true, Option, none, some, List, [], ◌∷◌, ◌++◌,
  length, ltb, ◌==◌, if◌then◌else◌,
}
use quorumcrypt.Dl.Bits.{AreBytes}
use quorumcrypt.Errors.{Result, ok, err, SchemeError, mac_failure}
use quorumcrypt.Keys.{Bytes}
use mathlib.Core.Option
use quorumcrypt.Sharing.{range_from}
use Prim.Native.Nat.{◌/◌}

-- MIRACL's hash and key derivation, and the authenticated encryption of the chacha20poly1305 crate.
-- `from_bytes` is a residue already, `nbytes` is the number of bytes of the order, and
-- `modbytes` that of a big integer.
pub record Primitives (F : Type 0) : Type 0 where
  pub hash256 : Bytes → Bytes
  pub from_bytes : Bytes → F
  pub nbytes : ℕ
  pub modbytes : ℕ
  pub hkdf_extract : Bytes → Bytes → Bytes
  pub hkdf_expand : ℕ → Bytes → Bytes → Bytes
  pub encrypt : Bytes → Bytes → Bytes → Bytes
  pub decrypt : Bytes → Bytes → Bytes → Option Bytes
  pub length-hash256 : (m : Bytes) → length (hash256 m) ≡ 32
  pub length-hkdf_expand : (olen : ℕ) (prk info : Bytes) → length (hkdf_expand olen prk info) ≡ olen
  pub hkdf_expand-AreBytes : (olen : ℕ) (prk info : Bytes) → AreBytes (hkdf_expand olen prk info)
  pub decrypt-encrypt : (key nonce m : Bytes) → decrypt key nonce (encrypt key nonce m) ≡ some m

-- `i.to_le_bytes()` for a number of `w` bytes.
unfoldable pub to_le_bytes : ℕ → ℕ → Bytes
to_le_bytes zero i = []
to_le_bytes (suc w) i = i % 256 ∷ to_le_bytes w (i / 256)

abbrev pub zeros : ℕ → Bytes
zeros zero = []
zeros (suc n) = 0 ∷ zeros n

-- The first bytes of a slice, which panics when there are fewer.
unfoldable pub slice : ℕ → Bytes → Option Bytes
slice zero bytes = some []
slice (suc n) [] = none
slice (suc n) (b ∷ bytes) = elim (slice n bytes) [ none ↦ none | some rest ↦ some (b ∷ rest) ]

-- `verification_key[(id - 1) as usize]`, which panics for zero and out of range.
unfoldable pub verification_key_of {ℓ} : {A : Type ℓ} → List A → ℕ → Option A
verification_key_of [] i = none
verification_key_of (h ∷ hs) zero = none
verification_key_of (h ∷ hs) (suc zero) = some h
verification_key_of (h ∷ hs) (suc (suc i)) = verification_key_of hs (suc i)

-- `Key::from_slice`, which panics for another length than that of a key.
unfoldable pub from_slice : Bytes → Option Bytes
from_slice key = if length key == 32 then some key else none

-- A message that is not opened is a `MacFailure`.
unfoldable pub or_mac_failure : Option Bytes → Result SchemeError Bytes
or_mac_failure none = err mac_failure
or_mac_failure (some msg) = ok msg

module _ {F : Type 0} (p : Primitives F) where
  -- The random bytes of the loop are the argument. Half of the key is filled.
  unfoldable pub gen_symm_key : Bytes → Bytes
  gen_symm_key ikm = p.hkdf_expand 16 (p.hkdf_extract [] ikm) (0 ∷ []) ++ zeros 16

  -- The loop on `i`, for a hash `h` that is not changed.
  unfoldable pub expand_loop : Bytes → Bytes → List ℕ → Bytes
  expand_loop h buf [] = buf
  expand_loop h buf (i ∷ is) = expand_loop h (buf ++ p.hash256 (h ++ to_le_bytes 8 i)) is

  -- The residue that `h1` and `h2` of SG02, `H` and `H1` of CKS05 and `H` of BLS04 make of the bytes.
  unfoldable pub hash_residue : Bytes → F
  unfolding expand_loop
  hash_residue buf =
      let h = p.hash256 buf in
      let nbits = p.nbytes * 8 in
      p.from_bytes (
        if ltb (length h * 4) nbits
        then expand_loop h h (range_from 1 ((nbits - length h * 4) / length h * 8 - 1))
        else h)

  -- Key and nonce are sliced from bytes of any length.
  unfoldable pub unseal : Option Bytes → Option Bytes → Bytes → Option (Result SchemeError Bytes)
  unfolding or_mac_failure
  unseal key nonce ctxt =
      Option.bind key (λ k. Option.map (λ n. or_mac_failure (p.decrypt k n ctxt)) nonce)
