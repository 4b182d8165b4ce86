-- ===== src/Dl/Bz03.antt =====
-- src/core/schemes/src/dl_schemes/ciphers/bz03.rs: the cipher of Baek and Zheng, whose ciphertexts and
-- shares are in the second group of a pairing. The random numbers of an encryption are its last
-- arguments, in the order in which they are drawn. A result of `none` is a panic.
pub mod Exact
pub mod Decrypt
use quorumcrypt.Algebra.{Scalars, GroupOperations, Pairing}
use quorumcrypt.Base.{ℕ, ◌-◌, String, Bool, Option, List, ◌++◌}
use quorumcrypt.Dl.Bits.{xor}
use quorumcrypt.Dl.{Primitives, gen_symm_key, zeros, slice, from_slice, unseal, verification_key_of}
use quorumcrypt.Errors.{Result, SchemeError}
use quorumcrypt.Keys.{Bytes}
use quorumcrypt.Sharing.{DlShare, interpolate}
use mathlib.Core.Option

pub record Bz03PublicKey (G H : Type 0) : Type 0 where
  pub id : String
  pub n : ℕ
  pub k : ℕ
  pub y : H
  pub verification_key : List G

pub record Bz03PrivateKey (F G H : Type 0) : Type 0 where
  pub id : ℕ
  pub xi : F
  pub pubkey : Bz03PublicKey G H

pub record Bz03DecryptionShare (H : Type 0) : Type 0 where
  pub id : ℕ
  pub get_data : H
  pub label : Bytes

pub record Bz03Ciphertext (G H : Type 0) : Type 0 where
  pub label : Bytes
  pub ctxt : Bytes
  pub c_k : Bytes
  pub u : H
  pub hr : G
  pub key_id : String

abbrev pub bz03_share : {H : Type 0} → DlShare (Bz03DecryptionShare H) H
bz03_share = record { get_id = λ x. x.id; get_data = λ x. x.get_data }

module _ {F H : Type 0} ⦃s : Scalars F⦄ (g2 : GroupOperations F H s) (p : Primitives F) where
  -- `g`
  unfoldable pub hash_bytes : H → Bytes
  hash_bytes x = p.hash256 (g2.to_bytes x)

  -- The residue that `h` takes the generator to.
  unfoldable pub hash_exponent : H → Bytes → F
  hash_exponent u m = p.from_bytes (zeros (p.modbytes - 32) ++ p.hash256 (g2.to_bytes u ++ m))

  unfoldable pub partial_decrypt :
      {G : Type 0} → Bz03Ciphertext G H → Bz03PrivateKey F G H → Bz03DecryptionShare H
  partial_decrypt ct sk = record { id = sk.id; get_data = g2.pow ct.u sk.xi; label = ct.label }

  unfoldable pub open_with :
      {G : Type 0} → Bz03Ciphertext G H → H → Option (Result SchemeError Bytes)
  unfolding hash_bytes
  open_with ct ry =
      unseal p (from_slice (xor (hash_bytes ry) ct.c_k)) (slice 12 (g2.to_bytes ry)) ct.ctxt

  unfoldable pub assemble :
      {G : Type 0}
      → List (Bz03DecryptionShare H)
      → Bz03Ciphertext G H
      → Option (Result SchemeError Bytes)
  unfolding open_with Option.bind
  assemble shares ct = Option.bind (interpolate g2 bz03_share shares) (open_with ct)

module _ {F G H : Type 0} ⦃s : Scalars F⦄ (g : GroupOperations F G s) (g2 : GroupOperations F H s)
    (p : Primitives F) where
  -- `h`
  unfoldable pub hash_element : H → Bytes → G
  unfolding hash_exponent
  hash_element u m = g.pow g.new (hash_exponent g2 p u m)

  -- The ciphertext of a message, for a nonce of the authenticated encryption.
  unfoldable pub seal : Bytes → Bytes → Bz03PublicKey G H → F → Bytes → Bytes → Bz03Ciphertext G H
  unfolding hash_bytes hash_element
  seal msg label pk r ikm nonce =
      let u = g2.pow g2.new r in
      let k = gen_symm_key p ikm in
      let c_k = xor (hash_bytes g2 p (g2.pow pk.y r)) k in
      record {
        label = label;
        ctxt = p.encrypt k nonce msg;
        c_k = c_k;
        u = u;
        hr = g.pow (hash_element u c_k) r;
        key_id = pk.id;
      }

  unfoldable pub encrypt :
      Bytes → Bytes → Bz03PublicKey G H → F → Bytes → Option (Bz03Ciphertext G H)
  unfolding seal
  encrypt msg label pk r ikm =
      Option.map (seal msg label pk r ikm) (slice 12 (g2.to_bytes (g2.pow pk.y r)))

module _ {F G H T : Type 0} ⦃s : Scalars F⦄ {g : GroupOperations F G s} {g2 : GroupOperations F H s}
    (e : Pairing F G H T s g g2) where
  -- The public key is not used.
  unfoldable pub verify_ciphertext : Primitives F → Bz03Ciphertext G H → Result SchemeError Bool
  unfolding hash_element
  verify_ciphertext p ct = e.ddh ct.u (hash_element g g2 p ct.u ct.c_k) g2.new ct.hr

  unfoldable pub verify_share :
      Bz03DecryptionShare H
      → Bz03Ciphertext G H
      → Bz03PublicKey G H
      → Option (Result SchemeError Bool)
  verify_share share ct pk =
      Option.map (λ hi. e.ddh share.get_data g.new ct.u hi)
        (verification_key_of pk.verification_key share.id)
