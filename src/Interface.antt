-- ===== src/Interface.antt =====
-- src/core/schemes/src/interface.rs: the enums over the schemes, their encodings, and the operations that
-- choose the scheme. FROST and RSA values are parameters. A result of `none` is a panic.
pub mod Encodings
pub mod Mixed
pub mod Coins
use quorumcrypt.Algebra.{Scalars, GroupOperations, Pairing}
use quorumcrypt.Base.{ℕ, Bool, Option, none, some, List, [], ◌∷◌}
use quorumcrypt.Dl.Bls04.{Bls04PublicKey, Bls04SignatureShare, Bls04Signature}
use quorumcrypt.Dl.Bz03.{Bz03PublicKey, Bz03Ciphertext, Bz03DecryptionShare}
use quorumcrypt.Dl.Cks05.{Cks05PublicKey, Cks05CoinShare}
use quorumcrypt.Dl.Sg02.{Sg02PublicKey, Sg02Ciphertext, Sg02DecryptionShare}
use quorumcrypt.Dl.{Primitives}
use quorumcrypt.Errors.{Result, ok, err, SchemeError, wrong_key_provided, wrong_scheme}
use quorumcrypt.Generator.Dispatch.{GeneratedKey}
use quorumcrypt.Dl.Frost.{FrostPublicKey}
use quorumcrypt.Keys.{Bytes}
use quorumcrypt.Schemes.{ThresholdScheme}
use mathlib.Core.Option
use quorumcrypt.Dl.Bz03
use quorumcrypt.Dl.Cks05
use quorumcrypt.Dl.Sg02

pub data WrappedPublicKey (F G H K : Type 0) : Type 0 where
  sg02 : Sg02PublicKey G → WrappedPublicKey F G H K
  bz03 : Bz03PublicKey G H → WrappedPublicKey F G H K
  bls04 : Bls04PublicKey G → WrappedPublicKey F G H K
  cks05 : Cks05PublicKey G → WrappedPublicKey F G H K
  frost : FrostPublicKey G → WrappedPublicKey F G H K
  sh00 : K → WrappedPublicKey F G H K

pub data Ciphertext (F G H : Type 0) : Type 0 where
  sg02 : Sg02Ciphertext F G → Ciphertext F G H
  bz03 : Bz03Ciphertext G H → Ciphertext F G H

pub data DecryptionShare (F G H : Type 0) : Type 0 where
  sg02 : Sg02DecryptionShare F G → DecryptionShare F G H
  bz03 : Bz03DecryptionShare H → DecryptionShare F G H

pub data CoinShare (F G : Type 0) : Type 0 where
  cks05 : Cks05CoinShare F G → CoinShare F G

pub data SignatureShare (H X Y : Type 0) : Type 0 where
  bls04 : Bls04SignatureShare H → SignatureShare H X Y
  frost : X → SignatureShare H X Y
  sh00 : Y → SignatureShare H X Y

pub data Signature (H X Y : Type 0) : Type 0 where
  bls04 : Bls04Signature H → Signature H X Y
  sh00 : Y → Signature H X Y
  frost : X → Signature H X Y

-- The macro `unwrap_enum_vec`, for the test that a value is of the variant.
unfoldable pub unwrap_enum_vec {ℓ κ} :
    {A : Type ℓ} {B : Type κ} → (A → Option B) → SchemeError → List A → Result SchemeError (List B)
unwrap_enum_vec variant e [] = ok []
unwrap_enum_vec variant e (x ∷ xs) =
    let rest = unwrap_enum_vec variant e xs in
    elim (variant x) [ none ↦ err e | some y ↦ elim rest [ err f ↦ err f | ok ys ↦ ok (y ∷ ys) ] ]

abbrev pub as_sg02 : {F G H : Type 0} → DecryptionShare F G H → Option (Sg02DecryptionShare F G)
as_sg02 (DecryptionShare.sg02 share) = some share
as_sg02 (DecryptionShare.bz03 share) = none

abbrev pub as_bz03 : {F G H : Type 0} → DecryptionShare F G H → Option (Bz03DecryptionShare H)
as_bz03 (DecryptionShare.sg02 share) = none
as_bz03 (DecryptionShare.bz03 share) = some share

-- `Ciphertext::get_scheme`, `DecryptionShare::get_scheme` and `PublicKey::get_scheme`.
abbrev pub ciphertext_scheme : {F G H : Type 0} → Ciphertext F G H → ThresholdScheme
ciphertext_scheme (Ciphertext.sg02 ct) = ThresholdScheme.sg02
ciphertext_scheme (Ciphertext.bz03 ct) = ThresholdScheme.bz03

abbrev pub share_scheme : {F G H : Type 0} → DecryptionShare F G H → ThresholdScheme
share_scheme (DecryptionShare.sg02 share) = ThresholdScheme.sg02
share_scheme (DecryptionShare.bz03 share) = ThresholdScheme.bz03

abbrev pub key_scheme : {F G H K : Type 0} → WrappedPublicKey F G H K → ThresholdScheme
key_scheme (WrappedPublicKey.sg02 key) = ThresholdScheme.sg02
key_scheme (WrappedPublicKey.bz03 key) = ThresholdScheme.bz03
key_scheme (WrappedPublicKey.bls04 key) = ThresholdScheme.bls04
key_scheme (WrappedPublicKey.cks05 key) = ThresholdScheme.cks05
key_scheme (WrappedPublicKey.frost key) = ThresholdScheme.frost
key_scheme (WrappedPublicKey.sh00 key) = ThresholdScheme.sh00

module _ {F G H K T : Type 0} ⦃s : Scalars F⦄ {g : GroupOperations F G s}
    {g2 : GroupOperations F H s} (e : Pairing F G H T s g g2) (p : Primitives F) where
  -- The random numbers `r`, `ikm` and, for SG02, `t` are drawn.
  unfoldable pub encrypt :
      Bytes
      → Bytes
      → WrappedPublicKey F G H K
      → F
      → Bytes
      → F
      → Option (Result SchemeError (Ciphertext F G H))
  encrypt msg label (WrappedPublicKey.sg02 key) r ikm t =
      Option.map (λ ct. ok (Ciphertext.sg02 ct)) (Sg02.encrypt g p msg label key r ikm t)
  encrypt msg label (WrappedPublicKey.bz03 key) r ikm t =
      Option.map (λ ct. ok (Ciphertext.bz03 ct)) (Bz03.encrypt g g2 p msg label key r ikm)
  encrypt msg label key r ikm t = some (err wrong_key_provided)

  unfoldable pub verify_ciphertext :
      Ciphertext F G H → WrappedPublicKey F G H K → Result SchemeError Bool
  verify_ciphertext (Ciphertext.sg02 ct) (WrappedPublicKey.sg02 key) =
      ok (Sg02.verify_ciphertext g p ct key)
  verify_ciphertext (Ciphertext.bz03 ct) (WrappedPublicKey.bz03 key) = Bz03.verify_ciphertext e p ct
  verify_ciphertext ct key = err wrong_key_provided

  unfoldable pub verify_share :
      DecryptionShare F G H
      → Ciphertext F G H
      → WrappedPublicKey F G H K
      → Option (Result SchemeError Bool)
  verify_share (DecryptionShare.sg02 share) (Ciphertext.sg02 ct) (WrappedPublicKey.sg02 key) =
      Option.map ok (Sg02.verify_share g p share ct key)
  verify_share (DecryptionShare.sg02 share) (Ciphertext.sg02 ct) key = some (err wrong_key_provided)
  verify_share (DecryptionShare.bz03 share) (Ciphertext.bz03 ct) (WrappedPublicKey.bz03 key) =
      Bz03.verify_share e share ct key
  verify_share (DecryptionShare.bz03 share) (Ciphertext.bz03 ct) key = some (err wrong_key_provided)
  verify_share share ct key = some (err wrong_scheme)

  unfoldable pub partial_decrypt :
      Ciphertext F G H → GeneratedKey F G H K → F → Result SchemeError (DecryptionShare F G H)
  partial_decrypt (Ciphertext.sg02 ct) (GeneratedKey.sg02 key) si =
      ok (DecryptionShare.sg02 (Sg02.partial_decrypt g p ct key si))
  partial_decrypt (Ciphertext.bz03 ct) (GeneratedKey.bz03 key) si =
      ok (DecryptionShare.bz03 (Bz03.partial_decrypt g2 p ct key))
  partial_decrypt ct key si = err wrong_key_provided

module _ {F G H : Type 0} ⦃s : Scalars F⦄ (g : GroupOperations F G s) (g2 : GroupOperations F H s)
    (p : Primitives F) where
  unfoldable pub assemble :
      List (DecryptionShare F G H) → Ciphertext F G H → Option (Result SchemeError Bytes)
  unfolding unwrap_enum_vec
  assemble shares (Ciphertext.sg02 ct) = elim (unwrap_enum_vec as_sg02 wrong_scheme shares) [
    | ok xs ↦ Sg02.assemble g p xs ct
    | err f ↦ some (err f)
  ]
  assemble shares (Ciphertext.bz03 ct) = elim (unwrap_enum_vec as_bz03 wrong_scheme shares) [
    | ok xs ↦ Bz03.assemble g2 p xs ct
    | err f ↦ some (err f)
  ]
