-- ===== src/Interface/Coins.antt =====
-- `ThresholdCoin` of src/core/schemes/src/interface.rs. The random number of a share is the last argument.
-- A result of `none` is a panic.
use quorumcrypt.Algebra.{Scalars, GroupOperations}
use quorumcrypt.Base.{ℕ, ◌≡◌, ap, Bool, true, Option, some, List}
use quorumcrypt.Dl.Cks05.Honest.{verify_share-create_share}
use quorumcrypt.Dl.Cks05.{Cks05PrivateKey, Cks05CoinShare}
use quorumcrypt.Dl.{Primitives, verification_key_of}
use quorumcrypt.Errors.{Result, ok, err, SchemeError, wrong_key_provided, wrong_scheme}
use quorumcrypt.Generator.Dispatch.{GeneratedKey}
use quorumcrypt.Interface.{WrappedPublicKey, CoinShare, unwrap_enum_vec}
use quorumcrypt.Keys.{Bytes}
use mathlib.Core.Option
use quorumcrypt.Dl.Cks05

abbrev pub as_cks05 : {F G : Type 0} → CoinShare F G → Option (Cks05CoinShare F G)
as_cks05 (CoinShare.cks05 share) = some share

module _ {F G : Type 0} ⦃s : Scalars F⦄ (g : GroupOperations F G s) where
  unfoldable pub assemble : List (CoinShare F G) → Option (Result SchemeError ℕ)
  unfolding unwrap_enum_vec
  assemble shares = elim (unwrap_enum_vec as_cks05 wrong_scheme shares) [
    | ok xs ↦ Option.map ok (Cks05.assemble g xs)
    | err f ↦ some (err f)
  ]

module _ {F G H K : Type 0} ⦃s : Scalars F⦄ (g : GroupOperations F G s) (p : Primitives F) where
  unfoldable pub create_share :
      Bytes → GeneratedKey F G H K → F → Option (Result SchemeError (CoinShare F G))
  create_share name (GeneratedKey.cks05 sk) t =
      Option.map (λ x. ok (CoinShare.cks05 x)) (Cks05.create_share g p name sk t)
  create_share name key t = some (err wrong_key_provided)

  unfoldable pub verify_share :
      CoinShare F G → Bytes → WrappedPublicKey F G H K → Option (Result SchemeError Bool)
  verify_share (CoinShare.cks05 x) name (WrappedPublicKey.cks05 pk) =
      Option.map ok (Cks05.verify_share g p x name pk)
  verify_share x name key = some (err wrong_key_provided)

module _ {F G : Type 0} (H K : Type 0) ⦃s : Scalars F⦄ (g : GroupOperations F G s)
    (p : Primitives F) where
  -- A private key whose verification key is the power of the generator by its part of the secret
  -- creates a share, and this share is verified.
  pub verify_share-create_share_wrapped :
      (name : Bytes) (sk : Cks05PrivateKey F G) (t : F)
      → verification_key_of sk.pubkey.verification_key sk.id ≡ some (g.pow g.new sk.xi)
      → (x : CoinShare F G) × (create_share {F = F} {G = G} {H = H} {K = K} g p name
            (GeneratedKey.cks05 sk)
            t
          ≡ some (ok x))
        × (verify_share {F = F} {G = G} {H = H} {K = K} g p x name
              (WrappedPublicKey.cks05 sk.pubkey)
            ≡ some (ok true))
  unfolding create_share verify_share
  verify_share-create_share_wrapped name sk t h =
      let (x, a, b) = verify_share-create_share g p name sk t h in
      (CoinShare.cks05 x, ap (Option.map (λ y. ok (CoinShare.cks05 y))) a, ap (Option.map ok) b)
