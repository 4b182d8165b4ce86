-- ===== src/Dl/Bls04.antt =====
-- src/core/schemes/src/dl_schemes/signatures/bls04.rs: the threshold signature of Boneh, Lynn and Shacham,
-- with signatures in the second group of a pairing. A result of `none` is a panic.
pub mod Exact
pub mod Sign
use quorumcrypt.Algebra.{Scalars, GroupOperations, Pairing}
use quorumcrypt.Base.{ℕ, String, Bool, Option, List, map}
use quorumcrypt.Dl.{Primitives, hash_residue, verification_key_of}
use quorumcrypt.Errors.{Result, SchemeError}
use quorumcrypt.Keys.{Bytes}
use quorumcrypt.Sharing.{DlShare, interpolate}
use mathlib.Core.Option

pub record Bls04PublicKey (G : Type 0) : Type 0 where
  pub n : ℕ
  pub k : ℕ
  pub y : G
  pub verification_key : List G
  pub id : String

pub record Bls04PrivateKey (F G : Type 0) : Type 0 where
  pub id : ℕ
  pub xi : F
  pub pubkey : Bls04PublicKey G

pub record Bls04SignatureShare (H : Type 0) : Type 0 where
  pub id : ℕ
  pub label : Bytes
  pub get_data : H

pub record Bls04Signature (H : Type 0) : Type 0 where
  pub sig : H

abbrev pub bls04_share : {H : Type 0} → DlShare (Bls04SignatureShare H) H
bls04_share = record { get_id = λ x. x.id; get_data = λ x. x.get_data }

module _ {F H : Type 0} ⦃s : Scalars F⦄ (g2 : GroupOperations F H s) where
  -- The message and the public key are not used.
  unfoldable pub assemble : List (Bls04SignatureShare H) → Option (Bls04Signature H)
  assemble shares = Option.map (λ sig. record { sig = sig }) (interpolate g2 bls04_share shares)

  module _ (p : Primitives F) where
    -- `H`
    unfoldable pub hash_element : Bytes → H
    hash_element m = g2.pow g2.new (hash_residue p m)

    unfoldable pub partial_sign :
        {G : Type 0} → Bytes → Bytes → Bls04PrivateKey F G → Bls04SignatureShare H
    unfolding hash_element
    partial_sign msg label sk = record {
      id = sk.id;
      label = label;
      get_data = g2.pow (hash_element msg) sk.xi;
    }

module _ {F G H T : Type 0} ⦃s : Scalars F⦄ {g : GroupOperations F G s} {g2 : GroupOperations F H s}
    (e : Pairing F G H T s g g2) (p : Primitives F) where
  unfoldable pub verify : Bls04Signature H → Bls04PublicKey G → Bytes → Result SchemeError Bool
  unfolding hash_element
  verify sig pk msg = e.ddh (hash_element g2 p msg) pk.y sig.sig g.new

  unfoldable pub verify_share :
      Bls04SignatureShare H → Bytes → Bls04PublicKey G → Option (Result SchemeError Bool)
  unfolding hash_element
  verify_share share msg pk =
      Option.map (λ hi. e.ddh (hash_element g2 p msg) hi share.get_data g.new)
        (verification_key_of pk.verification_key share.id)
