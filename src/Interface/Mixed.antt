-- ===== src/Interface/Mixed.antt =====
-- Values of different schemes given to the operations of src/core/schemes/src/interface.rs.
use quorumcrypt.Algebra.{Scalars, GroupOperations, Pairing}
use quorumcrypt.Base.{◌≡◌, refl, Bool, Option, none, some, List, [], ◌∷◌, arith}
use quorumcrypt.Dl.Bz03.{Bz03DecryptionShare}
use quorumcrypt.Dl.Sg02.{Sg02DecryptionShare}
use quorumcrypt.Dl.{Primitives}
use quorumcrypt.Dl.Bz03
use quorumcrypt.Dl.Sg02
use quorumcrypt.Errors.{Result, ok, err, SchemeError, wrong_scheme}
use quorumcrypt.Interface.{
  WrappedPublicKey, Ciphertext, DecryptionShare, unwrap_enum_vec, as_sg02, as_bz03,
  ciphertext_scheme, share_scheme, key_scheme, verify_share, assemble,
}
use quorumcrypt.Keys.{Bytes}
use quorumcrypt.Schemes.{ThresholdScheme}
use quorumcrypt.Protocols.Collect.Sound.{Every, Every-map}

module _ {A B : Type 0} (variant : A → Option B) (e : SchemeError) where
  unwrap_step :
      (o : Option B) (rest : Result SchemeError (List B)) (ys : List B)
      → (elim o [ none ↦ err e | some y ↦ elim rest [ err f ↦ err f | ok zs ↦ ok (y ∷ zs) ] ]
          ≡ ok ys)
      → (y : B) × (o ≡ some y) × (zs : List B) × (rest ≡ ok zs)
  unwrap_step none rest ys h = cc
  unwrap_step (some y) (err f) ys h = cc
  unwrap_step (some y) (ok zs) ys h = (y, refl, zs, refl)

  -- Every value that is unwrapped is of the variant.
  unwrap_enum_vec-ok :
      (xs : List A) (ys : List B)
      → unwrap_enum_vec variant e xs ≡ ok ys
      → Every (λ x. (y : B) × (variant x ≡ some y)) xs
  unfolding unwrap_enum_vec
  unwrap_enum_vec-ok [] ys h = tt
  unwrap_enum_vec-ok (x ∷ xs) ys h =
      let (y, q, zs, r) = unwrap_step (variant x) (unwrap_enum_vec variant e xs) ys h in
      ((y, q), unwrap_enum_vec-ok xs zs r)

  unwrapped :
      {C : Type 0} (f : List B → Option (Result SchemeError C)) (xs : List A) (z : C)
      → (elim (unwrap_enum_vec variant e xs) [ ok ys ↦ f ys | err d ↦ some (err d) ] ≡ some (ok z))
      → Every (λ x. (y : B) × (variant x ≡ some y)) xs
  unwrapped f xs z h = step (unwrap_enum_vec variant e xs) refl h
    where
      step :
          (o : Result SchemeError (List B))
          → unwrap_enum_vec variant e xs ≡ o
          → (elim o [ ok ys ↦ f ys | err d ↦ some (err d) ] ≡ some (ok z))
          → Every (λ x. (y : B) × (variant x ≡ some y)) xs
      step (ok ys) q h = unwrap_enum_vec-ok xs ys q
      step (err d) q h = cc

as_sg02_scheme :
    {F G H : Type 0} (x : DecryptionShare F G H)
    → (y : Sg02DecryptionShare F G) × (as_sg02 x ≡ some y)
    → share_scheme x ≡ ThresholdScheme.sg02
as_sg02_scheme (DecryptionShare.sg02 x) h = refl
as_sg02_scheme (DecryptionShare.bz03 x) (y, q) = cc

as_bz03_scheme :
    {F G H : Type 0} (x : DecryptionShare F G H)
    → (y : Bz03DecryptionShare H) × (as_bz03 x ≡ some y)
    → share_scheme x ≡ ThresholdScheme.bz03
as_bz03_scheme (DecryptionShare.bz03 x) h = refl
as_bz03_scheme (DecryptionShare.sg02 x) (y, q) = cc

module _ {F G H : Type 0} ⦃s : Scalars F⦄ (g : GroupOperations F G s) (g2 : GroupOperations F H s)
    (p : Primitives F) where
  -- A message is assembled only from shares that are all of the ciphertext's scheme.
  pub assemble-scheme :
      (shares : List (DecryptionShare F G H)) (ct : Ciphertext F G H) (msg : Bytes)
      → assemble g g2 p shares ct ≡ some (ok msg)
      → Every (λ share. share_scheme share ≡ ciphertext_scheme ct) shares
  unfolding assemble
  assemble-scheme shares (Ciphertext.sg02 ct) msg h =
      Every-map (λ x. (y : Sg02DecryptionShare F G) × (as_sg02 x ≡ some y))
        (λ x. share_scheme x ≡ ThresholdScheme.sg02) shares as_sg02_scheme
        (unwrapped as_sg02 wrong_scheme (λ xs. Sg02.assemble g p xs ct) shares msg h)
  assemble-scheme shares (Ciphertext.bz03 ct) msg h =
      Every-map (λ x. (y : Bz03DecryptionShare H) × (as_bz03 x ≡ some y))
        (λ x. share_scheme x ≡ ThresholdScheme.bz03) shares as_bz03_scheme
        (unwrapped as_bz03 wrong_scheme (λ xs. Bz03.assemble g2 p xs ct) shares msg h)

module _ {F G H K T : Type 0} ⦃s : Scalars F⦄ {g : GroupOperations F G s}
    {g2 : GroupOperations F H s} (e : Pairing F G H T s g g2) (p : Primitives F) where
  -- A share has a verdict only under a key and for a ciphertext of its own scheme.
  pub verify_share-scheme :
      (share : DecryptionShare F G H) (ct : Ciphertext F G H) (key : WrappedPublicKey F G H K)
      (b : Bool)
      → verify_share e p share ct key ≡ some (ok b)
      → (share_scheme share ≡ ciphertext_scheme ct) × (key_scheme key ≡ ciphertext_scheme ct)
  unfolding verify_share
  verify_share-scheme (DecryptionShare.sg02 x) (Ciphertext.sg02 ct) key b h = (refl, ground arith)
  verify_share-scheme (DecryptionShare.bz03 x) (Ciphertext.bz03 ct) key b h = (refl, ground arith)
  verify_share-scheme (DecryptionShare.sg02 x) (Ciphertext.bz03 ct) key b h = cc
  verify_share-scheme (DecryptionShare.bz03 x) (Ciphertext.sg02 ct) key b h = cc
