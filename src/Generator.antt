-- ===== src/Generator.antt =====
-- src/core/schemes/src/keys/key_generator.rs: the key generator, and the constructors of the key structs
-- that it calls. The random residues are the values of `rng`, in the order in which they are drawn. A
-- result of `none` is a panic.
pub mod Dispatch
pub mod Lengths
pub mod Guards
pub mod Quorum
pub mod Counted
use quorumcrypt.Algebra.{Scalars, GroupOperations}
use quorumcrypt.Base.{
  ℕ, zero, suc, ◌+◌, ◌%◌, ◌^◌, String, Option, none, some, List, [], ◌∷◌, ltb, if◌then◌else◌,
}
use quorumcrypt.Dl.Bls04.{Bls04PublicKey, Bls04PrivateKey}
use quorumcrypt.Dl.Bz03.{Bz03PublicKey, Bz03PrivateKey}
use quorumcrypt.Dl.Cks05.{Cks05PublicKey, Cks05PrivateKey}
use quorumcrypt.Dl.Frost.{FrostPublicKey, FrostPrivateKey}
use quorumcrypt.Dl.Sg02.{Sg02PublicKey, Sg02PrivateKey}
use quorumcrypt.Keys.{Bytes}
use quorumcrypt.Schemes.{Group}
use quorumcrypt.Sharing.{shamir_share}
use mathlib.Core.Option

-- `asn1` on the public keys, and `calc_key_id`: SHA-256 followed by base64.
pub record KeyIds (G H : Type 0) : Type 0 where
  pub bz03_bytes : Bz03PublicKey G H → Bytes
  pub sg02_bytes : Sg02PublicKey G → Bytes
  pub bls04_bytes : Bls04PublicKey G → Bytes
  pub cks05_bytes : Cks05PublicKey G → Bytes
  pub frost_bytes : FrostPublicKey G → Bytes
  pub calc_key_id : Bytes → String

-- `n as u16`
unfoldable pub to_u16 : ℕ → ℕ
to_u16 n = n % 2 ^ 16

-- The keys of the shares from `i` on, whose ids are cast.
unfoldable pub number_keys : {F K : Type 0} → (ℕ → F → K) → ℕ → List F → List K
unfolding to_u16
number_keys make i [] = []
number_keys make i (xi ∷ shares) = make (to_u16 i) xi ∷ number_keys make (suc i) shares

-- The same for ids that are converted, which panics when one does not fit.
unfoldable pub number_keys_checked : {F K : Type 0} → (ℕ → F → K) → ℕ → List F → Option (List K)
number_keys_checked make i [] = some []
number_keys_checked make i (xi ∷ shares) =
    let rest = number_keys_checked make (suc i) shares in
    if ltb i (2 ^ 16) then Option.map (λ keys. make i xi ∷ keys) rest else none

module _ {F G : Type 0} ⦃s : Scalars F⦄ (g : GroupOperations F G s) where
  -- The secret is shared, and a key is made of the verification keys, an id and a share.
  unfoldable pub deal_keys :
      {K : Type 0} → (List G → ℕ → F → K) → ℕ → ℕ → F → (ℕ → F) → Option (List K)
  unfolding number_keys
  deal_keys make k n x rng =
      Option.map (λ (shares, h). number_keys (make h) 1 shares) (shamir_share g x k n rng)

  unfoldable pub deal_keys_checked :
      {K : Type 0} → (List G → ℕ → F → K) → ℕ → ℕ → F → (ℕ → F) → Option (List K)
  unfolding number_keys_checked Option.bind
  deal_keys_checked make k n x rng =
      Option.bind (shamir_share g x k n rng) (λ (shares, h). number_keys_checked (make h) 1 shares)

module _ {F G H : Type 0} ⦃s : Scalars F⦄ (g : GroupOperations F G s) (ids : KeyIds G H) where
  unfoldable pub new_sg02 : ℕ → ℕ → G → List G → G → Sg02PublicKey G
  unfolding to_u16
  new_sg02 n k y verification_key g_bar =
      let key : Sg02PublicKey G = record {
        id = "";
        n = to_u16 n;
        k = to_u16 k;
        y = y;
        verification_key = verification_key;
        g_bar = g_bar;
      } in
      record key { id = ids.calc_key_id (ids.sg02_bytes key) }

  unfoldable pub new_bz03 : ℕ → ℕ → H → List G → Bz03PublicKey G H
  unfolding to_u16
  new_bz03 n k y verification_key =
      let key : Bz03PublicKey G H = record {
        id = "";
        n = to_u16 n;
        k = to_u16 k;
        y = y;
        verification_key = verification_key;
      } in
      record key { id = ids.calc_key_id (ids.bz03_bytes key) }

  unfoldable pub new_bls04 : ℕ → ℕ → G → List G → Bls04PublicKey G
  unfolding to_u16
  new_bls04 n k y verification_key =
      let key : Bls04PublicKey G = record {
        id = "";
        n = to_u16 n;
        k = to_u16 k;
        y = y;
        verification_key = verification_key;
      } in
      record key { id = ids.calc_key_id (ids.bls04_bytes key) }

  unfoldable pub new_cks05 : ℕ → ℕ → G → List G → Cks05PublicKey G
  unfolding to_u16
  new_cks05 n k y verification_key =
      let key : Cks05PublicKey G = record {
        id = "";
        n = to_u16 n;
        k = to_u16 k;
        y = y;
        verification_key = verification_key;
      } in
      record key { id = ids.calc_key_id (ids.cks05_bytes key) }

  unfoldable pub new_frost : ℕ → ℕ → Group → G → List G → FrostPublicKey G
  unfolding to_u16
  new_frost n k group y h =
      let key : FrostPublicKey G = record {
        id = "";
        n = to_u16 n;
        k = to_u16 k;
        group = group;
        y = y;
        h = h;
      } in
      record key { id = ids.calc_key_id (ids.frost_bytes key) }

  -- The element `g_bar` is random.
  unfoldable pub generate_sg02 : ℕ → ℕ → (ℕ → F) → G → Option (List (Sg02PrivateKey F G))
  unfolding new_sg02 deal_keys_checked
  generate_sg02 k n rng g_bar =
      let x = rng 0 in
      deal_keys_checked g
        (λ h i xi. record { id = i; xi = xi; pubkey = new_sg02 n k (g.pow g.new x) h g_bar }) k n x
        (λ i. rng (suc i))

  unfoldable pub generate_bz03 :
      GroupOperations F H s → ℕ → ℕ → (ℕ → F) → Option (List (Bz03PrivateKey F G H))
  unfolding new_bz03 deal_keys
  generate_bz03 g2 k n rng =
      let x = rng 0 in
      deal_keys g (λ h i xi. record { id = i; xi = xi; pubkey = new_bz03 n k (g2.pow g2.new x) h })
        k n x (λ i. rng (suc i))

  unfoldable pub generate_bls04 : ℕ → ℕ → (ℕ → F) → Option (List (Bls04PrivateKey F G))
  unfolding new_bls04 deal_keys
  generate_bls04 k n rng =
      let x = rng 0 in
      deal_keys g (λ h i xi. record { id = i; xi = xi; pubkey = new_bls04 n k (g.pow g.new x) h }) k
        n x (λ i. rng (suc i))

  unfoldable pub generate_cks05 : ℕ → ℕ → (ℕ → F) → Option (List (Cks05PrivateKey F G))
  unfolding new_cks05 deal_keys
  generate_cks05 k n rng =
      let x = rng 0 in
      deal_keys g (λ h i xi. record { id = i; xi = xi; pubkey = new_cks05 n k (g.pow g.new x) h }) k
        n x (λ i. rng (suc i))

  unfoldable pub generate_frost : ℕ → ℕ → (ℕ → F) → Group → Option (List (FrostPrivateKey F G))
  unfolding new_frost deal_keys
  generate_frost k n rng group =
      let x = rng 0 in
      deal_keys g
        (λ h i xi. record { id = i; x = xi; pubkey = new_frost n k group (g.pow g.new x) h }) k n x
        (λ i. rng (suc i))
