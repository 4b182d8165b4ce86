-- ===== src/Dl/Cks05/Toss.antt =====
-- The value of the coin of src/core/schemes/src/dl_schemes/coins/cks05.rs.
use quorumcrypt.Algebra.{Scalars, GroupOperations}
use quorumcrypt.Base.{ℕ, ◌≤◌, ◌<◌, ◌≡◌, sym, ap, ◌∙◌, some, List, map, length}
use quorumcrypt.Dl.Cks05.{
  Cks05PrivateKey, Cks05CoinShare, cks05_share, hash_element, hash_bit, make_share, create_share,
  assemble,
}
use quorumcrypt.Dl.Proofs.{pow-pow_comm}
use quorumcrypt.Dl.{Primitives, hash_residue, verification_key_of}
use quorumcrypt.Keys.{Bytes}
use quorumcrypt.Protocols.Collect.Sound.{Every, Every-map}
use quorumcrypt.Sharing.Lagrange.{AreIds}
use quorumcrypt.Sharing.Recover.{IsDealing, interpolate-IsDealing}
use mathlib.Core.Option

module _ {F G : Type 0} ⦃s : Scalars F⦄ (g : GroupOperations F G s) (p : Primitives F) where
  -- A share that a private key with the dealt part for its id creates.
  abbrev pub IsCreated : Bytes → (ℕ → F) → Cks05CoinShare F G → Type 0
  IsCreated name parts share =
      (sk : Cks05PrivateKey F G) × (t : F) × (create_share g p name sk t ≡ some share)
      × (sk.xi ≡ parts sk.id)

  IsCreated-data :
      (name : Bytes) (parts : ℕ → F) (share : Cks05CoinShare F G)
      → IsCreated name parts share
      → share.get_data ≡ g.pow (hash_element g p name) (parts share.id)
  unfolding create_share make_share
  IsCreated-data name parts share (sk, t, e, x) =
      let (hi, q, m) =
        (Option.map-eq-some_iff (make_share g p name sk t)
            (verification_key_of sk.pubkey.verification_key sk.id)).0
          e in
      ap (λ v. v.get_data) (sym m)
      ∙ ap (g.pow (hash_element g p name)) x
      ∙ ap (λ v. g.pow (hash_element g p name) (parts v.id)) m

  -- From at least as many created shares as the threshold, with different ids below the bound, the
  -- coin of a name is assembled: the bit of the name's element to the power of the secret, whichever
  -- shares they are.
  pub assemble-create_share :
      (k : ℕ) (x : F) (parts : ℕ → F) (name : Bytes) (shares : List (Cks05CoinShare F G))
      → IsDealing k x parts
      → AreIds s.bound (map (λ share. share.id) shares)
      → k ≤ length shares
      → 0 < k
      → Every (IsCreated name parts) shares
      → assemble g shares ≡ hash_bit g (g.pow (hash_element g p name) x)
  unfolding assemble Option.bind
  assemble-create_share k x parts name shares dealt a n m h =
      ap (λ o. Option.bind o (hash_bit g))
        (interpolate-IsDealing g cks05_share k x parts (hash_element g p name) shares dealt a n m (
          Every-map (IsCreated name parts)
            (λ share. share.get_data ≡ g.pow (hash_element g p name) (parts share.id)) shares
            (IsCreated-data name parts) h))

  -- The coin of every name is a function of the name and the public key: it is assembled to the bit
  -- of the public element to the power of the name's hash, for which no share is needed.
  pub assemble-public :
      (k : ℕ) (x : F) (parts : ℕ → F) (name : Bytes) (shares : List (Cks05CoinShare F G)) (y : G)
      → IsDealing k x parts
      → y ≡ g.pow g.new x
      → AreIds s.bound (map (λ share. share.id) shares)
      → k ≤ length shares
      → 0 < k
      → Every (IsCreated name parts) shares
      → assemble g shares ≡ hash_bit g (g.pow y (hash_residue p name))
  unfolding hash_element
  assemble-public k x parts name shares y dealt ey a n m h =
      assemble-create_share k x parts name shares dealt a n m h
      ∙ ap (hash_bit g) (
          pow-pow_comm g g.new (hash_residue p name) x
          ∙ ap (λ v. g.pow v (hash_residue p name)) (sym ey))
