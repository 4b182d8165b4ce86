-- ===== src/Generator/Quorum.antt =====
-- Keys that src/core/schemes/src/keys/key_generator.rs generates, used by the cipher of
-- src/core/schemes/src/dl_schemes/ciphers/sg02.rs.
use quorumcrypt.Algebra.{Scalars, GroupOperations}
use quorumcrypt.Base.{
  ℕ, zero, suc, ◌+◌, ◌^◌, ◌≤◌, ◌<◌, ◌≡◌, inl, inr, refl, sym, ap, subst, ◌∙◌, true, none, some,
  List, ◌∷◌, map, length, Has, ltb, Bool-cases, if_true, if_false, arith,
}
use quorumcrypt.Dl.Keys.{dealt_keys, verification_key_of-map}
use quorumcrypt.Dl.Sg02.Decrypt.{assemble-partial_decrypt}
use quorumcrypt.Dl.Sg02.Honest.{verify_ciphertext-encrypt, verify_share-partial_decrypt}
use quorumcrypt.Dl.Sg02.{
  Sg02PublicKey, Sg02PrivateKey, Sg02Ciphertext, encrypt, verify_ciphertext, partial_decrypt,
  verify_share, assemble,
}
use quorumcrypt.Dl.{Primitives, verification_key_of}
use quorumcrypt.Errors.{ok}
use quorumcrypt.Generator.{
  KeyIds, number_keys_checked, deal_keys_checked, new_sg02, generate_sg02, to_u16,
}
use quorumcrypt.Keys.{Bytes}
use quorumcrypt.Protocols.Collect.Sound.{Every, Every-map}
use quorumcrypt.Sharing.Lagrange.{AreIds}
use quorumcrypt.Sharing.Recover.{IsDealing, shamir_share-IsDealing}
use quorumcrypt.Sharing.{range_from}
use mathlib.Core.Option

number_keys_checked_step :
    {F K : Type 0} (make : ℕ → F → K) (i : ℕ) (xi : F) (shares : List F) (keys : List K)
    → number_keys_checked make i (xi ∷ shares) ≡ some keys
    → (rest : List K) × (number_keys_checked make (suc i) shares ≡ some rest)
      × ((make i xi ∷ rest) ≡ keys)
unfolding number_keys_checked
number_keys_checked_step make i xi shares keys e =
    let o = Option.map (λ ks. make i xi ∷ ks) (number_keys_checked make (suc i) shares) in
    elim (Bool-cases (ltb i (2 ^ 16))) [
      | inl q ↦
          (Option.map-eq-some_iff (λ ks. make i xi ∷ ks)
              (number_keys_checked make (suc i) shares)).0
            (sym (if_true (ltb i (2 ^ 16)) o none q) ∙ e)
      | inr q ↦ let c : none ≡ some keys = sym (if_false (ltb i (2 ^ 16)) o none q) ∙ e in cc
    ]

-- A key of the dealt shares has one of the ids, and its share.
number_keys_checked_members :
    {F K : Type 0} (make : ℕ → F → K) (parts : ℕ → F) (j n : ℕ) (keys : List K) (key : K)
    → number_keys_checked make j (map parts (range_from j n)) ≡ some keys
    → Has key keys
    → (i : ℕ) × (i < n) × (key ≡ make (j + i) (parts (j + i)))
unfolding number_keys_checked
number_keys_checked_members make parts j zero keys key e h =
    absurd (subst (Has key) (sym (Option.some-injective _ _ e)) h)
number_keys_checked_members make parts j (suc n) keys key e h =
    let (rest, q, c) =
      number_keys_checked_step make j (parts j) (map parts (range_from (suc j) n)) keys e in
    elim (subst (Has key) (sym c) h) [
      | inl p ↦ (0, omega arith, p ∙ ap (λ m. make m (parts m)) (omega arith))
      | inr m ↦
          let (i, b, p) = number_keys_checked_members make parts (suc j) n rest key q m in
          (suc i, omega arith, p ∙ ap (λ m. make m (parts m)) (omega arith))
    ]

module _ {F G H : Type 0} ⦃s : Scalars F⦄ (g : GroupOperations F G s) (ids : KeyIds G H) where
  -- Every key that is generated has the public key whose element is the power by the secret, an id
  -- from one on, the part for the id, and the power by the part under its id.
  generate_sg02_members :
      (k n : ℕ) (rng : ℕ → F) (g_bar : G) (keys : List (Sg02PrivateKey F G))
      → generate_sg02 g ids (suc k) n rng g_bar ≡ some keys
      → (parts : ℕ → F) × (pk : Sg02PublicKey G) × IsDealing (suc k) (rng 0) parts
        × (pk.y ≡ g.pow g.new (rng 0))
        × (pk.k ≡ to_u16 (suc k))
        × ((key : Sg02PrivateKey F G)
            → Has key keys
            → (key.pubkey ≡ pk)
              × (key.xi ≡ parts key.id)
              × (verification_key_of pk.verification_key key.id ≡ some (g.pow g.new key.xi)))
  unfolding generate_sg02 deal_keys_checked Option.bind new_sg02
  generate_sg02_members k n rng g_bar keys e =
      let (parts, dealt, es) = shamir_share-IsDealing g (rng 0) k n (λ i. rng (suc i)) in
      let y = g.pow g.new (rng 0) in
      let pk = new_sg02 g ids n (suc k) y (dealt_keys g parts n) g_bar in
      let make : List G → ℕ → F → Sg02PrivateKey F G =
        λ h i xi. record { id = i; xi = xi; pubkey = new_sg02 g ids n (suc k) y h g_bar } in
      let d : number_keys_checked (make (dealt_keys g parts n)) 1 (map parts (range_from 1 n))
          ≡ some keys =
        sym (ap (λ o. Option.bind o (λ (shares, h). number_keys_checked (make h) 1 shares)) es)
        ∙ e in
      (
        parts,
        pk,
        dealt,
        refl,
        refl,
        λ key m.
            let (i, b, q) =
              number_keys_checked_members (make (dealt_keys g parts n)) parts 1 n keys key d m in
            let ex : key.xi ≡ parts (1 + i) = ap (λ x. x.xi) q in
            let ei : key.id ≡ 1 + i = ap (λ x. x.id) q in
            (
              ap (λ x. x.pubkey) q,
              ex ∙ ap parts (sym ei),
              ap (verification_key_of (dealt_keys g parts n)) (ei ∙ omega arith)
                  ∙ verification_key_of-map (λ xi. g.pow g.new xi) parts 1 n i b
                  ∙ ap (λ x. some (g.pow g.new x)) (sym ex),
            ),
      )

  pub generate_sg02-threshold :
      (k n : ℕ) (rng : ℕ → F) (g_bar : G) (keys : List (Sg02PrivateKey F G))
      (key : Sg02PrivateKey F G)
      → generate_sg02 g ids (suc k) n rng g_bar ≡ some keys
      → Has key keys
      → suc k < 2 ^ 16
      → key.pubkey.k ≡ suc k
  unfolding to_u16
  generate_sg02-threshold k n rng g_bar keys key e own small =
      let (_, _, _, _, ek, all) = generate_sg02_members k n rng g_bar keys e in
      ap (λ q. q.k) (all key own).0 ∙ ek ∙ omega (arith, small)

  -- With keys that are generated for a threshold and a number of parties: what is encrypted under the
  -- public key of one of them is verified, the share of each key of a quorum is verified, and when
  -- the quorum has at least as many keys as the threshold, with different ids below the bound, the
  -- message is assembled from its shares, whatever random numbers are drawn.
  pub generate_sg02-decrypt :
      (p : Primitives F) (k n : ℕ) (rng : ℕ → F) (g_bar : G) (keys : List (Sg02PrivateKey F G))
      (owner : Sg02PrivateKey F G) (msg label : Bytes) (r : F) (ikm : Bytes) (t : F)
      (ct : Sg02Ciphertext F G) (quorum : List (Sg02PrivateKey F G)) (si : ℕ → F)
      → generate_sg02 g ids (suc k) n rng g_bar ≡ some keys
      → Has owner keys
      → encrypt g p msg label owner.pubkey r ikm t ≡ some ct
      → Every (λ key. Has key keys) quorum
      → AreIds s.bound (map (λ key. key.id) quorum)
      → suc k ≤ length quorum
      → (verify_ciphertext g p ct owner.pubkey ≡ true)
        × Every
            (λ key.
              verify_share g p (partial_decrypt g p ct key (si key.id)) ct owner.pubkey ≡ some true)
            quorum
        × (assemble g p (map (λ key. partial_decrypt g p ct key (si key.id)) quorum) ct
            ≡ some (ok msg))
  generate_sg02-decrypt p k n rng g_bar keys owner msg label r ikm t ct quorum si e own enc members
        a len =
      let (parts, pk, dealt, ey, _, all) = generate_sg02_members k n rng g_bar keys e in
      let (eo, _, _) = all owner own in
      (
        verify_ciphertext-encrypt g p msg label owner.pubkey r ikm t ct enc,
        Every-map (λ key. Has key keys) _ quorum
            (λ key h.
              let (ek, ex, ev) = all key h in
              verify_share-partial_decrypt g p ct owner.pubkey key (si key.id)
                (ap (λ q. verification_key_of q.verification_key key.id) eo ∙ ev))
            members,
        assemble-partial_decrypt g p (suc k) (rng 0) parts owner.pubkey msg label r ikm t ct quorum
            si dealt (ap (λ q. q.y) eo ∙ ey) enc a len (omega arith)
            (Every-map (λ key. Has key keys) (λ key. key.xi ≡ parts key.id) quorum
              (λ key h. let (ek, ex, ev) = all key h in ex) members),
      )
