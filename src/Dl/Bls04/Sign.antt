-- ===== src/Dl/Bls04/Sign.antt =====
-- Signatures of src/core/schemes/src/dl_schemes/signatures/bls04.rs from verified shares, and from one
-- another.
use quorumcrypt.Algebra.Rings.{cancel_factor}
use quorumcrypt.Algebra.{Scalars, GroupOperations, Pairing, ◌⊗◌}
use quorumcrypt.Base.{ℕ, ◌≤◌, ◌<◌, ◌≡◌, ◌≢◌, refl, sym, ap, ◌∙◌, true, some, List, map, length}
use quorumcrypt.Dl.Bls04.Exact.{verify_iff, verify_share_iff}
use quorumcrypt.Dl.Bls04.{
  Bls04PublicKey, Bls04SignatureShare, Bls04Signature, bls04_share, hash_element, verify,
  verify_share, assemble,
}
use quorumcrypt.Dl.Keys.{dealt_keys, verification_key_of-dealt_keys}
use quorumcrypt.Dl.{Primitives, hash_residue, verification_key_of}
use quorumcrypt.Errors.{ok}
use quorumcrypt.Keys.{Bytes}
use quorumcrypt.Protocols.Collect.Sound.{Every, Every-map}
use quorumcrypt.Sharing.Lagrange.{AreIds}
use quorumcrypt.Sharing.Recover.{IsDealing, interpolate-IsDealing}
use mathlib.Core.Option

module _ {F G H T : Type 0} ⦃s : Scalars F⦄ {g : GroupOperations F G s} {g2 : GroupOperations F H s}
    (e : Pairing F G H T s g g2) (p : Primitives F) where
  verify_share_data :
      (parts : ℕ → F) (n : ℕ) (pk : Bls04PublicKey G) (msg : Bytes) (share : Bls04SignatureShare H)
      → pk.verification_key ≡ dealt_keys g parts n
      → verify_share e p share msg pk ≡ some (ok true)
      → share.get_data ≡ g2.pow (hash_element g2 p msg) (parts share.id)
  unfolding verify_share
  verify_share_data parts n pk msg share ev h =
      let (hi, q, m) =
        (Option.map-eq-some_iff (λ hi. e.ddh (hash_element g2 p msg) hi share.get_data g.new)
            (verification_key_of pk.verification_key share.id)).0
          h in
      let r =
        verification_key_of-dealt_keys g parts n share.id hi
          (ap (λ vk. verification_key_of vk share.id) (sym ev) ∙ q) in
      (verify_share_iff e p share pk msg (parts share.id) (q ∙ ap some r)).0 h

  -- Shares that are verified, whoever made them, at least as many as the threshold and with different
  -- ids below the bound, are assembled to a signature that is verified.
  pub verify-assemble :
      (k n : ℕ) (x : F) (parts : ℕ → F) (pk : Bls04PublicKey G) (msg : Bytes)
      (shares : List (Bls04SignatureShare H))
      → IsDealing k x parts
      → pk.y ≡ g.pow g.new x
      → pk.verification_key ≡ dealt_keys g parts n
      → AreIds s.bound (map (λ share. share.id) shares)
      → k ≤ length shares
      → 0 < k
      → Every (λ share. verify_share e p share msg pk ≡ some (ok true)) shares
      → (sig : Bls04Signature H) × (assemble g2 shares ≡ some sig)
        × (verify e p sig pk msg ≡ ok true)
  unfolding assemble
  verify-assemble k n x parts pk msg shares dealt ey ev a m z h =
      let sig : Bls04Signature H = record { sig = g2.pow (hash_element g2 p msg) x } in
      (
        sig,
        ap (Option.map (λ v. record { sig = v })) (
            interpolate-IsDealing g2 bls04_share k x parts (hash_element g2 p msg) shares dealt a m
              z
              (Every-map (λ share. verify_share e p share msg pk ≡ some (ok true))
                (λ share. share.get_data ≡ g2.pow (hash_element g2 p msg) (parts share.id)) shares
                (λ share. verify_share_data parts n pk msg share ev) h)),
        (verify_iff e p sig pk msg x ey).1 refl,
      )

  -- From a signature that is verified for one message, whose hash is not zero, a signature of every
  -- other message is computed with public values only, and it is verified.
  pub verify-pow :
      (x : F) (pk : Bls04PublicKey G) (sig : Bls04Signature H) (msg other : Bytes)
      → pk.y ≡ g.pow g.new x
      → hash_residue p msg ≢ s.nought
      → verify e p sig pk msg ≡ ok true
      → verify e p
          (record { sig = g2.pow sig.sig (s.inv_mod (hash_residue p msg) ⊗ hash_residue p other) })
          pk
          other
        ≡ ok true
  unfolding hash_element
  verify-pow x pk sig msg other ey ne h =
      let a = hash_residue p msg in
      let b = hash_residue p other in
      let c = s.inv_mod a ⊗ b in
      (verify_iff e p (record { sig = g2.pow sig.sig c }) pk other x ey).1 (
        ap (λ v. g2.pow v c) ((verify_iff e p sig pk msg x ey).0 h)
        ∙ ap (λ v. g2.pow v c) (sym (g2.pow-mul_mod g2.new a x))
        ∙ sym (g2.pow-mul_mod g2.new (a ⊗ x) c)
        ∙ ap (g2.pow g2.new) (cancel_factor a b (s.inv_mod a) x (s.mul-inv a ne))
        ∙ g2.pow-mul_mod g2.new b x)
