-- ===== src/Dl/Bls04/Exact.antt =====
-- What the verifications of src/core/schemes/src/dl_schemes/signatures/bls04.rs accept.
use quorumcrypt.Algebra.{Scalars, GroupOperations, Pairing}
use quorumcrypt.Base.{◌≡◌, ◌↔◌, sym, ap, ◌∙◌, true, some}
use quorumcrypt.Dl.Bls04.{
  Bls04PublicKey, Bls04SignatureShare, Bls04Signature, hash_element, verify, verify_share,
}
use quorumcrypt.Dl.{Primitives, verification_key_of}
use quorumcrypt.Errors.{ok}
use quorumcrypt.Keys.{Bytes}
use mathlib.Core.Option

module _ {F G H T : Type 0} ⦃s : Scalars F⦄ {g : GroupOperations F G s} {g2 : GroupOperations F H s}
    (e : Pairing F G H T s g g2) where
  -- The pairing compares an element with the power of another.
  pub ddh_iff : (v w : H) (x : F) → (e.ddh v (g.pow g.new x) w g.new ≡ ok true) ↔ (w ≡ g2.pow v x)
  ddh_iff v w x =
      let (a, b) = e.ddh_pair v w (g.pow g.new x) g.new in
      (
        λ q. e.pair_inj w (g2.pow v x) (sym (a q) ∙ sym (e.pair-pow v g.new x)),
        λ q. b (sym (e.pair-pow v g.new x) ∙ ap (λ u. e.pair u g.new) (sym q)),
      )

  module _ (p : Primitives F) where
    -- Under the power of the generator by `x`, exactly the power of the message's element by `x` is
    -- verified.
    pub verify_iff :
        (sig : Bls04Signature H) (pk : Bls04PublicKey G) (msg : Bytes) (x : F)
        → pk.y ≡ g.pow g.new x
        → (verify e p sig pk msg ≡ ok true) ↔ (sig.sig ≡ g2.pow (hash_element g2 p msg) x)
    unfolding verify
    verify_iff sig pk msg x ey =
        let (a, b) = ddh_iff (hash_element g2 p msg) sig.sig x in
        let q = ap (λ y. e.ddh (hash_element g2 p msg) y sig.sig g.new) ey in
        (λ h. a (sym q ∙ h), λ h. q ∙ b h)

    -- A share is verified exactly when it is the power of the message's element by the part whose
    -- power is the verification key under the share's id.
    pub verify_share_iff :
        (share : Bls04SignatureShare H) (pk : Bls04PublicKey G) (msg : Bytes) (xi : F)
        → verification_key_of pk.verification_key share.id ≡ some (g.pow g.new xi)
        → (verify_share e p share msg pk ≡ some (ok true))
          ↔ (share.get_data ≡ g2.pow (hash_element g2 p msg) xi)
    unfolding verify_share
    verify_share_iff share pk msg xi ev =
        let (a, b) = ddh_iff (hash_element g2 p msg) share.get_data xi in
        let q = ap (Option.map (λ hi. e.ddh (hash_element g2 p msg) hi share.get_data g.new)) ev in
        (λ h. a (Option.some-injective _ _ (sym q ∙ h)), λ h. q ∙ ap some (b h))
