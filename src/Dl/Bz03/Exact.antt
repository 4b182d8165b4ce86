-- ===== src/Dl/Bz03/Exact.antt =====
-- What the verifications of src/core/schemes/src/dl_schemes/ciphers/bz03.rs accept.
use quorumcrypt.Algebra.{Scalars, GroupOperations, Pairing, ◌⊗◌}
use quorumcrypt.Base.{ℕ, ◌≡◌, ◌≢◌, ◌↔◌, sym, ap, ◌∙◌, true, some}
use quorumcrypt.Dl.Bz03.{
  Bz03PublicKey, Bz03DecryptionShare, Bz03Ciphertext, hash_exponent, hash_element,
  verify_ciphertext, verify_share,
}
use quorumcrypt.Dl.Keys.{dealt_keys, verification_key_of-dealt_keys}
use quorumcrypt.Dl.{Primitives, verification_key_of}
use quorumcrypt.Errors.{ok}
use quorumcrypt.Keys.{Bytes}
use mathlib.Core.Option

module _ {F G H T : Type 0} ⦃s : Scalars F⦄ {g : GroupOperations F G s} {g2 : GroupOperations F H s}
    (e : Pairing F G H T s g g2) where
  -- The pairing compares the power of an element with another.
  pub ddh_iff : (v w : H) (x : F) → (e.ddh w g.new v (g.pow g.new x) ≡ ok true) ↔ (w ≡ g2.pow v x)
  ddh_iff v w x =
      let (a, b) = e.ddh_pair w v g.new (g.pow g.new x) in
      (
        λ q. e.pair_inj w (g2.pow v x) (a q ∙ sym (e.pair-pow v g.new x)),
        λ q. b (ap (λ u. e.pair u g.new) q ∙ e.pair-pow v g.new x),
      )

  -- A share is verified exactly when it is the power of the ciphertext's element by the part whose
  -- power is the verification key under the share's id.
  pub verify_share_iff :
      (share : Bz03DecryptionShare H) (ct : Bz03Ciphertext G H) (pk : Bz03PublicKey G H) (xi : F)
      → verification_key_of pk.verification_key share.id ≡ some (g.pow g.new xi)
      → (verify_share e share ct pk ≡ some (ok true)) ↔ (share.get_data ≡ g2.pow ct.u xi)
  unfolding verify_share
  verify_share_iff share ct pk xi ev =
      let (a, b) = ddh_iff ct.u share.get_data xi in
      let q = ap (Option.map (λ hi. e.ddh share.get_data g.new ct.u hi)) ev in
      (λ h. a (Option.some-injective _ _ (sym q ∙ h)), λ h. q ∙ ap some (b h))

  pub verify_share_data :
      (parts : ℕ → F) (n : ℕ) (share : Bz03DecryptionShare H) (ct : Bz03Ciphertext G H)
      (pk : Bz03PublicKey G H)
      → pk.verification_key ≡ dealt_keys g parts n
      → verify_share e share ct pk ≡ some (ok true)
      → share.get_data ≡ g2.pow ct.u (parts share.id)
  unfolding verify_share
  verify_share_data parts n share ct pk ev h =
      let (hi, q, m) =
        (Option.map-eq-some_iff (λ hi. e.ddh share.get_data g.new ct.u hi)
            (verification_key_of pk.verification_key share.id)).0
          h in
      let r =
        verification_key_of-dealt_keys g parts n share.id hi
          (ap (λ vk. verification_key_of vk share.id) (sym ev) ∙ q) in
      (verify_share_iff share ct pk (parts share.id) (q ∙ ap some r)).0 h

  module _ (p : Primitives F) where
    -- A ciphertext whose last element is the power of the hash by the exponent of `u` is verified.
    pub verify_ciphertext_power :
        (ct : Bz03Ciphertext G H) (r : F)
        → ct.u ≡ g2.pow g2.new r
        → ct.hr ≡ g.pow (hash_element g g2 p ct.u ct.c_k) r
        → verify_ciphertext e p ct ≡ ok true
    unfolding verify_ciphertext
    verify_ciphertext_power ct r eu eh =
        let w = hash_element g g2 p ct.u ct.c_k in
        (e.ddh_pair ct.u g2.new w ct.hr).1
          (ap (λ u. e.pair u w) eu ∙ e.pair-pow g2.new w r ∙ ap (e.pair g2.new) (sym eh))

    -- From a ciphertext that is verified, whose hash is not zero, and for every label, masked key and
    -- sealed message, a ciphertext with the same `u` is computed with public values only, and it is
    -- verified.
    pub verify_ciphertext-pow :
        (ct : Bz03Ciphertext G H) (label ctxt c_k : Bytes)
        → hash_exponent g2 p ct.u ct.c_k ≢ s.nought
        → verify_ciphertext e p ct ≡ ok true
        → verify_ciphertext e p (record ct {
          label = label;
          ctxt = ctxt;
          c_k = c_k;
          hr =
              g.pow ct.hr
                (s.inv_mod (hash_exponent g2 p ct.u ct.c_k) ⊗ hash_exponent g2 p ct.u c_k);
        })
          ≡ ok true
    unfolding verify_ciphertext hash_element
    verify_ciphertext-pow ct label ctxt c_k ne h =
        let a = hash_exponent g2 p ct.u ct.c_k in
        let b = hash_exponent g2 p ct.u c_k in
        let c = s.inv_mod a ⊗ b in
        let q = (e.ddh_pair ct.u g2.new (g.pow g.new a) ct.hr).0 h in
        (e.ddh_pair ct.u g2.new (g.pow g.new b) (g.pow ct.hr c)).1 (
          ap (λ x. e.pair ct.u (g.pow g.new x)) (sym (cancel_left a b (s.mul-inv a ne)))
          ∙ ap (e.pair ct.u) (g.pow-mul_mod g.new a c)
          ∙ e.pair-pow_right ct.u (g.pow g.new a) c
          ∙ ap (λ v. e.power v c) q
          ∙ sym (e.pair-pow_right g2.new ct.hr c))
      where
        cancel_left : (a b : F) → a ⊗ s.inv_mod a ≡ s.one → a ⊗ (s.inv_mod a ⊗ b) ≡ b
        cancel_left a b h = sym (s.mul_assoc a (s.inv_mod a) b) ∙ ap (λ v. v ⊗ b) h ∙ s.one-mul b
