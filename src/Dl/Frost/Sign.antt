-- ===== src/Dl/Frost/Sign.antt =====
-- Signatures of src/core/schemes/src/dl_schemes/signatures/frost.rs from verified shares.
use quorumcrypt.Algebra.{Scalars, GroupOperations, ◌⊗◌}
use quorumcrypt.Base.{
  ℕ, ◌≤◌, ◌≡◌, refl, sym, ap, subst, ◌∙◌, Bool, true, some, List, [], ◌∷◌, map, length, length-map,
  arith,
}
use quorumcrypt.Dl.Frost.Guards.{factor_for, prefix_for}
use quorumcrypt.Dl.Frost.Honest.{challenge_of, expected, verify_share_lem}
use quorumcrypt.Dl.Frost.Ids.{
  ids_of, ids_of-Perm, length-Reordered, AreIds-Reordered, commitment_for_participant_self,
}
use quorumcrypt.Dl.Frost.Order.{sort-Reordered, commitment_for_participant-Reordered}
use quorumcrypt.Dl.Frost.Outcomes.{commitment_product, get_group_commitment-ed25519}
use quorumcrypt.Dl.Frost.Product.{
  product, product-Perm, product-mul, product-weighted, sum_shares-product, pow_nought,
}
use quorumcrypt.Dl.Frost.Signing.{
  get_group_commitment, verify_share, verify_for, assemble, sum_shares, verify,
}
use quorumcrypt.Dl.Frost.{
  FrostPublicKey, FrostPrivateKey, PublicCommitment, FrostSignatureShare, FrostSignature, FrostHash,
  CurveOperations, sort, commitment_for_participant,
}
use quorumcrypt.Dl.Keys.{dealt_keys, verification_key_of-dealt_keys}
use quorumcrypt.Dl.{verification_key_of}
use quorumcrypt.Errors.{Result, ok, err, SchemeError}
use quorumcrypt.Keys.{Bytes}
use quorumcrypt.Protocols.Collect.Sound.{Every, Every-map}
use quorumcrypt.Schemes.{ed25519}
use quorumcrypt.Sharing.Coefficients.{lagrange_coeff-coefficient, coefficient}
use quorumcrypt.Sharing.Interpolation.{at_zero-IsPolynomial}
use quorumcrypt.Sharing.Lagrange.{AreIds, weighted_congr}
use quorumcrypt.Sharing.Recover.{IsDealing}
use mathlib.Core.List.{Perm}
use mathlib.Core.List.Perm
use mathlib.Core.Option

module _ {F G : Type 0} ⦃s : Scalars F⦄ {g : GroupOperations F G s} (o : CurveOperations F G s g)
    (p : FrostHash F) where
  module _ (pk : FrostPublicKey G) (msg : Bytes) where
    -- The commitment share of a commitment, and that of the commitment under an id.
    abbrev blinded : List (PublicCommitment G) → PublicCommitment G → ℕ → G
    blinded cs c i =
        g.mul c.hiding_nonce_commitment
          (g.pow c.binding_nonce_commitment (factor_for g p (prefix_for g p pk cs msg) i))

    abbrev blinded_found :
        List (PublicCommitment G) → ℕ → Result SchemeError (PublicCommitment G) → G
    blinded_found cs i (err e) = o.identity
    blinded_found cs i (ok c) = blinded cs c i

    blinded_at : List (PublicCommitment G) → ℕ → G
    blinded_at cs i = blinded_found cs i (commitment_for_participant cs i)

    commitment_product_lem :
        (acc : G) (cs ds : List (PublicCommitment G))
        → Every (λ c. commitment_for_participant cs c.id ≡ ok c) ds
        → commitment_product o p acc (prefix_for g p pk cs msg) ds
          ≡ g.mul acc (product o (blinded_at cs) (ids_of ds))
    unfolding commitment_product blinded_at
    commitment_product_lem acc cs [] h = sym (o.mul_comm acc o.identity ∙ o.identity-mul acc)
    commitment_product_lem acc cs (c ∷ ds) (e, h) =
        let a = c.hiding_nonce_commitment in
        let b = g.pow c.binding_nonce_commitment (factor_for g p (prefix_for g p pk cs msg) c.id) in
        let rest = product o (blinded_at cs) (ids_of ds) in
        commitment_product_lem (g.mul (g.mul acc a) b) cs ds h
        ∙ ap (λ v. g.mul v rest) (g.mul_assoc acc a b)
        ∙ g.mul_assoc acc (g.mul a b) rest
        ∙ ap (λ v. g.mul acc (g.mul (blinded_found cs c.id v) rest)) (sym e)

    -- The value of a share at its id.
    value_at : (ℕ → F) → List (PublicCommitment G) → ℕ → G
    value_at parts cs i = g.mul (blinded_at cs i) (
        g.pow (g.pow g.new (parts i))
          (coefficient (ids_of (sort cs)) i ⊗ challenge_of o p pk cs msg))

    found_value :
        (parts : ℕ → F) (n : ℕ) (cs : List (PublicCommitment G)) (share : FrostSignatureShare F)
        (found : Result SchemeError (PublicCommitment G))
        → pk.group ≡ ed25519
        → pk.h ≡ dealt_keys g parts n
        → commitment_for_participant cs share.id ≡ found
        → verify_share o p share pk msg cs ≡ some (ok true)
        → g.pow g.new share.get_share ≡ value_at parts cs share.id
    unfolding verify_share verify_for value_at blinded_at expected
    found_value parts n cs share (err e) eg ev ef h =
        let q : some (err e) ≡ some (ok true) = sym (ap (verify_for o p share pk msg cs) ef) ∙ h in
        let r = Option.some-injective _ _ q in cc
    found_value parts n cs share (ok c) eg ev ef h =
        let compare : G → Bool =
          λ hi. o.eq (g.pow g.new share.get_share) (expected o p pk cs msg c share.id hi) in
        let (b, q, eb) =
          (Option.map-eq-some_iff ok (Option.map compare (verification_key_of pk.h share.id))).0
            (sym (verify_share_lem o p share pk msg cs c eg ef) ∙ h) in
        let b_true : b ≡ true = cc in
        let (hi, qh, eh) =
          (Option.map-eq-some_iff compare (verification_key_of pk.h share.id)).0
            (q ∙ ap some b_true) in
        let key : hi ≡ g.pow g.new (parts share.id) =
          verification_key_of-dealt_keys g parts n share.id hi
            (ap (λ vk. verification_key_of vk share.id) (sym ev) ∙ qh) in
        (o.eq_iff (g.pow g.new share.get_share) (expected o p pk cs msg c share.id hi)).0 eh
        ∙ ap (expected o p pk cs msg c share.id) key
        ∙ ap
            (λ l.
              g.mul (blinded cs c share.id)
                (g.pow (g.pow g.new (parts share.id)) (l ⊗ challenge_of o p pk cs msg)))
            (lagrange_coeff-coefficient (ids_of (sort cs)) share.id)
        ∙ ap
            (λ v. g.mul (blinded_found cs share.id v) (
              g.pow (g.pow g.new (parts share.id))
                (coefficient (ids_of (sort cs)) share.id ⊗ challenge_of o p pk cs msg)))
            (sym ef)

    product_lem :
        (k : ℕ) (x : F) (parts : ℕ → F) (cs : List (PublicCommitment G))
        → IsDealing k x parts
        → AreIds s.bound (ids_of cs)
        → k ≤ length cs
        → product o (value_at parts cs) (ids_of (sort cs))
          ≡ g.mul
              (product o (blinded_at cs) (ids_of (sort cs)))
              (g.pow (g.pow g.new x) (challenge_of o p pk cs msg))
    unfolding value_at
    product_lem k x parts cs dealt a m =
        let ids = ids_of (sort cs) in
        let c = challenge_of o p pk cs msg in
        product-mul o (blinded_at cs) (λ i. g.pow (g.pow g.new (parts i)) (coefficient ids i ⊗ c))
          ids
        ∙ ap (g.mul (product o (blinded_at cs) ids)) (
            product-weighted o parts c ids ids
            ∙ ap (λ v. g.pow (g.pow g.new v) c)
                (weighted_congr ids ids ids parts (λ i. dealt.polynomial (s.new_int i)) (λ i. refl)
                    dealt.values
                  ∙ at_zero-IsPolynomial k dealt.polynomial ids dealt.degree
                      (AreIds-Reordered s.bound (sort-Reordered cs) a)
                      (subst (λ l. k ≤ l)
                        (length-Reordered (sort-Reordered cs)
                          ∙ sym (length-map (λ c. c.id) (sort cs)))
                        m)
                  ∙ dealt.secret))

    group_element_lem :
        (cs : List (PublicCommitment G))
        → AreIds s.bound (ids_of cs)
        → commitment_product o p o.identity (prefix_for g p pk cs msg) (sort cs)
          ≡ product o (blinded_at cs) (ids_of (sort cs))
    group_element_lem cs a =
        commitment_product_lem o.identity cs (sort cs) (
          Every-map (λ c. commitment_for_participant (sort cs) c.id ≡ ok c)
            (λ c. commitment_for_participant cs c.id ≡ ok c) (sort cs)
            (λ c e. commitment_for_participant-Reordered c.id (sort-Reordered cs) ∙ e)
            (commitment_for_participant_self s.bound (sort cs)
              (AreIds-Reordered s.bound (sort-Reordered cs) a)))
        ∙ o.identity-mul _

  -- As many commitments with different ids below the bound as the threshold, and a share for each of
  -- them, whoever made it, that is verified for these commitments: the commitment of the group is
  -- computed, the shares in any order are assembled, and the signature is verified.
  pub verify-assemble-verify_share :
      (x : F) (parts : ℕ → F) (n : ℕ) (key : FrostPrivateKey F G) (msg : Bytes)
      (cs : List (PublicCommitment G)) (shares : List (FrostSignatureShare F))
      → IsDealing key.pubkey.k x parts
      → key.pubkey.y ≡ g.pow g.new x
      → key.pubkey.h ≡ dealt_keys g parts n
      → key.pubkey.group ≡ ed25519
      → AreIds s.bound (ids_of cs)
      → length cs ≡ key.pubkey.k
      → length shares ≡ key.pubkey.k
      → Perm (map (λ share. share.id) shares) (ids_of cs)
      → Every (λ share. verify_share o p share key.pubkey msg cs ≡ some (ok true)) shares
      → (gc : G) × (sig : FrostSignature F G) × (get_group_commitment o p cs msg key ≡ some (ok gc))
        × (assemble gc key shares ≡ some sig)
        × (verify o p sig key.pubkey msg ≡ true)
  unfolding assemble verify
  verify-assemble-verify_share x parts n key msg cs shares dealt ey ev eg a lc ls same_ids h =
      let pk = key.pubkey in
      let f = value_at pk msg parts cs in
      let ids = ids_of (sort cs) in
      let gc = commitment_product o p o.identity (prefix_for g p pk cs msg) (sort cs) in
      let c = challenge_of o p pk cs msg in
      let (t, q, r) = sum_shares-product o f s.nought shares (
        Every-map (λ share. verify_share o p share pk msg cs ≡ some (ok true))
          (λ share. g.pow g.new share.get_share ≡ f share.id) shares
          (λ share e. found_value pk msg parts n cs share _ eg ev refl e) h) in
      let whole : g.pow g.new t ≡ g.mul gc (g.pow pk.y c) =
        r
        ∙ ap (λ v. g.mul v (product o f (map (λ share. share.id) shares))) (pow_nought o g.new)
        ∙ o.identity-mul _
        ∙ product-Perm o f _ ids (Perm.trans same_ids (ids_of-Perm (sort-Reordered cs)))
        ∙ product_lem pk msg pk.k x parts cs dealt a (omega (arith, lc))
        ∙ ap (λ v. g.mul v (g.pow (g.pow g.new x) c)) (sym (group_element_lem pk msg cs a))
        ∙ ap (λ v. g.mul gc (g.pow v c)) (sym ey) in
      (
        gc,
        record { commitment = gc; z = t },
        get_group_commitment-ed25519 o p cs msg key eg,
        ap (Option.map (λ z. record { commitment = gc; z = z }))
            (ap (λ m. sum_shares m s.nought shares) (sym ls) ∙ q),
        (o.eq_iff (g.pow g.new t) (g.mul gc (g.pow pk.y c))).1 whole,
      )
