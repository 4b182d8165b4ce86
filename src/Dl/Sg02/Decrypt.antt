-- ===== src/Dl/Sg02/Decrypt.antt =====
-- The threshold decryption of src/core/schemes/src/dl_schemes/ciphers/sg02.rs, and the ciphertexts on which
-- it panics.
use quorumcrypt.Algebra.{Scalars, GroupOperations, ◌⊕◌, ◌⊗◌}
use quorumcrypt.Base.{
  ℕ, ◌≤◌, ◌<◌, ◌≡◌, refl, sym, ap, ◌∙◌, true, Option, none, some, List, map, length, arith,
}
use quorumcrypt.Dl.Bits.{xor, length-xor}
use quorumcrypt.Dl.Proofs.{pow-pow_comm}
use quorumcrypt.Dl.Sg02.Honest.{encrypt-seal, assemble-encrypt, verify_ciphertext-answered}
use quorumcrypt.Dl.Sg02.{
  Sg02PublicKey, Sg02PrivateKey, Sg02Ciphertext, Sg02DecryptionShare, sg02_share, seal, encrypt,
  partial_decrypt, verify_ciphertext, open_with, assemble, h, h1,
}
use quorumcrypt.Dl.{Primitives, from_slice, unseal, slice}
use quorumcrypt.Errors.{ok}
use quorumcrypt.Keys.{Bytes}
use quorumcrypt.Protocols.Collect.Sound.{Every}
use quorumcrypt.Sharing.Lagrange.{AreIds}
use quorumcrypt.Sharing.Recover.{IsDealing, interpolate-map}
use quorumcrypt.Sharing.{interpolate}
use mathlib.Core.Option

module _ {F G : Type 0} ⦃s : Scalars F⦄ (g : GroupOperations F G s) (p : Primitives F) where
  -- What is encrypted under the power of the generator by a dealt secret is assembled from the shares
  -- of at least as many keys as the threshold, with different ids below the bound, whose parts are
  -- the dealt ones, whatever random numbers are drawn.
  pub assemble-partial_decrypt :
      (k : ℕ) (x : F) (share : ℕ → F) (pk : Sg02PublicKey G) (msg label : Bytes) (r : F)
      (ikm : Bytes) (t : F) (ct : Sg02Ciphertext F G) (keys : List (Sg02PrivateKey F G))
      (si : ℕ → F)
      → IsDealing k x share
      → pk.y ≡ g.pow g.new x
      → encrypt g p msg label pk r ikm t ≡ some ct
      → AreIds s.bound (map (λ sk. sk.id) keys)
      → k ≤ length keys
      → 0 < k
      → Every (λ sk. sk.xi ≡ share sk.id) keys
      → assemble g p (map (λ sk. partial_decrypt g p ct sk (si sk.id)) keys) ct ≡ some (ok msg)
  unfolding partial_decrypt seal
  assemble-partial_decrypt k x share pk msg label r ikm t ct keys si dealt ey eq a n m e =
      let (nonce, q, ec) = encrypt-seal g p msg label pk r ikm t ct eq in
      assemble-encrypt g p msg label pk r ikm t ct _ eq (
        interpolate-map g sg02_share (λ sk. partial_decrypt g p ct sk (si sk.id)) (λ sk. sk.id)
          (λ sk. sk.xi) k x share ct.u keys (λ sk. refl) (λ sk. refl) dealt a n m e
        ∙ ap some
            (ap (λ c. g.pow c.u x) ec ∙ pow-pow_comm g g.new r x ∙ ap (λ y. g.pow y r) (sym ey)))

  unseal_short :
      (m c_k : Bytes) (nonce : Option Bytes) (ctxt : Bytes)
      → length c_k < 32
      → unseal p (from_slice (xor (p.hash256 m) c_k)) nonce ctxt ≡ none
  unfolding unseal from_slice Option.bind
  unseal_short m c_k nonce ctxt n =
      let a = p.length-hash256 m in
      let b = length-xor (p.hash256 m) c_k (omega arith) in
      let q : from_slice (xor (p.hash256 m) c_k) ≡ none = ground arith in
      ap (λ k. unseal p k nonce ctxt) q

  abbrev forge : Sg02PublicKey G → Bytes → Bytes → Bytes → F → F → Sg02Ciphertext F G
  forge pk c_k label ctxt r t =
      let u = g.pow g.new r in
      let u_bar = g.pow pk.g_bar r in
      let e = h1 g p c_k label u (g.pow g.new t) u_bar (g.pow pk.g_bar t) in
      record {
        label = label;
        ctxt = ctxt;
        c_k = c_k;
        u = u;
        u_bar = u_bar;
        e = e;
        f = t ⊕ e ⊗ r;
        key_id = pk.id;
      }

  bind_short :
      (ct : Sg02Ciphertext F G) (o : Option G)
      → length ct.c_k < 32
      → Option.bind o (open_with g p ct) ≡ none
  unfolding open_with h Option.bind
  bind_short ct none n = refl
  bind_short ct (some ry) n =
      unseal_short (g.to_bytes ry) ct.c_k (slice 12 (g.to_bytes ry)) ct.ctxt n

  -- For every masked key of fewer than 32 bytes there is a ciphertext that is verified and on which
  -- the assembly of every list of shares panics.
  pub verify_ciphertext-panic :
      (pk : Sg02PublicKey G) (c_k label ctxt : Bytes) (r t : F)
      → length c_k < 32
      → (ct : Sg02Ciphertext F G) × (ct.c_k ≡ c_k)
        × (verify_ciphertext g p ct pk ≡ true)
        × ((shares : List (Sg02DecryptionShare F G)) → assemble g p shares ct ≡ none)
  unfolding assemble
  verify_ciphertext-panic pk c_k label ctxt r t n =
      let ct = forge pk c_k label ctxt r t in
      (
        ct,
        refl,
        verify_ciphertext-answered g p ct pk r t refl refl refl refl,
        λ shares. bind_short ct (interpolate g sg02_share shares) n,
      )
