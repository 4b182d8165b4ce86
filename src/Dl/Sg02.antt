-- ===== src/Dl/Sg02.antt =====
-- src/core/schemes/src/dl_schemes/ciphers/sg02.rs: the cipher of Shoup and Gennaro. The random numbers of
-- an operation are its last arguments, in the order in which they are drawn. The keys and the elements
-- of one ciphertext are in one group. A result of `none` is a panic.
pub mod Honest
pub mod Decrypt
use quorumcrypt.Algebra.{Scalars, GroupOperations, ◌⊕◌, ◌⊗◌}
use quorumcrypt.Base.{ℕ, zero, suc, String, Bool, Option, none, some, List, [], ◌∷◌, ◌++◌}
use quorumcrypt.Dl.Bits.{xor}
use quorumcrypt.Dl.{
  Primitives, gen_symm_key, hash_residue, slice, from_slice, unseal, verification_key_of,
}
use quorumcrypt.Errors.{Result, SchemeError}
use quorumcrypt.Keys.{Bytes}
use quorumcrypt.Sharing.{DlShare, interpolate}
use mathlib.Core.Option

pub record Sg02PublicKey (G : Type 0) : Type 0 where
  pub n : ℕ
  pub k : ℕ
  pub y : G
  pub verification_key : List G
  pub g_bar : G
  pub id : String

pub record Sg02PrivateKey (F G : Type 0) : Type 0 where
  pub id : ℕ
  pub xi : F
  pub pubkey : Sg02PublicKey G

pub record Sg02Ciphertext (F G : Type 0) : Type 0 where
  pub label : Bytes
  pub ctxt : Bytes
  pub c_k : Bytes
  pub u : G
  pub u_bar : G
  pub e : F
  pub f : F
  pub key_id : String

pub record Sg02DecryptionShare (F G : Type 0) : Type 0 where
  pub id : ℕ
  pub get_data : G
  pub label : Bytes
  pub ei : F
  pub fi : F

abbrev pub sg02_share : {F G : Type 0} → DlShare (Sg02DecryptionShare F G) G
sg02_share = record { get_id = λ x. x.id; get_data = λ x. x.get_data }

module _ {F G : Type 0} ⦃s : Scalars F⦄ (g : GroupOperations F G s) (p : Primitives F) where
  unfoldable pub h : G → Bytes
  h x = p.hash256 (g.to_bytes x)

  unfoldable pub h1 : Bytes → Bytes → G → G → G → G → F
  h1 m1 m2 g1 g2 g3 g4 =
      hash_residue p
        (m1 ++ (m2 ++ (g.to_bytes g1 ++ (g.to_bytes g2 ++ (g.to_bytes g3 ++ g.to_bytes g4)))))

  unfoldable pub h2 : G → G → G → F
  h2 g1 g2 g3 = hash_residue p (g.to_bytes g1 ++ (g.to_bytes g2 ++ g.to_bytes g3))

  -- The ciphertext of a message, for a nonce of the authenticated encryption.
  unfoldable pub seal : Bytes → Bytes → Sg02PublicKey G → F → Bytes → F → Bytes → Sg02Ciphertext F G
  seal msg label pk r ikm t nonce =
      let u = g.pow g.new r in
      let k = gen_symm_key p ikm in
      let c_k = xor (h (g.pow pk.y r)) k in
      let u_bar = g.pow pk.g_bar r in
      let e = h1 c_k label u (g.pow g.new t) u_bar (g.pow pk.g_bar t) in
      record {
        label = label;
        ctxt = p.encrypt k nonce msg;
        c_k = c_k;
        u = u;
        u_bar = u_bar;
        e = e;
        f = t ⊕ e ⊗ r;
        key_id = pk.id;
      }

  unfoldable pub encrypt :
      Bytes → Bytes → Sg02PublicKey G → F → Bytes → F → Option (Sg02Ciphertext F G)
  unfolding seal
  encrypt msg label pk r ikm t =
      Option.map (seal msg label pk r ikm t) (slice 12 (g.to_bytes (g.pow pk.y r)))

  unfoldable pub verify_ciphertext : Sg02Ciphertext F G → Sg02PublicKey G → Bool
  verify_ciphertext ct pk =
      let w = g.div (g.pow g.new ct.f) (g.pow ct.u ct.e) in
      let w_bar = g.div (g.pow pk.g_bar ct.f) (g.pow ct.u_bar ct.e) in
      s.equals ct.e (h1 ct.c_k ct.label ct.u w ct.u_bar w_bar)

  unfoldable pub partial_decrypt :
      Sg02Ciphertext F G → Sg02PrivateKey F G → F → Sg02DecryptionShare F G
  partial_decrypt ct sk si =
      let ui = g.pow ct.u sk.xi in
      let ei = h2 ui (g.pow ct.u si) (g.pow g.new si) in
      record { id = sk.id; get_data = ui; label = ct.label; ei = ei; fi = si ⊕ sk.xi ⊗ ei }

  -- The check of a share against the verification key `hi`.
  unfoldable pub check_share : Sg02DecryptionShare F G → Sg02Ciphertext F G → G → Bool
  check_share share ct hi =
      let ui_bar = g.div (g.pow ct.u share.fi) (g.pow share.get_data share.ei) in
      let hi_bar = g.div (g.pow g.new share.fi) (g.pow hi share.ei) in
      s.equals share.ei (h2 share.get_data ui_bar hi_bar)

  unfoldable pub verify_share :
      Sg02DecryptionShare F G → Sg02Ciphertext F G → Sg02PublicKey G → Option Bool
  unfolding check_share
  verify_share share ct pk =
      Option.map (check_share share ct) (verification_key_of pk.verification_key share.id)

  unfoldable pub open_with : Sg02Ciphertext F G → G → Option (Result SchemeError Bytes)
  unfolding unseal
  open_with ct ry = unseal p (from_slice (xor (h ry) ct.c_k)) (slice 12 (g.to_bytes ry)) ct.ctxt

  unfoldable pub assemble :
      List (Sg02DecryptionShare F G) → Sg02Ciphertext F G → Option (Result SchemeError Bytes)
  unfolding open_with
  assemble shares ct = Option.bind (interpolate g sg02_share shares) (open_with ct)
