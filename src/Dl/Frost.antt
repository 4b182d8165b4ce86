-- ===== src/Dl/Frost.antt =====
-- src/core/schemes/src/dl_schemes/signatures/frost.rs: the primitives of the FROST signature. A slice that
-- a function sorts in place is returned with its result, and a result of `none` is a panic.
pub mod Order
pub mod Product
pub mod Guards
pub mod Outcomes
pub mod Honest
pub mod Ids
pub mod Sign
pub mod Signing
use quorumcrypt.Algebra.{Scalars, GroupOperations, ◌⊕◌, ◌⊗◌}
use quorumcrypt.Base.{
  ℕ, zero, suc, ◌+◌, ◌*◌, ◌%◌, ◌^◌, ◌==◌, ◌≡◌, ◌↔◌, String, Bool, true, Option, none, some, List,
  [], ◌∷◌, ◌++◌, map, leb, ltb, if◌then◌else◌,
}
use quorumcrypt.Dl.{verification_key_of}
use quorumcrypt.Errors.{Result, ok, err, SchemeError, id_not_found, incompatible_group}
use quorumcrypt.Keys.{Bytes}
use quorumcrypt.Schemes.{Group, ed25519}
use quorumcrypt.Sharing.{lagrange_coeff}
use mathlib.Core.Option
use mathlib.Core.List.{reverse}
use Prim.Native.Char.{code}
use Prim.Native.Nat.{◌/◌}

pub record FrostPublicKey (G : Type 0) : Type 0 where
  pub id : String
  pub n : ℕ
  pub k : ℕ
  pub group : Group
  pub y : G
  pub h : List G

pub record FrostPrivateKey (F G : Type 0) : Type 0 where
  pub id : ℕ
  pub x : F
  pub pubkey : FrostPublicKey G

pub record PublicCommitment (G : Type 0) : Type 0 where
  pub id : ℕ
  pub hiding_nonce_commitment : G
  pub binding_nonce_commitment : G

-- The group is that of its integers.
pub record Nonce (F : Type 0) : Type 0 where
  pub group : Group
  pub hiding_nonce : F
  pub binding_nonce : F

pub record BindingFactor (F : Type 0) : Type 0 where
  pub id : ℕ
  pub factor : F

pub record FrostSignatureShare (F : Type 0) : Type 0 where
  pub id : ℕ
  pub get_share : F

pub record FrostSignature (F G : Type 0) : Type 0 where
  pub commitment : G
  pub z : F

-- MIRACL's SHA-512, and the bytes of an integer modulo the order; `from_bytes` is a residue already.
pub record FrostHash (F : Type 0) : Type 0 where
  pub hash512 : Bytes → Bytes
  pub from_bytes : Bytes → F
  pub to_bytes : F → Bytes

-- `GroupElement::identity` and `eq`. The group is that of an elliptic curve, whose product commutes.
pub record CurveOperations (F G : Type 0) (s : Scalars F) (g : GroupOperations F G s) : Type 0 where
  pub identity : G
  pub eq : G → G → Bool
  pub identity-mul : (a : G) → g.mul identity a ≡ a
  pub mul_comm : (a b : G) → g.mul a b ≡ g.mul b a
  pub eq_iff : (a b : G) → (eq a b ≡ true) ↔ (a ≡ b)

-- The bytes of an ASCII literal.
abbrev pub ascii : String → Bytes
ascii String.[] = []
ascii (String.◌∷◌ c s) = code c ∷ ascii s

unfoldable pub get_context_string : Group → Result SchemeError Bytes
get_context_string ed25519 = ok (ascii "FROST-ED25519-SHA512-v1")
get_context_string _ = err incompatible_group

-- `unwrap()`
abbrev pub unwrap {ℓ} : {A : Type ℓ} → Result SchemeError A → Option A
unwrap (ok a) = some a
unwrap (err e) = none

-- `to_be_bytes` of a u16.
abbrev pub encode_uint16 : ℕ → Bytes
encode_uint16 val = (val / 256) % 256 ∷ val % 256 ∷ []

-- The bytes of an integer below `256 ^ w`, most significant first.
unfoldable pub to_sized_bytes : ℕ → ℕ → Bytes
to_sized_bytes zero x = []
to_sized_bytes (suc w) x = to_sized_bytes w (x / 256) ++ (x % 256 ∷ [])

-- The integer that bytes stand for, after `acc`.
unfoldable pub from_be_bytes : ℕ → Bytes → ℕ
from_be_bytes acc [] = acc
from_be_bytes acc (b ∷ bs) = from_be_bytes (acc * 256 + b) bs

-- `bytes[0] &= 0x1f` after the reversal; the last byte of no bytes panics.
unfoldable pub mask_last : Bytes → Option Bytes
mask_last [] = none
mask_last (b ∷ []) = some (b % 32 ∷ [])
mask_last (b ∷ c ∷ bs) = elim (mask_last (c ∷ bs)) [ none ↦ none | some rest ↦ some (b ∷ rest) ]

module _ {G : Type 0} where
  -- `sort()` is stable: a commitment goes before the first whose id is not less.
  unfoldable pub insert_commitment :
      PublicCommitment G → List (PublicCommitment G) → List (PublicCommitment G)
  insert_commitment c [] = c ∷ []
  insert_commitment c (d ∷ ds) = if leb c.id d.id then c ∷ d ∷ ds else d ∷ insert_commitment c ds

  unfoldable pub sort : List (PublicCommitment G) → List (PublicCommitment G)
  unfolding insert_commitment
  sort [] = []
  sort (c ∷ cs) = insert_commitment c (sort cs)

  unfoldable pub commitment_for_participant :
      List (PublicCommitment G) → ℕ → Result SchemeError (PublicCommitment G)
  commitment_for_participant [] identifier = err id_not_found
  commitment_for_participant (c ∷ cs) identifier =
      if identifier == c.id then ok c else commitment_for_participant cs identifier

  abbrev pub participants_from_commitment_list : List (PublicCommitment G) → List ℕ
  participants_from_commitment_list cs = map (λ c. c.id) cs

module _ {F : Type 0} where
  unfoldable pub binding_factor_for_participant :
      List (BindingFactor F) → ℕ → Result SchemeError (BindingFactor F)
  binding_factor_for_participant [] identifier = err id_not_found
  binding_factor_for_participant (b ∷ bs) identifier =
      if identifier == b.id then ok b else binding_factor_for_participant bs identifier

  module _ (p : FrostHash F) where
    unfoldable pub h1 : Bytes → Group → Option F
    h1 bytes group =
        Option.map (λ ctx. p.from_bytes (p.hash512 (ctx ++ (ascii "rho" ++ bytes))))
          (unwrap (get_context_string group))

    -- The group is that of the integers `F`.
    unfoldable pub h2 : Bytes → F
    h2 bytes = p.from_bytes (p.hash512 bytes)

    -- The modulus is the order of ed25519.
    unfoldable pub h3 : Bytes → Group → Option F
    unfolding to_sized_bytes from_be_bytes
    h3 bytes group =
        let modulo : ℕ = 0x1000000000000000000000000000000014DEF9DEA2F79CD65812631A5CF5D3ED in
        Option.map
          (λ ctx. p.from_bytes (
            to_sized_bytes 32
              (from_be_bytes 0 (p.hash512 (ctx ++ (ascii "nonce" ++ bytes))) % modulo)))
          (unwrap (get_context_string group))

    unfoldable pub h4 : Bytes → Group → Option Bytes
    h4 bytes group =
        Option.map (λ ctx. p.hash512 (ctx ++ (ascii "msg" ++ bytes)))
          (unwrap (get_context_string group))

    unfoldable pub h5 : Bytes → Group → Option Bytes
    h5 bytes group =
        Option.map (λ ctx. p.hash512 (ctx ++ (ascii "com" ++ bytes)))
          (unwrap (get_context_string group))

    unfoldable pub serialize_scalar : F → Option Bytes
    unfolding mask_last
    serialize_scalar scalar = mask_last (reverse (p.to_bytes scalar))

    -- The argument `random_bytes` is the 32 bytes that are drawn, `group` that of the secret.
    unfoldable pub nonce_generate : F → Group → Bytes → Option F
    unfolding serialize_scalar h3
    nonce_generate secret group random_bytes =
        Option.bind (serialize_scalar secret)
          (λ secret_bytes. h3 (random_bytes ++ secret_bytes) group)

module _ {F G : Type 0} ⦃s : Scalars F⦄ (g : GroupOperations F G s) where
  unfoldable pub encode_group_commitment_list : List (PublicCommitment G) → Bytes
  encode_group_commitment_list [] = []
  encode_group_commitment_list (c ∷ cs) =
      encode_uint16 c.id
      ++ (g.to_bytes c.hiding_nonce_commitment
          ++ (g.to_bytes c.binding_nonce_commitment ++ encode_group_commitment_list cs))

  module _ (p : FrostHash F) where
    -- The loop over the sorted list.
    unfoldable pub binding_factors :
        Bytes → Group → List (PublicCommitment G) → Option (List (BindingFactor F))
    unfolding h1
    binding_factors prefix group [] = some []
    binding_factors prefix group (c ∷ cs) =
        Option.bind (h1 p (prefix ++ encode_uint16 c.id) group) (λ factor.
          Option.map (λ bs. record { id = c.id; factor = factor } ∷ bs)
            (binding_factors prefix group cs))

    -- The sorted list, and the factors.
    unfoldable pub compute_binding_factors :
        FrostPublicKey G
        → List (PublicCommitment G)
        → Bytes
        → Group
        → Option (List (PublicCommitment G) × List (BindingFactor F))
    unfolding binding_factors h4 h5 sort encode_group_commitment_list
    compute_binding_factors pubkey commitment_list msg group =
        let sorted = sort commitment_list in
        Option.bind (h4 p msg group) (λ msg_hash.
          Option.bind (h5 p (encode_group_commitment_list sorted) group) (λ encoded_commitment_hash.
            Option.map (λ factors. (sorted, factors))
              (binding_factors (g.to_bytes pubkey.y ++ (msg_hash ++ encoded_commitment_hash)) group
                sorted)))

    unfoldable pub compute_challenge : G → FrostPublicKey G → Bytes → F
    unfolding h2
    compute_challenge group_commitment pk msg =
        h2 p (g.to_bytes group_commitment ++ (g.to_bytes pk.y ++ msg))

    -- The random bytes of both nonces are arguments.
    unfoldable pub commit :
        FrostPrivateKey F G → Bytes → Bytes → Option (PublicCommitment G × Nonce F)
    unfolding nonce_generate
    commit key hiding_bytes binding_bytes =
        Option.bind (nonce_generate p key.x key.pubkey.group hiding_bytes) (λ hiding_nonce.
          Option.map
            (λ binding_nonce. (
              record {
                id = key.id;
                hiding_nonce_commitment = g.pow g.new hiding_nonce;
                binding_nonce_commitment = g.pow g.new binding_nonce;
              },
              record {
                group = key.pubkey.group;
                hiding_nonce = hiding_nonce;
                binding_nonce = binding_nonce;
              },
            ))
            (nonce_generate p key.x key.pubkey.group binding_bytes))
