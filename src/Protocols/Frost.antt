-- ===== src/Protocols/Frost.antt =====
-- src/core/protocols/src/frost/protocol.rs and message_types.rs: the FROST protocol. The
-- primitives of src/core/schemes/src/dl_schemes/signatures/frost.rs are an interface. A result of
-- `none` is a panic.
pub mod Rounds
pub mod Signers
pub mod Entries
use quorumcrypt.Base.Dict.{Dict, values, lookup, insert, contains_key}
use quorumcrypt.Base.{
  ℕ, zero, suc, ◌+◌, ◌==◌, Bool, true, false, not, ◌&&◌, Option, none, some, List, [], ◌∷◌, ◌++◌,
  map, leb, length, if◌then◌else◌, contains, ℕ_discrete, ite,
}
use quorumcrypt.Errors.{
  Result, ok, err, SchemeError, ProtocolError, scheme_error, invalid_share, internal_error,
  invalid_round,
}
use quorumcrypt.Protocols.Collect.{insert_id}
use quorumcrypt.Keys.{Bytes, SchemePrivateKey, SchemePublicKey}

-- `commit`, with the number of the draw from the random number generator, `partial_sign`,
-- `verify_share`, `get_group_commitment` and `assemble` with the bytes of the signature.
pub record Frost (Nonce Commitment Share GroupElement : Type 0) : Type 0 where
  pub commit : SchemePrivateKey → ℕ → Option (Commitment × Nonce)
  pub partial_sign :
      Nonce
      → List Commitment
      → Bytes
      → SchemePrivateKey
      → Option (Result SchemeError (Share × GroupElement))
  pub verify_share :
      Share → SchemePublicKey → Bytes → List Commitment → Option (Result SchemeError Bool)
  pub get_group_commitment :
      List Commitment → Bytes → SchemePrivateKey → Option (Result SchemeError GroupElement)
  pub assemble_bytes : GroupElement → SchemePrivateKey → List Share → Option Bytes

pub data FrostOptions : Type 0 where
  no_precomputation precomputation precompute_only : FrostOptions

pub data FrostData (Commitment Share : Type 0) : Type 0 where
  commitment : Commitment → FrostData Commitment Share
  share : Share → FrostData Commitment Share
  precomputations : List Commitment → FrostData Commitment Share
  default : FrostData Commitment Share

pub record FrostMessage (Commitment Share : Type 0) : Type 0 where
  pub id : ℕ
  pub data_of : FrostData Commitment Share

pub record FrostPrecomputation (Nonce Commitment : Type 0) : Type 0 where
  pub group : List ℕ
  pub nonce : Nonce
  pub commitments : Dict ℕ Commitment

-- The group of signers is the vector of their ids. The field `share` is never set and is left out.
pub record FrostProtocol (Nonce Commitment Share GroupElement : Type 0) : Type 0 where
  pub round : ℕ
  pub key : SchemePrivateKey
  pub label : Bytes
  pub msg : Bytes
  pub nonce : Option Nonce
  pub own_commitment : Option Commitment
  pub commitment_list : Dict ℕ Commitment
  pub precomputation_list : List (FrostPrecomputation Nonce Commitment)
  pub group_commitment : Option GroupElement
  pub shares : Dict ℕ Share
  pub not_verified_shares : List ℕ
  pub is_finished : Bool
  pub options : FrostOptions
  pub signer_group : List ℕ

-- `iter().find(..)` finds no signer without an entry.
abbrev pub has_all : {V : Type 0} → List ℕ → Dict ℕ V → Bool
has_all [] m = true
has_all (i ∷ is) m = if contains_key ℕ_discrete i m then has_all is m else false

abbrev pub is_empty : List ℕ → Bool
is_empty [] = true
is_empty (i ∷ is) = false

-- `HashSet::remove`
abbrev pub remove_id : ℕ → List ℕ → List ℕ
remove_id i [] = []
remove_id i (j ∷ js) = ite (ℕ_discrete j i) (remove_id i js) (j ∷ remove_id i js)

-- `Vec::pop`: the last element, and the others.
abbrev pub pop : {A : Type 0} → List A → Option (A × List A)
pop [] = none
pop (x ∷ []) = some (x, [])
pop (x ∷ y ∷ ys) = elim (pop (y ∷ ys)) [ none ↦ none | some (z, zs) ↦ some (z, x ∷ zs) ]

-- The loop that enters a server's commitments, one in each precomputation.
abbrev pub spread :
    {Nonce Commitment : Type 0}
    → ℕ
    → List Commitment
    → List (FrostPrecomputation Nonce Commitment)
    → List (FrostPrecomputation Nonce Commitment)
spread id [] l = l
spread id (c ∷ cs) [] = []
spread id (c ∷ cs) (q ∷ l) =
    record q { commitments = insert ℕ_discrete id c q.commitments } ∷ spread id cs l

module _ {Nonce Commitment Share GroupElement : Type 0}
    (scheme : Frost Nonce Commitment Share GroupElement) where
  -- A share that waited for its commitment, with the outcome of its verification. Only an error
  -- is looked at, not the answer.
  abbrev pub verify_waiting :
      FrostProtocol Nonce Commitment Share GroupElement
      → ℕ
      → Share
      → Option (Result SchemeError Bool)
      → Option (FrostProtocol Nonce Commitment Share GroupElement × Result ProtocolError (Unit {0}))
  verify_waiting p id x none = none
  verify_waiting p id x (some (err e)) = some (p, err invalid_share)
  verify_waiting p id x (some (ok is_valid)) = some (
    record p {
      shares = insert ℕ_discrete id x p.shares;
      not_verified_shares = remove_id id p.not_verified_shares;
    },
    ok tt,
  )

  abbrev pub find_waiting :
      FrostProtocol Nonce Commitment Share GroupElement
      → ℕ
      → Option Share
      → Option (FrostProtocol Nonce Commitment Share GroupElement × Result ProtocolError (Unit {0}))
  find_waiting p id none = some (p, ok tt)
  find_waiting p id (some x) =
      verify_waiting p id x (scheme.verify_share x p.key.pubkey p.msg (values p.commitment_list))

  -- The first commitment of a signer is kept.
  unfoldable pub take_commitment :
      FrostProtocol Nonce Commitment Share GroupElement
      → ℕ
      → Commitment
      → Option (FrostProtocol Nonce Commitment Share GroupElement × Result ProtocolError (Unit {0}))
  take_commitment p id c =
      if contains ℕ_discrete id p.signer_group
      then if contains_key ℕ_discrete id p.commitment_list
        then some (p, ok tt)
        else find_waiting (record p { commitment_list = insert ℕ_discrete id c p.commitment_list })
            id (lookup ℕ_discrete id p.shares)
      else some (p, ok tt)

  -- A server that only precomputes ignores commitments.
  abbrev pub on_commitment :
      FrostProtocol Nonce Commitment Share GroupElement
      → ℕ
      → Commitment
      → FrostOptions
      → Option (FrostProtocol Nonce Commitment Share GroupElement × Result ProtocolError (Unit {0}))
  on_commitment p id c precompute_only = some (p, ok tt)
  on_commitment p id c _ = take_commitment p id c

  -- A share whose commitment is there. Again only an error is looked at.
  abbrev pub verify_new :
      FrostProtocol Nonce Commitment Share GroupElement
      → ℕ
      → Share
      → Option (Result SchemeError Bool)
      → Option (FrostProtocol Nonce Commitment Share GroupElement × Result ProtocolError (Unit {0}))
  verify_new p id x none = none
  verify_new p id x (some (err e)) = some (p, err invalid_share)
  verify_new p id x (some (ok is_valid)) =
      some (record p { shares = insert ℕ_discrete id x p.shares }, ok tt)

  -- The first share of a signer is kept, unverified if its commitment has not come.
  unfoldable pub take_share :
      FrostProtocol Nonce Commitment Share GroupElement
      → ℕ
      → Share
      → Option (FrostProtocol Nonce Commitment Share GroupElement × Result ProtocolError (Unit {0}))
  take_share p id x =
      if contains ℕ_discrete id p.signer_group
      then if contains_key ℕ_discrete id p.shares
        then some (p, ok tt)
        else if contains_key ℕ_discrete id p.commitment_list
        then verify_new p id x (scheme.verify_share x p.key.pubkey p.msg (values p.commitment_list))
        else some (
          record p {
            not_verified_shares = insert_id id p.not_verified_shares;
            shares = insert ℕ_discrete id x p.shares;
          },
          ok tt,
        )
      else some (p, ok tt)

  -- With the option to sign and precompute, the last commitment is for this signature.
  unfoldable pub take_precomputations :
      FrostProtocol Nonce Commitment Share GroupElement
      → ℕ
      → FrostOptions
      → List Commitment
      → FrostProtocol Nonce Commitment Share GroupElement
  take_precomputations p id precomputation cs = elim (pop cs) [
    | none ↦ p
    | some (c, rest) ↦ record p {
      commitment_list = insert ℕ_discrete id c p.commitment_list;
      precomputation_list = spread id rest p.precomputation_list;
    }
  ]
  take_precomputations p id _ cs = record p {
    precomputation_list = spread id cs p.precomputation_list;
  }

  unfoldable pub update :
      FrostProtocol Nonce Commitment Share GroupElement
      → FrostMessage Commitment Share
      → Option (FrostProtocol Nonce Commitment Share GroupElement × Result ProtocolError (Unit {0}))
  unfolding take_share take_precomputations
  update p m = elim m.data_of [
    | commitment c ↦ on_commitment p m.id c p.options
    | share x ↦ take_share p m.id x
    | precomputations [] ↦ some (p, err invalid_share)
    | precomputations (c ∷ cs) ↦
        if contains ℕ_discrete m.id p.signer_group
        then some (take_precomputations p m.id p.options (c ∷ cs), ok tt)
        else some (p, ok tt)
    | default ↦ some (p, err internal_error)
  ]

  unfoldable pub is_ready_for_next_round : FrostProtocol Nonce Commitment Share GroupElement → Bool
  is_ready_for_next_round p =
      if p.round == 1
      then if leb p.key.pubkey.k (length p.commitment_list)
        then has_all p.signer_group p.commitment_list
        else false
      else if p.round == 2
      then if leb p.key.pubkey.k (length p.shares) && is_empty p.not_verified_shares
        then has_all p.signer_group p.shares
        else false
      else false

  unfoldable pub is_ready_to_finalize : FrostProtocol Nonce Commitment Share GroupElement → Bool
  is_ready_to_finalize p =
      if (length p.shares == p.key.pubkey.k) && is_empty p.not_verified_shares
      then has_all p.signer_group p.shares
      else false

  -- `to_bytes().unwrap()` panics.
  unfoldable pub finalize :
      FrostProtocol Nonce Commitment Share GroupElement
      → Option (FrostProtocol Nonce Commitment Share GroupElement × Result ProtocolError Bytes)
  finalize p = elim (scheme.get_group_commitment (values p.commitment_list) p.msg p.key) [
    | none ↦ none
    | some (err e) ↦ some (p, err (scheme_error e))
    | some (ok g) ↦ elim (scheme.assemble_bytes g p.key (values p.shares)) [
      | none ↦ none
      | some bytes ↦ some (record p { is_finished = true }, ok bytes)
    ]
  ]
