-- ===== src/Protocols/Frost/Rounds.antt =====
-- `do_round` of src/core/protocols/src/frost/protocol.rs.
use mathlib.Core.Option
use quorumcrypt.Base.Dict.{values, insert, contains_key}
use quorumcrypt.Base.{
  ℕ, zero, suc, ◌+◌, ◌==◌, Option, none, some, List, [], ◌∷◌, ◌++◌, map, if◌then◌else◌, contains,
  ℕ_discrete,
}
use quorumcrypt.Errors.{Result, ok, err, ProtocolError, scheme_error, invalid_round}
use quorumcrypt.Keys.{SchemePrivateKey}
use quorumcrypt.Protocols.{RoundProtocol}
use quorumcrypt.Protocols.Frost.{
  Frost, FrostOptions, no_precomputation, FrostData, FrostMessage, FrostPrecomputation,
  FrostProtocol, update, finalize, is_ready_for_next_round, is_ready_to_finalize,
}

abbrev pub num_precomputations : ℕ
num_precomputations = 10

module _ {Nonce Commitment Share GroupElement : Type 0}
    (scheme : Frost Nonce Commitment Share GroupElement) where
  -- The draws from `i` on.
  abbrev pub draw : SchemePrivateKey → ℕ → ℕ → Option (List (Commitment × Nonce))
  draw key i zero = some []
  draw key i (suc n) = elim (scheme.commit key i) [
    | none ↦ none
    | some drawn ↦ Option.map (λ rest. drawn ∷ rest) (draw key (suc i) n)
  ]

  abbrev pub new_precomputation :
      List ℕ → ℕ → Commitment × Nonce → FrostPrecomputation Nonce Commitment
  new_precomputation group id (c, n) = record {
    group = group;
    nonce = n;
    commitments = (id, c) ∷ [];
  }

  unfoldable pub precompute :
      FrostProtocol Nonce Commitment Share GroupElement
      → Option (FrostProtocol Nonce Commitment Share GroupElement × FrostData Commitment Share)
  precompute p =
      Option.map
        (λ drawn. (
          record p {
            precomputation_list =
                p.precomputation_list ++ map (new_precomputation p.signer_group p.key.id) drawn;
          },
          FrostData.precomputations (map (λ d. d.0) drawn),
        ))
        (draw p.key 0 num_precomputations)

  unfoldable pub first_round :
      FrostProtocol Nonce Commitment Share GroupElement
      → FrostOptions
      → Option (FrostProtocol Nonce Commitment Share GroupElement × FrostData Commitment Share)
  unfolding precompute
  first_round p no_precomputation =
      if contains ℕ_discrete p.key.id p.signer_group
      then if contains_key ℕ_discrete p.key.id p.commitment_list
        then some (p, FrostData.default)
        else Option.map
            (λ drawn.
              let (c, n) = drawn in
              (
                record p {
                  nonce = some n;
                  own_commitment = some c;
                  commitment_list = insert ℕ_discrete p.key.id c p.commitment_list;
                },
                FrostData.commitment c,
              ))
            (scheme.commit p.key 0)
      else some (p, FrostData.default)
  first_round p _ = precompute p

  abbrev pub sign_with :
      FrostProtocol Nonce Commitment Share GroupElement
      → Option Nonce
      → Option (
          FrostProtocol Nonce Commitment Share GroupElement
          × Result ProtocolError (FrostMessage Commitment Share))
  sign_with p none = none
  sign_with p (some n) = elim (scheme.partial_sign n (values p.commitment_list) p.msg p.key) [
    | none ↦ none
    | some (err e) ↦ some (p, err (scheme_error e))
    | some (ok (x, g)) ↦ some (
      record p {
        round = p.round + 1;
        group_commitment = some g;
        shares = insert ℕ_discrete p.key.id x p.shares;
      },
      ok (record { id = p.key.id; data_of = FrostData.share x }),
    )
  ]

  unfoldable pub second_round :
      FrostProtocol Nonce Commitment Share GroupElement
      → Option (
          FrostProtocol Nonce Commitment Share GroupElement
          × Result ProtocolError (FrostMessage Commitment Share))
  second_round p =
      let idle : Option (
          FrostProtocol Nonce Commitment Share GroupElement
          × Result ProtocolError (FrostMessage Commitment Share)) =
        some (
          record p { round = p.round + 1 },
          ok (record { id = p.key.id; data_of = FrostData.default }),
        ) in
      if contains ℕ_discrete p.key.id p.signer_group
      then if contains_key ℕ_discrete p.key.id p.shares then idle else sign_with p p.nonce
      else idle

  unfoldable pub do_round :
      FrostProtocol Nonce Commitment Share GroupElement
      → Option (
          FrostProtocol Nonce Commitment Share GroupElement
          × Result ProtocolError (FrostMessage Commitment Share))
  unfolding first_round second_round
  do_round p =
      if p.round == 0
      then Option.map
          (λ drawn.
            let (q, d) = drawn in
            (record q { round = q.round + 1 }, ok (record { id = p.key.id; data_of = d })))
          (first_round p p.options)
      else if p.round == 1
      then second_round p
      else some (p, err invalid_round)

  -- The implementation of `ThresholdRoundProtocol`.
  unfoldable pub protocol :
      RoundProtocol
        (FrostProtocol Nonce Commitment Share GroupElement)
        (FrostMessage Commitment Share)
  unfolding update finalize is_ready_for_next_round is_ready_to_finalize do_round
  protocol = record {
    do_round = do_round;
    is_ready_for_next_round = is_ready_for_next_round scheme;
    is_ready_to_finalize = is_ready_to_finalize scheme;
    finalize = finalize scheme;
    update = update scheme;
  }
