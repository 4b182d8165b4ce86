-- ===== src/Tests/FrostScheme.antt =====
-- Runs of src/core/schemes/src/dl_schemes/signatures/frost.rs with two signers, in the field with three
-- elements.
use quorumcrypt.Base.{
  ℕ, ◌≡◌, ◌≢◌, ◌⊎◌, ◌%◌, refl, true, some, none, List, [], ◌∷◌, length, arith, Has,
}
use quorumcrypt.Dl.Frost.Honest.{verify_share-partial_sign}
use quorumcrypt.Dl.Frost.Order.{Reordered, swap, partial_sign-Reordered}
use quorumcrypt.Dl.Frost.Outcomes.{commit_none, partial_sign_answers}
use quorumcrypt.Dl.Frost.Sign.{verify-assemble-verify_share}
use quorumcrypt.Dl.Frost.Signing.{
  get_group_commitment, partial_sign, verify_share, assemble, verify, group_commitment_loop,
  compute_group_commitment, make_share, sign_with_factors, verify_for, check_commitment,
  check_share,
}
use quorumcrypt.Dl.Frost.{
  FrostPublicKey, FrostPrivateKey, PublicCommitment, Nonce, FrostSignatureShare, FrostSignature,
  FrostHash, CurveOperations, commit, commitment_for_participant, binding_factor_for_participant,
  sort, insert_commitment, get_context_string, h1, h2, h4, h5, binding_factors,
  compute_binding_factors, compute_challenge, encode_group_commitment_list,
}
use quorumcrypt.Dl.{zeros, verification_key_of}
use quorumcrypt.Errors.{ok, err, id_not_found}
use quorumcrypt.Schemes.{Group, ed25519, bn254}
use quorumcrypt.Protocols.Collect.Sound.{Every}
use quorumcrypt.Sharing.Lagrange.{AreIds, IsFresh}
use quorumcrypt.Sharing.{lagrange_coeff, lagrange_loop}
use quorumcrypt.Tests.Field.{Three, t0, t1, t2, plus_comm, same, same_iff, value, field, group}
use quorumcrypt.Tests.Primitives.{first_byte, text, line, line-IsDealing}
use mathlib.Core.List.Perm
use mathlib.Core.Option

abbrev hash : FrostHash Three
hash = record {
  hash512 = λ m. length m % 256 ∷ zeros 63;
  from_bytes = first_byte;
  to_bytes = λ a. value a ∷ zeros 31;
}

abbrev curve : CurveOperations Three Three field group
curve = record {
  identity = t0;
  eq = same;
  identity-mul = λ a. refl;
  mul_comm = plus_comm;
  eq_iff = same_iff;
}

abbrev public_key : Group → FrostPublicKey Three
public_key g = record { id = "key"; n = 2; k = 2; group = g; y = t1; h = t2 ∷ t0 ∷ [] }

abbrev first_key : Group → FrostPrivateKey Three Three
first_key g = record { id = 1; x = t2; pubkey = public_key g }

abbrev nonce_of : Group → Nonce Three
nonce_of g = record { group = g; hiding_nonce = t1; binding_nonce = t2 }

abbrev commitment_of : ℕ → PublicCommitment Three
commitment_of i = record { id = i; hiding_nonce_commitment = t1; binding_nonce_commitment = t2 }

abbrev commitments : List (PublicCommitment Three)
commitments = commitment_of 2 ∷ commitment_of 1 ∷ []

abbrev share_of : ℕ → Three → FrostSignatureShare Three
share_of i z = record { id = i; get_share = z }

first_share :
    partial_sign ⦃s = field⦄ curve hash (nonce_of ed25519) commitments text (first_key ed25519) 1
    ≡ some (ok (share_of 1 t1, t1))
unfolding partial_sign sign_with_factors make_share compute_group_commitment group_commitment_loop
    compute_binding_factors binding_factors h1 h2 h4 h5 sort insert_commitment get_context_string
    encode_group_commitment_list compute_challenge binding_factor_for_participant lagrange_coeff
    lagrange_loop Option.bind
first_share = refl

abbrev shares : List (FrostSignatureShare Three)
shares = share_of 2 t2 ∷ share_of 1 t1 ∷ []

shares_verified :
    Every
      (λ share.
        verify_share ⦃s = field⦄ curve hash share (public_key ed25519) text commitments
        ≡ some (ok true))
      shares
unfolding verify_share verify_for check_commitment check_share compute_group_commitment
    group_commitment_loop compute_binding_factors binding_factors h1 h2 h4 h5 sort insert_commitment
    get_context_string encode_group_commitment_list compute_challenge binding_factor_for_participant
    commitment_for_participant lagrange_coeff lagrange_loop verification_key_of Option.bind
shares_verified = (refl, (refl, tt))

commitment_ids : AreIds 3 (2 ∷ 1 ∷ [])
unfolding AreIds IsFresh
commitment_ids = (omega arith, ((λ e. omega (arith, e)), tt), (omega arith, tt, tt))

verify-assemble-verify_share_example :
    (gc : Three) × (sig : FrostSignature Three Three) × (get_group_commitment ⦃s = field⦄ curve hash
        commitments text
        (first_key ed25519)
      ≡ some (ok gc))
    × (assemble ⦃s = field⦄ gc (first_key ed25519) shares ≡ some sig)
    × (verify ⦃s = field⦄ curve hash sig (public_key ed25519) text ≡ true)
verify-assemble-verify_share_example =
    verify-assemble-verify_share ⦃s = field⦄ curve hash t1 line 2 (first_key ed25519) text
      commitments shares line-IsDealing refl refl refl commitment_ids refl refl
      (Perm.refl (2 ∷ 1 ∷ [])) shares_verified

found_under_one : commitment_for_participant commitments 1 ≡ ok (commitment_of 1)
unfolding commitment_for_participant
found_under_one = refl

key_under_one : verification_key_of (t2 ∷ t0 ∷ []) 1 ≡ some t2
unfolding verification_key_of
key_under_one = refl

verify_share-partial_sign_example :
    (share : FrostSignatureShare Three) × (gc : Three) × (partial_sign ⦃s = field⦄ curve hash
        (nonce_of ed25519)
        commitments
        text
        (first_key ed25519)
        1
      ≡ some (ok (share, gc)))
    × (verify_share ⦃s = field⦄ curve hash share (public_key ed25519) text commitments
        ≡ some (ok true))
verify_share-partial_sign_example =
    verify_share-partial_sign ⦃s = field⦄ curve hash (nonce_of ed25519) commitments text
      (first_key ed25519) (commitment_of 1) refl refl found_under_one refl refl key_under_one

other_order : Reordered commitments (commitment_of 1 ∷ commitment_of 2 ∷ [])
other_order = swap (commitment_of 2) (commitment_of 1) [] (λ e. omega (arith, e))

partial_sign-Reordered_example :
    (partial_sign ⦃s = field⦄ curve hash (nonce_of ed25519) commitments text (first_key ed25519) 1
      ≡ partial_sign ⦃s = field⦄ curve hash
          (nonce_of ed25519)
          (commitment_of 1 ∷ commitment_of 2 ∷ [])
          text
          (first_key ed25519)
          1)
    × (verify_share ⦃s = field⦄ curve hash (share_of 1 t1) (public_key ed25519) text commitments
        ≡ verify_share ⦃s = field⦄ curve hash
            (share_of 1 t1)
            (public_key ed25519)
            text
            (commitment_of 1 ∷ commitment_of 2 ∷ []))
    × (get_group_commitment ⦃s = field⦄ curve hash commitments text (first_key ed25519)
        ≡ get_group_commitment ⦃s = field⦄ curve hash
            (commitment_of 1 ∷ commitment_of 2 ∷ [])
            text
            (first_key ed25519))
partial_sign-Reordered_example =
    partial_sign-Reordered ⦃s = field⦄ curve hash commitments
      (commitment_of 1 ∷ commitment_of 2 ∷ []) (nonce_of ed25519) text (first_key ed25519) 1
      (share_of 1 t1) (public_key ed25519) other_order

partial_sign_answers_example :
    ((ed25519 ≢ ed25519)
      × (partial_sign ⦃s = field⦄ curve hash
            (nonce_of ed25519)
            commitments
            text
            (first_key ed25519)
            1
          ≡ none))
    ⊎ ((◌≡◌ {A = Group} ed25519 ed25519)
        × Has {A = ℕ} 1 (2 ∷ 1 ∷ [])
        × ((share : FrostSignatureShare Three) × (gc : Three) × (share.id ≡ 1)
            × (partial_sign ⦃s = field⦄ curve hash
                  (nonce_of ed25519)
                  commitments
                  text
                  (first_key ed25519)
                  1
                ≡ some (ok (share, gc)))))
    ⊎ ((◌≡◌ {A = Group} ed25519 ed25519)
        × (¬ Has {A = ℕ} 1 (2 ∷ 1 ∷ []))
        × (partial_sign ⦃s = field⦄ curve hash
              (nonce_of ed25519)
              commitments
              text
              (first_key ed25519)
              1
            ≡ some (err id_not_found)))
partial_sign_answers_example =
    partial_sign_answers ⦃s = field⦄ curve hash (nonce_of ed25519) commitments text
      (first_key ed25519) 1

not_ed25519 : bn254 ≢ ed25519
not_ed25519 e = cc

commit_none_example :
    (commit ⦃s = field⦄ group hash (first_key bn254) [] [] ≡ none)
    × (partial_sign ⦃s = field⦄ curve hash (nonce_of bn254) commitments text (first_key bn254) 1
        ≡ none)
    × (get_group_commitment ⦃s = field⦄ curve hash commitments text (first_key bn254) ≡ none)
commit_none_example =
    commit_none ⦃s = field⦄ curve hash (first_key bn254) [] [] (nonce_of bn254) commitments text 1
      not_ed25519 refl
