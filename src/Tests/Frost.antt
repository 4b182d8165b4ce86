-- ===== src/Tests/Frost.antt =====
-- Runs of the FROST protocol: nonces, commitments, shares and group elements are numbers.
use mathlib.Core.Option
use quorumcrypt.Base.{
  ℕ, ◌≡◌, refl, true, false, Option, none, some, List, [], ◌∷◌, length, contains, ◌==◌,
  if◌then◌else◌, ℕ_discrete, arith,
}
use quorumcrypt.Base.Dict.{contains_key, insert, lookup}
use quorumcrypt.Errors.{ok}
use quorumcrypt.Executor.Answers.{all_valid, run-all_valid}
use quorumcrypt.Executor.{run}
use quorumcrypt.Keys.{Bytes}
use quorumcrypt.Message.{NetMessage, gossip}
use quorumcrypt.Protocols.Frost.Rounds.{protocol}
use quorumcrypt.Protocols.{MessageWrapper}
use quorumcrypt.Protocols.Frost.Signers.{IsValid, update-IsValid, is_ready_to_finalize_complete}
use quorumcrypt.Protocols.Frost.{
  Frost, FrostProtocol, FrostMessage, FrostData, no_precomputation, update, take_share,
  take_commitment, is_ready_to_finalize,
}
use quorumcrypt.Tests.Data.{inner_share}

abbrev scheme : Frost ℕ ℕ ℕ ℕ
scheme = record {
  commit = λ k i. some (i, i);
  partial_sign = λ n cs m k. some (ok (n, 0));
  verify_share = λ x k m cs. some (ok false);
  get_group_commitment = λ cs m k. some (ok 0);
  assemble_bytes = λ g k xs. some xs;
}

abbrev start : FrostProtocol ℕ ℕ ℕ ℕ
start = record {
  round = 1;
  key = inner_share "key";
  label = [];
  msg = [];
  nonce = none;
  own_commitment = none;
  commitment_list = [];
  precomputation_list = [];
  group_commitment = none;
  shares = [];
  not_verified_shares = [];
  is_finished = false;
  options = no_precomputation;
  signer_group = 1 ∷ 3 ∷ [];
}

start-IsValid : IsValid start
unfolding lookup
start-IsValid i = ground arith

-- The share of the third server comes before its commitment.
abbrev share_early : FrostProtocol ℕ ℕ ℕ ℕ
share_early = record start { shares = (3, 7) ∷ []; not_verified_shares = 3 ∷ [] }

program : Unit {0}
unfolding update take_share take_commitment insert lookup ℕ_discrete is_ready_to_finalize
program = tt

update-IsValid_example : IsValid share_early
unfolding program
update-IsValid_example =
    update-IsValid scheme start share_early (record { id = 3; data_of = FrostData.share 7 }) refl
      refl start-IsValid

abbrev complete : FrostProtocol ℕ ℕ ℕ ℕ
complete = record start { commitment_list = (1, 4) ∷ (3, 5) ∷ []; shares = (1, 6) ∷ (3, 7) ∷ [] }

complete-IsValid : IsValid complete
unfolding lookup
complete-IsValid i = ground arith

is_ready_to_finalize_complete_example :
    (length complete.shares ≡ 2)
    × ((i : ℕ)
        → contains ℕ_discrete i complete.signer_group ≡ true
        → (contains_key ℕ_discrete i complete.commitment_list ≡ true)
          × (contains_key ℕ_discrete i complete.shares ≡ true))
unfolding program
is_ready_to_finalize_complete_example =
    is_ready_to_finalize_complete scheme complete complete-IsValid refl

abbrev print : ℕ → FrostData ℕ ℕ → Bytes
print i (FrostData.commitment c) = 0 ∷ i ∷ c ∷ []
print i (FrostData.share x) = 1 ∷ i ∷ x ∷ []
print i (FrostData.precomputations cs) = 2 ∷ i ∷ cs
print i FrostData.default = 3 ∷ i ∷ []

abbrev parse : Bytes → Option (FrostMessage ℕ ℕ)
parse (tag ∷ i ∷ x ∷ []) =
    some
      (record { id = i; data_of = if tag == 0 then FrostData.commitment x else FrostData.share x })
parse _ = none

abbrev message : Bytes → NetMessage
message b = record {
  instance_id = "i";
  metadata = record { sender_id = 3; channel = gossip };
  message_data = b;
}

abbrev wrapper : MessageWrapper (FrostMessage ℕ ℕ)
wrapper = record {
  unwrap = λ m. Option.map ok (parse m.message_data);
  wrap = λ m id. record (message (print m.id m.data_of)) { instance_id = id };
  is_default = λ m. false;
}

-- The commitment and the share of the third server.
abbrev inbox : List (Option NetMessage)
inbox = some (message (0 ∷ 3 ∷ 5 ∷ [])) ∷ some (message (1 ∷ 3 ∷ 7 ∷ [])) ∷ []

run-all_valid_example :
    run (protocol scheme) wrapper "i" start inbox
    ≡ run (protocol (all_valid scheme)) wrapper "i" start inbox
run-all_valid_example = run-all_valid scheme wrapper "i" start inbox
