-- ===== src/Tests/Runs.antt =====
-- Runs of the coin and signature protocols of src/core/protocols/src.
use quorumcrypt.Base.{ℕ, ◌≡◌, refl, true, Option, some, List, [], ◌∷◌, length, ℕ_discrete}
use quorumcrypt.Errors.{ok}
use quorumcrypt.Executor.Returns.{shares_inbox}
use quorumcrypt.Executor.{returned, run, loop, advance}
use quorumcrypt.Keys.{Bytes, get_public_key, private_inner}
use quorumcrypt.Message.{NetMessage}
use quorumcrypt.Protocols.Cipher.{new_message}
use quorumcrypt.Protocols.Coin
use quorumcrypt.Protocols.Coin.{ThresholdCoin, CoinMessage}
use quorumcrypt.Protocols.Collect.{is_verified, add_own, accept, try_accept, accept_all}
use quorumcrypt.Protocols.Signature
use quorumcrypt.Protocols.Signature.{ThresholdSignature, SignatureMessage}
use quorumcrypt.Protocols.{MessageWrapper, Json, wrap_json, unwrap_json}
use quorumcrypt.Tests.Protocols.{verify, server_key}

program : Unit {0}
unfolding ℕ_discrete run loop advance is_verified get_public_key private_inner wrap_json unwrap_json
    new_message accept try_accept accept_all add_own Coin.protocol Coin.new Coin.do_round
    Coin.update Coin.finalize Coin.is_ready Coin.wrapper Signature.protocol Signature.new
    Signature.do_round Signature.update Signature.finalize Signature.is_ready Signature.wrapper
program = tt

abbrev coin_scheme : ThresholdCoin ℕ
coin_scheme = record {
  get_id = λ x. x;
  create_share = λ n k. some (ok 1);
  verify_share = λ x n k. some (verify x);
  assemble = λ xs. some (ok (length xs));
}

abbrev coin_json : Json (CoinMessage ℕ)
coin_json = record {
  print = λ m. elim m [ CoinMessage.share_message s ↦ s ∷ [] | CoinMessage.default ↦ [] ];
  parse =
      λ b. elim b [ [] ↦ some CoinMessage.default | x ∷ xs ↦ some (CoinMessage.share_message x) ];
  is_utf8 = λ b. true;
}

abbrev coin_wrapper : MessageWrapper (CoinMessage ℕ)
coin_wrapper = Coin.wrapper coin_json

abbrev coin_inbox : List (Option NetMessage)
coin_inbox = shares_inbox coin_wrapper CoinMessage.share_message "i" (12 ∷ 3 ∷ [])

coin_run :
    (run (Coin.protocol coin_scheme) coin_wrapper "i" (Coin.new server_key []) coin_inbox).verdict
    ≡ returned (ok (2 ∷ []))
unfolding program
coin_run = refl

coin_read :
    (y : ℕ)
    → coin_wrapper.unwrap (coin_wrapper.wrap (CoinMessage.share_message y) "i")
      ≡ some (ok (CoinMessage.share_message y))
unfolding program
coin_read y = refl

abbrev signature_scheme : ThresholdSignature ℕ Bytes
signature_scheme = record {
  get_id = λ x. x;
  partial_sign = λ m l k. some (ok 1);
  verify_share = λ x m k. some (verify x);
  assemble = λ xs m k. some (ok xs);
  to_bytes = λ sig. ok sig;
}

abbrev signature_json : Json (SignatureMessage ℕ)
signature_json = record {
  print = λ m. elim m [ SignatureMessage.share_message s ↦ s ∷ [] | SignatureMessage.default ↦ [] ];
  parse = λ b. elim b [
    | [] ↦ some SignatureMessage.default
    | x ∷ xs ↦ some (SignatureMessage.share_message x)
  ];
  is_utf8 = λ b. true;
}

abbrev signature_wrapper : MessageWrapper (SignatureMessage ℕ)
signature_wrapper = Signature.wrapper signature_json

abbrev signature_inbox : List (Option NetMessage)
signature_inbox = shares_inbox signature_wrapper SignatureMessage.share_message "i" (12 ∷ 3 ∷ [])

signature_run :
    (run
      (Signature.protocol signature_scheme)
      signature_wrapper
      "i"
      (Signature.new signature_scheme server_key (some []) [])
      signature_inbox).verdict
    ≡ returned (ok (1 ∷ 3 ∷ []))
unfolding program
signature_run = refl

signature_read :
    (y : ℕ)
    → signature_wrapper.unwrap (signature_wrapper.wrap (SignatureMessage.share_message y) "i")
      ≡ some (ok (SignatureMessage.share_message y))
unfolding program
signature_read y = refl
