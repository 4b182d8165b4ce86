-- ===== src/Executor/Shares.antt =====
-- The decryption and coin protocols of src/core/protocols/src as collectors of shares: what each keeps
-- in its own fields, the common view of it, and that the view respects every operation that the
-- executor calls. Its child Signatures is about the signature protocol.
pub mod Signatures
use quorumcrypt.Base.{
  ℕ, ◌≡◌, refl, sym, ap, ◌∙◌, if◌then◌else◌, Bool, true, false, Option, none, some, List, ◌∷◌, [],
  arith, Bool-cases, inl, inr, Option-cases, is_some, contains, ℕ_discrete,
}
use quorumcrypt.Errors.{
  Result, ok, err, SchemeError, ProtocolError, scheme_error, invalid_ciphertext,
}
use quorumcrypt.Executor.Refine.{Refines, lift}
use mathlib.Core.Option
use quorumcrypt.Keys.{Bytes, PrivateKeyShare, get_public_key, private_threshold}
use quorumcrypt.Protocols.Cipher.{
  ThresholdCipher, DecryptionMessage, ThresholdCipherProtocol, new_message,
}
use quorumcrypt.Protocols.Cipher
use quorumcrypt.Protocols.Coin
use quorumcrypt.Protocols.Coin.{ThresholdCoin, CoinMessage, ThresholdCoinProtocol}
use quorumcrypt.Protocols.Collect.{settled, accept, try_accept-accept}
use quorumcrypt.Protocols.Collector.{Collector, take_share, collecting}
use quorumcrypt.Protocols.Signature
use quorumcrypt.Protocols.Signature.{
  ThresholdSignature, SignatureMessage, ThresholdSignatureProtocol,
}

abbrev pub lift_error : {A : Type 0} → Result SchemeError A → Result ProtocolError A
lift_error (ok a) = ok a
lift_error (err e) = err (scheme_error e)

-- The same for an operation that may panic.
abbrev pub lift_outcome :
    {A : Type 0} → Option (Result SchemeError A) → Option (Result ProtocolError A)
lift_outcome none = none
lift_outcome (some r) = some (lift_error r)

abbrev pub cipher_share : {Share : Type 0} → DecryptionMessage Share → Option Share
cipher_share (DecryptionMessage.share_message m) = some m.share
cipher_share DecryptionMessage.default = none

abbrev pub coin_share : {Share : Type 0} → CoinMessage Share → Option Share
coin_share (CoinMessage.share_message x) = some x
coin_share CoinMessage.default = none

-- The branches of `update`, seen through an abstraction of the state.
pub branches :
    {P Q A : Type 0} (abs : P → Q) (f : A → P) (p : P) (a b d : Bool) (c t : A)
    → f c ≡ p
    → ◌≡◌ {A = Option (Q × Result ProtocolError (Unit {0}))}
        (if a
          then some (abs p, ok tt)
          else if b
          then some (abs p, ok tt)
          else if d
          then some (abs (f t), ok tt)
          else none)
        (lift abs (
          if a
          then some (p, ok tt)
          else Option.map (λ s. (f s, ok tt)) (if b then some c else if d then some t else none)))
branches abs f p true b d c t h = refl
branches abs f p false true d c t h = ap (λ q. some (abs q, ok tt)) (sym h)
branches abs f p false false true c t h = refl
branches abs f p false false false c t h = refl

-- The share of a ciphertext that was found valid.
abbrev pub checked_share :
    {Share : Type 0}
    → Option (Result SchemeError Bool)
    → Option (Result SchemeError Share)
    → Option (Result ProtocolError Share)
checked_share none share = none
checked_share (some (err e)) share = some (err (scheme_error e))
checked_share (some (ok false)) share = some (err invalid_ciphertext)
checked_share (some (ok true)) share = lift_outcome share

module _ {Share Ciphertext : Type 0} (cipher : ThresholdCipher Share Ciphertext) where
  abbrev pub cipher_collector : ThresholdCipherProtocol Share Ciphertext → Collector Share
  cipher_collector p = record {
    get_id = cipher.get_id;
    threshold = private_threshold p.private_key;
    is_armed = λ x. is_some (cipher.verify_share x p.ciphertext (get_public_key p.private_key));
    own =
        checked_share (cipher.verify_ciphertext p.ciphertext (get_public_key p.private_key))
          (cipher.partial_decrypt p.ciphertext p.private_key);
    verify = λ x. settled (cipher.verify_share x p.ciphertext (get_public_key p.private_key));
    assemble = λ xs. lift_outcome (cipher.assemble xs p.ciphertext);
    shares = p.shares;
    is_done = p.decrypted;
  }

  cipher_update_eq :
      (p : ThresholdCipherProtocol Share Ciphertext) (m : DecryptionMessage Share)
      → take_share (cipher_collector p) (cipher_share m)
        ≡ lift cipher_collector (Cipher.update cipher p m)
  unfolding Cipher.update
  cipher_update_eq p DecryptionMessage.default = refl
  cipher_update_eq p (DecryptionMessage.share_message m) =
      let verify : Share → Option (Result SchemeError Bool) =
        λ x. cipher.verify_share x p.ciphertext (get_public_key p.private_key) in
      branches cipher_collector (λ shares. record p { shares = shares }) p p.decrypted
        (contains ℕ_discrete (cipher.get_id m.share) p.shares.received_share_ids)
        (is_some (verify m.share)) p.shares
        (accept cipher.get_id (λ y. settled (verify y)) p.shares m.share) refl
      ∙ ap
          (λ o. lift cipher_collector (
            if p.decrypted
            then some (p, ok tt)
            else Option.map (λ shares. (record p { shares = shares }, ok tt)) o))
          (sym (try_accept-accept cipher.get_id verify p.shares m.share))

  -- The decryption protocol is a collector of shares, whose own share is the partial decryption of
  -- a ciphertext that was found valid.
  pub cipher-Refines :
      Refines (Cipher.protocol cipher) (collecting new_message cipher_share) cipher_collector
  unfolding collecting Cipher.protocol
  cipher-Refines = record {
    do_round_eq = λ p. ground arith;
    ready_round_eq = λ p. refl;
    ready_finalize_eq = λ p. refl;
    finalize_eq = λ p. ground arith;
    update_eq = cipher_update_eq;
  }

-- The bytes of a coin.
abbrev pub coin_bytes : Result SchemeError ℕ → Result ProtocolError Bytes
coin_bytes (ok value) = ok (value ∷ [])
coin_bytes (err e) = err (scheme_error e)

abbrev pub coin_outcome : Option (Result SchemeError ℕ) → Option (Result ProtocolError Bytes)
coin_outcome none = none
coin_outcome (some r) = some (coin_bytes r)

module _ {Share : Type 0} (scheme : ThresholdCoin Share) where
  abbrev pub coin_collector : ThresholdCoinProtocol Share → Collector Share
  coin_collector p = record {
    get_id = scheme.get_id;
    threshold = private_threshold p.private_key;
    is_armed = λ x. is_some (scheme.verify_share x p.name (get_public_key p.private_key));
    own = lift_outcome (scheme.create_share p.name p.private_key);
    verify = λ x. settled (scheme.verify_share x p.name (get_public_key p.private_key));
    assemble = λ xs. coin_outcome (scheme.assemble xs);
    shares = p.shares;
    is_done = p.finished;
  }

  coin_update_eq :
      (p : ThresholdCoinProtocol Share) (m : CoinMessage Share)
      → take_share (coin_collector p) (coin_share m) ≡ lift coin_collector (Coin.update scheme p m)
  unfolding Coin.update
  coin_update_eq p CoinMessage.default = refl
  coin_update_eq p (CoinMessage.share_message x) =
      let verify : Share → Option (Result SchemeError Bool) =
        λ y. scheme.verify_share y p.name (get_public_key p.private_key) in
      branches coin_collector (λ shares. record p { shares = shares }) p p.finished
        (contains ℕ_discrete (scheme.get_id x) p.shares.received_share_ids) (is_some (verify x))
        p.shares (accept scheme.get_id (λ y. settled (verify y)) p.shares x) refl
      ∙ ap
          (λ o. lift coin_collector (
            if p.finished
            then some (p, ok tt)
            else Option.map (λ shares. (record p { shares = shares }, ok tt)) o))
          (sym (try_accept-accept scheme.get_id verify p.shares x))

  pub coin-Refines :
      Refines
        (Coin.protocol scheme)
        (collecting CoinMessage.share_message coin_share)
        coin_collector
  unfolding collecting Coin.protocol
  coin-Refines = record {
    do_round_eq = λ p. ground arith;
    ready_round_eq = λ p. refl;
    ready_finalize_eq = λ p. refl;
    finalize_eq = λ p. ground arith;
    update_eq = coin_update_eq;
  }
