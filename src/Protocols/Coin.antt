-- ===== src/Protocols/Coin.antt =====
-- src/core/protocols/src/threshold_coin/protocol.rs and message_types.rs: the coin protocol. The
-- coin scheme of src/core/schemes is an interface.
use quorumcrypt.Base.{
  ℕ, Bool, true, false, Option, none, some, List, [], ◌∷◌, leb, length, if◌then◌else◌,
}
use quorumcrypt.Errors.{Result, ok, err, SchemeError, ProtocolError, scheme_error}
use quorumcrypt.Keys.{Bytes, PublicKey, PrivateKeyShare, get_public_key, private_threshold}
use quorumcrypt.Protocols.{RoundProtocol, MessageWrapper, Json, wrap_json, unwrap_json}
use quorumcrypt.Protocols.Collect.{Collection, empty, add_own, try_accept}
use mathlib.Core.Option

-- `ThresholdCoin`, and `CoinShare::get_id`. A result of `none` is a panic.
pub record ThresholdCoin (Share : Type 0) : Type 0 where
  pub get_id : Share → ℕ
  pub create_share : Bytes → PrivateKeyShare → Option (Result SchemeError Share)
  pub verify_share : Share → Bytes → PublicKey → Option (Result SchemeError Bool)
  pub assemble : List Share → Option (Result SchemeError ℕ)

pub data CoinMessage (Share : Type 0) : Type 0 where
  share_message : Share → CoinMessage Share
  default : CoinMessage Share

pub record ThresholdCoinProtocol (Share : Type 0) : Type 0 where
  pub private_key : PrivateKeyShare
  pub name : Bytes
  pub shares : Collection Share
  pub finished : Bool
  pub coin : Option ℕ

module _ {Share : Type 0} (scheme : ThresholdCoin Share) where
  unfoldable pub is_ready : ThresholdCoinProtocol Share → Bool
  is_ready p = leb (private_threshold p.private_key) (length p.shares.valid_shares)

  unfoldable pub finalize :
      ThresholdCoinProtocol Share
      → Option (ThresholdCoinProtocol Share × Result ProtocolError Bytes)
  finalize p = elim (scheme.assemble p.shares.valid_shares) [
    | none ↦ none
    | some (ok result) ↦ some (record p { coin = some result; finished = true }, ok (result ∷ []))
    | some (err e) ↦ some (p, err (scheme_error e))
  ]

  -- A message that is not a share runs into `todo!()`.
  unfoldable pub update :
      ThresholdCoinProtocol Share
      → CoinMessage Share
      → Option (ThresholdCoinProtocol Share × Result ProtocolError (Unit {0}))
  update p CoinMessage.default = none
  update p (CoinMessage.share_message share) =
      if p.finished
      then some (p, ok tt)
      else Option.map (λ shares. (record p { shares = shares }, ok tt))
          (try_accept scheme.get_id
            (λ x. scheme.verify_share x p.name (get_public_key p.private_key)) p.shares share)

  unfoldable pub do_round :
      ThresholdCoinProtocol Share
      → Option (ThresholdCoinProtocol Share × Result ProtocolError (CoinMessage Share))
  do_round p = elim (scheme.create_share p.name p.private_key) [
    | none ↦ none
    | some (err e) ↦ some (p, err (scheme_error e))
    | some (ok share) ↦ some (
      record p { shares = add_own scheme.get_id p.shares share },
      ok (CoinMessage.share_message share),
    )
  ]

  -- The implementation of `ThresholdRoundProtocol`.
  unfoldable pub protocol : RoundProtocol (ThresholdCoinProtocol Share) (CoinMessage Share)
  unfolding do_round is_ready finalize update
  protocol = record {
    do_round = do_round;
    is_ready_for_next_round = is_ready;
    is_ready_to_finalize = is_ready;
    finalize = finalize;
    update = update;
  }

unfoldable pub new : {Share : Type 0} → PrivateKeyShare → Bytes → ThresholdCoinProtocol Share
new private_key name = record {
  private_key = private_key;
  name = name;
  shares = empty;
  finished = false;
  coin = none;
}

unfoldable pub is_default : {Share : Type 0} → CoinMessage Share → Bool
is_default CoinMessage.default = true
is_default (CoinMessage.share_message m) = false

-- The implementation of `ProtocolMessageWrapper`.
unfoldable pub wrapper :
    {Share : Type 0} → Json (CoinMessage Share) → MessageWrapper (CoinMessage Share)
unfolding is_default
wrapper json = record { wrap = wrap_json json; unwrap = unwrap_json json; is_default = is_default }
