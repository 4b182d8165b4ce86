-- ===== src/Protocols/Collector.antt =====
-- What the three one-round protocols of src/core/protocols/src promise: a server takes its own
-- share, then one verified share for each id, and assembles once there are as many as the
-- threshold says.
use quorumcrypt.Base.{
  ℕ, Bool, true, Option, none, some, List, leb, length, if◌then◌else◌, contains, ℕ_discrete,
}
use quorumcrypt.Errors.{Result, ok, err, SchemeError, ProtocolError}
use quorumcrypt.Keys.{Bytes}
use quorumcrypt.Protocols.{RoundProtocol}
use quorumcrypt.Protocols.Collect.{Collection, add_own, accept}

-- `own` is the outcome of making the server's share; `is_armed` says of
-- a share that its verification does not panic.
pub record Collector (Share : Type 0) : Type 0 where
  pub get_id : Share → ℕ
  pub threshold : ℕ
  pub is_armed : Share → Bool
  pub own : Option (Result ProtocolError Share)
  pub verify : Share → Result SchemeError Bool
  pub assemble : List Share → Option (Result ProtocolError Bytes)
  pub shares : Collection Share
  pub is_done : Bool

module _ {Share : Type 0} where
  abbrev pub has_enough : Collector Share → Bool
  has_enough c = leb c.threshold (length c.shares.valid_shares)

  abbrev pub assembled :
      Collector Share
      → Option (Result ProtocolError Bytes)
      → Option (Collector Share × Result ProtocolError Bytes)
  assembled c none = none
  assembled c (some (ok value)) = some (record c { is_done = true }, ok value)
  assembled c (some (err e)) = some (c, err e)

  abbrev pub take_share :
      Collector Share → Option Share → Option (Collector Share × Result ProtocolError (Unit {0}))
  take_share c none = none
  take_share c (some x) =
      if c.is_done
      then some (c, ok tt)
      else if contains ℕ_discrete (c.get_id x) c.shares.received_share_ids
      then some (c, ok tt)
      else if c.is_armed x
      then some (record c { shares = accept c.get_id c.verify c.shares x }, ok tt)
      else none

module _ {Share Message : Type 0} (to_message : Share → Message)
    (share_of : Message → Option Share) where
  abbrev pub own_round :
      Collector Share
      → Option (Result ProtocolError Share)
      → Option (Collector Share × Result ProtocolError Message)
  own_round c none = none
  own_round c (some (err e)) = some (c, err e)
  own_round c (some (ok x)) =
      some (record c { shares = add_own c.get_id c.shares x }, ok (to_message x))

  unfoldable pub collecting : RoundProtocol (Collector Share) Message
  collecting = record {
    do_round = λ c. own_round c c.own;
    is_ready_for_next_round = has_enough;
    is_ready_to_finalize = has_enough;
    finalize = λ c. assembled c (c.assemble c.shares.valid_shares);
    update = λ c m. take_share c (share_of m);
  }
