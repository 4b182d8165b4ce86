-- ===== src/Protocols.antt =====
-- src/core/protocols/src: what the executor asks of a protocol (`ThresholdRoundProtocol` and
-- `ProtocolMessageWrapper` of interface.rs), and the messages' way to the network and back. A
-- result of `none` is a panic.
pub mod Collect
pub mod Cipher
pub mod Coin
pub mod Frost
pub mod Collector
pub mod Signature
use quorumcrypt.Base.{String, ◌≡◌, Bool, true, false, Option, none, some, if◌then◌else◌}
use quorumcrypt.Errors.{Result, ok, err, ProtocolError, internal_error}
use quorumcrypt.Keys.{Bytes}
use quorumcrypt.Message.{NetMessage, gossip, new_metadata}

-- `ThresholdRoundProtocol` for a protocol state `P` and its messages. The randomness that a
-- round draws is fixed in `do_round`.
pub record RoundProtocol (P Message : Type 0) : Type 0 where
  pub do_round : P → Option (P × Result ProtocolError Message)
  pub is_ready_for_next_round : P → Bool
  pub is_ready_to_finalize : P → Bool
  pub finalize : P → Option (P × Result ProtocolError Bytes)
  pub update : P → Message → Option (P × Result ProtocolError (Unit {0}))

-- `ProtocolMessageWrapper`; every `wrap` of the source returns `Ok`.
pub record MessageWrapper (Message : Type 0) : Type 0 where
  pub wrap : Message → String → NetMessage
  pub unwrap : NetMessage → Option (Result ProtocolError Message)
  pub is_default : Message → Bool

-- serde_json for a type of messages, and the check of `String::from_utf8`.
pub record Json (Message : Type 0) : Type 0 where
  pub print : Message → Bytes
  pub parse : Bytes → Option Message
  pub is_utf8 : Bytes → Bool

module _ {Message : Type 0} (json : Json Message) where
  unfoldable pub wrap_json : Message → String → NetMessage
  unfolding new_metadata
  wrap_json message instance_id = record {
    instance_id = instance_id;
    metadata = new_metadata gossip;
    message_data = json.print message;
  }

  unfoldable pub unwrap_json : NetMessage → Option (Result ProtocolError Message)
  unwrap_json wrapped =
      if json.is_utf8 wrapped.message_data
      then elim (json.parse wrapped.message_data) [
        | none ↦ some (err internal_error)
        | some message ↦ some (ok message)
      ]
      else none

  -- A message that was wrapped is unwrapped to itself, whatever the instance, if the JSON form of
  -- the message is UTF-8 and reads back.
  pub unwrap_json-wrap_json :
      (message : Message) (instance_id : String)
      → json.is_utf8 (json.print message) ≡ true
      → json.parse (json.print message) ≡ some message
      → unwrap_json (wrap_json message instance_id) ≡ some (ok message)
  unfolding unwrap_json wrap_json
  unwrap_json-wrap_json message instance_id u p = rw (u, p)
