-- ===== src/Instance.antt =====
-- src/core/orchestration/src/instance_manager/instance.rs: one protocol instance as the manager sees
-- it. Channels of tokio are named by numbers; what a call puts on one is an `Effect`.
use quorumcrypt.Base.{ℕ, String, Bool, true, false, Option, none, some, List, [], ◌∷◌}
use quorumcrypt.Errors.{Result, ok, err, ProtocolError}
use quorumcrypt.Keys.{Bytes}
use quorumcrypt.Message.{NetMessage}
use quorumcrypt.Schemes.{ThresholdScheme, Group}

-- `Result<Vec<u8>, ProtocolError>`
abbrev pub Outcome : Type 0
Outcome = Result ProtocolError Bytes

pub record Instance : Type 0 where
  pub id : String
  pub scheme : ThresholdScheme
  pub group : Group
  pub message_channel_sender : Option ℕ
  pub status : String
  pub finished : Bool
  pub result : Option Outcome
  pub result_sender : Option ℕ

unfoldable pub new : String → ThresholdScheme → Group → Option ℕ → Option ℕ → Instance
new id scheme group message_channel_sender result_sender = record {
  id = id;
  scheme = scheme;
  group = group;
  message_channel_sender = message_channel_sender;
  status = "created";
  finished = false;
  result = none;
  result_sender = result_sender;
}

unfoldable pub set_status : Instance → String → Instance
set_status i status = record i { status = status }

-- The sender of the message channel is taken and dropped.
unfoldable pub set_result : Instance → Outcome → Instance
set_result i result = record i {
  result = some result;
  finished = true;
  message_channel_sender = none;
}

-- `get_result_sender` takes the sender, so that it is used once.
unfoldable pub get_result_sender : Instance → Instance × Option ℕ
get_result_sender i = (record i { result_sender = none }, i.result_sender)

-- What the manager puts on a channel, or starts.
pub data Send : Type 0 where
  deliver : ℕ → NetMessage → Send
  reply : ℕ → Outcome → Send

-- `send_message`: an error after the instance has finished. The receiver of the channel is
-- the instance's executor, so whether it still listens is not the manager's to see.
unfoldable pub send_message : Instance → NetMessage → Result NetMessage (List Send)
send_message i message = elim i.message_channel_sender [
  | none ↦ err message
  | some channel ↦ ok (deliver channel message ∷ [])
]
