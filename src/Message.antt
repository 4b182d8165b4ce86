-- ===== src/Message.antt =====
-- src/network/src/types/message.rs: the messages that servers exchange. The JSON form is serde's and
-- is not modelled.
use quorumcrypt.Base.{ℕ, String, List}
use quorumcrypt.Keys.{Bytes}

pub data Channel : Type 0 where
  gossip tob : Channel
  point_to_point : List ℕ → Channel

pub record NetMessageMetadata : Type 0 where
  pub sender_id : ℕ
  pub channel : Channel

unfoldable pub new_metadata : Channel → NetMessageMetadata
new_metadata channel = record { sender_id = 0; channel = channel }

unfoldable pub set_sender : NetMessageMetadata → ℕ → NetMessageMetadata
set_sender m sender_id = record m { sender_id = sender_id }

pub record NetMessage : Type 0 where
  pub instance_id : String
  pub metadata : NetMessageMetadata
  pub message_data : Bytes
