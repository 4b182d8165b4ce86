-- ===== src/Manager/Defs.antt =====
-- The data of src/core/orchestration/src/instance_manager/instance_manager.rs, and the identifier of
-- an instance.
use quorumcrypt.Base.{ℕ, String, Bool, Option, none, some, List, ◌++◌, []}
use quorumcrypt.Base.Dict.{Dict}
use quorumcrypt.Cache.{InstanceCache}
use quorumcrypt.Cache
use quorumcrypt.Errors.{Result, ProtocolError}
use quorumcrypt.Instance.{Outcome, Send}
use quorumcrypt.Keys.{Bytes, PrivateKeyShare, SchemePrivateKey}
use quorumcrypt.KeyStore.{KeyStore, KeyStoreError, SelectError}
use quorumcrypt.Message.{NetMessage}
use quorumcrypt.Schemes.{ThresholdScheme, Group, scheme_name, group_name}

-- What the manager reads of a ciphertext: the encapsulated key, and the key it is under.
pub record Ciphertext : Type 0 where
  pub scheme : ThresholdScheme
  pub group : Group
  pub key_id : String
  pub ck : Bytes
  pub body : Bytes

pub data StartInstanceRequest : Type 0 where
  decryption : Ciphertext → StartInstanceRequest
  signature : Bytes → Bytes → ThresholdScheme → Group → Option String → StartInstanceRequest
  coin : Bytes → ThresholdScheme → Group → Option String → StartInstanceRequest

pub record BacklogData : Type 0 where
  pub messages : List NetMessage
  pub checked : Bool

pub record InstanceStatus : Type 0 where
  pub scheme : ThresholdScheme
  pub group : Group
  pub finished : Bool
  pub result : Option Outcome

-- The protocol object that is handed to a new executor.
pub data Protocol : Type 0 where
  cipher : PrivateKeyShare → Ciphertext → String → Protocol
  frost : SchemePrivateKey → Bytes → Bytes → Protocol
  signature : PrivateKeyShare → Bytes → Bytes → Protocol
  coin : PrivateKeyShare → Bytes → Protocol

-- The key manager's task: it answers from its store, its command channel is closed, or it goes
-- down before it answers.
pub data KeyLink : Type 0 where
  connected : KeyStore → KeyLink
  closed silent : KeyLink

-- Why no key came back, in place of the error texts.
pub data KeyError : Type 0 where
  not_contacted no_response : KeyError
  refused_by_id : KeyStoreError → KeyError
  refused_by_scheme : SelectError → KeyError
  no_private_key : KeyError

-- `tonic::Status` with its code.
pub data Status : Type 0 where
  already_exists : Status
  invalid_argument : KeyError → Status

pub record InstanceManager : Type 0 where
  pub instances : InstanceCache
  pub backlog : Dict String BacklogData
  pub next_channel : ℕ

-- What a round of the loop does besides changing the state. `spawn` starts an executor for an
-- instance on its message channel, `forward` the task that sends it the backlog.
pub data Effect : Type 0 where
  send : Send → Effect
  spawn : String → ℕ → Protocol → Effect
  forward : ℕ → List NetMessage → Effect
  answer_create : ℕ → Result ProtocolError String → Effect
  answer_status : ℕ → Option InstanceStatus → Effect

-- SHA-256 in hexadecimal over the bytes that were processed, and the bytes of a text.
pub record Digest : Type 0 where
  pub hash : Bytes → String
  pub as_bytes : String → Bytes

unfoldable pub new : InstanceManager
unfolding Cache.new
new = record { instances = Cache.new none; backlog = []; next_channel = 0 }

module _ (d : Digest) where
  key_bytes : Option String → Bytes
  key_bytes none = []
  key_bytes (some id) = d.as_bytes id

  unfoldable pub assign_instance_id : StartInstanceRequest → String
  unfolding key_bytes
  assign_instance_id (StartInstanceRequest.decryption ciphertext) = d.hash ciphertext.ck
  assign_instance_id (StartInstanceRequest.signature message label scheme group key_id) = d.hash (
      label
      ++ (d.as_bytes (scheme_name scheme) ++ (d.as_bytes (group_name group) ++ key_bytes key_id)))
  assign_instance_id (StartInstanceRequest.coin name scheme group key_id) =
      d.hash (name ++ key_bytes key_id)
