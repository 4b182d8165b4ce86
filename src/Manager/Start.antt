-- ===== src/Manager/Start.antt =====
-- `start`, `setup_instance` and `forward_backlogged_messages` of
-- src/core/orchestration/src/instance_manager/instance_manager.rs.
use quorumcrypt.Base.{
  ℕ, ◌+◌, String, Option, none, some, List, [], ◌∷◌, if◌then◌else◌, String_discrete,
}
use quorumcrypt.Base.Dict.{lookup, remove, contains_key}
use quorumcrypt.Cache.{insert_instance}
use quorumcrypt.Errors.{Result, ok, err, ProtocolError, scheme_error, aborted}
use quorumcrypt.Instance.{Instance}
use quorumcrypt.Instance
use quorumcrypt.Keys.{Bytes, PrivateKeyShare}
use quorumcrypt.KeyStore.{KeyEntry, get_key_by_id, get_key_by_scheme_and_group}
use quorumcrypt.Manager.Defs.{
  StartInstanceRequest, Protocol, KeyLink, connected, closed, silent, KeyError, not_contacted,
  no_response, refused_by_id, refused_by_scheme, no_private_key, Status, already_exists,
  invalid_argument, InstanceManager, Effect, spawn, forward, Digest, assign_instance_id,
}
use quorumcrypt.Schemes.{ThresholdScheme, Group, frost}

unfoldable pub ask_by_id : KeyLink → String → Result KeyError KeyEntry
ask_by_id closed id = err not_contacted
ask_by_id silent id = err no_response
ask_by_id (connected s) id = elim (get_key_by_id s id) [
  | ok e ↦ ok e
  | err e ↦ err (refused_by_id e)
]

unfoldable pub ask_by_scheme_and_group :
    KeyLink → ThresholdScheme → Group → Result KeyError KeyEntry
ask_by_scheme_and_group closed scheme group = err not_contacted
ask_by_scheme_and_group silent scheme group = err no_response
ask_by_scheme_and_group (connected s) scheme group =
    elim (get_key_by_scheme_and_group s scheme group) [
      | ok e ↦ ok e
      | err e ↦ err (refused_by_scheme e)
    ]

unfoldable pub ask_key :
    KeyLink → ThresholdScheme → Group → Option String → Result KeyError KeyEntry
unfolding ask_by_id ask_by_scheme_and_group
ask_key link scheme group (some id) = ask_by_id link id
ask_key link scheme group none = ask_by_scheme_and_group link scheme group

unfoldable pub private_key_of : Result KeyError KeyEntry → Result Status PrivateKeyShare
private_key_of (err e) = err (invalid_argument e)
private_key_of (ok entry) = elim entry.sk [
  | none ↦ err (invalid_argument no_private_key)
  | some key ↦ ok key
]

unfoldable pub setup_instance :
    InstanceManager
    → KeyLink
    → ThresholdScheme
    → Group
    → String
    → Option String
    → Result Status PrivateKeyShare
unfolding ask_key private_key_of
setup_instance m link scheme group instance_id key_id =
    if contains_key String_discrete instance_id m.instances.instance_data
    then err already_exists
    else private_key_of (ask_key link scheme group key_id)

-- `messages` are sent on the instance's channel by a task of their own; without a sender they are
-- dropped. Either way the backlog of the instance is removed.
unfoldable pub forward_backlogged_messages :
    InstanceManager → String → InstanceManager × List Effect
forward_backlogged_messages m instance_id =
    elim (lookup String_discrete instance_id m.instances.instance_data) [
      | none ↦ (m, [])
      | some i ↦ elim (lookup String_discrete instance_id m.backlog) [
        | none ↦ (m, [])
        | some b ↦ (
          record m { backlog = remove String_discrete instance_id m.backlog },
          elim i.message_channel_sender [
            | none ↦ []
            | some channel ↦ forward channel b.messages ∷ []
          ],
        )
      ]
    ]

abbrev pub request_scheme : StartInstanceRequest → ThresholdScheme
request_scheme (StartInstanceRequest.decryption ciphertext) = ciphertext.scheme
request_scheme (StartInstanceRequest.signature message label scheme group key_id) = scheme
request_scheme (StartInstanceRequest.coin name scheme group key_id) = scheme

abbrev pub request_group : StartInstanceRequest → Group
request_group (StartInstanceRequest.decryption ciphertext) = ciphertext.group
request_group (StartInstanceRequest.signature message label scheme group key_id) = group
request_group (StartInstanceRequest.coin name scheme group key_id) = group

abbrev pub request_key_id : StartInstanceRequest → Option String
request_key_id (StartInstanceRequest.decryption ciphertext) = some ciphertext.key_id
request_key_id (StartInstanceRequest.signature message label scheme group key_id) = key_id
request_key_id (StartInstanceRequest.coin name scheme group key_id) = key_id

-- The bytes of the literal `b"label"` that `start` passes to `FrostProtocol::new`.
abbrev pub label_literal : Bytes
label_literal = b'l' ∷ b'a' ∷ b'b' ∷ b'e' ∷ b'l' ∷ []

-- `FrostProtocol::new` panics on a key of another scheme.
unfoldable pub frost_protocol : PrivateKeyShare → Bytes → Option Protocol
frost_protocol (PrivateKeyShare.frost key) message = some (Protocol.frost key message label_literal)
frost_protocol _ message = none

signature_protocol : ThresholdScheme → PrivateKeyShare → Bytes → Bytes → Option Protocol
signature_protocol frost key message label = frost_protocol key message
signature_protocol _ key message label = some (Protocol.signature key message label)

unfoldable pub new_protocol : StartInstanceRequest → PrivateKeyShare → String → Option Protocol
unfolding signature_protocol
new_protocol (StartInstanceRequest.decryption ciphertext) key id =
    some (Protocol.cipher key ciphertext id)
new_protocol (StartInstanceRequest.signature message label scheme group key_id) key id =
    signature_protocol scheme key message label
new_protocol (StartInstanceRequest.coin name scheme group key_id) key id =
    some (Protocol.coin key name)

-- The end of each branch of `start`: the new instance is stored with the sender of a fresh
-- channel, its executor is started on the receiver, and the backlog is forwarded.
unfoldable pub launch :
    InstanceManager
    → StartInstanceRequest
    → String
    → Option ℕ
    → Protocol
    → Option (InstanceManager × List Effect)
launch m request instance_id sync_responder protocol =
    let channel = m.next_channel in
    let instance_of : Instance =
      Instance.new instance_id (request_scheme request) (request_group request) (some channel)
        sync_responder in
    elim (insert_instance m.instances instance_id instance_of) [
      | none ↦ none
      | some cache ↦
          let next = record m { instances = cache; next_channel = channel + 1 } in
          let (done, forwarded) = forward_backlogged_messages next instance_id in
          some (done, spawn instance_id channel protocol ∷ forwarded)
    ]

abbrev pub Started : Type 0
Started = InstanceManager × Result ProtocolError String × List Effect

unfoldable pub start_with :
    InstanceManager
    → StartInstanceRequest
    → String
    → Option ℕ
    → Result Status PrivateKeyShare
    → Option Started
start_with m request instance_id sync_responder (err already_exists) = some (m, ok instance_id, [])
start_with m request instance_id sync_responder (err (invalid_argument e)) =
    some (m, err (scheme_error (aborted "key not found")), [])
start_with m request instance_id sync_responder (ok key) =
    elim (new_protocol request key instance_id) [
      | none ↦ none
      | some protocol ↦ elim (launch m request instance_id sync_responder protocol) [
        | none ↦ none
        | some (next, effects) ↦ some (next, ok instance_id, effects)
      ]
    ]

module _ (d : Digest) where
  unfoldable pub start :
      InstanceManager → KeyLink → StartInstanceRequest → Option ℕ → Option Started
  start m link request sync_responder =
      let instance_id = assign_instance_id d request in
      start_with m request instance_id sync_responder (
        setup_instance m link (request_scheme request) (request_group request) instance_id
          (request_key_id request))
