-- ===== src/Manager/Launch.antt =====
-- What the parts of `start` do (src/core/orchestration/src/instance_manager/instance_manager.rs): the insertion
-- of an instance, its launch, and the key of a request.
use quorumcrypt.Base.{
  ℕ, ◌+◌, String, ◌≡◌, refl, ◌≢◌, true, false, Option, none, some, List, [], ◌∷◌, arith,
  String_discrete, Option-cases, Bool-cases, inl, inr, leb, length,
}
use quorumcrypt.Base.Dict.{lookup, contains_key, lookup-insert, lookup-remove}
use quorumcrypt.Cache.{InstanceCache, insert_instance, put, max_iterations}
use quorumcrypt.Cache.Eject.{eject, attempt_eject-eject}
use quorumcrypt.Errors.{Result, ok, err}
use quorumcrypt.Instance
use quorumcrypt.Keys.{Bytes, PrivateKeyShare, private_scheme}
use quorumcrypt.KeyStore.{KeyStore, KeyEntry, get_key_by_id}
use quorumcrypt.Manager.Defs.{
  StartInstanceRequest, BacklogData, Protocol, KeyLink, connected, Status, invalid_argument,
  already_exists, InstanceManager, Effect, spawn, forward,
}
use quorumcrypt.Manager.Start.{
  Started, private_key_of, ask_key, ask_by_id, frost_protocol, start_with, launch, setup_instance,
  new_protocol, forward_backlogged_messages, request_scheme, request_group,
}
use quorumcrypt.Schemes.{ThresholdScheme, Group, frost}

-- An instance that is inserted is found, whether or not finished ones had to make room.
insert_instance-some :
    (c : InstanceCache) (id : String) (i : Instance.Instance)
    → (d : InstanceCache) × (insert_instance c id i ≡ some d)
      × (lookup String_discrete id d.instance_data ≡ some i)
unfolding insert_instance put
insert_instance-some c id i = elim (Bool-cases (leb c.capacity (length c.instance_data))) [
  | inl full ↦
      let room = eject (max_iterations c) c in
      (
        put room id i,
        rw (full, attempt_eject-eject c) refl,
        ground (arith, lookup-insert String_discrete id id i room.instance_data),
      )
  | inr room ↦ (
    put c id i,
    rw room refl,
    ground (arith, lookup-insert String_discrete id id i c.instance_data),
  )
]

-- The effects of forwarding the backlog of an instance on its channel.
abbrev pub forwarded : ℕ → Option BacklogData → List Effect
forwarded channel none = []
forwarded channel (some b) = forward channel b.messages ∷ []

forward_lem :
    (m : InstanceManager) (id : String) (i : Instance.Instance) (channel : ℕ)
    → lookup String_discrete id m.instances.instance_data ≡ some i
    → i.message_channel_sender ≡ some channel
    → ((forward_backlogged_messages m id).1
        ≡ forwarded channel (lookup String_discrete id m.backlog))
      × (lookup String_discrete id (forward_backlogged_messages m id).0.backlog ≡ none)
      × ((forward_backlogged_messages m id).0.instances ≡ m.instances)
unfolding forward_backlogged_messages
forward_lem m id i channel h e =
    (ground arith, ground (arith, lookup-remove String_discrete id id m.backlog), ground arith)

pub launch_lem :
    (m : InstanceManager) (request : StartInstanceRequest) (id : String) (sync : Option ℕ)
    (protocol : Protocol)
    → (n : InstanceManager) × (launch m request id sync protocol
        ≡ some (
          n,
          spawn id m.next_channel protocol
              ∷ forwarded m.next_channel (lookup String_discrete id m.backlog),
        ))
      × (lookup String_discrete id n.instances.instance_data
          ≡ some (
              Instance.new id
                (request_scheme request)
                (request_group request)
                (some m.next_channel)
                sync))
      × (lookup String_discrete id n.backlog ≡ none)
unfolding launch Instance.new
launch_lem m request id sync protocol =
    let (cache, e, found) = insert_instance-some m.instances id (
      Instance.new id (request_scheme request) (request_group request) (some m.next_channel)
        sync) in
    let next : InstanceManager = record m {
      instances = cache;
      next_channel = m.next_channel + 1;
    } in
    let (sent, gone, same) = forward_lem next id _ m.next_channel found refl in
    ((forward_backlogged_messages next id).0, rw (e, launch, sent) refl, rw same found, gone)

pub not_frost :
    (key : PrivateKeyShare) (message : Bytes)
    → private_scheme key ≢ frost
    → frost_protocol key message ≡ none
unfolding frost_protocol private_scheme
not_frost (PrivateKeyShare.frost key) message h = absurd (h refl)
not_frost _ message h = refl

-- A start that is answered with an identifier leaves that instance in the cache.
abbrev pub StartedHas : String → Option Started → Type 0
StartedHas id none = Unit {0}
StartedHas id (some (n, err e, effects)) = Unit {0}
StartedHas id (some (n, ok id', effects)) =
    (id' ≡ id) × (contains_key String_discrete id n.instances.instance_data ≡ true)

pub start_with-StartedHas :
    (m : InstanceManager) (request : StartInstanceRequest) (id : String) (sync : Option ℕ)
    (setup : Result Status PrivateKeyShare)
    → (setup ≡ err already_exists
        → contains_key String_discrete id m.instances.instance_data ≡ true)
    → StartedHas id (start_with m request id sync setup)
unfolding start_with
start_with-StartedHas m request id sync (err already_exists) h = (refl, h refl)
start_with-StartedHas m request id sync (err (invalid_argument e)) h = tt
start_with-StartedHas m request id sync (ok key) h =
    elim (Option-cases (new_protocol request key id)) [
      | inl p ↦ rw (p, start_with) tt
      | inr (protocol, p) ↦
          let (n, e, found, _) = launch_lem m request id sync protocol in
          rw (p, start_with, e) (refl, rw found refl)
    ]

pub setup_exists :
    (m : InstanceManager) (link : KeyLink) (scheme : ThresholdScheme) (group : Group) (id : String)
    (key_id : Option String)
    → setup_instance m link scheme group id key_id ≡ err already_exists
    → contains_key String_discrete id m.instances.instance_data ≡ true
unfolding setup_instance private_key_of
setup_exists m link scheme group id key_id h = ground arith

pub setup_by_id :
    (m : InstanceManager) (s : KeyStore) (scheme : ThresholdScheme) (group : Group)
    (id key_id : String) (entry : KeyEntry) (key : PrivateKeyShare)
    → contains_key String_discrete id m.instances.instance_data ≡ false
    → get_key_by_id s key_id ≡ ok entry
    → entry.sk ≡ some key
    → setup_instance m (connected s) scheme group id (some key_id) ≡ ok key
unfolding setup_instance private_key_of ask_key ask_by_id
setup_by_id m s scheme group id key_id entry key absent found private = ground arith
