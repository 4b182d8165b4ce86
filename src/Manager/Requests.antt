-- ===== src/Manager/Requests.antt =====
-- What `start` of src/core/orchestration/src/instance_manager/instance_manager.rs does with a request,
-- on each of its paths.
use quorumcrypt.Base.{
  ℕ, String, ◌≡◌, ◌⊎◌, inl, inr, sym, ap, ◌∙◌, refl, subst, ◌≢◌, true, false, Option, none, some,
  List, [], ◌∷◌, String_discrete,
}
use quorumcrypt.Base.Dict.{lookup, contains_key}
use quorumcrypt.Errors.{ok, err, scheme_error, aborted}
use quorumcrypt.Instance
use quorumcrypt.Keys.{Bytes, PrivateKeyShare, private_scheme}
use quorumcrypt.KeyStore.{KeyStore, KeyEntry, get_key_by_id}
use quorumcrypt.Manager.Defs.{
  StartInstanceRequest, Protocol, KeyLink, connected, KeyError, invalid_argument, already_exists,
  InstanceManager, Effect, spawn, Digest, assign_instance_id,
}
use quorumcrypt.Manager.Start.{
  start, start_with, setup_instance, new_protocol, request_scheme, request_group, request_key_id,
}
use quorumcrypt.Schemes.{ThresholdScheme, Group, frost}
use quorumcrypt.Manager.Launch.{
  forwarded, launch_lem, not_frost, StartedHas, start_with-StartedHas, setup_exists, setup_by_id,
}

module _ (d : Digest) where
  start-StartedHas :
      (m : InstanceManager) (link : KeyLink) (request : StartInstanceRequest) (sync : Option ℕ)
      → StartedHas (assign_instance_id d request) (start d m link request sync)
  unfolding start
  start-StartedHas m link request sync =
      start_with-StartedHas m request _ sync _ (setup_exists m link _ _ _ _)

  setup_present :
      (m : InstanceManager) (link : KeyLink) (scheme : ThresholdScheme) (group : Group)
      (id : String) (key_id : Option String)
      → contains_key String_discrete id m.instances.instance_data ≡ true
      → setup_instance m link scheme group id key_id ≡ err already_exists
  unfolding setup_instance
  setup_present m link scheme group id key_id h = rw h refl

  -- A request whose identifier is in use starts nothing and is answered with that identifier; the
  -- channel of a synchronous caller is not kept.
  pub start_present :
      (m : InstanceManager) (link : KeyLink) (request : StartInstanceRequest) (sync : Option ℕ)
      → contains_key String_discrete (assign_instance_id d request) m.instances.instance_data ≡ true
      → start d m link request sync ≡ some (m, ok (assign_instance_id d request), [])
  unfolding start start_with
  start_present m link request sync h =
      rw
        (setup_present m link (request_scheme request) (request_group request)
          (assign_instance_id d request) (request_key_id request) h)
        refl

  -- A request with a new identifier and a usable key: the instance is stored as created, with the
  -- synchronous caller's channel; its executor is started on a fresh channel; and the messages that
  -- waited for it are forwarded there in their order and leave the backlog.
  pub start_fresh :
      (m : InstanceManager) (link : KeyLink) (request : StartInstanceRequest) (sync : Option ℕ)
      (key : PrivateKeyShare) (protocol : Protocol)
      → let id = assign_instance_id d request in
        setup_instance m link
            (request_scheme request)
            (request_group request)
            id
            (request_key_id request)
          ≡ ok key
        → new_protocol request key id ≡ some protocol
        → (n : InstanceManager) × (start d m link request sync
            ≡ some (
              n,
              ok id,
              spawn id m.next_channel protocol
                  ∷ forwarded m.next_channel (lookup String_discrete id m.backlog),
            ))
          × (lookup String_discrete id n.instances.instance_data
              ≡ some (
                  Instance.new id
                    (request_scheme request)
                    (request_group request)
                    (some m.next_channel)
                    sync))
          × (lookup String_discrete id n.backlog ≡ none)
  unfolding start start_with
  start_fresh m link request sync key protocol h p =
      let (n, e, found, gone) = launch_lem m request (assign_instance_id d request) sync protocol in
      (n, rw (h, start_with, p, e) refl, found, gone)

  -- A request for which no private key is found changes nothing and is refused as aborted.
  pub start_no_key :
      (m : InstanceManager) (link : KeyLink) (request : StartInstanceRequest) (sync : Option ℕ)
      (e : KeyError)
      → setup_instance m link
          (request_scheme request)
          (request_group request)
          (assign_instance_id d request)
          (request_key_id request)
        ≡ err (invalid_argument e)
      → start d m link request sync ≡ some (m, err (scheme_error (aborted "key not found")), [])
  unfolding start start_with
  start_no_key m link request sync e h = rw h refl

  -- A Frost signature request that names the stored private key of another scheme panics.
  pub start_frost_panic :
      (m : InstanceManager) (s : KeyStore) (message label : Bytes) (group : Group) (key_id : String)
      (sync : Option ℕ) (entry : KeyEntry) (key : PrivateKeyShare)
      → let request = StartInstanceRequest.signature message label frost group (some key_id) in
        contains_key String_discrete (assign_instance_id d request) m.instances.instance_data
          ≡ false
        → get_key_by_id s key_id ≡ ok entry
        → entry.sk ≡ some key
        → private_scheme key ≢ frost
        → start d m (connected s) request sync ≡ none
  unfolding start start_with new_protocol
  start_frost_panic m s message label group key_id sync entry key absent found private other =
      rw
        (
          setup_by_id m s frost group _ key_id entry key absent found private,
          start_with,
          not_frost key message other,
        )
        refl

  -- Once a signature was requested under a label and answered with an identifier, a request under the
  -- same label, scheme, group and key for any other message starts nothing and is answered with that
  -- identifier: right after the first request, and in every later state in which the first instance
  -- is still stored.
  pub start_same_label :
      (m n later : InstanceManager) (link link' : KeyLink) (message message' label : Bytes)
      (scheme : ThresholdScheme) (group : Group) (key_id : Option String) (sync sync' : Option ℕ)
      (id : String) (effects : List Effect)
      → start d m link (StartInstanceRequest.signature message label scheme group key_id) sync
        ≡ some (n, ok id, effects)
      → (later ≡ n) ⊎ (contains_key String_discrete id later.instances.instance_data ≡ true)
      → start d later link'
          (StartInstanceRequest.signature message' label scheme group key_id)
          sync'
        ≡ some (later, ok id, [])
  unfolding assign_instance_id
  start_same_label m n later link link' message message' label scheme group key_id sync sync' id
        effects h stored =
      let request' = StartInstanceRequest.signature message' label scheme group key_id in
      let (same, there) = subst (StartedHas (assign_instance_id d request')) h (
        start-StartedHas m link (StartInstanceRequest.signature message label scheme group key_id)
          sync) in
      let found : contains_key String_discrete (assign_instance_id d request')
            later.instances.instance_data
          ≡ true =
        elim stored [
          | inl e ↦
              ap
                (λ k.
                  contains_key String_discrete (assign_instance_id d request')
                    k.instances.instance_data)
                e
              ∙ there
          | inr c ↦
              ap (λ i. contains_key String_discrete i later.instances.instance_data) (sym same) ∙ c
        ] in
      rw (start_present later link' request' sync' found, same) refl
