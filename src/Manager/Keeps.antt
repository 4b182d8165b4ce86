-- ===== src/Manager/Keeps.antt =====
-- What each round of `run` does to the agreement between the cache and the executors that still run
-- (src/core/orchestration/src/instance_manager/instance_manager.rs).
use mathlib.Core.List.{append-nil}
use quorumcrypt.Base.{
  map, ℕ, ◌+◌, String, ◌≡◌, refl, ap, true, false, Option, none, some, List, [], ◌∷◌, ◌++◌, arith,
  String_discrete, Bool-cases, Option-cases, inl, inr,
}
use quorumcrypt.Base.Dict.{lookup}
use quorumcrypt.Cache.Valid.{IsConsistent, insert_instance-IsConsistent}
use quorumcrypt.Errors.{Result, ok, err}
use quorumcrypt.Instance
use quorumcrypt.Instance.{Instance, Outcome, Send, set_result, set_status}
use quorumcrypt.Message.{NetMessage}
use quorumcrypt.Keys.{PrivateKeyShare}
use quorumcrypt.Manager.Defs.{
  StartInstanceRequest, Protocol, KeyLink, Status, already_exists, invalid_argument,
  InstanceManager, Effect, send, spawn, Digest, assign_instance_id,
}
use quorumcrypt.Manager.Run.{
  Input, create_instance, create_instance_sync, get_instance_status, store_result,
  update_instance_status, incoming, backlog_tick, handle, Round, created, created_sync,
  handle_incoming, delivered, get_status, handle_tick,
}
use quorumcrypt.Schemes.{ThresholdScheme, Group}
use quorumcrypt.Manager.Start.{
  Started, start, start_with, launch, setup_instance, new_protocol, request_scheme, request_group,
  forward_backlogged_messages,
}

-- The executors that a round starts.
abbrev pub spawned : List Effect → List String
spawned [] = []
spawned (spawn id channel protocol ∷ effects) = id ∷ spawned effects
spawned (_ ∷ effects) = spawned effects

spawned-append : (xs ys : List Effect) → spawned (xs ++ ys) ≡ spawned xs ++ spawned ys
spawned-append [] ys = refl
spawned-append (spawn id channel protocol ∷ xs) ys = ap (◌∷◌ id) (spawned-append xs ys)
spawned-append (_ ∷ xs) ys = spawned-append xs ys

forward-instances :
    (m : InstanceManager) (id : String)
    → ((forward_backlogged_messages m id).0.instances ≡ m.instances)
      × (spawned (forward_backlogged_messages m id).1 ≡ [])
unfolding forward_backlogged_messages
forward-instances m id = (ground arith, ground arith)

launch-IsConsistent :
    (m : InstanceManager) (request : StartInstanceRequest) (id : String) (sync : Option ℕ)
    (protocol : Protocol) (running : List String)
    → IsConsistent m.instances running
    → lookup String_discrete id m.instances.instance_data ≡ none
    → (n : InstanceManager) × (effects : List Effect) × (launch m request id sync protocol
        ≡ some (n, effects))
      × (spawned effects ≡ id ∷ [])
      × IsConsistent n.instances (id ∷ running)
unfolding launch Instance.new
launch-IsConsistent m request id sync protocol running v fresh =
    let (cache, e, w) =
      insert_instance-IsConsistent m.instances running id
        (Instance.new id (request_scheme request) (request_group request) (some m.next_channel)
          sync)
        v fresh (refl, refl, refl, refl) in
    let next : InstanceManager = record m {
      instances = cache;
      next_channel = m.next_channel + 1;
    } in
    let forwarded = forward_backlogged_messages next id in
    let (same, quiet) = forward-instances next id in
    (
      forwarded.0,
      spawn id m.next_channel protocol ∷ forwarded.1,
      rw (e, launch) refl,
      ap (◌∷◌ id) quiet,
      rw same w,
    )

setup_instance-absent :
    (m : InstanceManager) (link : KeyLink) (scheme : ThresholdScheme) (group : Group) (id : String)
    (key_id : Option String) (key : PrivateKeyShare)
    → setup_instance m link scheme group id key_id ≡ ok key
    → lookup String_discrete id m.instances.instance_data ≡ none
unfolding setup_instance
setup_instance-absent m link scheme group id key_id key h = ground arith

-- What a round, and a start, leave behind if they do not panic.
abbrev pub Keeps : List String → Option Round → Type 0
Keeps running none = Unit {0}
Keeps running (some (n, effects)) = IsConsistent n.instances (spawned effects ++ running)

abbrev KeepsStarted : List String → Option Started → Type 0
KeepsStarted running none = Unit {0}
KeepsStarted running (some (n, r, effects)) = IsConsistent n.instances (spawned effects ++ running)

start_with-Keeps :
    (m : InstanceManager) (request : StartInstanceRequest) (id : String) (sync : Option ℕ)
    (setup : Result Status PrivateKeyShare) (running : List String)
    → IsConsistent m.instances running
    → ((key : PrivateKeyShare)
        → setup ≡ ok key
        → lookup String_discrete id m.instances.instance_data ≡ none)
    → KeepsStarted running (start_with m request id sync setup)
unfolding start_with
start_with-Keeps m request id sync (err already_exists) running v a = v
start_with-Keeps m request id sync (err (invalid_argument e)) running v a = v
start_with-Keeps m request id sync (ok key) running v a =
    elim (Option-cases (new_protocol request key id)) [
      | inl p ↦ rw (p, start_with) tt
      | inr (protocol, p) ↦
          let (n, effects, e, started, w) =
            launch-IsConsistent m request id sync protocol running v (a key refl) in
          rw (p, start_with, e, started) w
    ]

created-Keeps :
    (o : Option Started) (responder : ℕ) (running : List String)
    → KeepsStarted running o
    → Keeps running (created o responder) × Keeps running (created_sync o responder)
unfolding created created_sync
created-Keeps none responder running v = (tt, tt)
created-Keeps (some (n, ok id, effects)) responder running v =
    (rw (spawned-append effects, append-nil) v, rw (spawned-append effects, append-nil) v)
created-Keeps (some (n, err e, effects)) responder running v =
    (v, rw (spawned-append effects, append-nil) v)

spawned-send : (sends : List Send) → spawned (map send sends) ≡ []
spawned-send [] = refl
spawned-send (x ∷ sends) = spawned-send sends

spawned-delivered : (r : Result NetMessage (List Send)) → spawned (delivered r) ≡ []
spawned-delivered (ok sends) = spawned-send sends
spawned-delivered (err message) = refl

incoming-Keeps :
    (m : InstanceManager) (message : NetMessage) (running : List String)
    → IsConsistent m.instances running
    → Keeps running (some (handle_incoming m message))
unfolding handle_incoming
incoming-Keeps m message running v =
    elim (Option-cases (lookup String_discrete message.instance_id m.instances.instance_data)) [
      | inl p ↦ rw (p, handle_incoming) v
      | inr (i, p) ↦
          rw (p, handle_incoming)
            (elim (Bool-cases i.finished) [ inl q ↦ rw q v | inr q ↦ rw (q, spawned-delivered) v ])
    ]

-- The inputs that do not come from an executor.
abbrev pub IsExternal : Input → Type 0
IsExternal (store_result id result) = ⊥
IsExternal (update_instance_status id status error) = ⊥
IsExternal _ = Unit {0}

module _ (d : Digest) where
  start-Keeps :
      (m : InstanceManager) (link : KeyLink) (request : StartInstanceRequest) (sync : Option ℕ)
      (running : List String)
      → IsConsistent m.instances running
      → KeepsStarted running (start d m link request sync)
  unfolding start
  start-Keeps m link request sync running v =
      start_with-Keeps m request (assign_instance_id d request) sync _ running v
        λ key h. setup_instance-absent m link _ _ _ _ key h

  -- A round that is not an executor's report.
  pub handle-Keeps :
      (m : InstanceManager) (link : KeyLink) (i : Input) (running : List String)
      → IsExternal i
      → IsConsistent m.instances running
      → Keeps running (handle d m link i)
  unfolding handle get_status handle_tick
  handle-Keeps m link (create_instance request responder) running x v =
      (created-Keeps _ responder running (start-Keeps m link request none running v)).0
  handle-Keeps m link (create_instance_sync request responder sync) running x v =
      (created-Keeps _ responder running (start-Keeps m link request (some sync) running v)).1
  handle-Keeps m link (get_instance_status id responder true) running x v = v
  handle-Keeps m link (get_instance_status id responder false) running x v = tt
  handle-Keeps m link (store_result id result) running x v = absurd x
  handle-Keeps m link (update_instance_status id status error) running x v = absurd x
  handle-Keeps m link (incoming message) running x v = incoming-Keeps m message running v
  handle-Keeps m link backlog_tick running x v = v
