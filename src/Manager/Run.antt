-- ===== src/Manager/Run.antt =====
-- One round of `InstanceManager::run`, and what `execute_protocol` reports, of
-- src/core/orchestration/src/instance_manager/instance_manager.rs.
use mathlib.Core.Option
use quorumcrypt.Base.{
  ℕ, String, Bool, true, false, not, Option, none, some, List, [], ◌∷◌, ◌++◌, map, if◌then◌else◌,
  String_discrete,
}
use quorumcrypt.Base.Dict.{Dict, lookup, insert, retain, map_values}
use quorumcrypt.Cache.{inform_of_termination}
use quorumcrypt.Errors.{Result, ok, err, ProtocolError}
use quorumcrypt.Instance.{Instance, Outcome, Send, send_message, set_status, set_result}
use quorumcrypt.Manager.Defs.{
  StartInstanceRequest, BacklogData, InstanceStatus, KeyLink, InstanceManager, Effect, send,
  answer_create, answer_status, Digest,
}
use quorumcrypt.Manager.Start.{Started, start}
use quorumcrypt.Message.{NetMessage}

-- The commands, an incoming message and the tick of the backlog interval. The flag of
-- `get_instance_status` says whether the caller still waits for the answer.
pub data Input : Type 0 where
  create_instance : StartInstanceRequest → ℕ → Input
  create_instance_sync : StartInstanceRequest → ℕ → ℕ → Input
  get_instance_status : String → ℕ → Bool → Input
  store_result : String → Outcome → Input
  update_instance_status : String → String → Option ProtocolError → Input
  incoming : NetMessage → Input
  backlog_tick : Input

abbrev pub Round : Type 0
Round = InstanceManager × List Effect

unfoldable pub put_instance : InstanceManager → String → Instance → InstanceManager
put_instance m id i = record m {
  instances = record m.instances {
    instance_data = insert String_discrete id i m.instances.instance_data;
  };
}

-- `inform_of_termination` on the manager's cache.
unfoldable pub terminate : InstanceManager → String → Option Round
terminate m id = elim (inform_of_termination m.instances id) [
  | none ↦ none
  | some (cache, sends) ↦ some (record m { instances = cache }, map send sends)
]

-- Only the successful start is answered.
unfoldable pub created : Option Started → ℕ → Option Round
created none responder = none
created (some (m, ok id, effects)) responder =
    some (m, effects ++ (answer_create responder (ok id) ∷ []))
created (some (m, err e, effects)) responder = some (m, effects)

unfoldable pub created_sync : Option Started → ℕ → Option Round
created_sync none responder = none
created_sync (some (m, result, effects)) responder =
    some (m, effects ++ (answer_create responder result ∷ []))

unfoldable pub status_of : Instance → InstanceStatus
status_of i = record {
  scheme = i.scheme;
  group = i.group;
  finished = i.finished;
  result = i.result;
}

-- `expect` panics if the caller has gone.
unfoldable pub get_status : InstanceManager → String → ℕ → Bool → Option Round
unfolding status_of
get_status m id responder false = none
get_status m id responder true = some (
  m,
  answer_status responder
        (Option.map status_of (lookup String_discrete id m.instances.instance_data))
      ∷ [],
)

unfoldable pub handle_store_result : InstanceManager → String → Outcome → Option Round
unfolding put_instance
handle_store_result m id result = elim (lookup String_discrete id m.instances.instance_data) [
  | none ↦ some (m, [])
  | some i ↦ terminate (put_instance m id (set_result i result)) id
]

unfoldable pub handle_update_status :
    InstanceManager → String → String → Option ProtocolError → Option Round
unfolding put_instance
handle_update_status m id status (some e) =
    elim (lookup String_discrete id m.instances.instance_data) [
      | none ↦ some (m, [])
      | some i ↦ terminate (put_instance m id (set_result (set_status i status) (err e))) id
    ]
handle_update_status m id status none = elim (lookup String_discrete id m.instances.instance_data) [
  | none ↦ some (m, [])
  | some i ↦ some (put_instance m id (set_status i status), [])
]

abbrev pub delivered : Result NetMessage (List Send) → List Effect
delivered (err message) = []
delivered (ok sends) = map send sends

-- Add a message to the backlog of an instance that is not there.
unfoldable pub backlog_message : Dict String BacklogData → NetMessage → Dict String BacklogData
backlog_message b message = elim (lookup String_discrete message.instance_id b) [
  | none ↦
      insert String_discrete message.instance_id
        (record { messages = message ∷ []; checked = false }) b
  | some old ↦
      insert String_discrete message.instance_id
        (record old { messages = old.messages ++ (message ∷ []) }) b
]

unfoldable pub handle_incoming : InstanceManager → NetMessage → Round
unfolding backlog_message
handle_incoming m message =
    elim (lookup String_discrete message.instance_id m.instances.instance_data) [
      | some i ↦ (m, if i.finished then [] else delivered (send_message i message))
      | none ↦ (record m { backlog = backlog_message m.backlog message }, [])
    ]

unfoldable pub handle_tick : InstanceManager → InstanceManager
handle_tick m = record m {
  backlog =
      map_values (λ (b : BacklogData). record b { checked = true })
        (retain (λ (b : BacklogData). not b.checked) m.backlog);
}

module _ (d : Digest) where
  unfoldable pub handle : InstanceManager → KeyLink → Input → Option Round
  handle m link (create_instance request responder) =
      created (start d m link request none) responder
  handle m link (create_instance_sync request responder sync_responder) =
      created_sync (start d m link request (some sync_responder)) responder
  handle m link (get_instance_status id responder listening) = get_status m id responder listening
  handle m link (store_result id result) = handle_store_result m id result
  handle m link (update_instance_status id status error) = handle_update_status m id status error
  handle m link (incoming message) = some (handle_incoming m message)
  handle m link backlog_tick = some (handle_tick m, [])

-- The one command that `execute_protocol` sends when the executor of an instance returns.
unfoldable pub report : String → Outcome → Input
report id (ok value) = store_result id (ok value)
report id (err e) = update_instance_status id "Failed" (some e)
