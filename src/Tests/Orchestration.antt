-- ===== src/Tests/Orchestration.antt =====
-- The instance manager at concrete inputs.
use quorumcrypt.Base.{
  ℕ, ◌≡◌, ◌≢◌, refl, inl, false, some, none, List, [], ◌∷◌, map, arith, String_discrete,
}
use quorumcrypt.Base.Dict.{insert, lookup}
use quorumcrypt.Cache.{InstanceCache, attempt_eject, max_iterations, insert_instance, put}
use quorumcrypt.Cache
use quorumcrypt.Cache.{replies}
use quorumcrypt.Manager.Finish.{IsDone}
use quorumcrypt.Cache.Valid.{IsConsistent}
use quorumcrypt.Errors.{ok}
use quorumcrypt.Instance
use quorumcrypt.Keys.{private_scheme}
use quorumcrypt.KeyStore.{get_key_by_id}
use quorumcrypt.Manager.Defs.{
  InstanceManager, Protocol, StartInstanceRequest, Effect, send, connected, closed, spawn, new,
  assign_instance_id,
}
use quorumcrypt.Manager.Reach.{
  System, initial, Reach, here, next, external, Reach-IsConsistent, Reach-report,
}
use quorumcrypt.Manager.Launch.{forwarded}
use quorumcrypt.Manager.Requests.{start_fresh, start_frost_panic, start_same_label}
use quorumcrypt.Manager.Run.{create_instance, handle, created, report}
use quorumcrypt.Manager.Start.{
  start, start_with, setup_instance, launch, new_protocol, private_key_of, ask_key, ask_by_id,
  forward_backlogged_messages,
}
use quorumcrypt.Message.{NetMessage, gossip}
use quorumcrypt.Schemes.{frost, sg02, bls12381, ed25519}
use quorumcrypt.Tests.Data.{digest, request, ciphertext, store, entry, share}

program : Unit {0}
unfolding handle created start start_with setup_instance launch new_protocol private_key_of ask_key
    ask_by_id get_key_by_id assign_instance_id insert_instance put lookup insert String_discrete
    forward_backlogged_messages Instance.new new Cache.new
program = tt

abbrev stored : Instance.Instance
stored = record {
  id = "i";
  scheme = sg02;
  group = bls12381;
  message_channel_sender = some 0;
  status = "created";
  finished = false;
  result = none;
  result_sender = none;
}

abbrev one_running : System
one_running = record {
  manager = record {
    instances = record {
      instance_data = ("i", stored) ∷ [];
      capacity = 10000;
      terminated_instances = [];
    };
    backlog = [];
    next_channel = 1;
  };
  running = "i" ∷ [];
}

one_running-reached : Reach digest initial one_running
unfolding program
one_running-reached = next here (external (connected store) (create_instance request 9) tt refl)

Reach-IsConsistent_example : IsConsistent one_running.manager.instances one_running.running
Reach-IsConsistent_example = Reach-IsConsistent digest one_running-reached

Reach-report_example :
    (i : Instance.Instance) × (n : InstanceManager) × (effects : List Effect) × (lookup
        String_discrete "i" one_running.manager.instances.instance_data
      ≡ some i)
    × (i.finished ≡ false)
    × (handle digest one_running.manager closed (report "i" (ok (3 ∷ []))) ≡ some (n, effects))
    × IsDone (lookup String_discrete "i" n.instances.instance_data) (ok (3 ∷ []))
    × (effects ≡ map send (replies i.result_sender (ok (3 ∷ []))))
    × Reach digest initial (record { manager = n; running = [] })
unfolding program
Reach-report_example =
    Reach-report digest closed "i" (ok (3 ∷ [])) one_running-reached (omega arith)

abbrev message : ℕ → NetMessage
message n = record {
  instance_id = "i";
  metadata = record { sender_id = 2; channel = gossip };
  message_data = n ∷ [];
}

abbrev empty : InstanceManager
empty = record {
  instances = record { instance_data = []; capacity = 10000; terminated_instances = [] };
  backlog = [];
  next_channel = 0;
}

abbrev waiting : InstanceManager
waiting = record empty {
  backlog = ("i", record { messages = message 1 ∷ message 2 ∷ []; checked = false }) ∷ [];
}

start_fresh_example :
    (n : InstanceManager) × (start digest waiting (connected store) request (some 5)
      ≡ some (
        n,
        ok "i",
        spawn "i" 0 (Protocol.cipher (share "key") ciphertext "i")
            ∷ forwarded 0 (lookup String_discrete "i" waiting.backlog),
      ))
    × (lookup String_discrete "i" n.instances.instance_data
        ≡ some (Instance.new "i" sg02 bls12381 (some 0) (some 5)))
    × (lookup String_discrete "i" n.backlog ≡ none)
unfolding program
start_fresh_example =
    start_fresh digest waiting (connected store) request (some 5) (share "key")
      (Protocol.cipher (share "key") ciphertext "i") refl refl

sg02_ne_frost : private_scheme (share "key") ≢ frost
unfolding private_scheme
sg02_ne_frost = λ e. cc

start_frost_panic_example :
    start digest empty
      (connected store)
      (StartInstanceRequest.signature (1 ∷ []) (2 ∷ []) frost ed25519 (some "key"))
      none
    ≡ none
unfolding program
start_frost_panic_example =
    start_frost_panic digest empty store (1 ∷ []) (2 ∷ []) ed25519 "key" none entry (share "key")
      refl refl refl sg02_ne_frost

start_same_label_example :
    start digest one_running.manager closed
      (StartInstanceRequest.signature (4 ∷ []) (2 ∷ []) sg02 bls12381 (some "key"))
      none
    ≡ some (one_running.manager, ok "i", [])
unfolding program
start_same_label_example =
    start_same_label digest empty one_running.manager one_running.manager (connected store) closed
      (3 ∷ []) (4 ∷ []) (2 ∷ []) sg02 bls12381 (some "key") none none "i" _ refl (inl refl)
