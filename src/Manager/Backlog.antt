-- ===== src/Manager/Backlog.antt =====
-- The backlog of messages for instances that have not started
-- (src/core/orchestration/src/instance_manager/instance_manager.rs).
use mathlib.Core.List.{append_assoc, append-nil}
use quorumcrypt.Base.{
  String, ◌≡◌, refl, true, false, not, none, some, List, [], ◌∷◌, ◌++◌, arith, String_discrete,
  if◌then◌else◌,
}
use quorumcrypt.Base.Dict.{
  Dict, Distinct, lookup, retain, map_values, lookup-insert, lookup-map_values, lookup-retain,
}
use quorumcrypt.Manager.Defs.{BacklogData, InstanceManager}
use quorumcrypt.Manager.Run.{handle_incoming, handle_tick, backlog_message}
use quorumcrypt.Message.{NetMessage}

all_checked :
    (b : Dict String BacklogData)
    → retain
        (λ (x : BacklogData). not x.checked)
        (map_values (λ (x : BacklogData). record x { checked = true }) b)
      ≡ []
all_checked [] = refl
all_checked ((k, x) ∷ b) = all_checked b

-- Two ticks with no message between them leave nothing in the backlog.
pub handle_tick_twice : (m : InstanceManager) → (handle_tick (handle_tick m)).backlog ≡ []
unfolding handle_tick
handle_tick_twice m = rw (all_checked (retain (λ (x : BacklogData). not x.checked) m.backlog))

-- One tick drops exactly the entries that an earlier tick has marked, and marks the rest.
pub handle_tick-lookup :
    (m : InstanceManager) (id : String)
    → Distinct String_discrete m.backlog
    → lookup String_discrete id (handle_tick m).backlog
      ≡ elim (lookup String_discrete id m.backlog) [
        | none ↦ none
        | some b ↦ if b.checked then none else some (record b { checked = true })
      ]
unfolding handle_tick
handle_tick-lookup m id h = ground (
  arith,
  lookup-map_values String_discrete (λ (b : BacklogData). record b { checked = true }) id
      (retain (λ (b : BacklogData). not b.checked) m.backlog),
  lookup-retain String_discrete (λ (b : BacklogData). not b.checked) id m.backlog h,
)

-- The messages arrive one after another.
unfoldable pub incoming_all : InstanceManager → List NetMessage → InstanceManager
incoming_all m [] = m
incoming_all m (x ∷ xs) = incoming_all (handle_incoming m x).0 xs

abbrev pub AllFor : String → List NetMessage → Type 0
AllFor id [] = Unit {0}
AllFor id (x ∷ xs) = (x.instance_id ≡ id) × AllFor id xs

incoming_absent :
    (m : InstanceManager) (x : NetMessage) (id : String)
    → x.instance_id ≡ id
    → lookup String_discrete id m.instances.instance_data ≡ none
    → (handle_incoming m x).0 ≡ record m { backlog = backlog_message m.backlog x }
unfolding handle_incoming
incoming_absent m x id e h = ground arith

backlog_more :
    (b : Dict String BacklogData) (x : NetMessage) (id : String) (old : BacklogData)
    → x.instance_id ≡ id
    → lookup String_discrete id b ≡ some old
    → lookup String_discrete id (backlog_message b x)
      ≡ some (record old { messages = old.messages ++ (x ∷ []) })
unfolding backlog_message
backlog_more b x id old e h = ground (
  arith,
  lookup-insert String_discrete x.instance_id id
      (record old { messages = old.messages ++ (x ∷ []) }) b,
)

backlog_first :
    (b : Dict String BacklogData) (x : NetMessage) (id : String)
    → x.instance_id ≡ id
    → lookup String_discrete id b ≡ none
    → lookup String_discrete id (backlog_message b x)
      ≡ some (record { messages = x ∷ []; checked = false })
unfolding backlog_message
backlog_first b x id e h = ground (
  arith,
  lookup-insert String_discrete x.instance_id id (record { messages = x ∷ []; checked = false }) b,
)

incoming_all-more :
    (m : InstanceManager) (xs : List NetMessage) (id : String) (old : BacklogData)
    → AllFor id xs
    → lookup String_discrete id m.instances.instance_data ≡ none
    → lookup String_discrete id m.backlog ≡ some old
    → ((incoming_all m xs).instances ≡ m.instances)
      × (lookup String_discrete id (incoming_all m xs).backlog
          ≡ some (record old { messages = old.messages ++ xs }))
unfolding incoming_all
incoming_all-more m [] id old a h e = (refl, rw append-nil e)
incoming_all-more m (x ∷ xs) id old a h e =
    let (same, found) =
      incoming_all-more (record m { backlog = backlog_message m.backlog x }) xs id
        (record old { messages = old.messages ++ (x ∷ []) }) a.1 h
        (backlog_more m.backlog x id old a.0 e) in
    rw (incoming_absent m x id a.0 h, incoming_all) (same, rw append_assoc at found)

-- Messages for an instance that is not there wait in the order in which they came, unmarked, and
-- change nothing else about the instances.
pub incoming_all-backlog :
    (m : InstanceManager) (x : NetMessage) (xs : List NetMessage) (id : String)
    → AllFor id (x ∷ xs)
    → lookup String_discrete id m.instances.instance_data ≡ none
    → lookup String_discrete id m.backlog ≡ none
    → ((incoming_all m (x ∷ xs)).instances ≡ m.instances)
      × (lookup String_discrete id (incoming_all m (x ∷ xs)).backlog
          ≡ some (record { messages = x ∷ xs; checked = false }))
unfolding incoming_all
incoming_all-backlog m x xs id a h e =
    rw (incoming_absent m x id a.0 h, incoming_all)
      (incoming_all-more (record m { backlog = backlog_message m.backlog x }) xs id
        (record { messages = x ∷ []; checked = false }) a.1 h (backlog_first m.backlog x id a.0 e))
