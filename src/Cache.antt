-- ===== src/Cache.antt =====
-- `InstanceCache` of src/core/orchestration/src/instance_manager/instance_manager.rs: the instances,
-- and the queue of those that have finished, oldest first. A result of `none` is a panic.
pub mod Eject
pub mod Valid
use mathlib.Core.Option
use quorumcrypt.Base.{
  ℕ, zero, suc, String, Bool, Option, none, some, List, [], ◌∷◌, ◌++◌, if◌then◌else◌, ltb, leb,
  length, String_discrete,
}
use quorumcrypt.Base.Dict.{Dict, lookup, insert, remove, contains_key}
use quorumcrypt.Instance.{Instance, Outcome, Send, reply, get_result_sender}

pub record InstanceCache : Type 0 where
  pub instance_data : Dict String Instance
  pub capacity : ℕ
  pub terminated_instances : List String

abbrev pub default_instance_cache_size : ℕ
default_instance_cache_size = 10000

abbrev pub instance_cache_cleanup_scan_length : ℕ
instance_cache_cleanup_scan_length = 5000

unfoldable pub new : Option ℕ → InstanceCache
new capacity = record {
  instance_data = [];
  capacity = elim capacity [ none ↦ default_instance_cache_size | some c ↦ c ];
  terminated_instances = [];
}

unfoldable pub get : InstanceCache → String → Option Instance
get c id = lookup String_discrete id c.instance_data

-- The loop of `attempt_eject` with the number of rounds that are left; `pop_front().unwrap()`
-- panics on an empty queue.
unfoldable pub eject_loop : ℕ → InstanceCache → Option InstanceCache
eject_loop zero c = some c
eject_loop (suc n) c = elim c.terminated_instances [
  | [] ↦ none
  | id ∷ rest ↦ eject_loop n (record c {
    terminated_instances = rest;
    instance_data = remove String_discrete id c.instance_data;
  })
]

abbrev pub max_iterations : InstanceCache → ℕ
max_iterations c =
    if ltb (length c.terminated_instances) instance_cache_cleanup_scan_length
    then length c.terminated_instances
    else instance_cache_cleanup_scan_length

-- The cache, and the number of ejected instances.
unfoldable pub attempt_eject : InstanceCache → Option (InstanceCache × ℕ)
attempt_eject c =
    Option.map (λ (d : InstanceCache). (d, max_iterations c)) (eject_loop (max_iterations c) c)

unfoldable pub put : InstanceCache → String → Instance → InstanceCache
put c id i = record c { instance_data = insert String_discrete id i c.instance_data }

unfoldable pub insert_instance : InstanceCache → String → Instance → Option InstanceCache
insert_instance c id i =
    if leb c.capacity (length c.instance_data)
    then elim (attempt_eject c) [ none ↦ none | some (d, ejected) ↦ some (put d id i) ]
    else some (put c id i)

abbrev pub replies : Option ℕ → Outcome → List Send
replies none r = []
replies (some channel) r = reply channel r ∷ []

-- `unwrap` on a result that is not set panics.
unfoldable pub inform_of_termination : InstanceCache → String → Option (InstanceCache × List Send)
inform_of_termination c id = elim (lookup String_discrete id c.instance_data) [
  | none ↦ some (c, [])
  | some i ↦ elim i.result [
    | none ↦ none
    | some r ↦ some (
      record c {
        terminated_instances = c.terminated_instances ++ (id ∷ []);
        instance_data =
            insert String_discrete id (record i { result_sender = none }) c.instance_data;
      },
      replies i.result_sender r,
    )
  ]
]
