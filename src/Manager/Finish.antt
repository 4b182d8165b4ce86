-- ===== src/Manager/Finish.antt =====
-- What the report of an executor does to the agreement between the cache and the executors that still run
-- (src/core/orchestration/src/instance_manager/instance_manager.rs).
use quorumcrypt.Base.{
  map, ℕ, ◌<◌, String, ◌≡◌, refl, sym, subst, Bool, true, false, Option, none, some, List, [], ◌∷◌,
  ◌++◌, arith, String_discrete, count, remove_first,
}
use quorumcrypt.Base.Dict.{lookup, insert, lookup-insert}
use quorumcrypt.Cache.{InstanceCache, inform_of_termination, replies}
use quorumcrypt.Cache.Valid.{
  IsConsistent, ConsistentAs, finish-IsConsistent, put-IsConsistent_same, Consistent-running,
}
use quorumcrypt.Errors.{ok, err}
use quorumcrypt.Instance.{Instance, Outcome, set_result, set_status}
use quorumcrypt.Manager.Defs.{KeyLink, InstanceManager, Effect, send, Digest}
use quorumcrypt.Manager.Run.{
  handle, report, terminate, put_instance, handle_store_result, handle_update_status,
}

-- The cache once the instance, with its result set, has been queued.
abbrev with_terminated : InstanceCache → String → Instance → InstanceCache
with_terminated c id i = record c {
  terminated_instances = c.terminated_instances ++ (id ∷ []);
  instance_data =
      insert String_discrete id (record i { result_sender = none })
        (insert String_discrete id i c.instance_data);
}

-- What `inform_of_termination` does once a result is stored.
terminate_lem :
    (m : InstanceManager) (id : String) (i : Instance) (r : Outcome)
    → i.result ≡ some r
    → terminate (put_instance m id i) id
      ≡ some (
        record m { instances = with_terminated m.instances id i },
        map send (replies i.result_sender r),
      )
unfolding terminate put_instance inform_of_termination
terminate_lem m id i r h =
    ground (arith, lookup-insert String_discrete id id i m.instances.instance_data)

ConsistentAs-sender :
    (b : Bool) (i : Instance) (r q : ℕ)
    → ConsistentAs b i r q
    → ConsistentAs b (record i { result_sender = none }) r q
ConsistentAs-sender true i r q h = h
ConsistentAs-sender false i r q h = h

-- The state after the instance `i`, stored under `id`, has been given its result.
finished-IsConsistent :
    (m : InstanceManager) (id : String) (i i' : Instance) (running : List String)
    → IsConsistent m.instances running
    → lookup String_discrete id m.instances.instance_data ≡ some i
    → i.finished ≡ false
    → ConsistentAs i'.finished i' 0 1
    → IsConsistent (with_terminated m.instances id i') (remove_first String_discrete id running)
finished-IsConsistent m id i i' running v found unfinished h =
    put-IsConsistent_same
      (record m.instances {
        terminated_instances = m.instances.terminated_instances ++ (id ∷ []);
        instance_data = insert String_discrete id i' m.instances.instance_data;
      })
      _ id i' (record i' { result_sender = none })
      (finish-IsConsistent m.instances running id i i' v found unfinished h)
      (ground (arith, lookup-insert String_discrete id id i' m.instances.instance_data))
      (λ r q k. ConsistentAs-sender i'.finished i' r q k)

-- The instance has finished with a result.
abbrev pub IsDone : Option Instance → Outcome → Type 0
IsDone none r = ⊥
IsDone (some i) r = (i.finished ≡ true) × (i.result ≡ some r)

with_terminated-IsDone :
    (c : InstanceCache) (id : String) (i : Instance) (r : Outcome)
    → i.finished ≡ true
    → i.result ≡ some r
    → IsDone (lookup String_discrete id (with_terminated c id i).instance_data) r
with_terminated-IsDone c id i r f e =
    let found : lookup String_discrete id (with_terminated c id i).instance_data
        ≡ some (record i { result_sender = none }) =
      ground (
        arith,
        lookup-insert String_discrete id id (record i { result_sender = none })
            (insert String_discrete id i c.instance_data),
      ) in
    subst (λ o. IsDone o r) (sym found) (f, e)

-- An executor that is running can report: the manager finds the instance, does not panic, keeps the
-- result, answers the caller that waits, and afterwards no executor of the instance runs.
pub report-IsConsistent :
    (d : Digest) (m : InstanceManager) (link : KeyLink) (id : String) (r : Outcome)
    (running : List String)
    → IsConsistent m.instances running
    → 0 < count String_discrete id running
    → (i : Instance) × (n : InstanceManager) × (effects : List Effect) × (lookup String_discrete id
          m.instances.instance_data
        ≡ some i)
      × (i.finished ≡ false)
      × (handle d m link (report id r) ≡ some (n, effects))
      × IsConsistent n.instances (remove_first String_discrete id running)
      × IsDone (lookup String_discrete id n.instances.instance_data) r
      × (effects ≡ map send (replies i.result_sender r))
unfolding handle report handle_store_result handle_update_status set_result set_status
report-IsConsistent d m link id (ok value) running v some_run =
    let (i, found, unfinished) = Consistent-running _ _ _ (v id) some_run in
    let i' = set_result i (ok value) in
    (
      i,
      record m { instances = with_terminated m.instances id i' },
      map send (replies i.result_sender (ok value)),
      found,
      unfinished,
      rw (found, handle_store_result) (terminate_lem m id i' (ok value) refl),
      finished-IsConsistent m id i i' running v found unfinished (refl, refl, refl, refl),
      with_terminated-IsDone m.instances id i' (ok value) refl refl,
      refl,
    )
report-IsConsistent d m link id (err x) running v some_run =
    let (i, found, unfinished) = Consistent-running _ _ _ (v id) some_run in
    let i' = set_result (set_status i "Failed") (err x) in
    (
      i,
      record m { instances = with_terminated m.instances id i' },
      map send (replies i.result_sender (err x)),
      found,
      unfinished,
      rw (found, handle_update_status) (terminate_lem m id i' (err x) refl),
      finished-IsConsistent m id i i' running v found unfinished (refl, refl, refl, refl),
      with_terminated-IsDone m.instances id i' (err x) refl refl,
      refl,
    )
