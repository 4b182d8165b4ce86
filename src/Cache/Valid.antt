-- ===== src/Cache/Valid.antt =====
-- What the instance cache and the executors that still run agree on, instance by instance
-- (src/core/orchestration/src/instance_manager/instance_manager.rs).
use quorumcrypt.Base.{
  ℕ, zero, suc, ◌<◌, String, ◌≡◌, refl, inl, inr, if_pos, if_neg, Bool, true, false, Option, none,
  some, List, [], ◌∷◌, ◌++◌, arith, String_discrete, count, take, drop, length, is_some,
  count-append, remove_first, count-remove_first_ne, count-remove_first_self, leb, Bool-cases,
}
use quorumcrypt.Base.Dict.{lookup, insert, remove, lookup-insert, lookup-remove}
use quorumcrypt.Instance.{Instance}
use quorumcrypt.Cache.{InstanceCache, insert_instance, max_iterations, put}
use quorumcrypt.Cache.Eject.{eject, remove_all, attempt_eject-eject, lookup-eject-none}

-- An instance that has not finished has one executor, an open channel to it and no result. One
-- that has finished has a result, no executor, and stands in the queue once.
abbrev pub ConsistentAs : Bool → Instance → ℕ → ℕ → Type 0
ConsistentAs false i running queued =
    (running ≡ 1)
    × (queued ≡ 0)
    × (is_some i.result ≡ false)
    × (is_some i.message_channel_sender ≡ true)
ConsistentAs true i running queued =
    (running ≡ 0)
    × (queued ≡ 1)
    × (is_some i.result ≡ true)
    × (is_some i.message_channel_sender ≡ false)

abbrev pub Consistent : Option Instance → ℕ → ℕ → Type 0
Consistent none running queued = (running ≡ 0) × (queued ≡ 0)
Consistent (some i) running queued = ConsistentAs i.finished i running queued

-- `running` lists the identifiers of the executors that have not reported.
abbrev pub IsConsistent : InstanceCache → List String → Type 0
IsConsistent c running =
    (j : String)
    → Consistent (lookup String_discrete j c.instance_data) (count String_discrete j running)
        (count String_discrete j c.terminated_instances)

Consistent-cast :
    {o o' : Option Instance} {r r' q q' : ℕ}
    → o ≡ o'
    → r ≡ r'
    → q ≡ q'
    → Consistent o r q
    → Consistent o' r' q'
Consistent-cast a b d h = rw (← a, ← b, ← d) h

ConsistentAs-queued :
    (b : Bool) (i : Instance) (running queued : ℕ)
    → ConsistentAs b i running (suc queued)
    → (running ≡ 0) × (queued ≡ 0)
ConsistentAs-queued true i running queued h = omega arith
ConsistentAs-queued false i running queued h = omega arith

-- An instance in the queue has finished, so its removal leaves nothing behind.
Consistent-queued :
    (o : Option Instance) (running queued : ℕ)
    → Consistent o running (suc queued)
    → Consistent none running queued
Consistent-queued none running queued h = omega arith
Consistent-queued (some i) running queued h = ConsistentAs-queued i.finished i running queued h

pop_front-IsConsistent :
    (c : InstanceCache) (running : List String) (x : String) (ids : List String)
    → IsConsistent c running
    → c.terminated_instances ≡ x ∷ ids
    → IsConsistent
        (record c {
          terminated_instances = ids;
          instance_data = remove String_discrete x c.instance_data;
        })
        running
pop_front-IsConsistent c running x ids v e j =
    rw (lookup-remove String_discrete x j) (elim (String_discrete x j) [
      | yes p ↦
          rw (if_pos _ p)
            (Consistent-queued _ _ _ (rw (e, if_pos (String_discrete x j) p) at (v j)))
      | no p ↦ rw (if_neg _ p) (rw (e, if_neg (String_discrete x j) p) at (v j))
    ])

eject-IsConsistent :
    (n : ℕ) (c : InstanceCache) (running ids : List String)
    → IsConsistent c running
    → c.terminated_instances ≡ ids
    → IsConsistent
        (record c {
          terminated_instances = drop n ids;
          instance_data = remove_all (take n ids) c.instance_data;
        })
        running
eject-IsConsistent zero c running ids v e j = rw e at (v j)
eject-IsConsistent (suc n) c running [] v e j = rw e at (v j)
eject-IsConsistent (suc n) c running (x ∷ ids) v e j =
    eject-IsConsistent n
      (record c {
        terminated_instances = ids;
        instance_data = remove String_discrete x c.instance_data;
      })
      running ids (pop_front-IsConsistent c running x ids v e) refl j

-- Storing an instance that has not finished under an unused identifier, with its executor started.
put-IsConsistent :
    (c : InstanceCache) (running : List String) (id : String) (i : Instance)
    → IsConsistent c running
    → lookup String_discrete id c.instance_data ≡ none
    → ConsistentAs i.finished i 1 0
    → IsConsistent (put c id i) (id ∷ running)
unfolding put
put-IsConsistent c running id i v fresh h j =
    let (r, q) = rw fresh at (v id) in
    let now = lookup-insert String_discrete id j i c.instance_data in
    elim (String_discrete id j) [
      | yes p ↦
          Consistent-cast {o = some i} {r = 1} {q = 0} (ground arith) (ground arith) (ground arith)
            h
      | no p ↦
          Consistent-cast {o = lookup String_discrete j c.instance_data}
            {r = count String_discrete j running} (ground arith) (ground arith) refl (v j)
    ]

-- `InstanceCache::insert` never panics and keeps the agreement, the clean-up included.
pub insert_instance-IsConsistent :
    (c : InstanceCache) (running : List String) (id : String) (i : Instance)
    → IsConsistent c running
    → lookup String_discrete id c.instance_data ≡ none
    → ConsistentAs i.finished i 1 0
    → (d : InstanceCache) × (insert_instance c id i ≡ some d) × IsConsistent d (id ∷ running)
unfolding insert_instance
insert_instance-IsConsistent c running id i v fresh h =
    elim (Bool-cases (leb c.capacity (length c.instance_data))) [
      | inl full ↦
          rw (full, attempt_eject-eject c)
            (
              put (eject (max_iterations c) c) id i,
              refl,
              put-IsConsistent (eject (max_iterations c) c) running id i
                  (eject-IsConsistent (max_iterations c) c running _ v refl)
                  (lookup-eject-none (max_iterations c) c id fresh) h,
            )
      | inr room ↦ rw room (put c id i, refl, put-IsConsistent c running id i v fresh h)
    ]

-- Storing the result of an instance whose executor has reported.
pub finish-IsConsistent :
    (c : InstanceCache) (running : List String) (id : String) (i : Instance) (i' : Instance)
    → IsConsistent c running
    → lookup String_discrete id c.instance_data ≡ some i
    → i.finished ≡ false
    → ConsistentAs i'.finished i' 0 1
    → IsConsistent
        (record c {
          terminated_instances = c.terminated_instances ++ (id ∷ []);
          instance_data = insert String_discrete id i' c.instance_data;
        })
        (remove_first String_discrete id running)
finish-IsConsistent c running id i i' v found unfinished h j =
    let (r, q, _, _) = rw (found, unfinished) at (v id) in
    let now = lookup-insert String_discrete id j i' c.instance_data in
    let left = count-remove_first_self String_discrete id running in
    let queue = count-append String_discrete j c.terminated_instances (id ∷ []) in
    elim (String_discrete id j) [
      | yes p ↦
          Consistent-cast {o = some i'} {r = 0} {q = 1} (ground arith) (ground arith) (ground arith)
            h
      | no p ↦
          Consistent-cast {o = lookup String_discrete j c.instance_data}
            {r = count String_discrete j running}
            {q = count String_discrete j c.terminated_instances} (ground arith)
            (ground (arith, count-remove_first_ne String_discrete id j running p)) (ground arith)
            (v j)
    ]

-- Replacing an instance by one that is finished to the same degree.
pub put-IsConsistent_same :
    (c : InstanceCache) (running : List String) (id : String) (i : Instance) (i' : Instance)
    → IsConsistent c running
    → lookup String_discrete id c.instance_data ≡ some i
    → ((r q : ℕ) → ConsistentAs i.finished i r q → ConsistentAs i'.finished i' r q)
    → IsConsistent
        (record c { instance_data = insert String_discrete id i' c.instance_data })
        running
put-IsConsistent_same c running id i i' v found h j =
    rw (lookup-insert String_discrete id j) (elim (String_discrete id j) [
      | yes p ↦ rw (if_pos (String_discrete id j) p, ← p) (h _ _ (rw found at (v id)))
      | no p ↦ rw (if_neg (String_discrete id j) p) (v j)
    ])

ConsistentAs-running :
    (b : Bool) (i : Instance) (running queued : ℕ)
    → ConsistentAs b i running queued
    → 0 < running
    → b ≡ false
ConsistentAs-running true i running queued h lt = absurd (omega arith)
ConsistentAs-running false i running queued h lt = refl

-- An executor that has not reported belongs to a stored instance that has not finished.
pub Consistent-running :
    (o : Option Instance) (running queued : ℕ)
    → Consistent o running queued
    → 0 < running
    → (i : Instance) × (o ≡ some i) × (i.finished ≡ false)
Consistent-running none running queued h lt = absurd (omega arith)
Consistent-running (some i) running queued h lt =
    (i, refl, ConsistentAs-running i.finished i running queued h lt)
