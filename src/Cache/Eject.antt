-- ===== src/Cache/Eject.antt =====
-- The clean-up of the instance cache (`attempt_eject` of
-- src/core/orchestration/src/instance_manager/instance_manager.rs).
use quorumcrypt.Base.{
  ℕ, zero, suc, ◌≤◌, String, ◌≡◌, refl, none, some, List, [], ◌∷◌, arith, String_discrete, contains,
  length, take, drop, if◌then◌else◌,
}
use quorumcrypt.Base.Dict.{Dict, lookup, remove, lookup-remove}
use quorumcrypt.Instance.{Instance}
use quorumcrypt.Cache.{InstanceCache, eject_loop, attempt_eject, max_iterations}

abbrev pub remove_all : List String → Dict String Instance → Dict String Instance
remove_all [] m = m
remove_all (x ∷ xs) m = remove_all xs (remove String_discrete x m)

-- The cache without the first `n` of the finished instances.
abbrev pub eject : ℕ → InstanceCache → InstanceCache
eject n c = record c {
  terminated_instances = drop n c.terminated_instances;
  instance_data = remove_all (take n c.terminated_instances) c.instance_data;
}

lookup-remove_all :
    (j : String) (ids : List String) (m : Dict String Instance)
    → lookup String_discrete j (remove_all ids m)
      ≡ (if contains String_discrete j ids then none else lookup String_discrete j m)
lookup-remove_all j [] m = refl
lookup-remove_all j (x ∷ ids) m = ground (
  arith,
  lookup-remove_all j ids (remove String_discrete x m),
  lookup-remove String_discrete x j m,
)

eject_loop-eject :
    (n : ℕ) (c : InstanceCache) (ids : List String)
    → c.terminated_instances ≡ ids
    → n ≤ length ids
    → eject_loop n c
      ≡ some (record c {
        terminated_instances = drop n ids;
        instance_data = remove_all (take n ids) c.instance_data;
      })
unfolding eject_loop
eject_loop-eject zero c ids e h = ground arith
eject_loop-eject (suc n) c [] e h = absurd (omega arith)
eject_loop-eject (suc n) c (x ∷ ids) e h =
    rw (e, eject_loop)
      (eject_loop-eject n
        (record c {
          terminated_instances = ids;
          instance_data = remove String_discrete x c.instance_data;
        })
        ids refl (omega arith))

max_iterations-le : (c : InstanceCache) → max_iterations c ≤ length c.terminated_instances
max_iterations-le c = ground arith

pub attempt_eject-eject :
    (c : InstanceCache) → attempt_eject c ≡ some (eject (max_iterations c) c, max_iterations c)
unfolding attempt_eject
attempt_eject-eject c =
    rw (eject_loop-eject (max_iterations c) c c.terminated_instances refl (max_iterations-le c))
      refl

-- The clean-up never panics. It takes the oldest finished instances off the queue, at most as many
-- as the scan length, and removes exactly those from the cache; it returns their number.
pub attempt_eject-lookup :
    (c : InstanceCache) (j : String)
    → (d : InstanceCache) × (attempt_eject c ≡ some (d, max_iterations c))
      × (d.terminated_instances ≡ drop (max_iterations c) c.terminated_instances)
      × (lookup String_discrete j d.instance_data ≡ (
          if contains String_discrete j (take (max_iterations c) c.terminated_instances)
          then none
          else lookup String_discrete j c.instance_data))
attempt_eject-lookup c j =
    (eject (max_iterations c) c, attempt_eject-eject c, refl, lookup-remove_all j _ c.instance_data)

pub lookup-eject-none :
    (n : ℕ) (c : InstanceCache) (j : String)
    → lookup String_discrete j c.instance_data ≡ none
    → lookup String_discrete j (eject n c).instance_data ≡ none
lookup-eject-none n c j h =
    ground (arith, lookup-remove_all j (take n c.terminated_instances) c.instance_data)
