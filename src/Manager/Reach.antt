-- ===== src/Manager/Reach.antt =====
-- The manager together with the executors that it has started, as a step relation, and what holds
-- in every state that can be reached (`run` and `execute_protocol` of
-- src/core/orchestration/src/instance_manager/instance_manager.rs).
use quorumcrypt.Base.{
  ◌<◌, String, ◌≡◌, refl, sym, subst, ◌∙◌, false, Option, none, some, List, [], ◌++◌, map,
  String_discrete, count, remove_first,
}
use quorumcrypt.Base.Dict.{lookup}
use quorumcrypt.Cache.Valid.{IsConsistent}
use quorumcrypt.Instance.{Instance, Outcome}
use quorumcrypt.Manager.Defs.{KeyLink, InstanceManager, Effect, send, Digest, new}
use quorumcrypt.Manager.Finish.{IsDone, report-IsConsistent}
use quorumcrypt.Cache.{replies}
use quorumcrypt.Manager.Keeps.{IsExternal, Keeps, spawned, handle-Keeps}
use quorumcrypt.Manager.Run.{Input, Round, handle, report}

-- The manager, and the identifiers of the executors that have not reported.
pub record System : Type 0 where
  pub manager : InstanceManager
  pub running : List String

abbrev pub initial : System
initial = record { manager = new; running = [] }

abbrev Settled : List String → Option Round → Type 0
Settled running none = Unit {0}
Settled running (some (m, effects)) = IsConsistent m.instances running

module _ (d : Digest) where
  -- A command, message or tick from outside; or an executor that runs ends with any outcome.
  pub data Step (s : System) : System → Type 0 where
    external :
        {m : InstanceManager} {effects : List Effect} (link : KeyLink) (i : Input)
        → IsExternal i
        → handle d s.manager link i ≡ some (m, effects)
        → Step s (record { manager = m; running = spawned effects ++ s.running })
    ends :
        {m : InstanceManager} {effects : List Effect} (link : KeyLink) (id : String) (r : Outcome)
        → 0 < count String_discrete id s.running
        → handle d s.manager link (report id r) ≡ some (m, effects)
        → Step s (record { manager = m; running = remove_first String_discrete id s.running })

  pub data Reach (s : System) : System → Type 0 where
    here : Reach s s
    next : {t u : System} → Reach s t → Step t u → Reach s u

  abbrev pub IsSafe : System → Type 0
  IsSafe s = IsConsistent s.manager.instances s.running

  Step-IsSafe : {s t : System} → Step s t → IsSafe s → IsSafe t
  Step-IsSafe {s} (external link i x e) v =
      subst (Keeps s.running) e (handle-Keeps d s.manager link i s.running x v)
  Step-IsSafe {s} (ends link id r some_run e) v =
      let (_, m, effects, _, _, e', w, _, _) =
        report-IsConsistent d s.manager link id r s.running v some_run in
      subst (Settled (remove_first String_discrete id s.running)) (sym e' ∙ e) w

  initial-IsSafe : IsSafe initial
  unfolding new lookup
  initial-IsSafe j = (refl, refl)

  -- In every reachable state an instance that has not finished has exactly one executor, an open
  -- channel to it and no result, and is not in the queue for removal; one that has finished has a
  -- result, no executor, and stands in the queue once; an executor's instance is always stored.
  pub Reach-IsConsistent :
      {s : System} → Reach initial s → IsConsistent s.manager.instances s.running
  Reach-IsConsistent here = initial-IsSafe
  Reach-IsConsistent (next r st) = Step-IsSafe st (Reach-IsConsistent r)

  -- In every reachable state the report of any running executor is handled without a panic: its
  -- instance was stored and had not finished, and afterwards it is stored as finished with the
  -- reported outcome, which is sent to the caller that waits for it, if there is one, and to nobody
  -- else; the state with this executor gone is reachable again.
  pub Reach-report :
      {s : System} (link : KeyLink) (id : String) (r : Outcome)
      → Reach initial s
      → 0 < count String_discrete id s.running
      → (i : Instance) × (n : InstanceManager) × (effects : List Effect) × (lookup String_discrete
            id s.manager.instances.instance_data
          ≡ some i)
        × (i.finished ≡ false)
        × (handle d s.manager link (report id r) ≡ some (n, effects))
        × IsDone (lookup String_discrete id n.instances.instance_data) r
        × (effects ≡ map send (replies i.result_sender r))
        × Reach initial
            (record { manager = n; running = remove_first String_discrete id s.running })
  Reach-report {s} link id r reached some_run =
      let (i, n, effects, found, unfinished, e, _, done, sent) =
        report-IsConsistent d s.manager link id r s.running (Reach-IsConsistent reached) some_run in
      (i, n, effects, found, unfinished, e, done, sent, next reached (ends link id r some_run e))
