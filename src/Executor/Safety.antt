-- ===== src/Executor/Safety.antt =====
-- What a value that a run of src/core/orchestration/src/instance_manager/protocol_executor.rs returns
-- was assembled from, for the one-round protocols of src/core/protocols/src.
use quorumcrypt.Base.{
  String, ◌≡◌, refl, subst, true, Option, none, some, List, [], ◌∷◌, leb, length, arith, Bool-cases,
  if_both, inl, inr, contains, ℕ_discrete,
}
use quorumcrypt.Errors.{Result, ok, err, ProtocolError}
use quorumcrypt.Executor.{
  Verdict, waiting, panicked, returned, Run, Flow, stop, continue, on_finalize, advance, on_update,
  on_unwrap, on_receive, follow, loop, run, on_round, initial_round,
}
use quorumcrypt.Keys.{Bytes}
use quorumcrypt.Message.{NetMessage}
use quorumcrypt.Protocols.Collect.{Collection, empty}
use quorumcrypt.Protocols.Collect.Sound.{
  HasDistinctIds, IsTrusted, Every, IsSound, accept-IsSound, add_own-IsSound,
}
use quorumcrypt.Protocols.Collector.{Collector, collecting, take_share, assembled, has_enough}
use quorumcrypt.Protocols.{MessageWrapper}

module _ {Share : Type 0} where
  -- A returned value was assembled from as many shares as the threshold says, which have different
  -- ids and were each verified, or are the server's own.
  abbrev pub Certified : Collector Share → Share → Verdict → Type 0
  Certified c own (returned (ok value)) =
      (xs : List Share) × (leb c.threshold (length xs) ≡ true)
      × HasDistinctIds c.get_id c.verify xs
      × Every (IsTrusted c.get_id c.verify own) xs
      × (c.assemble xs ≡ some (ok value))
  Certified c own _ = Unit {0}

module _ {Share Message : Type 0} (to_message : Share → Message) (share_of : Message → Option Share)
    (w : MessageWrapper Message) where
  -- Where a flow leads to: the parameters of the collector are the same.
  abbrev FlowCertified : Collector Share → Share → Flow (Collector Share) → Type 0
  FlowCertified c own (stop l d v) = Certified c own v
  FlowCertified c own (continue l d) =
      (s : Collection Share) × (d ≡ record c { shares = s }) × IsSound c.get_id c.verify own s

  on_finalize-FlowCertified :
      (c : Collector Share) (own : Share) (r : Option (Result ProtocolError _))
      → c.assemble c.shares.valid_shares ≡ r
      → IsSound c.get_id c.verify own c.shares
      → has_enough c ≡ true
      → FlowCertified c own (on_finalize c (assembled c r))
  on_finalize-FlowCertified c own none e v h = tt
  on_finalize-FlowCertified c own (some (ok value)) e v h =
      (c.shares.valid_shares, h, v.distinct, v.trusted, e)
  on_finalize-FlowCertified c own (some (err x)) e v h = tt

  advance-FlowCertified :
      (id : String) (c : Collector Share) (own : Share)
      → IsSound c.get_id c.verify own c.shares
      → FlowCertified c own (advance (collecting to_message share_of) w id c)
  unfolding advance collecting
  advance-FlowCertified id c own v = elim (Bool-cases (has_enough c)) [
    | inl e ↦ simp e (on_finalize-FlowCertified c own _ refl v e)
    | inr e ↦ simp e (c.shares, refl, v)
  ]

  FlowCertified-shares :
      (c : Collector Share) (own : Share) (s : Collection Share) (f : Flow (Collector Share))
      → FlowCertified (record c { shares = s }) own f
      → FlowCertified c own f
  FlowCertified-shares c own s (stop l d (returned (ok value))) h = h
  FlowCertified-shares c own s (stop l d (returned (err e))) h = tt
  FlowCertified-shares c own s (stop l d waiting) h = tt
  FlowCertified-shares c own s (stop l d panicked) h = tt
  FlowCertified-shares c own s (continue l d) h = h

  abbrev TakeCertified :
      Collector Share → Share → Option (Collector Share × Result ProtocolError (Unit {0})) → Type 0
  TakeCertified c own none = Unit {0}
  TakeCertified c own (some (d, r)) =
      (s : Collection Share) × (d ≡ record c { shares = s }) × IsSound c.get_id c.verify own s

  take_share-TakeCertified :
      (c : Collector Share) (own : Share) (o : Option Share)
      → IsSound c.get_id c.verify own c.shares
      → TakeCertified c own (take_share c o)
  take_share-TakeCertified c own none v = tt
  take_share-TakeCertified c own (some x) v =
      let T = TakeCertified c own in
      if_both T c.is_done _ _ (c.shares, refl, v)
        (if_both T (contains ℕ_discrete (c.get_id x) c.shares.received_share_ids) _ _
          (c.shares, refl, v)
          (if_both T (c.is_armed x) _ _ (_, refl, accept-IsSound c.get_id c.verify own c.shares x v)
            tt))

  on_update-FlowCertified :
      (id : String) (c : Collector Share) (own : Share)
      (o : Option (Collector Share × Result ProtocolError (Unit {0})))
      → TakeCertified c own o
      → FlowCertified c own (on_update (collecting to_message share_of) w id c o)
  on_update-FlowCertified id c own none h = tt
  on_update-FlowCertified id c own (some (d, err e)) h = tt
  on_update-FlowCertified id c own (some (d, ok u)) (s, e, v) =
      rw e
        (FlowCertified-shares c own s _ (advance-FlowCertified id (record c { shares = s }) own v))

  on_unwrap-FlowCertified :
      (id : String) (c : Collector Share) (own : Share) (o : Option (Result ProtocolError Message))
      → IsSound c.get_id c.verify own c.shares
      → FlowCertified c own (on_unwrap (collecting to_message share_of) w id c o)
  unfolding collecting
  on_unwrap-FlowCertified id c own none v = tt
  on_unwrap-FlowCertified id c own (some (err e)) v = tt
  on_unwrap-FlowCertified id c own (some (ok m)) v =
      on_update-FlowCertified id c own (take_share c (share_of m))
        (take_share-TakeCertified c own (share_of m) v)

  on_receive-FlowCertified :
      (id : String) (c : Collector Share) (own : Share) (m : Option NetMessage)
      → IsSound c.get_id c.verify own c.shares
      → FlowCertified c own (on_receive (collecting to_message share_of) w id c m)
  on_receive-FlowCertified id c own none v = tt
  on_receive-FlowCertified id c own (some m) v = on_unwrap-FlowCertified id c own (w.unwrap m) v

  follow-Certified :
      (c : Collector Share) (own : Share) (f : Flow (Collector Share))
      (next : Collector Share → Run (Collector Share))
      → FlowCertified c own f
      → ((s : Collection Share)
          → IsSound c.get_id c.verify own s
          → Certified c own (next (record c { shares = s })).verdict)
      → Certified c own (follow f next).verdict
  follow-Certified c own (stop l d v) next h g = h
  follow-Certified c own (continue l d) next (s, e, v) g = rw e (g s v)

  loop-Certified :
      (id : String) (c : Collector Share) (own : Share) (s : Collection Share)
      (inbox : List (Option NetMessage))
      → IsSound c.get_id c.verify own s
      → Certified c own
          (loop (collecting to_message share_of) w id (record c { shares = s }) inbox).verdict
  unfolding loop
  loop-Certified id c own s [] v = tt
  loop-Certified id c own s (m ∷ inbox) v =
      follow-Certified c own
        (on_receive (collecting to_message share_of) w id (record c { shares = s }) m)
        (λ d. loop (collecting to_message share_of) w id d inbox)
        (FlowCertified-shares c own s _
          (on_receive-FlowCertified id (record c { shares = s }) own m v))
        (λ t u. loop-Certified id c own t inbox u)

  on_round-FlowCertified :
      (id : String) (c : Collector Share) (own : Share)
      → c.shares ≡ empty
      → c.own ≡ some (ok own)
      → FlowCertified c own (
          on_round
            (collecting to_message share_of)
            w
            id
            initial_round
            c
            ((collecting to_message share_of).do_round c))
  unfolding collecting
  on_round-FlowCertified id c own e o = elim (Bool-cases (w.is_default (to_message own))) [
    | inl d ↦ simp (o, d) (_, refl, add_own-IsSound c.get_id c.verify own c.shares e)
    | inr d ↦ simp (o, d) (_, refl, add_own-IsSound c.get_id c.verify own c.shares e)
  ]

  run-Certified :
      (id : String) (c : Collector Share) (own : Share) (inbox : List (Option NetMessage))
      → c.shares ≡ empty
      → c.own ≡ some (ok own)
      → Certified c own (run (collecting to_message share_of) w id c inbox).verdict
  unfolding run
  run-Certified id c own inbox e o =
      follow-Certified c own _ (λ d. loop (collecting to_message share_of) w id d inbox)
        (on_round-FlowCertified id c own e o) (λ s v. loop-Certified id c own s inbox v)

  -- The start of a run whose own share is given.
  own_round-cases :
      (id : String) (c : Collector Share) (value : Bytes) (inbox : List (Option NetMessage))
      (o : Option (Result ProtocolError Share))
      → c.own ≡ o
      → (run (collecting to_message share_of) w id c inbox).verdict ≡ returned (ok value)
      → (own : Share) × (c.own ≡ some (ok own))
  unfolding run collecting
  own_round-cases id c value inbox none e h = ground arith
  own_round-cases id c value inbox (some (err x)) e h = ground arith
  own_round-cases id c value inbox (some (ok own)) e h = (own, e)

  -- A value is returned only if the server's own share was made, and then it is certified.
  pub run-Certified_ok :
      (id : String) (c : Collector Share) (value : Bytes) (inbox : List (Option NetMessage))
      → c.shares ≡ empty
      → (run (collecting to_message share_of) w id c inbox).verdict ≡ returned (ok value)
      → (own : Share) × (c.own ≡ some (ok own)) × Certified c own (returned (ok value))
  run-Certified_ok id c value inbox e h =
      let (own, o) = own_round-cases id c value inbox c.own refl h in
      (own, o, subst (Certified c own) h (run-Certified id c own inbox e o))
