-- ===== src/Executor/Progress.antt =====
-- When a run of src/core/orchestration/src/instance_manager/protocol_executor.rs returns, for the
-- one-round protocols of src/core/protocols/src.
use quorumcrypt.Base.{
  ℕ, suc, String, ◌≡◌, refl, sym, ap, ◌∙◌, true, false, Option, none, some, List, [], ◌∷◌, map, leb,
  length, take, if_true, if_false, if_both, Bool-cases, inl, inr, contains, ℕ_discrete,
}
use quorumcrypt.Errors.{Result, ok, err, ProtocolError}
use quorumcrypt.Executor.{
  Verdict, panicked, returned, Run, Flow, continue, on_finalize, advance, on_receive, follow, loop,
  run, on_round, initial_round,
}
use quorumcrypt.Keys.{Bytes}
use quorumcrypt.Message.{NetMessage}
use quorumcrypt.Protocols.Collect.{Collection, empty, add_own, accept, accept_all, accept_duplicate}
use quorumcrypt.Protocols.Collect.Sound.{Every}
use quorumcrypt.Protocols.Collector.{
  Collector, collecting, take_share, assembled, own_round, has_enough,
}
use quorumcrypt.Protocols.{MessageWrapper}

-- The verdict on what was assembled.
abbrev pub conclude : Option (Result ProtocolError Bytes) → Verdict
conclude none = panicked
conclude (some r) = returned r

module _ {Share : Type 0} where
  take_share-some :
      (c : Collector Share) (x : Share)
      → c.is_done ≡ false
      → c.is_armed x ≡ true
      → take_share c (some x)
        ≡ some (record c { shares = accept c.get_id c.verify c.shares x }, ok tt)
  take_share-some c x d a =
      if_false c.is_done _ _ d
      ∙ elim (Bool-cases (contains ℕ_discrete (c.get_id x) c.shares.received_share_ids)) [
        | inl k ↦
            if_true _ _ _ k
            ∙ ap (λ s. some (record c { shares = s }, ok tt))
                (sym (accept_duplicate c.get_id c.verify c.shares x k))
        | inr k ↦ if_false _ _ _ k ∙ if_true (c.is_armed x) _ _ a
      ]

  conclude_lem :
      (c : Collector Share) (r : Option (Result ProtocolError Bytes))
      (next : Collector Share → Run (Collector Share))
      → (follow (on_finalize c (assembled c r)) next).verdict ≡ conclude r
  conclude_lem c none next = refl
  conclude_lem c (some (ok value)) next = refl
  conclude_lem c (some (err e)) next = refl

  -- The shares that are valid after a list of shares was handled.
  abbrev pub taken : Collector Share → Collection Share → List Share → List Share
  taken c s xs = (accept_all c.get_id c.verify s xs).valid_shares

  -- A verdict that rests on enough of the first shares of a list.
  abbrev pub Concluded : Collector Share → Collection Share → List Share → Verdict → Type 0
  Concluded c s xs v =
      (n : ℕ) × (leb c.threshold (length (taken c s (take n xs))) ≡ true)
      × (v ≡ conclude (c.assemble (taken c s (take n xs))))

module _ {Share Message : Type 0} (to_message : Share → Message) (share_of : Message → Option Share)
    (w : MessageWrapper Message) (id : String) (c : Collector Share)
    (read : (x : Share) → w.unwrap (w.wrap (to_message x) id) ≡ some (ok (to_message x)))
    (same : (x : Share) → share_of (to_message x) ≡ some x) (open_run : c.is_done ≡ false) where
  -- The messages that carry the shares.
  abbrev pub inbox_of : List Share → List (Option NetMessage)
  inbox_of xs = map (λ x. some (w.wrap (to_message x) id)) xs

  on_receive_lem :
      (s : Collection Share) (x : Share)
      → c.is_armed x ≡ true
      → on_receive
          (collecting to_message share_of)
          w
          id
          (record c { shares = s })
          (some (w.wrap (to_message x) id))
        ≡ advance
            (collecting to_message share_of)
            w
            id
            (record c { shares = accept c.get_id c.verify s x })
  unfolding collecting
  on_receive_lem s x armed =
      rw (read x, same x, take_share-some (record c { shares = s }) x open_run armed) refl

  advance_enough :
      (d : Collector Share) (next : Collector Share → Run (Collector Share))
      → has_enough d ≡ true
      → (follow (advance (collecting to_message share_of) w id d) next).verdict
        ≡ conclude (d.assemble d.shares.valid_shares)
  unfolding advance collecting
  advance_enough d next h =
      ap (λ f. (follow f next).verdict) (if_true (has_enough d) _ _ h) ∙ conclude_lem d _ next

  advance_short :
      (d : Collector Share)
      → has_enough d ≡ false
      → advance (collecting to_message share_of) w id d ≡ continue [] d
  unfolding advance collecting
  advance_short d h = if_false (has_enough d) _ _ h ∙ if_false (has_enough d) _ _ h

  -- The verdict after the share that completes the threshold.
  enough_lem :
      (s : Collection Share) (x : Share) (next : Collector Share → Run (Collector Share))
      → c.is_armed x ≡ true
      → has_enough (record c { shares = accept c.get_id c.verify s x }) ≡ true
      → (follow
          (on_receive
            (collecting to_message share_of)
            w
            id
            (record c { shares = s })
            (some (w.wrap (to_message x) id)))
          next).verdict
        ≡ conclude (c.assemble (taken c s (x ∷ [])))
  unfolding accept_all
  enough_lem s x next armed h =
      ap (λ f. (follow f next).verdict) (on_receive_lem s x armed) ∙ advance_enough _ next h

  loop-Concluded :
      (s : Collection Share) (x : Share) (xs : List Share)
      → Every (λ y. c.is_armed y ≡ true) (x ∷ xs)
      → leb c.threshold (length (taken c s (x ∷ xs))) ≡ true
      → Concluded c s
          (x ∷ xs)
          (loop
            (collecting to_message share_of)
            w
            id
            (record c { shares = s })
            (inbox_of (x ∷ xs))).verdict
  unfolding loop accept_all
  loop-Concluded s x [] (a, more) h = (1, h, enough_lem s x _ a h)
  loop-Concluded s x (y ∷ ys) (a, more) h =
      let d = record c { shares = accept c.get_id c.verify s x } in
      let next : Collector Share → Run (Collector Share) =
        λ e. loop (collecting to_message share_of) w id e (inbox_of (y ∷ ys)) in
      elim (Bool-cases (has_enough d)) [
        | inl e ↦ (1, e, enough_lem s x next a e)
        | inr e ↦
            let (n, m, v) = loop-Concluded (accept c.get_id c.verify s x) y ys more h in
            (
              suc n,
              m,
              ap (λ f. (follow f next).verdict) (on_receive_lem s x a ∙ advance_short d e) ∙ v,
            )
      ]

  first_round :
      (own : Share) (next : Collector Share → Run (Collector Share))
      → c.own ≡ some (ok own)
      → c.shares ≡ empty
      → (follow
          (on_round
            (collecting to_message share_of)
            w
            id
            initial_round
            c
            ((collecting to_message share_of).do_round c))
          next).verdict
        ≡ (next (record c { shares = add_own c.get_id empty own })).verdict
  unfolding collecting
  first_round own next o e =
      let after : Option (Result ProtocolError Share) → Verdict = λ r.
        (follow
          (on_round (collecting to_message share_of) w id initial_round c
            (own_round to_message share_of c r))
          next).verdict in
      let started_with =
        ap (λ s. (next (record c { shares = add_own c.get_id s own })).verdict) e in
      ap after o
      ∙ if_both
          (λ (f : Flow (Collector Share)).
            (follow f next).verdict
            ≡ (next (record c { shares = add_own c.get_id empty own })).verdict)
          (w.is_default (to_message own)) _ _ started_with started_with

  -- A run whose own share is made ends, once the messages bring enough shares that are taken, with
  -- what is assembled from the shares that were taken until then.
  pub run-Concluded :
      (own x : Share) (xs : List Share)
      → c.own ≡ some (ok own)
      → c.shares ≡ empty
      → Every (λ y. c.is_armed y ≡ true) (x ∷ xs)
      → leb c.threshold (length (taken c (add_own c.get_id empty own) (x ∷ xs))) ≡ true
      → Concluded c
          (add_own c.get_id empty own)
          (x ∷ xs)
          (run (collecting to_message share_of) w id c (inbox_of (x ∷ xs))).verdict
  unfolding run
  run-Concluded own x xs o e armed h =
      let (n, m, v) = loop-Concluded (add_own c.get_id empty own) x xs armed h in
      let next : Collector Share → Run (Collector Share) =
        λ d. loop (collecting to_message share_of) w id d (inbox_of (x ∷ xs)) in
      (n, m, first_round own next o e ∙ v)
