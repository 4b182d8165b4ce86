-- ===== src/KeyManager/Queue.antt =====
-- The precomputations of src/core/orchestration/src/key_manager/key_manager.rs as queues of batches.
use quorumcrypt.Base.{
  String, ◌≡◌, refl, sym, ap, ◌∙◌, ite, Option, none, some, List, [], ◌∷◌, ◌++◌, String_discrete,
}
use quorumcrypt.Base.Dict.{lookup, insert, lookup-insert}
use quorumcrypt.KeyManager.{
  KeyManager, KeyManagerCommand, Response, pop_last, append_precomputations, keep_rest,
  pop_precomputation, handle, pop_frost_precomputation, push_frost_precomputations, popped, silent,
}
use quorumcrypt.Keys.{Codec}
use mathlib.Core.List.{reverse, reverse-cons, reverse-append, reverse-reverse, append-nil}
use mathlib.Core.Option

-- What the pops and pushes of a run ask for.
pub data Request (P : Type 0) : Type 0 where
  pop : String → Request P
  push : String → List P → Request P

pop_last-append : {A : Type 0} (xs : List A) (z : A) → pop_last (xs ++ (z ∷ [])) ≡ some (xs, z)
unfolding pop_last
pop_last-append [] z = refl
pop_last-append (x ∷ []) z = refl
pop_last-append (x ∷ y ∷ xs) z =
    ap (Option.map (λ (rest, w). (x ∷ rest, w))) (pop_last-append (y ∷ xs) z)

-- The last value is the first of the reversed list.
pop_last-reverse :
    {A : Type 0} (q : List A) (z : A) → pop_last (reverse (z ∷ q)) ≡ some (reverse q, z)
pop_last-reverse q z = ap pop_last (reverse-cons z q) ∙ pop_last-append (reverse q) z

-- The specification: a queue for each key, to which a batch is added in the reverse order, and from
-- which the oldest value is taken.
abbrev pub Queues : Type 0 → Type 0
Queues P = String → List P

-- A choice under a function.
ite-reverse :
    {A X : Type 0} (d : Dec X) (a b c e : List A)
    → a ≡ reverse b
    → c ≡ reverse e
    → ite d a c ≡ reverse (ite d b e)
ite-reverse (yes x) a b c e p q = p
ite-reverse (no x) a b c e p q = q

get_or-ite :
    {A X : Type 0} (d : Dec X) (v d0 : A) (o : Option A)
    → Option.get_or (ite d (some v) o) d0 ≡ ite d v (Option.get_or o d0)
get_or-ite (yes x) v d0 o = refl
get_or-ite (no x) v d0 o = refl

module _ {P : Type 0} where
  abbrev pub command : Request P → KeyManagerCommand P
  command (pop key) = pop_frost_precomputation key
  command (push key batch) = push_frost_precomputations key batch

  -- The responses to requests, one for each.
  unfoldable pub responses : Codec → KeyManager P → List (Request P) → List (Response P)
  unfolding handle
  responses c s [] = []
  responses c s (r ∷ rs) = elim (handle c s (command r)) [
    | none ↦ []
    | some (t, x) ↦ x ∷ responses c t rs
  ]

  abbrev set : Queues P → String → List P → Queues P
  set q key values = λ j. ite (String_discrete key j) values (q j)

  abbrev serve_pop : Queues P → String → List P → Queues P × Response P
  serve_pop q key [] = (q, popped none)
  serve_pop q key (x ∷ xs) = (set q key xs, popped (some x))

  abbrev serve : Queues P → Request P → Queues P × Response P
  serve q (pop key) = serve_pop q key (q key)
  serve q (push key batch) = (set q key (q key ++ reverse batch), silent)

  abbrev pub served : Queues P → List (Request P) → List (Response P)
  served q [] = []
  served q (r ∷ rs) = let (t, x) = serve q r in x ∷ served t rs

  abbrev pub stock : KeyManager P → String → List P
  stock s key = Option.get_or (lookup String_discrete key s.frost_precomputes) []

  abbrev pub Implements : KeyManager P → Queues P → Type 0
  Implements s q = (key : String) → q key ≡ reverse (stock s key)

  stock-insert :
      (s : KeyManager P) (key j : String) (v : List P)
      → stock (record s { frost_precomputes = insert String_discrete key v s.frost_precomputes }) j
        ≡ ite (String_discrete key j) v (stock s j)
  stock-insert s key j v =
      ap (λ o. Option.get_or o []) (lookup-insert String_discrete key j v s.frost_precomputes)
      ∙ get_or-ite (String_discrete key j) v [] (lookup String_discrete j s.frost_precomputes)

  stock-append_precomputations :
      (s : KeyManager P) (key j : String) (batch : List P)
      → stock (append_precomputations key batch s) j
        ≡ ite (String_discrete key j) (batch ++ stock s key) (stock s j)
  unfolding append_precomputations
  stock-append_precomputations s key j batch = step (lookup String_discrete key s.frost_precomputes)
    where
      step :
          (o : Option (List P))
          → stock
              (elim o [
                | none ↦ record s {
                  frost_precomputes = insert String_discrete key batch s.frost_precomputes;
                }
                | some current ↦ record s {
                  frost_precomputes =
                      insert String_discrete key (batch ++ current) s.frost_precomputes;
                }
              ])
              j
            ≡ ite (String_discrete key j) (batch ++ Option.get_or o []) (stock s j)
      step none =
          stock-insert s key j batch
          ∙ ap (λ v. ite (String_discrete key j) v (stock s j)) (sym (append-nil batch))
      step (some current) = stock-insert s key j (batch ++ current)

  Implements-append_precomputations :
      (s : KeyManager P) (q : Queues P) (key : String) (batch : List P)
      → Implements s q
      → Implements (append_precomputations key batch s) (set q key (q key ++ reverse batch))
  Implements-append_precomputations s q key batch h j =
      ite-reverse (String_discrete key j) (q key ++ reverse batch) (batch ++ stock s key) (q j)
        (stock s j)
        (ap (λ v. v ++ reverse batch) (h key) ∙ sym (reverse-append batch (stock s key))) (h j)
      ∙ ap reverse (sym (stock-append_precomputations s key j batch))

  -- What a pop does when the queue of the key is known.
  abbrev after_pop : KeyManager P → String → List P → KeyManager P × Option P
  after_pop s key [] = (s, none)
  after_pop s key (x ∷ xs) = keep_rest key s (some (reverse xs, x))

  pop_precomputation_lem :
      (s : KeyManager P) (key : String) (xs : List P)
      → stock s key ≡ reverse xs
      → pop_precomputation key s ≡ after_pop s key xs
  unfolding pop_precomputation pop_last
  pop_precomputation_lem s key xs e = step (lookup String_discrete key s.frost_precomputes) xs e
    where
      step :
          (o : Option (List P)) (xs : List P)
          → Option.get_or o [] ≡ reverse xs
          → (elim o [ none ↦ (s, none) | some vec ↦ keep_rest key s (pop_last vec) ])
            ≡ after_pop s key xs
      step none [] e = refl
      step none (x ∷ xs) e =
          let c : ◌≡◌ {A = Option (List P × P)} none (some (reverse xs, x)) =
            ap pop_last e ∙ pop_last-reverse xs x in
          cc
      step (some vec) [] e = ap (λ v. keep_rest key s (pop_last v)) e
      step (some vec) (x ∷ xs) e = ap (keep_rest key s) (ap pop_last e ∙ pop_last-reverse xs x)

  responses-pop :
      (c : Codec) (s : KeyManager P) (q : Queues P) (key : String) (rs : List (Request P))
      → Implements s q
      → ((t : KeyManager P) (u : Queues P) → Implements t u → responses c t rs ≡ served u rs)
      → (xs : List P) → stock s key ≡ reverse xs
      → responses c s (pop key ∷ rs) ≡ (let (u, x) = serve_pop q key xs in x ∷ served u rs)
  unfolding responses handle
  responses-pop c s q key rs h ih [] e =
      ap (λ (t, x). popped x ∷ responses c t rs) (pop_precomputation_lem s key [] e)
      ∙ ap (λ ys. popped none ∷ ys) (ih s q h)
  responses-pop c s q key rs h ih (x ∷ xs) e =
      ap (λ (t, y). popped y ∷ responses c t rs) (pop_precomputation_lem s key (x ∷ xs) e)
      ∙ ap (λ ys. popped (some x) ∷ ys)
          (ih
            (record s {
              frost_precomputes = insert String_discrete key (reverse xs) s.frost_precomputes;
            })
            (set q key xs)
            (λ j.
              ite-reverse (String_discrete key j) xs (reverse xs) (q j) (stock s j)
                (sym (reverse-reverse xs)) (h j)
              ∙ ap reverse (sym (stock-insert s key j (reverse xs)))))

  -- Whatever pops and pushes a manager is asked, whose precomputations are those of the queues, its
  -- responses are those of the queues: each precomputation is handed out once, those of an earlier
  -- push before those of a later one, and none when there are no more.
  pub responses-served :
      (c : Codec) (s : KeyManager P) (q : Queues P) (rs : List (Request P))
      → Implements s q
      → responses c s rs ≡ served q rs
  unfolding responses handle
  responses-served c s q [] h = refl
  responses-served c s q (push key batch ∷ rs) h =
      ap (λ xs. silent ∷ xs)
        (responses-served c (append_precomputations key batch s)
          (set q key (q key ++ reverse batch)) rs
          (Implements-append_precomputations s q key batch h))
  responses-served c s q (pop key ∷ rs) h =
      responses-pop c s q key rs h (λ t u k. responses-served c t u rs k) (q key)
        (sym (ap reverse (h key) ∙ reverse-reverse (stock s key)))
