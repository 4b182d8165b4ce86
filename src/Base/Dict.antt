-- ===== src/Base/Dict.antt =====
-- `std::collections::HashMap` as an association list. The order of iteration, which Rust leaves
-- open, is the list's; an insertion of a new key goes to the end.
use Prim.Native.Nat.{◌+◌}
use mathlib.Core.List.{List, [], ◌∷◌, map}
use mathlib.Core.Logic.{ite}
use mathlib.Core.Option
use mathlib.Core.Option.{Option, none, some}
use mathlib.Core.Bool.{Bool, true, false}
use mathlib.Core.Path.{◌≡◌, refl}
use native.Mathlib.Omega.{arith}
use quorumcrypt.Base.Lists.{length}
use quorumcrypt.Base.Tests.{is_some}

abbrev pub Dict {ℓ} : Type ℓ → Type ℓ → Type ℓ
Dict K V = List (K × V)

module _ {ℓ} {K V : Type ℓ} where
  abbrev pub values : Dict K V → List V
  values = map (λ e. e.1)

  -- `iter_mut` that changes the values only.
  abbrev pub map_values : (V → V) → Dict K V → Dict K V
  map_values f [] = []
  map_values f ((k, v) ∷ m) = (k, f v) ∷ map_values f m

  -- `retain` by a test on the value.
  abbrev pub retain : (V → Bool) → Dict K V → Dict K V
  retain p [] = []
  retain p ((k, v) ∷ m) = elim (p v) [ true ↦ (k, v) ∷ retain p m | false ↦ retain p m ]

module _ {ℓ} {K V : Type ℓ} (dec : Discrete K) where
  unfoldable pub lookup : K → Dict K V → Option V
  lookup k [] = none
  lookup k ((j, v) ∷ m) = ite (dec j k) (some v) (lookup k m)

  unfoldable pub insert : K → V → Dict K V → Dict K V
  insert k v [] = (k, v) ∷ []
  insert k v ((j, w) ∷ m) = ite (dec j k) ((k, v) ∷ m) ((j, w) ∷ insert k v m)

  unfoldable pub remove : K → Dict K V → Dict K V
  remove k [] = []
  remove k ((j, v) ∷ m) = ite (dec j k) (remove k m) ((j, v) ∷ remove k m)

  abbrev pub contains_key : K → Dict K V → Bool
  contains_key k m = is_some (lookup k m)

  -- No key stands twice.
  abbrev pub Distinct : Dict K V → Type ℓ
  Distinct [] = Unit
  Distinct ((k, v) ∷ m) = (lookup k m ≡ none) × Distinct m

  pub lookup-insert :
      (k j : K) (v : V) (m : Dict K V)
      → lookup j (insert k v m) ≡ ite (dec k j) (some v) (lookup j m)
  unfolding lookup insert
  lookup-insert k j v [] = refl
  lookup-insert k j v ((i, w) ∷ m) = ground (arith, lookup-insert k j v m)

  pub lookup-remove :
      (k j : K) (m : Dict K V) → lookup j (remove k m) ≡ ite (dec k j) none (lookup j m)
  unfolding lookup remove
  lookup-remove k j [] = ground arith
  lookup-remove k j ((i, w) ∷ m) = ground (arith, lookup-remove k j m)

  pub lookup-map_values :
      (f : V → V) (k : K) (m : Dict K V) → lookup k (map_values f m) ≡ Option.map f (lookup k m)
  unfolding lookup
  lookup-map_values f k [] = refl
  lookup-map_values f k ((j, v) ∷ m) = ground (arith, lookup-map_values f k m)

  pub insert-Distinct : (k : K) (v : V) (m : Dict K V) → Distinct m → Distinct (insert k v m)
  unfolding lookup insert
  insert-Distinct k v [] d = (refl, tt)
  insert-Distinct k v ((j, w) ∷ m) d = ground (arith, insert-Distinct k v m, lookup-insert k j v m)

  pub remove-Distinct : (k : K) (m : Dict K V) → Distinct m → Distinct (remove k m)
  unfolding remove
  remove-Distinct k [] d = tt
  remove-Distinct k ((j, w) ∷ m) d = ground (arith, remove-Distinct k m, lookup-remove k j m)

  pub length-insert :
      (k : K) (v : V) (m : Dict K V)
      → length (insert k v m) ≡ elim (lookup k m) [ none ↦ length m + 1 | some w ↦ length m ]
  unfolding lookup insert
  length-insert k v [] = omega arith
  length-insert k v ((j, w) ∷ m) = ground (arith, length-insert k v m)

  pub map_values-Distinct : (f : V → V) (m : Dict K V) → Distinct m → Distinct (map_values f m)
  map_values-Distinct f [] d = tt
  map_values-Distinct f ((k, v) ∷ m) d =
      ground (arith, map_values-Distinct f m d.1, lookup-map_values f k m)

  lookup-retain-none :
      (p : V → Bool) (k : K) (m : Dict K V) → lookup k m ≡ none → lookup k (retain p m) ≡ none
  unfolding lookup
  lookup-retain-none p k [] h = refl
  lookup-retain-none p k ((j, v) ∷ m) h = ground (arith, lookup-retain-none p k m)

  -- Where no key stands twice, `retain` keeps an entry exactly when it passes the test.
  pub lookup-retain :
      (p : V → Bool) (k : K) (m : Dict K V)
      → Distinct m
      → lookup k (retain p m)
        ≡ elim (lookup k m) [ none ↦ none | some v ↦ elim (p v) [ true ↦ some v | false ↦ none ] ]
  unfolding lookup
  lookup-retain p k [] d = refl
  lookup-retain p k ((j, v) ∷ m) d =
      ground (arith, lookup-retain p k m d.1, lookup-retain-none p k m)
