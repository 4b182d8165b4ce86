-- ===== src/Base/Lists.antt =====
-- Lists measured by native numbers, under the library's names.
use Prim.Native.Nat.{ℕ, zero, suc, ◌+◌, ◌-◌}
use mathlib.Core.List.{List, [], ◌∷◌, ◌++◌, map}
use mathlib.Core.Logic.{ite, ◌≢◌, ◌⊎◌}
use mathlib.Core.Bool.{Bool, true, false}
use mathlib.Core.Path.{◌≡◌, refl}
use native.Mathlib.Omega.{arith}

module _ {ℓ} {A : Type ℓ} where
  abbrev pub length : List A → ℕ
  length [] = 0
  length (x ∷ xs) = suc (length xs)

  abbrev pub take : ℕ → List A → List A
  take zero xs = []
  take (suc n) [] = []
  take (suc n) (x ∷ xs) = x ∷ take n xs

  abbrev pub drop : ℕ → List A → List A
  drop zero xs = xs
  drop (suc n) [] = []
  drop (suc n) (x ∷ xs) = drop n xs

  pub length-append : (xs ys : List A) → length (xs ++ ys) ≡ length xs + length ys
  length-append [] ys = omega arith
  length-append (x ∷ xs) ys = omega (arith, length-append xs ys)

pub length-map {ℓ κ} :
    {A : Type ℓ} {B : Type κ} (f : A → B) (xs : List A) → length (map f xs) ≡ length xs
length-map f [] = refl
length-map f (x ∷ xs) = omega (arith, length-map f xs)

module _ {A : Type 0} where
  -- `a` stands in the list. As a sum it is read by the tactics.
  abbrev pub Has : A → List A → Type 0
  Has a [] = ⊥
  Has a (x ∷ xs) = (a ≡ x) ⊎ Has a xs

module _ {A : Type 0} (dec : Discrete A) where
  -- How often `a` stands in a list.
  abbrev pub count : A → List A → ℕ
  count a [] = 0
  count a (x ∷ xs) = ite (dec x a) (suc (count a xs)) (count a xs)

  -- A list without the first `a` in it.
  abbrev pub remove_first : A → List A → List A
  remove_first a [] = []
  remove_first a (x ∷ xs) = ite (dec x a) xs (x ∷ remove_first a xs)

  abbrev pub contains : A → List A → Bool
  contains a [] = false
  contains a (x ∷ xs) = ite (dec x a) true (contains a xs)

  pub count-append : (a : A) (xs ys : List A) → count a (xs ++ ys) ≡ count a xs + count a ys
  count-append a [] ys = omega arith
  count-append a (x ∷ xs) ys = ground (arith, count-append a xs ys)

  pub count-remove_first_ne :
      (a b : A) (xs : List A) → a ≢ b → count b (remove_first a xs) ≡ count b xs
  count-remove_first_ne a b [] h = refl
  count-remove_first_ne a b (x ∷ xs) h = ground (arith, count-remove_first_ne a b xs h)

  pub count-remove_first_self : (a : A) (xs : List A) → count a (remove_first a xs) ≡ count a xs - 1
  count-remove_first_self a [] = refl
  count-remove_first_self a (x ∷ xs) = ground (arith, count-remove_first_self a xs)
