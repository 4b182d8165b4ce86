-- ===== src/Protocols/Frost/Entries.antt =====
-- The entries of one server in the commitments and shares that the FROST protocol
-- (src/core/protocols/src/frost/protocol.rs) keeps.
use quorumcrypt.Base.Dict.{Dict, insert, contains_key, lookup-insert}
use quorumcrypt.Base.{
  ℕ, ◌≡◌, ◌≢◌, refl, sym, Bool, true, false, not, ◌&&◌, List, [], ◌∷◌, arith, contains, ℕ_discrete,
  ite, ◌==◌, if◌then◌else◌,
}
use quorumcrypt.Protocols.Collect.{insert_id}
use quorumcrypt.Protocols.Frost.{remove_id, is_empty, has_all}

-- For one id: is it a signer's, is there a commitment, is there a share, is the share unverified.
-- Only signers have any; a share is marked as unverified exactly while its commitment is missing.
abbrev pub IsValidAt : Bool → Bool → Bool → Bool → Type 0
IsValidAt true c x n = n ≡ x && not c
IsValidAt false c x n = (c ≡ false) × (x ≡ false) × (n ≡ false)

bool_clash : false ≢ true
bool_clash h = ground arith

module _ {A : Type 0} where
  pub IsValidAt-unverified :
      (d : Dec A) (s c x n : Bool)
      → (A → s ≡ true)
      → (A → c ≡ false)
      → IsValidAt s c x n
      → IsValidAt s c (ite d true x) (ite d true n)
  IsValidAt-unverified (yes a) s c x n hs hc v = rw (hs a, hc a) refl
  IsValidAt-unverified (no f) s c x n hs hc v = v

  pub IsValidAt-verified :
      (d : Dec A) (s c x n : Bool)
      → (A → s ≡ true)
      → (A → c ≡ true)
      → IsValidAt s c x n
      → IsValidAt s c (ite d true x) n
  IsValidAt-verified (yes a) true true x n hs hc v = ground arith
  IsValidAt-verified (yes a) true false x n hs hc v = absurd (bool_clash (hc a))
  IsValidAt-verified (yes a) false c x n hs hc v = absurd (bool_clash (hs a))
  IsValidAt-verified (no f) s c x n hs hc v = v

  pub IsValidAt-late :
      (d : Dec A) (s c x n : Bool)
      → (A → s ≡ true)
      → IsValidAt s c x n
      → IsValidAt s (ite d true c) (ite d true x) (ite d false n)
  IsValidAt-late (yes a) s c x n hs v = rw (hs a) refl
  IsValidAt-late (no f) s c x n hs v = v

  pub IsValidAt-early :
      (d : Dec A) (s c x n : Bool)
      → (A → s ≡ true)
      → (A → x ≡ false)
      → IsValidAt s c x n
      → IsValidAt s (ite d true c) x n
  IsValidAt-early (yes a) true c false n hs hx v = v
  IsValidAt-early (yes a) true c true n hs hx v = absurd (bool_clash (sym (hx a)))
  IsValidAt-early (yes a) false c x n hs hx v = absurd (bool_clash (hs a))
  IsValidAt-early (no f) s c x n hs hx v = v

pub contains-remove_id :
    (i j : ℕ) (l : List ℕ)
    → contains ℕ_discrete i (remove_id j l) ≡ ite (ℕ_discrete i j) false (contains ℕ_discrete i l)
contains-remove_id i j [] = ground arith
contains-remove_id i j (k ∷ l) = ground (arith, contains-remove_id i j l)

pub contains-insert_id :
    (i j : ℕ) (l : List ℕ)
    → contains ℕ_discrete i (insert_id j l) ≡ ite (ℕ_discrete i j) true (contains ℕ_discrete i l)
contains-insert_id i j l = ground arith

pub contains_key-insert :
    {V : Type 0} (i j : ℕ) (v : V) (m : Dict ℕ V)
    → contains_key ℕ_discrete i (insert ℕ_discrete j v m)
      ≡ ite (ℕ_discrete i j) true (contains_key ℕ_discrete i m)
contains_key-insert i j v m = ground (arith, lookup-insert ℕ_discrete j i v m)

pub has_all-lookup :
    {V : Type 0} (group : List ℕ) (m : Dict ℕ V) (i : ℕ)
    → has_all group m ≡ true
    → contains ℕ_discrete i group ≡ true
    → contains_key ℕ_discrete i m ≡ true
has_all-lookup [] m i h k = absurd (bool_clash k)
has_all-lookup (j ∷ js) m i h k = ground (arith, has_all-lookup js m i)

pub is_empty-contains : (l : List ℕ) (i : ℕ) → is_empty l ≡ true → contains ℕ_discrete i l ≡ false
is_empty-contains [] i h = refl
is_empty-contains (j ∷ js) i h = absurd (bool_clash h)

pub commitment_there :
    (s c x n : Bool) → IsValidAt s c x n → s ≡ true → x ≡ true → n ≡ false → c ≡ true
commitment_there true true x n v s y z = refl
commitment_there true false x n v s y z = ground arith
commitment_there false c x n v s y z = absurd (bool_clash s)

pub ready_parts :
    (a b : ℕ) (e h : Bool)
    → (if (a == b) && e then h else false) ≡ true
    → (a ≡ b) × (e ≡ true) × (h ≡ true)
ready_parts a b true true h = ground arith
ready_parts a b true false h = ground arith
ready_parts a b false hs h = ground arith
