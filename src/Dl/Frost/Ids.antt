-- ===== src/Dl/Frost/Ids.antt =====
-- The ids of the commitments that src/core/schemes/src/dl_schemes/signatures/frost.rs sorts.
use quorumcrypt.Base.{
  ℕ, suc, length, ◌==◌, ◌≡◌, inl, inr, refl, sym, ap, ◌∙◌, List, [], ◌∷◌, map, arith, Has,
  Bool-cases, if_true, if_false,
}
use quorumcrypt.Dl.Frost.Order.{Reordered, same, skip, swap, chain}
use quorumcrypt.Dl.Frost.{PublicCommitment, commitment_for_participant}
use quorumcrypt.Errors.{ok}
use quorumcrypt.Protocols.Collect.Sound.{Every}
use quorumcrypt.Sharing.Coefficients.{eq-of}
use quorumcrypt.Sharing.Lagrange.{IsFresh, AreIds}
use mathlib.Core.List.{Perm}
use mathlib.Core.List.Perm

module _ {G : Type 0} where
  abbrev pub ids_of : List (PublicCommitment G) → List ℕ
  ids_of cs = map (λ c. c.id) cs

  pub Has-Reordered :
      {cs ds : List (PublicCommitment G)} (i : ℕ)
      → Reordered cs ds
      → Has i (ids_of cs)
      → Has i (ids_of ds)
  Has-Reordered i (same cs) h = h
  Has-Reordered i (skip c r) (inl e) = inl e
  Has-Reordered i (skip c r) (inr h) = inr (Has-Reordered i r h)
  Has-Reordered i (swap c d cs n) (inl e) = inr (inl e)
  Has-Reordered i (swap c d cs n) (inr (inl e)) = inl e
  Has-Reordered i (swap c d cs n) (inr (inr h)) = inr (inr h)
  Has-Reordered i (chain r t) h = Has-Reordered i t (Has-Reordered i r h)

  pub back : {cs ds : List (PublicCommitment G)} → Reordered cs ds → Reordered ds cs
  back (same cs) = same cs
  back (skip c r) = skip c (back r)
  back (swap c d cs n) = swap d c cs (λ e. n (sym e))
  back (chain r t) = chain (back t) (back r)

  IsFresh-Reordered :
      {cs ds : List (PublicCommitment G)} (i : ℕ)
      → Reordered cs ds
      → IsFresh i (ids_of cs)
      → IsFresh i (ids_of ds)
  unfolding IsFresh
  IsFresh-Reordered i (same cs) h = h
  IsFresh-Reordered i (skip c r) (n, h) = (n, IsFresh-Reordered i r h)
  IsFresh-Reordered i (swap c d cs n) (a, (b, h)) = (b, (a, h))
  IsFresh-Reordered i (chain r t) h = IsFresh-Reordered i t (IsFresh-Reordered i r h)

  pub AreIds-Reordered :
      {cs ds : List (PublicCommitment G)} (bound : ℕ)
      → Reordered cs ds
      → AreIds bound (ids_of cs)
      → AreIds bound (ids_of ds)
  unfolding AreIds IsFresh
  AreIds-Reordered bound (same cs) h = h
  AreIds-Reordered bound (skip c r) (l, f, h) =
      (l, IsFresh-Reordered c.id r f, AreIds-Reordered bound r h)
  AreIds-Reordered bound (swap c d cs n) (l, (m, f), (k, q, h)) =
      (k, ((λ e. m (sym e)), q), (l, f, h))
  AreIds-Reordered bound (chain r t) h = AreIds-Reordered bound t (AreIds-Reordered bound r h)

  pub ids_of-Perm :
      {cs ds : List (PublicCommitment G)} → Reordered cs ds → Perm (ids_of cs) (ids_of ds)
  ids_of-Perm (same cs) = Perm.refl _
  ids_of-Perm (skip c r) = Perm.cons c.id (ids_of-Perm r)
  ids_of-Perm (swap c d cs n) = Perm.swap d.id c.id (ids_of cs)
  ids_of-Perm (chain r t) = Perm.trans (ids_of-Perm r) (ids_of-Perm t)

  pub length-Reordered :
      {cs ds : List (PublicCommitment G)} → Reordered cs ds → length cs ≡ length ds
  length-Reordered (same cs) = refl
  length-Reordered (skip c r) = ap suc (length-Reordered r)
  length-Reordered (swap c d cs n) = refl
  length-Reordered (chain r t) = length-Reordered r ∙ length-Reordered t

  pub Has-commitment_for_participant :
      (cs : List (PublicCommitment G)) (i : ℕ) (c : PublicCommitment G)
      → commitment_for_participant cs i ≡ ok c
      → Has i (ids_of cs)
  unfolding commitment_for_participant
  Has-commitment_for_participant [] i c e = cc
  Has-commitment_for_participant (d ∷ cs) i c e = elim (Bool-cases (i == d.id)) [
    | inl q ↦ inl (eq-of i d.id q)
    | inr q ↦ inr (Has-commitment_for_participant cs i c (sym (if_false (i == d.id) _ _ q) ∙ e))
  ]

  found_here :
      (c : PublicCommitment G) (cs : List (PublicCommitment G))
      → commitment_for_participant (c ∷ cs) c.id ≡ ok c
  unfolding commitment_for_participant
  found_here c cs = if_true (c.id == c.id) _ _ (ground arith)

  found_later :
      (c : PublicCommitment G) (cs ds : List (PublicCommitment G))
      → IsFresh c.id (ids_of ds)
      → Every (λ d. commitment_for_participant cs d.id ≡ ok d) ds
      → Every (λ d. commitment_for_participant (c ∷ cs) d.id ≡ ok d) ds
  unfolding commitment_for_participant IsFresh
  found_later c cs [] f h = tt
  found_later c cs (d ∷ ds) (n, f) (e, h) =
      (if_false (d.id == c.id) _ _ (ground arith) ∙ e, found_later c cs ds f h)

  -- Where the ids differ, each commitment is found under its id.
  pub commitment_for_participant_self :
      (bound : ℕ) (cs : List (PublicCommitment G))
      → AreIds bound (ids_of cs)
      → Every (λ c. commitment_for_participant cs c.id ≡ ok c) cs
  unfolding AreIds
  commitment_for_participant_self bound [] a = tt
  commitment_for_participant_self bound (c ∷ cs) (l, f, a) =
      (found_here c cs, found_later c cs cs f (commitment_for_participant_self bound cs a))
