-- ===== src/Sharing.antt =====
-- src/core/schemes/src/dl_schemes/common.rs: Shamir's secret sharing, the evaluation of polynomials and
-- the interpolation of shares. A result of `none` is a panic.
pub mod Horner
pub mod Coefficients
pub mod Lagrange
pub mod Interpolation
pub mod Recover
use quorumcrypt.Algebra.{Scalars, GroupOperations, ◌⊕◌, ◌⊗◌}
use quorumcrypt.Base.{
  ℕ, zero, suc, ◌+◌, ◌-◌, ◌^◌, ◌==◌, Option, none, some, List, [], ◌∷◌, ◌++◌, map, length, ltb,
  if◌then◌else◌,
}

-- The numbers of a range `1..n + 1`.
abbrev pub range_from : ℕ → ℕ → List ℕ
range_from j zero = []
range_from j (suc n) = j ∷ range_from (suc j) n

module _ {F : Type 0} ⦃s : Scalars F⦄ where
  -- The loop of `horner` on the coefficients that are left.
  unfoldable pub horner_loop : F → F → List F → F
  horner_loop x result [] = result
  horner_loop x result (c ∷ cs) = horner_loop x (result ⊗ x ⊕ c) cs

  unfoldable pub horner : F → List F → Option F
  unfolding horner_loop
  horner x [] = none
  horner x (c ∷ cs) = some (horner_loop x c cs)

  -- The loop of `eval_pol`, whose exponent is the number of coefficients that follow, and the last
  -- coefficient.
  unfoldable pub eval_loop : F → F → F → List F → F
  eval_loop x val c [] = val ⊕ c
  eval_loop x val c (d ∷ cs) = eval_loop x (val ⊕ c ⊗ s.pow_mod x (length (d ∷ cs))) d cs

  unfoldable pub eval_pol : F → List F → Option F
  unfolding eval_loop
  eval_pol x [] = none
  eval_pol x (c ∷ cs) = some (eval_loop x s.nought c cs)

  -- Random numbers are the values of `rng`.
  abbrev pub draw : (ℕ → F) → ℕ → ℕ → List F
  draw rng i zero = []
  draw rng i (suc n) = rng i ∷ draw rng (suc i) n

  -- The difference of `j` and `i`, which differ.
  abbrev pub difference : ℕ → ℕ → F
  difference j i = if ltb j i then s.sub s.order (s.new_int (i - j)) else s.new_int (j - i)

  unfoldable pub lagrange_loop : ℕ → F → List ℕ → F
  lagrange_loop i prod [] = prod
  lagrange_loop i prod (j ∷ indices) =
      lagrange_loop i (if i == j then prod else prod ⊗ (s.inv_mod (difference j i) ⊗ s.new_int j))
        indices

  unfoldable pub lagrange_coeff : List ℕ → ℕ → F
  unfolding lagrange_loop
  lagrange_coeff indices i = lagrange_loop i s.one indices

-- `DlShare`: the id and the group element of a share.
pub record DlShare (T G : Type 0) : Type 0 where
  pub get_id : T → ℕ
  pub get_data : T → G

module _ {F G : Type 0} ⦃s : Scalars F⦄ (g : GroupOperations F G s) where
  -- The shares for a list of ids, and their verification keys.
  unfoldable pub share_out : List F → List ℕ → Option (List F × List G)
  unfolding horner_loop
  share_out [] ids = none
  share_out (c ∷ cs) ids =
      let shares = map (λ j. horner_loop (s.new_int j) c cs) ids in
      some (shares, map (λ xi. g.pow g.new xi) shares)

  -- The secret is the last coefficient. For `k` zero the subtraction `k - 1` of 64 bits wraps around, as
  -- it does where overflow is not checked.
  unfoldable pub shamir_share : F → ℕ → ℕ → (ℕ → F) → Option (List F × List G)
  unfolding share_out
  shamir_share x zero n rng = share_out (draw rng 0 (2 ^ 64 - 1) ++ (x ∷ [])) (range_from 1 n)
  shamir_share x (suc k) n rng = share_out (draw rng 0 k ++ (x ∷ [])) (range_from 1 n)

  module _ {T : Type 0} (d : DlShare T G) where
    -- The rounds after the first.
    unfoldable pub interpolate_loop : List ℕ → G → List T → G
    interpolate_loop ids ry [] = ry
    interpolate_loop ids ry (x ∷ shares) =
        interpolate_loop ids (g.mul ry (g.pow (d.get_data x) (lagrange_coeff ids (d.get_id x))))
          shares

    unfoldable pub interpolate : List T → Option G
    unfolding interpolate_loop
    interpolate [] = none
    interpolate (x ∷ shares) =
        let ids = map d.get_id (x ∷ shares) in
        some (interpolate_loop ids (g.pow (d.get_data x) (lagrange_coeff ids (d.get_id x))) shares)
