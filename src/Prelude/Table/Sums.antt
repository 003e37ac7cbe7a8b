-- ===== src/Prelude/Table/Sums.antt =====
-- Sums of a column, under INSERT and UPDATE.
use mathlib.Core.Path.{◌≡◌, refl, ap}
use mathlib.Core.Logic.{inl, inr}
use mathlib.Core.Bool.{Bool}
use mathlib.Core.Option.{some}
use mathlib.Core.List.{List, [], ◌∷◌, ◌++◌, map}
use native.Mathlib.Omega.{arith}
use computation_market_poc.Prelude.Tests.{Bool-cases}
use computation_market_poc.Prelude.Int.{ℤ, pos, pos_part, neg_part, ◌+ℤ◌, int_laws}
use computation_market_poc.Prelude.Key.{Comparable, ◌==◌}
use computation_market_poc.Prelude.Table.Keys.{fetch, update, Distinct, update_missing}

module _ {ℓ} {A : Type ℓ} (f : A → ℤ) where
  -- `SUM(f)` over the rows.
  unfoldable pub sum_by : List A → ℤ
  sum_by [] = pos 0
  sum_by (r ∷ rs) = f r +ℤ sum_by rs

  pub sum_by-append : (rs ss : List A) → sum_by (rs ++ ss) ≡ sum_by rs +ℤ sum_by ss
  unfolding sum_by
  sum_by-append [] ss = omega int_laws
  sum_by-append (r ∷ rs) ss = rw (sum_by-append rs ss) (omega int_laws)

  -- An update of other columns leaves the sum alone.
  pub sum_by-update_same :
      (p : A → Bool) (g : A → A)
      → ((a : A) → f (g a) ≡ f a)
      → (rs : List A) → sum_by (update p g rs) ≡ sum_by rs
  unfolding sum_by update
  sum_by-update_same p g same [] = refl
  sum_by-update_same p g same (r ∷ rs) = ground (arith, same r, sum_by-update_same p g same rs)

module _ {ℓ κ} {A : Type ℓ} {K : Type κ} ⦃e : Comparable K⦄ (key : A → K) (f : A → ℤ) where
  -- An update of the one row with a key moves the sum by that row's change.
  pub sum_by-update_key :
      (k : K) (g : A → A) (rs : List A) (a : A)
      → Distinct (map key rs)
      → fetch (λ b. key b == k) rs ≡ some a
      → sum_by f (update (λ b. key b == k) g rs) +ℤ f a ≡ sum_by f rs +ℤ f (g a)
  unfolding sum_by update fetch
  sum_by-update_key k g [] a d h = cc
  sum_by-update_key k g (r ∷ rs) a d h = elim (Bool-cases (key r == k)) [
    | inl hit ↦
        let same : key r ≡ k = (e.same_iff (key r) k).0 hit in
        let found : r ≡ a = ground arith in
        rw (hit, update_missing key k g rs (rw (← same) d.0), found) (omega int_laws)
    | inr miss ↦
        let rest = sum_by-update_key k g rs a d.1 (ground arith) in
        rw miss (omega (int_laws, ap pos_part rest, ap neg_part rest))
  ]
