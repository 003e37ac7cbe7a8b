-- ===== src/Prelude/Table/Counts.antt =====
-- How many rows a query finds, under INSERT and UPDATE.
use Prim.Native.Nat.{ℕ, ◌+◌, ◌≤◌}
use mathlib.Core.Path.{◌≡◌, refl}
use mathlib.Core.Logic.{inl, inr}
use mathlib.Core.Bool.{Bool, true}
use mathlib.Core.Option.{none, some}
use mathlib.Core.List.{List, [], ◌∷◌, ◌++◌, map}
use native.Mathlib.Omega.{arith}
use computation_market_poc.Prelude.Tests.{if◌then◌else◌, Bool-cases}
use computation_market_poc.Prelude.Key.{Comparable, ◌==◌}
use computation_market_poc.Prelude.Table.Keys.{fetch, update, Distinct, update_missing}

module _ {ℓ} {A : Type ℓ} where
  -- `SELECT COUNT(*) WHERE p`
  unfoldable pub count : (A → Bool) → List A → ℕ
  count p [] = 0
  count p (r ∷ rs) = (if p r then 1 else 0) + count p rs

  pub count-append : (p : A → Bool) (rs ss : List A) → count p (rs ++ ss) ≡ count p rs + count p ss
  unfolding count
  count-append p [] ss = omega arith
  count-append p (r ∷ rs) ss = rw (count-append p rs ss) (omega arith)

  pub count_of_fetch : (p : A → Bool) (rs : List A) → fetch p rs ≡ none → count p rs ≡ 0
  unfolding count fetch
  count_of_fetch p [] h = refl
  count_of_fetch p (r ∷ rs) h = ground (arith, count_of_fetch p rs)

  -- An update that lets no row in keeps the count down.
  pub count-update :
      (q p : A → Bool) (f : A → A) (rs : List A)
      → ((a : A) → p a ≡ true → q (f a) ≡ true → q a ≡ true)
      → count q (update p f rs) ≤ count q rs
  unfolding count update
  count-update q p f [] h = omega arith
  count-update q p f (r ∷ rs) h = ground (arith, h r, count-update q p f rs)

module _ {ℓ κ} {A : Type ℓ} {K : Type κ} ⦃e : Comparable K⦄ (key : A → K) where
  -- The one row with a key was counted before.
  pub count-update_row :
      (q : A → Bool) (k : K) (f : A → A) (rs : List A) (a : A)
      → Distinct (map key rs)
      → fetch (λ b. key b == k) rs ≡ some a
      → (q (f a) ≡ true → q a ≡ true)
      → count q (update (λ b. key b == k) f rs) ≤ count q rs
  unfolding count update fetch
  count-update_row q k f [] a d found h = omega arith
  count-update_row q k f (r ∷ rs) a d found h = elim (Bool-cases (key r == k)) [
    | inl hit ↦
        let same : key r ≡ k = (e.same_iff (key r) k).0 hit in
        let first : r ≡ a = ground arith in
        let kept : q (f r) ≡ true → q r ≡ true = rw first h in
        rw (hit, update_missing key k f rs (rw (← same) d.0)) (ground (arith, kept))
    | inr miss ↦
        rw miss (let rest = count-update_row q k f rs a d.1 (ground arith) h in omega (arith, rest))
  ]
