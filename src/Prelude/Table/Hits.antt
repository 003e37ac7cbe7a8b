-- ===== src/Prelude/Table/Hits.antt =====
-- The row that a query finds, after an update.
use mathlib.Core.Path.{◌≡◌, refl}
use mathlib.Core.Logic.{inl, inr}
use mathlib.Core.Bool.{Bool, true, false}
use mathlib.Core.Option.{some}
use mathlib.Core.List.{List, [], ◌∷◌}
use native.Mathlib.Omega.{arith}
use computation_market_poc.Prelude.Tests.{Bool-cases}
use computation_market_poc.Prelude.Table.Keys.{fetch, update}

module _ {ℓ} {A : Type ℓ} where
  -- An update by the query itself changes the row that is found.
  pub fetch-update_hit :
      (p : A → Bool) (f : A → A) (rs : List A) (a : A)
      → ((b : A) → p (f b) ≡ p b)
      → fetch p rs ≡ some a
      → fetch p (update p f rs) ≡ some (f a)
  unfolding fetch update
  fetch-update_hit p f [] a same h = cc
  fetch-update_hit p f (r ∷ rs) a same h = ground (arith, same r, fetch-update_hit p f rs a same)

  -- An update of rows that the query does not find leaves its answer alone.
  pub fetch-update_miss :
      (q p : A → Bool) (f : A → A) (rs : List A)
      → ((b : A) → p b ≡ true → q b ≡ false)
      → ((b : A) → p b ≡ true → q (f b) ≡ false)
      → fetch q (update p f rs) ≡ fetch q rs
  unfolding fetch update
  fetch-update_miss q p f [] out out' = refl
  fetch-update_miss q p f (r ∷ rs) out out' =
      ground (arith, out r, out' r, fetch-update_miss q p f rs out out')

  -- If an update makes `P` true of every row that the query finds, what it finds later satisfies `P`.
  pub fetch-update_every {κ} :
      (q p : A → Bool) (f : A → A) (P : A → Type κ) (rs : List A) (a : A)
      → ((b : A) → q (f b) ≡ q b)
      → ((b : A) → q b ≡ true → p b ≡ true)
      → ((b : A) → P (f b))
      → fetch q (update p f rs) ≡ some a
      → P a
  unfolding fetch update
  fetch-update_every q p f P [] a same hits made h = cc
  fetch-update_every q p f P (r ∷ rs) a same hits made h = elim (Bool-cases (q r)) [
    | inl hit ↦ let e : f r ≡ a = ground (arith, same r, hits r) in rw (← e) (made r)
    | inr miss ↦ fetch-update_every q p f P rs a same hits made (ground (arith, same r))
  ]
