-- ===== src/Prelude/Table/Keys.antt =====
-- SELECT and UPDATE over the rows of a table, and its keys.
use mathlib.Core.Path.{◌≡◌, refl, sym}
use mathlib.Core.Logic.{inl, inr}
use mathlib.Core.Bool.{Bool, true, false, ◌||◌}
use mathlib.Core.Option.{Option, none, some}
use mathlib.Core.Option
use mathlib.Core.List.{List, [], ◌∷◌, ◌++◌, map}
use native.Mathlib.Omega.{arith}
use computation_market_poc.Prelude.Tests.{if◌then◌else◌, Bool-cases, is_some}
use computation_market_poc.Prelude.Key.{Comparable, ◌==◌, ==_refl}

module _ {ℓ} {A : Type ℓ} where
  -- `SELECT * … WHERE p`, `fetch_all`.
  unfoldable pub select : (A → Bool) → List A → List A
  select p [] = []
  select p (r ∷ rs) = let rest = select p rs in if p r then r ∷ rest else rest

  -- `SELECT * … WHERE p`, `fetch_optional`: the first row.
  unfoldable pub fetch : (A → Bool) → List A → Option A
  fetch p [] = none
  fetch p (r ∷ rs) = if p r then some r else fetch p rs

  -- `UPDATE … SET f WHERE p`.
  unfoldable pub update : (A → Bool) → (A → A) → List A → List A
  update p f [] = []
  update p f (r ∷ rs) = (if p r then f r else r) ∷ update p f rs

  -- Every row satisfies `P`.
  abbrev pub All {κ} : (A → Type κ) → List A → Type κ
  All P [] = Unit
  All P (r ∷ rs) = P r × All P rs

module _ {ℓ} {A : Type ℓ} where
  pub fetch-append_none :
      (p : A → Bool) (rs : List A) (a : A)
      → fetch p rs ≡ none
      → fetch p (rs ++ a ∷ []) ≡ (if p a then some a else none)
  unfolding fetch
  fetch-append_none p [] a h = refl
  fetch-append_none p (r ∷ rs) a h = ground (arith, fetch-append_none p rs a)

  pub fetch-append_some :
      (p : A → Bool) (rs ss : List A) (a : A) → fetch p rs ≡ some a → fetch p (rs ++ ss) ≡ some a
  unfolding fetch
  fetch-append_some p [] ss a h = cc
  fetch-append_some p (r ∷ rs) ss a h = ground (arith, fetch-append_some p rs ss a)

  -- A row that is found passes the test.
  pub fetch_passes : (p : A → Bool) (rs : List A) (a : A) → fetch p rs ≡ some a → p a ≡ true
  unfolding fetch
  fetch_passes p [] a h = cc
  fetch_passes p (r ∷ rs) a h = ground (arith, fetch_passes p rs a)

  -- An update that leaves the test alone changes the row that is found, if it meets it.
  pub fetch-update :
      (q p : A → Bool) (f : A → A)
      → ((a : A) → q (f a) ≡ q a)
      → (rs : List A)
      → fetch q (update p f rs) ≡ Option.map (λ a. if p a then f a else a) (fetch q rs)
  unfolding fetch update
  fetch-update q p f same [] = refl
  fetch-update q p f same (r ∷ rs) = ground (arith, same r, fetch-update q p f same rs)

  pub select-update_same :
      (q p : A → Bool) (f : A → A)
      → ((a : A) → p a ≡ true → q a ≡ false)
      → ((a : A) → p a ≡ true → q (f a) ≡ false)
      → (rs : List A) → select q (update p f rs) ≡ select q rs
  unfolding select update
  select-update_same q p f out out' [] = refl
  select-update_same q p f out out' (r ∷ rs) =
      ground (arith, out r, out' r, select-update_same q p f out out' rs)

  pub map-update {κ} :
      {K : Type κ} (key : A → K) (p : A → Bool) (f : A → A)
      → ((a : A) → key (f a) ≡ key a)
      → (rs : List A) → map key (update p f rs) ≡ map key rs
  unfolding update
  map-update key p f same [] = refl
  map-update key p f same (r ∷ rs) = ground (arith, same r, map-update key p f same rs)

module _ {ℓ κ} {A : Type ℓ} (P : A → Type κ) where
  pub All-append : (rs : List A) {a : A} → All P rs → P a → All P (rs ++ a ∷ [])
  All-append [] h p = (p, tt)
  All-append (r ∷ rs) h p = (h.0, All-append rs h.1 p)

  pub All-update :
      (p : A → Bool) (f : A → A)
      → ((a : A) → p a ≡ true → P a → P (f a))
      → (rs : List A) → All P rs
      → All P (update p f rs)
  unfolding update
  All-update p f keep [] h = tt
  All-update p f keep (r ∷ rs) h = elim (Bool-cases (p r)) [
    | inl hit ↦ rw hit (keep r hit h.0, All-update p f keep rs h.1)
    | inr miss ↦ rw miss (h.0, All-update p f keep rs h.1)
  ]

  pub All-fetch : (p : A → Bool) (rs : List A) (a : A) → All P rs → fetch p rs ≡ some a → P a
  unfolding fetch
  All-fetch p [] a h e = cc
  All-fetch p (r ∷ rs) a h e = elim (Bool-cases (p r)) [
    | inl hit ↦ let e' : r ≡ a = ground arith in rw (← e') h.0
    | inr miss ↦ All-fetch p rs a h.1 (ground arith)
  ]

  pub All-select : (p : A → Bool) (rs : List A) → All P rs → All P (select p rs)
  unfolding select
  All-select p [] h = tt
  All-select p (r ∷ rs) h = elim (Bool-cases (p r)) [
    | inl hit ↦ rw hit (h.0, All-select p rs h.1)
    | inr miss ↦ rw miss (All-select p rs h.1)
  ]

  pub All-map {μ} : {Q : A → Type μ} → ((a : A) → P a → Q a) → (rs : List A) → All P rs → All Q rs
  All-map f [] h = tt
  All-map f (r ∷ rs) h = (f r h.0, All-map f rs h.1)

module _ {κ} {K : Type κ} ⦃e : Comparable K⦄ where
  abbrev pub contains : K → List K → Bool
  contains k [] = false
  contains k (j ∷ ks) = j == k || contains k ks

  -- A key stands in one row at most.
  abbrev pub Distinct : List K → Type 0
  Distinct [] = Unit
  Distinct (k ∷ ks) = (contains k ks ≡ false) × Distinct ks

  ==_sym : (a b : K) → (a == b) ≡ false → (b == a) ≡ false
  ==_sym a b h = elim (Bool-cases (b == a)) [
    | inl t ↦ let t' : (a == b) ≡ true = (e.same_iff a b).1 (sym ((e.same_iff b a).0 t)) in cc
    | inr f ↦ f
  ]

  contains-append :
      (k j : K) (ks : List K)
      → contains k ks ≡ false
      → (j == k) ≡ false
      → contains k (ks ++ j ∷ []) ≡ false
  contains-append k j [] h n = ground arith
  contains-append k j (i ∷ ks) h n = ground (arith, contains-append k j ks)

  pub Distinct-append :
      (k : K) (ks : List K) → Distinct ks → contains k ks ≡ false → Distinct (ks ++ k ∷ [])
  Distinct-append k [] d h = (refl, tt)
  Distinct-append k (j ∷ ks) d h = (
    contains-append j k ks d.0 (==_sym j k (ground arith)),
    Distinct-append k ks d.1 (ground arith),
  )

  pub contains-append_left :
      (k : K) (ks js : List K) → contains k ks ≡ true → contains k (ks ++ js) ≡ true
  contains-append_left k [] js h = cc
  contains-append_left k (i ∷ ks) js h = ground (arith, contains-append_left k ks js)

module _ {ℓ κ} {A : Type ℓ} {K : Type κ} ⦃e : Comparable K⦄ (key : A → K) where
  -- The test `WHERE key = k`.
  abbrev pub by_key : K → A → Bool
  by_key k a = key a == k

  pub fetch-contains :
      (k : K) (rs : List A) → is_some (fetch (λ a. key a == k) rs) ≡ contains k (map key rs)
  unfolding fetch
  fetch-contains k [] = refl
  fetch-contains k (r ∷ rs) = ground (arith, fetch-contains k rs)

  pub contains_of_fetch :
      (p : A → Bool) (rs : List A) (a : A)
      → fetch p rs ≡ some a
      → contains (key a) (map key rs) ≡ true
  unfolding fetch
  contains_of_fetch p [] a h = cc
  contains_of_fetch p (r ∷ rs) a h = ground (arith, contains_of_fetch p rs a, ==_refl (key a))

  -- A row that any query finds is the row of its own key.
  pub fetch_by_own_key :
      (p : A → Bool) (rs : List A) (a : A)
      → Distinct (map key rs)
      → fetch p rs ≡ some a
      → fetch (λ b. key b == key a) rs ≡ some a
  unfolding fetch
  fetch_by_own_key p [] a d h = cc
  fetch_by_own_key p (r ∷ rs) a d h = elim (Bool-cases (p r)) [
    | inl hit ↦ ground (arith, ==_refl (key a))
    | inr miss ↦
        ground
          (arith, contains_of_fetch p rs a, fetch_by_own_key p rs a d.1, e.same_iff (key r) (key a))
  ]

  -- An update by a key that no row has changes nothing.
  pub update_missing :
      (k : K) (g : A → A) (rs : List A)
      → contains k (map key rs) ≡ false
      → update (λ a. key a == k) g rs ≡ rs
  unfolding update
  update_missing k g [] h = refl
  update_missing k g (r ∷ rs) h = ground (arith, update_missing k g rs)

  -- The one row with a key satisfies what its new value does.
  pub All-update_key {μ} :
      (P : A → Type μ) (k : K) (g : A → A) (rs : List A) (a : A)
      → Distinct (map key rs)
      → fetch (λ b. key b == k) rs ≡ some a
      → P (g a)
      → All P rs
      → All P (update (λ b. key b == k) g rs)
  unfolding fetch update
  All-update_key P k g [] a d h p all = tt
  All-update_key P k g (r ∷ rs) a d h p all = elim (Bool-cases (key r == k)) [
    | inl hit ↦
        let same : key r ≡ k = (e.same_iff (key r) k).0 hit in
        let found : r ≡ a = ground arith in
        rw (hit, update_missing k g rs (rw (← same) d.0)) (rw found p, all.1)
    | inr miss ↦ rw miss (all.0, All-update_key P k g rs a d.1 (ground arith) p all.1)
  ]
