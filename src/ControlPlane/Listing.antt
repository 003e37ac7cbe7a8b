-- ===== src/ControlPlane/Listing.antt =====
-- The sort and the cut of `offers` in routes/tenant.rs, on rows of any kind.
pub mod Offers
pub mod Matching
use Prim.Native.Nat.{min}
use computation_market_poc.Prelude.{
  ℕ, zero, suc, ◌+◌, ◌≤◌, ◌≡◌, ◌↔◌, ◌⊎◌, refl, sym, ◌∙◌, ap, Bool, true, false, not, ◌&&◌, String,
  List, [], ◌∷◌, Option, none, some, is_some, if◌then◌else◌, Bool-cases, inl, inr, arith,
}
use computation_market_poc.Prelude.Int.{ℤ, pos, pos_part, leb_ℤ, max_ℤ, min_ℤ}
use computation_market_poc.Prelude.Key.{◌==◌, string_eq}
use computation_market_poc.Prelude.Table.{All, select, fetch, count}
use computation_market_poc.Core.Api.{F64}
use computation_market_poc.ControlPlane.Db.{Db, MachineRow}
use computation_market_poc.ControlPlane.Routes.Tenant.{
  OffersQuery, insert_sorted, order_by, take, is_offered, sorts_before, value_of, offered_machines,
  clamped_limit, occupies,
}

module _ {A : Type 0} where
  -- Each row stands in this relation to the next one.
  abbrev pub Chain : (A → A → Type 0) → List A → Type 0
  Chain R [] = Unit
  Chain R (a ∷ []) = Unit
  Chain R (a ∷ b ∷ rows) = R a b × Chain R (b ∷ rows)

  pub Chain-map :
      {R S : A → A → Type 0}
      → ((a b : A) → R a b → S a b)
      → (rows : List A) → Chain R rows
      → Chain S rows
  Chain-map f [] h = tt
  Chain-map f (a ∷ []) h = tt
  Chain-map f (a ∷ b ∷ rows) h = (f a b h.0, Chain-map f (b ∷ rows) h.1)

  -- Each row comes no later than the next one.
  abbrev pub Ordered : (A → A → Bool) → List A → Type 0
  Ordered before = Chain (λ a b. before a b ≡ true)

  -- The row is one of these.
  abbrev pub Member : A → List A → Type 0
  Member a [] = ⊥
  Member a (b ∷ rows) = (a ≡ b) ⊎ Member a rows

  module _ (p : A → Bool) (a : A) where
    selected_out : (rows : List A) → Member a (select p rows) → Member a rows × (p a ≡ true)
    unfolding select
    selected_out [] there = absurd there
    selected_out (b ∷ rows) there = elim (Bool-cases (p b)) [
      | inr miss ↦ let (later, passes) = selected_out rows (rw miss at there) in (inr later, passes)
      | inl hit ↦
          let split : (a ≡ b) ⊎ Member a (select p rows) = rw hit at there in
          elim split [
            | inl same ↦ (inl same, rw same hit)
            | inr later ↦ let (there', passes) = selected_out rows later in (inr there', passes)
          ]
    ]

    selected_in : (rows : List A) → Member a rows → p a ≡ true → Member a (select p rows)
    unfolding select
    selected_in [] there passes = absurd there
    selected_in (b ∷ rows) (inl same) passes =
        let hit : p b ≡ true = rw (← same) passes in rw hit (inl same)
    selected_in (b ∷ rows) (inr later) passes = elim (Bool-cases (p b)) [
      | inl hit ↦ rw hit (inr (selected_in rows later passes))
      | inr miss ↦ rw miss (selected_in rows later passes)
    ]

    pub Member-select : (rows : List A) → Member a (select p rows) ↔ (Member a rows × (p a ≡ true))
    Member-select rows = (selected_out rows, λ h. selected_in rows h.0 h.1)

  abbrev pub length : List A → ℕ
  length [] = 0
  length (a ∷ rows) = suc (length rows)

  module _ (before : A → A → Bool) where
    All-insert_sorted :
        (P : A → Type 0) (a : A) (rows : List A)
        → P a
        → All P rows
        → All P (insert_sorted before a rows)
    unfolding insert_sorted
    All-insert_sorted P a [] p h = (p, tt)
    All-insert_sorted P a (b ∷ rows) p h = elim (Bool-cases (before a b)) [
      | inl here ↦ rw here (p, h)
      | inr later ↦ rw later (h.0, All-insert_sorted P a rows p h.1)
    ]

    pub All-order_by : (P : A → Type 0) (rows : List A) → All P rows → All P (order_by before rows)
    unfolding order_by
    All-order_by P [] h = tt
    All-order_by P (a ∷ rows) h =
        All-insert_sorted P a (order_by before rows) h.0 (All-order_by P rows h.1)

    Member-insert_sorted :
        (c a : A) (rows : List A)
        → Member c (insert_sorted before a rows) ↔ ((c ≡ a) ⊎ Member c rows)
    unfolding insert_sorted
    Member-insert_sorted c a [] = (λ h. h, λ h. h)
    Member-insert_sorted c a (b ∷ rows) = elim (Bool-cases (before a b)) [
      | inl here ↦ rw here (λ h. h, λ h. h)
      | inr later ↦
          let (out, into) = Member-insert_sorted c a rows in
          rw later (
            λ h. elim h [
              | inl same ↦ inr (inl same)
              | inr there ↦ elim (out there) [ inl same ↦ inl same | inr there' ↦ inr (inr there') ]
            ],
            λ h. elim h [
              | inl same ↦ inr (into (inl same))
              | inr there ↦ elim there [
                | inl same ↦ inl same
                | inr there' ↦ inr (into (inr there'))
              ]
            ],
          )
    ]

    -- Sorting keeps the rows.
    pub Member-order_by : (c : A) (rows : List A) → Member c (order_by before rows) ↔ Member c rows
    unfolding order_by
    Member-order_by c [] = (λ h. h, λ h. h)
    Member-order_by c (a ∷ rows) =
        let (out, into) = Member-order_by c rows in
        let (out_first, into_first) = Member-insert_sorted c a (order_by before rows) in
        (
          λ h. elim (out_first h) [ inl same ↦ inl same | inr there ↦ inr (out there) ],
          λ h. elim h [
            | inl same ↦ into_first (inl same)
            | inr there ↦ into_first (inr (into there))
          ],
        )

    module _ (total : (a b : A) → before a b ≡ false → before b a ≡ true) where
      -- What follows `b` after the insertion.
      insert_after :
          (b a : A) (rows : List A)
          → before b a ≡ true
          → Ordered before (b ∷ rows)
          → Ordered before (b ∷ insert_sorted before a rows)
      unfolding insert_sorted
      insert_after b a [] first h = (first, tt)
      insert_after b a (c ∷ rows) first h = elim (Bool-cases (before a c)) [
        | inl here ↦ rw here (first, (here, h.1))
        | inr later ↦ rw later (h.0, insert_after c a rows (total a c later) h.1)
      ]

      Ordered-insert_sorted :
          (a : A) (rows : List A)
          → Ordered before rows
          → Ordered before (insert_sorted before a rows)
      unfolding insert_sorted
      Ordered-insert_sorted a [] h = tt
      Ordered-insert_sorted a (b ∷ rows) h = elim (Bool-cases (before a b)) [
        | inl here ↦ rw here (here, h)
        | inr later ↦ rw later (insert_after b a rows (total a b later) h)
      ]

      pub Ordered-order_by : (rows : List A) → Ordered before (order_by before rows)
      unfolding order_by
      Ordered-order_by [] = tt
      Ordered-order_by (a ∷ rows) =
          Ordered-insert_sorted a (order_by before rows) (Ordered-order_by rows)

    pub Ordered-take : (n : ℕ) (rows : List A) → Ordered before rows → Ordered before (take n rows)
    unfolding take
    Ordered-take zero rows h = tt
    Ordered-take (suc n) [] h = tt
    Ordered-take (suc zero) (a ∷ rows) h = tt
    Ordered-take (suc (suc n)) (a ∷ []) h = tt
    Ordered-take (suc (suc n)) (a ∷ b ∷ rows) h = (h.0, Ordered-take (suc n) (b ∷ rows) h.1)

  pub All-take : (P : A → Type 0) (n : ℕ) (rows : List A) → All P rows → All P (take n rows)
  unfolding take
  All-take P zero rows h = tt
  All-take P (suc n) [] h = tt
  All-take P (suc n) (a ∷ rows) h = (h.0, All-take P n rows h.1)

  pub length-take : (n : ℕ) (rows : List A) → length (take n rows) ≡ min n (length rows)
  unfolding take
  length-take zero rows = omega arith
  length-take (suc n) [] = omega arith
  length-take (suc n) (a ∷ rows) = rw (length-take n rows) (omega arith)

  pub take_all : (n : ℕ) (rows : List A) → length rows ≤ n → take n rows ≡ rows
  unfolding take
  take_all zero [] h = refl
  take_all zero (a ∷ rows) h = absurd (omega (arith, h))
  take_all (suc n) [] h = refl
  take_all (suc n) (a ∷ rows) h = ap (λ rest. a ∷ rest) (take_all n rows (omega (arith, h)))
