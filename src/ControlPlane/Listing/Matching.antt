-- ===== src/ControlPlane/Listing/Matching.antt =====
-- The WHERE clause of `offers` in routes/tenant.rs, and what it asks of a machine.
use Prim.Native.String
use computation_market_poc.Prelude.{
  ℕ, ◌≡◌, refl, sym, ◌↔◌, ◌∙◌, Bool, true, not, ◌&&◌, String, List, [], ◌∷◌, Option, none, some,
  is_some, Bool-cases, inl, inr, arith,
}
use computation_market_poc.Prelude.Int.{ℤ, ◌≤ℤ◌, leb_ℤ}
use computation_market_poc.Prelude.Key.{string_eq, nat_eq}
use computation_market_poc.Prelude.Table.{All, fetch}
use computation_market_poc.Core.Api.{F64}
use computation_market_poc.Core.Model.{is_terminal}
use computation_market_poc.ControlPlane.Db.{Db, MachineRow, RentalRow}
use computation_market_poc.ControlPlane.Exclusion.{occupies_lem}
use computation_market_poc.ControlPlane.Routes.Tenant.{OffersQuery, is_offered, occupies, clause}

pub leb_iff : (a b : ℤ) → (leb_ℤ a b ≡ true) ↔ (a ≤ℤ b)
leb_iff a b = (λ h. ground arith, λ h. ground arith)

-- What is asked of a parameter that is given.
abbrev pub Given : {A : Type 0} → Option A → (A → Type 0) → Type 0
Given none P = Unit
Given (some a) P = P a

clause_iff :
    {A : Type 0} (o : Option A) (p : A → Bool) (P : A → Type 0)
    → ((a : A) → (p a ≡ true) ↔ P a)
    → (clause o p ≡ true) ↔ Given o P
clause_iff none p P same = (λ _. tt, λ _. refl)
clause_iff (some a) p P same = same a

-- Every rental of this machine is over.
abbrev pub Idle : ℕ → List RentalRow → Type 0
Idle machine = All (λ r. r.machine_id ≡ machine → is_terminal r.status ≡ true)

no_row_iff :
    (machine : ℕ) (rentals : List RentalRow)
    → (fetch (occupies machine) rentals ≡ none) ↔ Idle machine rentals
unfolding fetch
no_row_iff machine [] = (λ _. tt, λ _. refl)
no_row_iff machine (r ∷ rentals) =
    let (out, into) = no_row_iff machine rentals in
    elim (Bool-cases (occupies machine r)) [
      | inl busy ↦
          let open_row = sym (occupies_lem machine r) ∙ busy in
          (
            λ none_found. let bad = rw busy at none_found in cc,
            λ idle. let over = idle.0 in absurd (ground (arith, over)),
          )
      | inr free ↦
          let over : r.machine_id ≡ machine → is_terminal r.status ≡ true =
            λ same. let row = sym (occupies_lem machine r) ∙ free in ground arith in
          (λ none_found. (over, out (rw free at none_found)), λ idle. rw free (into idle.1))
    ]

none_iff : {A : Type 0} (o : Option A) → (not (is_some o) ≡ true) ↔ (o ≡ none)
none_iff none = (λ _. refl, λ _. refl)
none_iff (some a) = (λ h. cc, λ h. cc)

six :
    (a b c d e f : Bool)
    → a && b && c && d && e && f ≡ true
    → (a ≡ true) × (b ≡ true) × (c ≡ true) × (d ≡ true) × (e ≡ true) × (f ≡ true)
six a b c d e f h =
    (ground arith, ground arith, ground arith, ground arith, ground arith, ground arith)

module _ (like : String → String → Bool) (divide : ℤ → F64 → F64) where
  -- The machine is online, every rental of it is over, and it meets the filters that are given.
  pub record Matches (q : OffersQuery) (db : Db) (m : MachineRow) : Type 0 where
    pub is_online : m.online ≡ true
    pub is_idle : Idle m.id db.rentals
    pub is_named :
        Given q.gpu_name (λ name. like (String.◌++◌ "%" (String.◌++◌ name "%")) m.gpu_name ≡ true)
    pub has_vram : Given q.min_vram_mb (λ v. v ≤ℤ m.vram_mb)
    pub has_gpus : Given q.min_gpu_count (λ c. c ≤ℤ m.gpu_count)
    pub is_cheap : Given q.max_rate_sats_per_min (λ r. m.rate_sats_per_min ≤ℤ r)

  pub is_offered_iff :
      (q : OffersQuery) (db : Db) (m : MachineRow)
      → (is_offered like divide q db m ≡ true) ↔ Matches q db m
  unfolding is_offered
  is_offered_iff q db m =
      let idle = no_row_iff m.id db.rentals in
      let found = none_iff (fetch (occupies m.id) db.rentals) in
      let name =
        clause_iff q.gpu_name (λ n. like (String.◌++◌ "%" (String.◌++◌ n "%")) m.gpu_name)
          (λ n. like (String.◌++◌ "%" (String.◌++◌ n "%")) m.gpu_name ≡ true)
          (λ n. (λ h. h, λ h. h)) in
      let vram =
        clause_iff q.min_vram_mb (λ v. leb_ℤ v m.vram_mb) (λ v. v ≤ℤ m.vram_mb)
          (λ v. leb_iff v m.vram_mb) in
      let gpus =
        clause_iff q.min_gpu_count (λ c. leb_ℤ c m.gpu_count) (λ c. c ≤ℤ m.gpu_count)
          (λ c. leb_iff c m.gpu_count) in
      let rate =
        clause_iff q.max_rate_sats_per_min (λ r. leb_ℤ m.rate_sats_per_min r)
          (λ r. m.rate_sats_per_min ≤ℤ r) (λ r. leb_iff m.rate_sats_per_min r) in
      (
        λ h.
            let (a, b, c, d, e, f) = six _ _ _ _ _ _ h in
            record {
              is_online = a;
              is_idle = idle.0 (found.0 b);
              is_named = name.0 c;
              has_vram = vram.0 d;
              has_gpus = gpus.0 e;
              is_cheap = rate.0 f;
            },
        λ h.
            rw
              (
                h.is_online,
                found.1 (idle.1 h.is_idle),
                name.1 h.is_named,
                vram.1 h.has_vram,
                gpus.1 h.has_gpus,
                rate.1 h.is_cheap,
              )
              refl,
      )
