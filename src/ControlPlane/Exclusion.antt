-- ===== src/ControlPlane/Exclusion.antt =====
-- A machine is rented to one tenant at a time.
pub mod Routes
use computation_market_poc.Prelude.{
  ℕ, ◌+◌, ◌≤◌, ◌≡◌, ◌≢◌, refl, ◌∙◌, sym, ap, Bool, true, false, not, ◌&&◌, ◌||◌, String, List, [],
  ◌∷◌, ◌++◌, map, Option, if◌then◌else◌, none, some, Result, ok, err, Bool-cases, Option-cases,
  Result-cases, inl, inr, arith,
}
use computation_market_poc.Prelude.Int.{ℤ, pos}
use computation_market_poc.Prelude.Key.{◌==◌, nat_eq, string_eq}
use computation_market_poc.Prelude.Table.{
  fetch, update, count, count-append, count_of_fetch, count-update_row, contains, select, Distinct,
}
use computation_market_poc.Core.Api.{CreateRentalRequest, ReportRequest, Command}
use computation_market_poc.Core.Model.{
  RentalStatus, occupies_machine, is_terminal, as_str, status_eq,
}
use computation_market_poc.Core.Model.Occupancy.{occupies-not-terminal}
use computation_market_poc.ControlPlane.Db.{Db, RentalRow, rental_id_of}
use computation_market_poc.ControlPlane.Routes.Tenant.{occupies, occupying_in_list, new_rental}

-- One occupying rental of each machine at most.
abbrev pub Exclusive : List RentalRow → Type 0
Exclusive rentals = (machine : ℕ) → count (occupies machine) rentals ≤ 1

-- The list of texts that the query is built from finds the occupying statuses.
listed : (s : RentalStatus) → contains (as_str s) occupying_in_list ≡ occupies_machine s
unfolding occupying_in_list as_str occupies_machine select
listed RentalStatus.provisioning = refl
listed RentalStatus.running = refl
listed RentalStatus.evicting = refl
listed RentalStatus.stopped = refl
listed RentalStatus.failed = refl

-- The rows that a machine's query finds are its rows of a status that is not terminal.
pub occupies_lem :
    (machine : ℕ) (r : RentalRow)
    → occupies machine r ≡ (r.machine_id == machine && not (is_terminal r.status))
unfolding occupies
occupies_lem machine r = rw (listed r.status, occupies-not-terminal r.status) refl

-- A row whose status ends up open was open before.
pub open_before :
    (f : RentalRow → RentalRow) (r : RentalRow)
    → (f r).machine_id ≡ r.machine_id
    → (is_terminal (f r).status ≡ false → is_terminal r.status ≡ false)
    → (machine : ℕ) → occupies machine (f r) ≡ true
    → occupies machine r ≡ true
open_before f r same opens machine h =
    let after : ((f r).machine_id == machine && not (is_terminal (f r).status)) ≡ true =
      sym (occupies_lem machine (f r)) ∙ h in
    occupies_lem machine r
    ∙ both (r.machine_id == machine) (is_terminal (f r).status) (is_terminal r.status)
        (rw same at after) opens
  where
    both : (k t u : Bool) → k && not t ≡ true → (t ≡ false → u ≡ false) → k && not u ≡ true
    both k t u h opens = ground (arith, opens)

-- An update of the rental with a number, if it does not bring back one that is over.
pub update-Exclusive :
    (id : ℕ) (f : RentalRow → RentalRow) (r : RentalRow) (rentals : List RentalRow)
    → Distinct (map rental_id_of rentals)
    → fetch (λ s. s.id == id) rentals ≡ some r
    → (f r).machine_id ≡ r.machine_id
    → (is_terminal (f r).status ≡ false → is_terminal r.status ≡ false)
    → Exclusive rentals
    → Exclusive (update (λ s. s.id == id) f rentals)
update-Exclusive id f r rentals distinct found same opens v machine =
    let fewer =
      count-update_row rental_id_of (occupies machine) id f rentals r distinct found
        (open_before f r same opens machine) in
    omega (arith, v machine, fewer)

-- A rental of an idle machine.
pub new-Exclusive :
    (row : RentalRow) (rentals : List RentalRow)
    → fetch (occupies row.machine_id) rentals ≡ none
    → Exclusive rentals
    → Exclusive (rentals ++ row ∷ [])
unfolding count
new-Exclusive row rentals idle v machine = elim (Bool-cases (row.machine_id == machine)) [
  | inl here ↦
      let same : row.machine_id ≡ machine = (nat_eq.same_iff row.machine_id machine).0 here in
      let none_yet = count_of_fetch (occupies row.machine_id) rentals idle in
      rw (← same, count-append, none_yet) (at_most_one (occupies row.machine_id row))
  | inr elsewhere ↦
      let out : occupies machine row ≡ false = occupies_lem machine row ∙ rw elsewhere refl in
      rw (count-append, out) (omega (arith, v machine))
]
  where
    at_most_one : (b : Bool) → 0 + ((if b then 1 else 0) + 0) ≤ 1
    at_most_one b = ground arith
