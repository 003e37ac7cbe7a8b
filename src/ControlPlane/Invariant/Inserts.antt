-- ===== src/ControlPlane/Invariant/Inserts.antt =====
-- How the INSERT statements keep the invariant: new keys are new, foreign keys are there, and a new
-- row holds no money.
use mathlib.Core.List.{map-append}
use computation_market_poc.Prelude.{
  ℕ, ◌≤◌, ◌<◌, ◌≡◌, refl, ◌∙◌, true, false, List, [], ◌∷◌, ◌++◌, map, arith,
}
use computation_market_poc.Prelude.Int.{pos, int_laws}
use computation_market_poc.Prelude.Key.{Comparable, nat_eq, string_eq}
use computation_market_poc.Prelude.Table.{
  All, All-append, All-map, Distinct, Distinct-append, contains, contains-append_left, sum_by,
  sum_by-append,
}
use computation_market_poc.ControlPlane.Db.{
  Db, MachineRow, AccountRow, RentalRow, InvoiceRow, machine_id_of, account_id_of, rental_id_of,
}
use computation_market_poc.ControlPlane.Invariant.Books.{Inv, RentalLinked, InvoiceLinked}

-- A number above all keys is no key.
pub fresh_missing :
    {A : Type 0} (key : A → ℕ) (n k : ℕ) (rows : List A)
    → All (λ r. key r ≤ n) rows
    → n < k
    → contains k (map key rows) ≡ false
fresh_missing key n k [] h lt = refl
fresh_missing key n k (r ∷ rows) h lt = ground (arith, fresh_missing key n k rows h.1 lt)

pub Distinct-snoc :
    {A K : Type 0} ⦃e : Comparable K⦄ (key : A → K) (rows : List A) (r : A)
    → Distinct (map key rows)
    → contains (key r) (map key rows) ≡ false
    → Distinct (map key (rows ++ r ∷ []))
Distinct-snoc key rows r d h =
    rw (map-append key rows (r ∷ [])) (Distinct-append (key r) (map key rows) d h)

contains_after :
    {A K : Type 0} ⦃e : Comparable K⦄ (key : A → K) (k : K) (rows : List A) (r : A)
    → contains k (map key rows) ≡ true
    → contains k (map key (rows ++ r ∷ [])) ≡ true
contains_after key k rows r h =
    rw (map-append key rows (r ∷ [])) (contains-append_left k (map key rows) (key r ∷ []) h)

pub machine-Inv :
    (row : MachineRow) (db : Db)
    → Inv db
    → db.machine_seq < row.id
    → row.payout_balance ≡ pos 0
    → Inv (record db { machines = db.machines ++ row ∷ []; machine_seq = row.id })
unfolding sum_by
machine-Inv row db v fresh nothing = record {
  machine_keys =
      Distinct-snoc machine_id_of db.machines row v.machine_keys
        (fresh_missing machine_id_of db.machine_seq row.id db.machines v.machine_fresh fresh);
  account_keys = v.account_keys;
  rental_keys = v.rental_keys;
  machine_fresh =
      All-append _ db.machines (All-map _ (λ m h. omega arith) db.machines v.machine_fresh)
        (omega arith);
  rental_fresh = v.rental_fresh;
  solvent = v.solvent;
  creditors = All-append _ db.machines v.creditors (rw nothing (omega arith));
  rentals_linked =
      All-map _ (λ r h. (contains_after machine_id_of r.machine_id db.machines row h.0, h.1))
        db.rentals v.rentals_linked;
  invoices_linked = v.invoices_linked;
  balanced =
      rw (sum_by-append (λ m. m.payout_balance) db.machines (row ∷ []))
        (rw nothing (v.balanced ∙ omega int_laws));
}

pub account-Inv :
    (row : AccountRow) (db : Db)
    → Inv db
    → contains row.id (map account_id_of db.accounts) ≡ false
    → row.balance_sats ≡ pos 0
    → Inv (record db { accounts = db.accounts ++ row ∷ [] })
unfolding sum_by
account-Inv row db v fresh nothing = record {
  machine_keys = v.machine_keys;
  account_keys = Distinct-snoc account_id_of db.accounts row v.account_keys fresh;
  rental_keys = v.rental_keys;
  machine_fresh = v.machine_fresh;
  rental_fresh = v.rental_fresh;
  creditors = v.creditors;
  solvent = All-append _ db.accounts v.solvent (rw nothing (omega arith));
  rentals_linked =
      All-map _ (λ r h. (h.0, contains_after account_id_of r.account_id db.accounts row h.1))
        db.rentals v.rentals_linked;
  invoices_linked =
      All-map _ (λ i h. (contains_after account_id_of i.account_id db.accounts row h.0, h.1))
        db.invoices v.invoices_linked;
  balanced =
      rw (sum_by-append (λ a. a.balance_sats) db.accounts (row ∷ []))
        (rw nothing (v.balanced ∙ omega int_laws));
}

pub rental-Inv :
    (row : RentalRow) (db : Db)
    → Inv db
    → db.rental_seq < row.id
    → RentalLinked (map machine_id_of db.machines) (map account_id_of db.accounts) row
    → Inv (record db { rentals = db.rentals ++ row ∷ []; rental_seq = row.id })
rental-Inv row db v fresh linked = record {
  machine_keys = v.machine_keys;
  account_keys = v.account_keys;
  rental_keys =
      Distinct-snoc rental_id_of db.rentals row v.rental_keys
        (fresh_missing rental_id_of db.rental_seq row.id db.rentals v.rental_fresh fresh);
  machine_fresh = v.machine_fresh;
  rental_fresh =
      All-append _ db.rentals (All-map _ (λ r h. omega arith) db.rentals v.rental_fresh)
        (omega arith);
  solvent = v.solvent;
  creditors = v.creditors;
  rentals_linked = All-append _ db.rentals v.rentals_linked linked;
  invoices_linked = v.invoices_linked;
  balanced = v.balanced;
}

pub invoice-Inv :
    (row : InvoiceRow) (db : Db)
    → Inv db
    → InvoiceLinked (map account_id_of db.accounts) row
    → Inv (record db { invoices = db.invoices ++ row ∷ [] })
invoice-Inv row db v linked = record {
  machine_keys = v.machine_keys;
  account_keys = v.account_keys;
  rental_keys = v.rental_keys;
  machine_fresh = v.machine_fresh;
  rental_fresh = v.rental_fresh;
  solvent = v.solvent;
  creditors = v.creditors;
  rentals_linked = v.rentals_linked;
  invoices_linked = All-append _ db.invoices v.invoices_linked linked;
  balanced = v.balanced;
}
