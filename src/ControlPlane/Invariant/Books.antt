-- ===== src/ControlPlane/Invariant/Books.antt =====
-- The invariant of the tables: keys, foreign keys, non-negative balances, and a ledger that accounts
-- for every sat that is held.
use computation_market_poc.Prelude.{
  ℕ, String, ◌≤◌, ◌≡◌, true, List, map, Result, ok, err, ◌>>=◌, map_err,
}
use computation_market_poc.Prelude.Int.{ℤ, pos, ◌+ℤ◌, ◌≤ℤ◌, int_laws}
use computation_market_poc.Prelude.Key.{nat_eq, string_eq}
use computation_market_poc.Prelude.Table.{All, Distinct, contains, sum_by}
use computation_market_poc.ControlPlane.Db.{
  Db, MachineRow, AccountRow, RentalRow, InvoiceRow, LedgerRow, empty_db, machine_id_of,
  account_id_of, rental_id_of,
}
use computation_market_poc.ControlPlane.Error.{ApiError}
use computation_market_poc.ControlPlane.Routes.Auth.{commit}

-- The sats held for tenants, those owed to hosts, and the sum of the ledger's column.
abbrev pub held : List AccountRow → ℤ
held = sum_by λ a. a.balance_sats

abbrev pub owed : List MachineRow → ℤ
owed = sum_by λ m. m.payout_balance

abbrev pub booked : List LedgerRow → ℤ
booked = sum_by λ l. l.delta_sats

-- The foreign keys of a rental and of an invoice. An invoice is for one sat at least.
abbrev pub RentalLinked : List ℕ → List String → RentalRow → Type 0
RentalLinked machines accounts r =
    (contains r.machine_id machines ≡ true) × (contains r.account_id accounts ≡ true)

abbrev pub InvoiceLinked : List String → InvoiceRow → Type 0
InvoiceLinked accounts i = (contains i.account_id accounts ≡ true) × (pos 1 ≤ℤ i.sats)

pub record Books (machines : List MachineRow) (accounts : List AccountRow)
    (rentals : List RentalRow) (invoices : List InvoiceRow) (ledger : List LedgerRow)
    (machine_seq rental_seq : ℕ) : Type 0 where
  pub machine_keys : Distinct (map machine_id_of machines)
  pub account_keys : Distinct (map account_id_of accounts)
  pub rental_keys : Distinct (map rental_id_of rentals)
  pub machine_fresh : All (λ m. m.id ≤ machine_seq) machines
  pub rental_fresh : All (λ r. r.id ≤ rental_seq) rentals
  pub solvent : All (λ a. pos 0 ≤ℤ a.balance_sats) accounts
  pub creditors : All (λ m. pos 0 ≤ℤ m.payout_balance) machines
  pub rentals_linked :
      All (RentalLinked (map machine_id_of machines) (map account_id_of accounts)) rentals
  pub invoices_linked : All (InvoiceLinked (map account_id_of accounts)) invoices
  pub balanced : booked ledger ≡ held accounts +ℤ owed machines

abbrev pub Inv : Db → Type 0
Inv db = Books db.machines db.accounts db.rentals db.invoices db.ledger db.machine_seq db.rental_seq

-- A fallible statement that succeeds, with a result of which `P` holds.
abbrev pub Succeeds : {E A : Type 0} → (A → Type 0) → Result E A → Type 0
Succeeds P (ok a) = P a
Succeeds P (err e) = ⊥

-- Nothing is held before the first request.
pub empty_db-Inv : Inv empty_db
unfolding sum_by
empty_db-Inv = record {
  machine_keys = tt;
  account_keys = tt;
  rental_keys = tt;
  machine_fresh = tt;
  rental_fresh = tt;
  solvent = tt;
  creditors = tt;
  rentals_linked = tt;
  invoices_linked = tt;
  balanced = omega int_laws;
}

-- A chain of steps succeeds if each does.
pub Succeeds->>= :
    {E A B : Type 0} (P : A → Type 0) (Q : B → Type 0) (m : Result E A) (f : A → Result E B)
    → Succeeds P m
    → ((a : A) → P a → Succeeds Q (f a))
    → Succeeds Q (m >>= f)
Succeeds->>= P Q (ok a) f h k = k a h
Succeeds->>= P Q (err e) f h k = absurd h

pub Succeeds-map_err :
    {E F A : Type 0} (P : A → Type 0) (f : E → F) (m : Result E A)
    → Succeeds P m
    → Succeeds P (map_err f m)
Succeeds-map_err P f (ok a) h = h
Succeeds-map_err P f (err e) h = h

-- A transaction that commits leaves what its body made of the database.
pub commit-Inv :
    {A : Type 0} (db : Db) (r : Result ApiError (A × Db))
    → Succeeds (λ s. Inv s.1) r
    → Inv (commit db r).1
commit-Inv db (ok (a, db')) h = h
commit-Inv db (err e) h = absurd h
