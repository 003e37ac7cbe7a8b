-- ===== src/ControlPlane/Invariant/Statements.antt =====
-- How the statements of the handlers keep the invariant.
use computation_market_poc.Prelude.{
  ℕ, ◌≡◌, refl, ap, ◌∙◌, Bool, true, String, map, Option, none, some, ok, arith, is_some,
}
use computation_market_poc.Prelude.Int.{ℤ, pos, ◌+ℤ◌, ◌≤ℤ◌, int_laws}
use computation_market_poc.Prelude.Key.{◌==◌, nat_eq, string_eq}
use computation_market_poc.Prelude.Table.{
  All-update, contains, sum_by-update_same, fetch, update, map-update, fetch-update, fetch-contains,
  fetch_passes,
}
use computation_market_poc.ControlPlane.Db.{
  Db, MachineRow, AccountRow, RentalRow, InvoiceRow, machine_id_of, account_id_of, rental_id_of,
  record_row, move_balance, add_balance, queue_command, with_command,
}
use computation_market_poc.Core.Model.{LedgerKind}
use computation_market_poc.ControlPlane.Invariant.Balances.{booked-record_row}
use computation_market_poc.ControlPlane.Invariant.Books.{Inv}

-- An update of rentals that moves none of their keys.
pub rentals-Inv :
    (p : RentalRow → Bool) (f : RentalRow → RentalRow) (db : Db)
    → ((r : RentalRow) → (f r).id ≡ r.id)
    → ((r : RentalRow) → (f r).machine_id ≡ r.machine_id)
    → ((r : RentalRow) → (f r).account_id ≡ r.account_id)
    → Inv db
    → Inv (record db { rentals = update p f db.rentals })
rentals-Inv p f db ids machines accounts v = record {
  machine_keys = v.machine_keys;
  account_keys = v.account_keys;
  rental_keys = rw (map-update rental_id_of p f ids db.rentals) v.rental_keys;
  machine_fresh = v.machine_fresh;
  rental_fresh = All-update _ p f (λ r _ h. rw (ids r) h) db.rentals v.rental_fresh;
  solvent = v.solvent;
  creditors = v.creditors;
  rentals_linked =
      All-update _ p f (λ r _ h. rw (machines r, accounts r) h) db.rentals v.rentals_linked;
  invoices_linked = v.invoices_linked;
  balanced = v.balanced;
}

-- An update of machines that moves neither keys nor balances.
pub machines-Inv :
    (p : MachineRow → Bool) (f : MachineRow → MachineRow) (db : Db)
    → ((m : MachineRow) → (f m).id ≡ m.id)
    → ((m : MachineRow) → (f m).payout_balance ≡ m.payout_balance)
    → Inv db
    → Inv (record db { machines = update p f db.machines })
machines-Inv p f db ids balances v = record {
  machine_keys = rw (map-update machine_id_of p f ids db.machines) v.machine_keys;
  account_keys = v.account_keys;
  rental_keys = v.rental_keys;
  machine_fresh = All-update _ p f (λ m _ h. rw (ids m) h) db.machines v.machine_fresh;
  rental_fresh = v.rental_fresh;
  solvent = v.solvent;
  creditors = All-update _ p f (λ m _ h. rw (balances m) h) db.machines v.creditors;
  rentals_linked = rw (map-update machine_id_of p f ids db.machines) v.rentals_linked;
  invoices_linked = v.invoices_linked;
  balanced = rw (sum_by-update_same (λ m. m.payout_balance) p f balances db.machines) v.balanced;
}

-- An update of invoices that moves neither their accounts nor their amounts.
pub invoices-Inv :
    (p : InvoiceRow → Bool) (f : InvoiceRow → InvoiceRow) (db : Db)
    → ((i : InvoiceRow) → (f i).account_id ≡ i.account_id)
    → ((i : InvoiceRow) → (f i).sats ≡ i.sats)
    → Inv db
    → Inv (record db { invoices = update p f db.invoices })
invoices-Inv p f db accounts amounts v = record {
  machine_keys = v.machine_keys;
  account_keys = v.account_keys;
  rental_keys = v.rental_keys;
  machine_fresh = v.machine_fresh;
  rental_fresh = v.rental_fresh;
  solvent = v.solvent;
  creditors = v.creditors;
  rentals_linked = v.rentals_linked;
  invoices_linked =
      All-update _ p f (λ i _ h. rw (accounts i, amounts i) h) db.invoices v.invoices_linked;
  balanced = v.balanced;
}

-- A row of the ledger that records no amount.
pub note-Inv :
    (ts : ℤ) (kind : LedgerKind) (account : Option String) (machine rental : Option ℕ)
    (remark : Option String) (db : Db)
    → Inv db
    → Inv (record_row ts kind (pos 0) account machine rental remark db)
unfolding record_row
note-Inv ts kind account machine rental remark db v = record {
  machine_keys = v.machine_keys;
  account_keys = v.account_keys;
  rental_keys = v.rental_keys;
  machine_fresh = v.machine_fresh;
  rental_fresh = v.rental_fresh;
  solvent = v.solvent;
  creditors = v.creditors;
  rentals_linked = v.rentals_linked;
  invoices_linked = v.invoices_linked;
  balanced =
      booked-record_row ts kind (pos 0) account machine rental remark db
      ∙ ap (λ b. b +ℤ pos 0) v.balanced
      ∙ omega int_laws;
}

-- The key of a linked row is found.
fetch_linked {ℓ} : {A : Type ℓ} (o : Option A) → is_some o ≡ true → (a : A) × (o ≡ some a)
fetch_linked none h = cc
fetch_linked (some a) h = (a, refl)

pub fetch_account :
    (id : String) (db : Db)
    → contains id (map account_id_of db.accounts) ≡ true
    → (a : AccountRow) × (fetch (λ b. b.id == id) db.accounts ≡ some a)
fetch_account id db h = fetch_linked _ (fetch-contains account_id_of id db.accounts ∙ h)

pub fetch_machine :
    (id : ℕ) (db : Db)
    → contains id (map machine_id_of db.machines) ≡ true
    → (m : MachineRow) × (fetch (λ n. n.id == id) db.machines ≡ some m)
fetch_machine id db h = fetch_linked _ (fetch-contains machine_id_of id db.machines ∙ h)

-- A command for a known machine is queued.
pub queue_command_lem :
    (machine : ℕ) (payload : String) (now : ℤ) (db : Db)
    → contains machine (map machine_id_of db.machines) ≡ true
    → queue_command machine payload now db ≡ ok (with_command machine payload now db)
unfolding queue_command
queue_command_lem machine payload now db h = ground arith

-- A known account moves by an amount that it can bear.
pub move_balance_lem :
    (id : String) (d : ℤ) (a : AccountRow) (db : Db)
    → fetch (λ b. b.id == id) db.accounts ≡ some a
    → pos 0 ≤ℤ a.balance_sats +ℤ d
    → move_balance id d db
      ≡ ok (record db { accounts = update (λ b. b.id == id) (add_balance d) db.accounts })
unfolding move_balance
move_balance_lem id d a db found bears =
    let test = λ (b : AccountRow). b.id == id in
    let moved : fetch test (update test (add_balance d) db.accounts) ≡ some (add_balance d a) =
      fetch-update test test (add_balance d) (λ _. refl) db.accounts
      ∙ rw (found, fetch_passes test db.accounts a found) in
    rw moved (ground arith)
