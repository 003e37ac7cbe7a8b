-- ===== src/ControlPlane/Invariant/Balances.antt =====
-- The sums of the balances and of the ledger under the statements that move money, and the three
-- movements: a deposit, a charge and a payout.
use computation_market_poc.Prelude.{ℕ, ◌≡◌, ap, ◌∙◌, String, List, map, Option, some}
use computation_market_poc.Prelude.Int.{ℤ, pos_part, neg_part, ◌+ℤ◌, ◌-ℤ◌, int_laws}
use computation_market_poc.Prelude.Key.{◌==◌, nat_eq, string_eq}
use computation_market_poc.Prelude.Table.{
  Distinct, sum_by, sum_by-append, sum_by-update_key, fetch, update,
}
use computation_market_poc.Core.Model.{LedgerKind}
use computation_market_poc.ControlPlane.Db.{
  Db, MachineRow, AccountRow, machine_id_of, account_id_of, record_row, record_charge, add_balance,
}
use computation_market_poc.ControlPlane.Routes.Agent.{add_payout, clear_payout}
use computation_market_poc.ControlPlane.Invariant.Books.{held, owed, booked}

-- One row adds its amount to the ledger's sum.
pub booked-record_row :
    (ts : ℤ) (kind : LedgerKind) (delta : ℤ) (account : Option String) (machine rental : Option ℕ)
    (remark : Option String) (db : Db)
    → booked (record_row ts kind delta account machine rental remark db).ledger
      ≡ booked db.ledger +ℤ delta
unfolding record_row sum_by
booked-record_row ts kind delta account machine rental remark db =
    sum_by-append (λ l. l.delta_sats) db.ledger _ ∙ omega int_laws

-- The two rows of a charge cancel.
pub booked-record_charge :
    (ts : ℤ) (account : String) (machine rental : ℕ) (rate : ℤ) (db : Db)
    → booked (record_charge ts account machine rental rate db).ledger ≡ booked db.ledger
unfolding record_charge
booked-record_charge ts account machine rental rate db =
    rw (booked-record_row, booked-record_row) (omega int_laws)

pub held-add_balance :
    (id : String) (d : ℤ) (rows : List AccountRow) (a : AccountRow)
    → Distinct (map account_id_of rows)
    → fetch (λ b. b.id == id) rows ≡ some a
    → held (update (λ b. b.id == id) (add_balance d) rows) ≡ held rows +ℤ d
held-add_balance id d rows a distinct found =
    let moved =
      sum_by-update_key account_id_of (λ b. b.balance_sats) id (add_balance d) rows a distinct
        found in
    omega (int_laws, ap pos_part moved, ap neg_part moved)

pub owed-add_payout :
    (id : ℕ) (d : ℤ) (rows : List MachineRow) (m : MachineRow)
    → Distinct (map machine_id_of rows)
    → fetch (λ n. n.id == id) rows ≡ some m
    → owed (update (λ n. n.id == id) (add_payout d) rows) ≡ owed rows +ℤ d
owed-add_payout id d rows m distinct found =
    let moved =
      sum_by-update_key machine_id_of (λ n. n.payout_balance) id (add_payout d) rows m distinct
        found in
    omega (int_laws, ap pos_part moved, ap neg_part moved)

pub owed-clear_payout :
    (id : ℕ) (rows : List MachineRow) (m : MachineRow)
    → Distinct (map machine_id_of rows)
    → fetch (λ n. n.id == id) rows ≡ some m
    → owed (update (λ n. n.id == id) clear_payout rows) ≡ owed rows -ℤ m.payout_balance
owed-clear_payout id rows m distinct found =
    let moved =
      sum_by-update_key machine_id_of (λ n. n.payout_balance) id clear_payout rows m distinct
        found in
    omega (int_laws, ap pos_part moved, ap neg_part moved)
