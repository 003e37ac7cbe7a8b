-- ===== src/ControlPlane/Db/Ledger.antt =====
-- The writes to the ledger, and the statements whose constraints can refuse them.
use computation_market_poc.Prelude.{
  ℕ, suc, String, false, [], ◌∷◌, ◌++◌, map, Option, none, some, Result, ok, err, ◌>>◌, fail_if,
  if◌then◌else◌, not, ◌||◌,
}
use computation_market_poc.Prelude.Int.{ℤ, pos, ◌+ℤ◌, ◌-ℤ◌, ltb_ℤ}
use computation_market_poc.Prelude.Key.{◌==◌, nat_eq, string_eq}
use computation_market_poc.Prelude.Table.{fetch, update, contains}
use computation_market_poc.Core.Model.{LedgerKind}
use computation_market_poc.ControlPlane.Error.{
  SqlxError, check_failed, unique_failed, foreign_key_failed,
}
use computation_market_poc.ControlPlane.Db.Tables.{
  Db, AccountRow, MachineRow, InvoiceRow, LedgerRow, CommandRow, RentalRow, machine_id_of,
  account_id_of,
}

-- `record`: INSERT INTO ledger.
unfoldable pub record_row :
    ℤ → LedgerKind → ℤ → Option String → Option ℕ → Option ℕ → Option String → Db → Db
record_row ts kind delta account machine rental note db = record db {
  ledger = db.ledger ++ row ∷ [];
  ledger_seq = suc db.ledger_seq;
}
  where
    row : LedgerRow
    row = record {
      id = suc db.ledger_seq;
      ts = ts;
      account_id = account;
      machine_id = machine;
      rental_id = rental;
      delta_sats = delta;
      kind = kind;
      note = note;
    }

-- The amount is positive where this is called, so its negation does not overflow.
unfoldable pub record_charge : ℤ → String → ℕ → ℕ → ℤ → Db → Db
record_charge ts account machine rental rate db =
    record_row ts LedgerKind.host_credit rate none (some machine) (some rental) none (
      record_row ts LedgerKind.rental_charge (pos 0 -ℤ rate) (some account) none (some rental) none
        db)

abbrev pub add_balance : ℤ → AccountRow → AccountRow
add_balance d a = record a { balance_sats = a.balance_sats +ℤ d }

-- The CHECK of `accounts` on the row with this id.
abbrev pub check_balance : Option AccountRow → Db → Result SqlxError Db
check_balance none db = ok db
check_balance (some a) db = if ltb_ℤ a.balance_sats (pos 0) then err check_failed else ok db

-- UPDATE accounts SET balance_sats = balance_sats + ? WHERE id = ?
unfoldable pub move_balance : String → ℤ → Db → Result SqlxError Db
move_balance id d db =
    let rows = update (λ a. a.id == id) (add_balance d) db.accounts in
    check_balance (fetch (λ a. a.id == id) rows) (record db { accounts = rows })

abbrev pub new_command : ℕ → String → ℤ → Db → CommandRow
new_command machine payload now db = record {
  id = suc db.command_seq;
  machine_id = machine;
  payload = payload;
  delivered = false;
  created_at = now;
}

abbrev pub with_command : ℕ → String → ℤ → Db → Db
with_command machine payload now db = record db {
  commands = db.commands ++ new_command machine payload now db ∷ [];
  command_seq = suc db.command_seq;
}

-- INSERT INTO commands
unfoldable pub queue_command : ℕ → String → ℤ → Db → Result SqlxError Db
queue_command machine payload now db =
    if contains machine (map machine_id_of db.machines)
    then ok (with_command machine payload now db)
    else err foreign_key_failed

-- INSERT INTO accounts
unfoldable pub insert_account : AccountRow → Db → Result SqlxError Db
insert_account row db = do
  fail_if (contains row.id (map account_id_of db.accounts)) unique_failed
  ok (record db { accounts = db.accounts ++ row ∷ [] })

-- INSERT INTO invoices
unfoldable pub insert_invoice : InvoiceRow → Db → Result SqlxError Db
insert_invoice row db = do
  fail_if (contains row.payment_hash (map (λ i. i.payment_hash) db.invoices)) unique_failed
  fail_if (not (contains row.account_id (map account_id_of db.accounts))) foreign_key_failed
  ok (record db { invoices = db.invoices ++ row ∷ [] })

-- INSERT INTO machines, at the next row number.
unfoldable pub insert_machine : MachineRow → Db → Result SqlxError Db
insert_machine row db = do
  fail_if
      (contains row.agent_token (map (λ m. m.agent_token) db.machines)
        || contains row.host_id (map (λ m. m.host_id) db.machines))
      unique_failed
  ok (record db { machines = db.machines ++ row ∷ []; machine_seq = row.id })

-- INSERT INTO rentals, at the next row number.
unfoldable pub insert_rental : RentalRow → Db → Result SqlxError Db
insert_rental row db = do
  fail_if
      (not (contains row.machine_id (map machine_id_of db.machines))
        || not (contains row.account_id (map account_id_of db.accounts)))
      foreign_key_failed
  ok (record db { rentals = db.rentals ++ row ∷ []; rental_seq = row.id })
