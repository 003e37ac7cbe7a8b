-- ===== src/ControlPlane/Routes/Agent/Report.antt =====
-- `report` of routes/agent.rs: the agent reports a command's outcome. The rental is read before the
-- transaction begins, so the two phases are two functions.
use computation_market_poc.Prelude.{
  String, Bool, true, false, Option, none, some, Result, ok, err, ◌>>=◌, ok_or, map_err,
  if◌then◌else◌, ◌&&◌, not, or_else, get_or,
}
use computation_market_poc.Prelude.Int.{ℤ, pos, ◌+ℤ◌, ◌-ℤ◌, ltb_ℤ, min_ℤ, max_ℤ, div}
use computation_market_poc.Prelude.Word.{sub_i64}
use computation_market_poc.Prelude.Key.{◌==◌, nat_eq, string_eq}
use computation_market_poc.Prelude.Table.{fetch, update}
use computation_market_poc.Core.Api.{ReportRequest}
use computation_market_poc.Core.Model.{is_terminal}
use computation_market_poc.ControlPlane.Error.{
  ApiError, SqlxError, row_not_found, from_sqlx, not_found_error,
}
use computation_market_poc.ControlPlane.Db.{
  Db, MachineRow, RentalRow, AccountRow, move_balance, record_charge,
}
use computation_market_poc.ControlPlane.Billing.{accrued_charge}
use computation_market_poc.ControlPlane.Routes.Auth.{Reply, commit, authenticate}

abbrev pub with_machine : MachineRow → Option RentalRow → Result ApiError (MachineRow × RentalRow)
with_machine machine none = err (not_found_error "no such rental for this machine")
with_machine machine (some rental) = ok (machine, rental)

-- `WHERE id=? AND machine_id=?`
abbrev pub reported : ReportRequest → MachineRow → RentalRow → Bool
reported req machine r = r.id == req.rental_id && r.machine_id == machine.id

-- The rows that `report` reads before BEGIN IMMEDIATE.
unfoldable pub report_read :
    Option String → ReportRequest → Db → Result ApiError (MachineRow × RentalRow)
report_read authorization req db = do
  machine ← authenticate authorization db
  with_machine machine (fetch (reported req machine) db.rentals)

-- UPDATE rentals SET status=?, kind=COALESCE(?, kind), …
unfoldable pub apply_report : MachineRow → ReportRequest → ℤ → RentalRow → RentalRow
apply_report machine req now r = record r {
  status = req.status;
  kind = get_or req.kind r.kind;
  ssh_host = some machine.public_ip;
  ssh_port = req.ssh_port;
  container_id = or_else req.container_id r.container_id;
  error = req.error;
  ended_at = or_else (if is_terminal req.status then some now else none) r.ended_at;
}

abbrev pub add_payout : ℤ → MachineRow → MachineRow
add_payout d m = record m { payout_balance = m.payout_balance +ℤ d }

abbrev pub set_charge : ℤ → ℤ → RentalRow → RentalRow
set_charge charge minutes r = record r { sats_charged = charge; minutes_billed = minutes }

-- Debit the tenant, credit the host, and write both to the ledger.
unfoldable pub charge_tenant : MachineRow → RentalRow → ℤ → ℤ → Db → Result SqlxError Db
charge_tenant machine rental now charge db = do
  db1 ← move_balance rental.account_id (pos 0 -ℤ charge) db
  ok (
      record_charge now rental.account_id machine.id rental.id charge (record db1 {
        machines = update (λ m. m.id == machine.id) (add_payout charge) db1.machines;
      }))

-- `if charge > 0 { … }`
unfoldable pub transfer : MachineRow → RentalRow → ℤ → ℤ → Db → Result SqlxError Db
transfer machine rental now charge db =
    if ltb_ℤ (pos 0) charge then charge_tenant machine rental now charge db else ok db

-- The charge for a rental that ends now, capped at the balance.
abbrev pub settlement : RentalRow → ℤ → AccountRow → ℤ
settlement rental now account =
    min_ℤ (accrued_charge rental.created_at now rental.rate_sats_per_min) account.balance_sats

-- `if settle { … }`
unfoldable pub settle_rental : MachineRow → RentalRow → ℤ → Db → Result SqlxError Db
settle_rental machine rental now db = do
  account ← ok_or (fetch (λ a. a.id == rental.account_id) db.accounts) row_not_found
  let charge = settlement rental now account
  db1 ← transfer machine rental now charge db
  let minutes = div (max_ℤ (sub_i64 now rental.created_at) (pos 0)) 60
  ok (record db1 {
    rentals = update (λ r. r.id == rental.id) (set_charge charge minutes) db1.rentals;
  })

abbrev pub settle_if : Bool → MachineRow → RentalRow → ℤ → Db → Result ApiError Db
settle_if false machine rental now db = ok db
settle_if true machine rental now db = map_err from_sqlx (settle_rental machine rental now db)

-- `settle`, from the rental as it was read.
abbrev pub settles : RentalRow → ReportRequest → Bool
settles rental req = is_terminal req.status && not (is_terminal rental.status)

unfoldable pub report_tx :
    MachineRow → RentalRow → ReportRequest → ℤ → Db → Result ApiError (Unit {0} × Db)
report_tx machine rental req now db = do
  let db1 : Db = record db {
    rentals = update (λ r. r.id == req.rental_id) (apply_report machine req now) db.rentals;
  }
  db2 ← settle_if (settles rental req) machine rental now db1
  ok (tt, db2)

unfoldable pub report : Option String → ReportRequest → ℤ → Db → Reply (Unit {0})
report authorization req now db = elim (report_read authorization req db) [
  | err e ↦ (err e, db)
  | ok (machine, rental) ↦ commit db (report_tx machine rental req now db)
]
