-- ===== src/ControlPlane/Interleaving.antt =====
-- The transactions of crates/control-plane/src that write, one at a time as SQLite commits them, for
-- requests and ticks that interleave: routes/agent.rs, routes/tenant.rs and billing.rs. What a
-- handler or the ticker has read before its transaction begins is an argument here, so it may be
-- from any earlier database. No statement deletes a machine or an account: those that were read
-- are still there, though their balances may have changed.
pub mod Balances
pub mod Ticks
pub mod Serial
use computation_market_poc.Prelude.{ℕ, String, ◌≡◌, true, map, Option, some, map_err}
use computation_market_poc.Prelude.Int.{ℤ, pos, ◌≤ℤ◌}
use computation_market_poc.Prelude.Key.{◌==◌, nat_eq, string_eq}
use computation_market_poc.Prelude.Table.{contains, fetch, update}
use computation_market_poc.Core.Api.{
  RegisterRequest, HeartbeatRequest, ReportRequest, RateRequest, DepositRequest,
  CreateRentalRequest,
}
use computation_market_poc.ControlPlane.Error.{from_sqlx}
use computation_market_poc.ControlPlane.Db.{
  Db, MachineRow, RentalRow, InvoiceRow, empty_db, machine_id_of, account_id_of, insert_machine,
}
use computation_market_poc.ControlPlane.State.{BillingConfig}
use computation_market_poc.ControlPlane.Codec.{CommandCodec}
use computation_market_poc.ControlPlane.Lightning.{Invoice}
use computation_market_poc.ControlPlane.Billing.{
  settle_invoice, mark_offline, evict, commit_or_stop,
}
use computation_market_poc.ControlPlane.Routes.Auth.{commit}
use computation_market_poc.ControlPlane.Routes.Agent.{
  new_machine, registered, refresh_machine, heartbeat_tx, report_tx, rate_update, payout_tx,
}
use computation_market_poc.ControlPlane.Routes.Tenant.{
  create_account, deposit_insert, create_rental, delete_tx,
}

-- The database after the INSERT of `register`.
abbrev pub inserted : String → MachineRow → Db → Db
inserted token m db = (registered token m db (map_err from_sqlx (insert_machine m db))).1

module _ (json : CommandCodec) where
  -- A transaction, or a statement on its own, which commits or is rolled back.
  pub data Transaction (db : Db) : Db → Type 0 where
    account_inserted : (id : String) (now : ℤ) → Transaction db (create_account id now db).1
    -- `deposit`, after the check of the amount and the backend's answer.
    invoice_inserted :
        (invoice : Invoice) (id : String) (req : DepositRequest) (now : ℤ)
        → pos 1 ≤ℤ req.sats
        → Transaction db (deposit_insert invoice id req now db).1
    rental_inserted :
        (req : CreateRentalRequest) (now : ℤ) → Transaction db (create_rental json req now db).1
    -- `delete_rental`, for a rental as it was read.
    rental_stopped :
        (r : RentalRow) (now : ℤ) → Transaction db (commit db (delete_tx json r now db)).1
    -- `register`, for a host that was not found, and for a machine that was.
    machine_inserted :
        (token : String) (req : RegisterRequest) (now : ℤ)
        → Transaction db (inserted token (new_machine token req now db) db)
    machine_refreshed :
        (m : MachineRow) (req : RegisterRequest) (now : ℤ)
        → Transaction db (record db {
          machines = update (λ n. n.id == m.id) (refresh_machine req now) db.machines;
        })
    -- `heartbeat`, `report` and `rate`, for a machine as it was authenticated.
    heartbeat_taken :
        (m : MachineRow) (req : HeartbeatRequest) (now : ℤ)
        → Transaction db (commit db (heartbeat_tx json m req now db)).1
    rental_reported :
        (m : MachineRow) (r : RentalRow) (req : ReportRequest) (now : ℤ)
        → contains m.id (map machine_id_of db.machines) ≡ true
        → contains r.account_id (map account_id_of db.accounts) ≡ true
        → Transaction db (commit db (report_tx m r req now db)).1
    rate_set : (m : MachineRow) (req : RateRequest) → Transaction db (rate_update req db m).1
    -- `payout`, for a machine as it was authenticated, whose balance is what it was then.
    balance_paid :
        (m n : MachineRow) (now : ℤ)
        → fetch (λ k. k.id == m.id) db.machines ≡ some n
        → n.payout_balance ≡ m.payout_balance
        → Transaction db (payout_tx m now db)
    -- The ticker, for an invoice and for a rental as they were read.
    invoice_settled :
        (i : InvoiceRow) (now : ℤ)
        → contains i.account_id (map account_id_of db.accounts) ≡ true
        → pos 1 ≤ℤ i.sats
        → Transaction db (commit_or_stop db (settle_invoice now i db)).1
    marked_offline : (cfg : BillingConfig) (now : ℤ) → Transaction db (mark_offline cfg now db)
    rental_evicted :
        (r : RentalRow) (now : ℤ) → Transaction db (commit_or_stop db (evict json now r db)).1

  -- The databases that transactions of any requests and ticks lead to, in any order.
  pub data Committed : Db → Type 0 where
    created : Committed empty_db
    commits : {db db' : Db} → Committed db → Transaction db db' → Committed db'

  -- Any number of transactions, one after the other.
  pub data Transactions (db : Db) : Db → Type 0 where
    no_more : Transactions db db
    and_next : {db1 db2 : Db} → Transactions db db1 → Transaction db1 db2 → Transactions db db2
