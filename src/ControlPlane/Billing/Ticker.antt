-- ===== src/ControlPlane/Billing/Ticker.antt =====
-- The three steps of a tick. A row's step reads the clock anew: `now` gives the reading for the
-- invoice or the rental at hand. `is_settled` is the answer of the Lightning backend for a hash.
use computation_market_poc.Prelude.{
  ℕ, String, Bool, true, false, List, [], ◌∷◌, none, some, Result, ok, err, ◌>>=◌, if◌then◌else◌,
  ◌&&◌, not,
}
use computation_market_poc.Prelude.Int.{ℤ, pos, ltb_ℤ, leb_ℤ}
use computation_market_poc.Prelude.Word.{sub_i64}
use computation_market_poc.Prelude.Key.{◌==◌, nat_eq, string_eq}
use computation_market_poc.Prelude.Table.{select, fetch, update}
use computation_market_poc.Core.Api.{Command}
use computation_market_poc.Core.Model.{LedgerKind, RentalStatus, status_eq}
use computation_market_poc.ControlPlane.Error.{SqlxError, row_not_found}
use computation_market_poc.ControlPlane.Db.{
  Db, MachineRow, RentalRow, InvoiceRow, record_row, move_balance, queue_command,
}
use computation_market_poc.ControlPlane.State.{BillingConfig, heartbeat_timeout_secs}
use computation_market_poc.ControlPlane.Codec.{CommandCodec}
use computation_market_poc.ControlPlane.Billing.Charge.{accrued_charge}

-- An error that `tick` passes on: of the database, or of the backend.
pub data TickError : Type 0 where
  sqlx : SqlxError → TickError
  backend : String → TickError

-- `db` is what has been committed: on an error the transaction at hand is rolled back, and the loop
-- ends.
abbrev pub commit_or_stop : Db → Result SqlxError Db → Result TickError (Unit {0}) × Db
commit_or_stop db (ok db') = (ok tt, db')
commit_or_stop db (err e) = (err (TickError.sqlx e), db)

abbrev pub and_then :
    Result TickError (Unit {0}) × Db
    → (Db → Result TickError (Unit {0}) × Db)
    → Result TickError (Unit {0}) × Db
and_then (ok _, db) rest = rest db
and_then (err e, db) rest = (err e, db)

abbrev pub mark_settled : InvoiceRow → InvoiceRow
mark_settled i = record i { settled = true }

-- The transaction for one paid invoice.
unfoldable pub settle_invoice : ℤ → InvoiceRow → Db → Result SqlxError Db
settle_invoice now i db = do
  let db1 : Db = record db {
    invoices = update (λ j. j.payment_hash == i.payment_hash) mark_settled db.invoices;
  }
  db2 ← move_balance i.account_id i.sats db1
  ok (record_row now LedgerKind.deposit i.sats (some i.account_id) none none (some "deposit") db2)

-- What the loop does for one pending invoice, by the backend's answer.
unfoldable pub poll_answered :
    Result String Bool → ℤ → InvoiceRow → Db → Result TickError (Unit {0}) × Db
poll_answered (err e) now i db = (err (TickError.backend e), db)
poll_answered (ok false) now i db = (ok tt, db)
poll_answered (ok true) now i db = commit_or_stop db (settle_invoice now i db)

unfoldable pub poll_each :
    (String → Result String Bool)
    → (String → ℤ)
    → List InvoiceRow
    → Db
    → Result TickError (Unit {0}) × Db
poll_each is_settled now [] db = (ok tt, db)
poll_each is_settled now (i ∷ pending) db =
    and_then (poll_answered (is_settled i.payment_hash) (now i.payment_hash) i db)
      (λ db'. poll_each is_settled now pending db')

unfoldable pub poll_invoices :
    (String → Result String Bool) → (String → ℤ) → Db → Result TickError (Unit {0}) × Db
poll_invoices is_settled now db =
    poll_each is_settled now (select (λ i. not i.settled) db.invoices) db

abbrev pub set_offline : MachineRow → MachineRow
set_offline m = record m { online = false }

unfoldable pub mark_offline : BillingConfig → ℤ → Db → Db
mark_offline cfg now db = record db {
  machines = update (λ m. m.online && ltb_ℤ m.last_heartbeat threshold) set_offline db.machines;
}
  where
    threshold : ℤ
    threshold = sub_i64 now (heartbeat_timeout_secs cfg)

abbrev pub set_evicting : RentalRow → RentalRow
set_evicting r = record r { status = RentalStatus.evicting; error = some "insufficient balance" }

module _ (json : CommandCodec) where
  -- The transaction that evicts a rental.
  unfoldable pub evict : ℤ → RentalRow → Db → Result SqlxError Db
  evict now r db = do
    let db1 : Db = record db { rentals = update (λ s. s.id == r.id) set_evicting db.rentals }
    db2 ← queue_command r.machine_id (json.to_string (Command.stop_rental r.id)) now db1
    ok (
        record_row now LedgerKind.evict (pos 0) (some r.account_id) none (some r.id)
          (some "insufficient balance") db2)

  -- What the loop does for one rental, given its machine and its account.
  unfoldable pub enforce_budget :
      BillingConfig → ℤ → RentalRow → Db → Result TickError (Unit {0}) × Db
  enforce_budget cfg now r db = elim (fetch (λ m. m.id == r.machine_id) db.machines) [
    | none ↦ (err (TickError.sqlx row_not_found), db)
    | some m ↦
        if ltb_ℤ (heartbeat_timeout_secs cfg) (sub_i64 now m.last_heartbeat)
        then (ok tt, db)
        else elim (fetch (λ a. a.id == r.account_id) db.accounts) [
          | none ↦ (err (TickError.sqlx row_not_found), db)
          | some a ↦
              if leb_ℤ (accrued_charge r.created_at now r.rate_sats_per_min) a.balance_sats
              then (ok tt, db)
              else commit_or_stop db (evict now r db)
        ]
  ]

  unfoldable pub enforce_each :
      BillingConfig → (ℕ → ℤ) → List RentalRow → Db → Result TickError (Unit {0}) × Db
  enforce_each cfg now [] db = (ok tt, db)
  enforce_each cfg now (r ∷ running) db =
      and_then (enforce_budget cfg (now r.id) r db) (λ db'. enforce_each cfg now running db')

  unfoldable pub enforce_budgets : BillingConfig → (ℕ → ℤ) → Db → Result TickError (Unit {0}) × Db
  enforce_budgets cfg now db =
      enforce_each cfg now (select (λ r. status_eq r.status RentalStatus.running) db.rentals) db

  -- One tick. The three steps read the clock on their own.
  unfoldable pub tick :
      (String → Result String Bool)
      → BillingConfig
      → (String → ℤ)
      → ℤ
      → (ℕ → ℤ)
      → Db
      → Result TickError (Unit {0}) × Db
  tick is_settled cfg now_polling now_marking now_enforcing db =
      and_then (poll_invoices is_settled now_polling db)
        (λ db'. enforce_budgets cfg now_enforcing (mark_offline cfg now_marking db'))
