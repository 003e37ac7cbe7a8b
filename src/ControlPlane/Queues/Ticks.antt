-- ===== src/ControlPlane/Queues/Ticks.antt =====
-- A tick keeps the queues in order, also where it ends early.
use computation_market_poc.Prelude.{
  ℕ, Bool, true, false, String, List, [], ◌∷◌, not, Result, ok, err, Bool-cases, Option-cases, inl,
  inr,
}
use computation_market_poc.Prelude.Int.{ℤ, ltb_ℤ, leb_ℤ}
use computation_market_poc.Prelude.Word.{sub_i64}
use computation_market_poc.Prelude.Key.{◌==◌, nat_eq, string_eq}
use computation_market_poc.Prelude.Table.{fetch, select, update}
use computation_market_poc.Core.Api.{Command}
use computation_market_poc.Core.Model.{RentalStatus, status_eq}
use computation_market_poc.ControlPlane.Db.{
  Db, RentalRow, InvoiceRow, record_row, move_balance, queue_command,
}
use computation_market_poc.ControlPlane.State.{BillingConfig, heartbeat_timeout_secs}
use computation_market_poc.ControlPlane.Codec.{CommandCodec}
use computation_market_poc.ControlPlane.Billing.{
  accrued_charge, settle_invoice, poll_answered, poll_each, poll_invoices, mark_offline, evict,
  enforce_budget, enforce_each, enforce_budgets, tick, mark_settled, set_evicting,
}
use computation_market_poc.ControlPlane.Queues.{
  Kept, Kept->>=, Queued, commit_or_stop-Queued, and_then-Queued, queue_command-Queued,
}
use computation_market_poc.ControlPlane.Queues.Agents.{move_balance-Queued}

module _ (json : CommandCodec) where
  settle_invoice-Queued :
      (now : ℤ) (i : InvoiceRow) (db : Db)
      → Queued json db
      → Kept (Queued json) (settle_invoice now i db)
  unfolding settle_invoice record_row
  settle_invoice-Queued now i db q =
      let db1 : Db = record db {
        invoices = update (λ j. j.payment_hash == i.payment_hash) mark_settled db.invoices;
      } in
      Kept->>= (Queued json) (Queued json) (move_balance i.account_id i.sats db1) _
        (move_balance-Queued json i.account_id i.sats db1 q) (λ db2 q2. q2)

  poll_answered-Queued :
      (answer : Result String Bool) (now : ℤ) (i : InvoiceRow) (db : Db)
      → Queued json db
      → Queued json (poll_answered answer now i db).1
  unfolding poll_answered
  poll_answered-Queued (err e) now i db q = q
  poll_answered-Queued (ok false) now i db q = q
  poll_answered-Queued (ok true) now i db q =
      commit_or_stop-Queued json db _ q (settle_invoice-Queued now i db q)

  poll_each-Queued :
      (is_settled : String → Result String Bool) (now : String → ℤ) (pending : List InvoiceRow)
      (db : Db)
      → Queued json db
      → Queued json (poll_each is_settled now pending db).1
  unfolding poll_each
  poll_each-Queued is_settled now [] db q = q
  poll_each-Queued is_settled now (i ∷ pending) db q =
      and_then-Queued json (poll_answered (is_settled i.payment_hash) (now i.payment_hash) i db)
        (λ db'. poll_each is_settled now pending db')
        (poll_answered-Queued (is_settled i.payment_hash) (now i.payment_hash) i db q)
        (λ db' q'. poll_each-Queued is_settled now pending db' q')

  evict-Queued :
      (now : ℤ) (r : RentalRow) (db : Db)
      → Queued json db
      → Kept (Queued json) (evict json now r db)
  unfolding evict record_row
  evict-Queued now r db q =
      let db1 : Db = record db { rentals = update (λ s. s.id == r.id) set_evicting db.rentals } in
      Kept->>= (Queued json) (Queued json)
        (queue_command r.machine_id (json.to_string (Command.stop_rental r.id)) now db1) _
        (queue_command-Queued json r.machine_id (Command.stop_rental r.id) now db1 q) (λ db2 q2. q2)

  enforce_budget-Queued :
      (cfg : BillingConfig) (now : ℤ) (r : RentalRow) (db : Db)
      → Queued json db
      → Queued json (enforce_budget json cfg now r db).1
  unfolding enforce_budget
  enforce_budget-Queued cfg now r db q =
      elim (Option-cases (fetch (λ m. m.id == r.machine_id) db.machines)) [
        | inl unknown ↦ rw (unknown, enforce_budget) q
        | inr (m, found_m) ↦
            let silent = ltb_ℤ (heartbeat_timeout_secs cfg) (sub_i64 now m.last_heartbeat) in
            elim (Bool-cases silent) [
              | inl skipped ↦ rw (found_m, enforce_budget) (rw skipped q)
              | inr heard ↦ elim (Option-cases (fetch (λ a. a.id == r.account_id) db.accounts)) [
                | inl unknown ↦ rw (found_m, unknown, enforce_budget) (rw heard q)
                | inr (a, found_a) ↦
                    let within =
                      leb_ℤ (accrued_charge r.created_at now r.rate_sats_per_min) a.balance_sats in
                    rw (found_m, found_a, enforce_budget)
                      (rw heard (elim (Bool-cases within) [
                        | inl pays ↦ rw pays q
                        | inr over ↦
                            rw over (commit_or_stop-Queued json db _ q (evict-Queued now r db q))
                      ]))
              ]
            ]
      ]

  enforce_each-Queued :
      (cfg : BillingConfig) (now : ℕ → ℤ) (running : List RentalRow) (db : Db)
      → Queued json db
      → Queued json (enforce_each json cfg now running db).1
  unfolding enforce_each
  enforce_each-Queued cfg now [] db q = q
  enforce_each-Queued cfg now (r ∷ running) db q =
      and_then-Queued json (enforce_budget json cfg (now r.id) r db)
        (λ db'. enforce_each json cfg now running db') (enforce_budget-Queued cfg (now r.id) r db q)
        (λ db' q'. enforce_each-Queued cfg now running db' q')

  pub tick-Queued :
      (is_settled : String → Result String Bool) (cfg : BillingConfig) (now_polling : String → ℤ)
      (now_marking : ℤ) (now_enforcing : ℕ → ℤ) (db : Db)
      → Queued json db
      → Queued json (tick json is_settled cfg now_polling now_marking now_enforcing db).1
  unfolding tick poll_invoices enforce_budgets mark_offline
  tick-Queued is_settled cfg now_polling now_marking now_enforcing db q =
      and_then-Queued json (poll_invoices is_settled now_polling db)
        (λ db'. enforce_budgets json cfg now_enforcing (mark_offline cfg now_marking db'))
        (poll_each-Queued is_settled now_polling (select (λ i. not i.settled) db.invoices) db q)
        (λ db' q'.
          enforce_each-Queued cfg now_enforcing
            (select (λ r. status_eq r.status RentalStatus.running) db'.rentals)
            (mark_offline cfg now_marking db') q')
