-- ===== src/ControlPlane/Interleaving/Ticks.antt =====
-- A tick of crates/control-plane/src/billing.rs is a sequence of transactions.
use computation_market_poc.Prelude.{
  refl, ℕ, List, [], ◌∷◌, map, Bool, true, false, Bool-cases, Option-cases, Result, ok, err, inl,
  inr, String,
}
use computation_market_poc.Prelude.Int.{ℤ, ltb_ℤ, leb_ℤ}
use computation_market_poc.Prelude.Word.{sub_i64}
use computation_market_poc.Prelude.Key.{◌==◌, nat_eq, string_eq}
use computation_market_poc.Prelude.Table.{All, All-select, fetch}
use computation_market_poc.ControlPlane.Db.{Db, RentalRow, InvoiceRow, machine_id_of, account_id_of}
use computation_market_poc.ControlPlane.State.{BillingConfig, heartbeat_timeout_secs}
use computation_market_poc.ControlPlane.Codec.{CommandCodec}
use computation_market_poc.ControlPlane.Billing.{
  TickError, accrued_charge, poll_answered, poll_each, poll_invoices, mark_offline, enforce_budget,
  enforce_each, enforce_budgets, tick, and_then, settle_invoice,
}
use computation_market_poc.ControlPlane.Invariant.{Inv, InvoiceLinked}
use computation_market_poc.ControlPlane.Invariant.Ticker.{
  Within, commit_or_stop-Runs, settle_invoice-Succeeds,
}
use computation_market_poc.ControlPlane.Interleaving.{
  invoice_settled, marked_offline, rental_evicted, Transactions, no_more, and_next,
}

and_then-leaves :
    (P : Db → Type 0) (r : Result TickError (Unit {0}) × Db)
    (rest : Db → Result TickError (Unit {0}) × Db)
    → P r.1
    → ((db : Db) → P db → P (rest db).1)
    → P (and_then r rest).1
and_then-leaves P (ok _, db) rest h k = k db h
and_then-leaves P (err e, db) rest h k = h

module _ (json : CommandCodec) where
  module _ (db0 : Db) (machines : List ℕ) (accounts : List String) where
    -- Reached from `db0`, over the machines and accounts that were there before.
    abbrev Polled : Db → Type 0
    Polled db = Within machines accounts db × Transactions json db0 db

    poll_answered-Polled :
        (answer : Result String Bool) (now : ℤ) (i : InvoiceRow) (db : Db)
        → Polled db
        → InvoiceLinked accounts i
        → Polled (poll_answered answer now i db).1
    unfolding poll_answered
    poll_answered-Polled (err e) now i db h linked = h
    poll_answered-Polled (ok false) now i db h linked = h
    poll_answered-Polled (ok true) now i db (h, done) linked = (
      (commit_or_stop-Runs (Within machines accounts) db (settle_invoice now i db)
          (settle_invoice-Succeeds machines accounts now i db h linked)).1,
      and_next done (invoice_settled i now (rw h.2 linked.0) linked.1),
    )

    poll_each-Polled :
        (is_settled : String → Result String Bool) (now : String → ℤ) (pending : List InvoiceRow)
        (db : Db)
        → Polled db
        → All (InvoiceLinked accounts) pending
        → Polled (poll_each is_settled now pending db).1
    unfolding poll_each
    poll_each-Polled is_settled now [] db h linked = h
    poll_each-Polled is_settled now (i ∷ pending) db h linked =
        and_then-leaves Polled (poll_answered (is_settled i.payment_hash) (now i.payment_hash) i db)
          (λ db'. poll_each is_settled now pending db')
          (poll_answered-Polled (is_settled i.payment_hash) (now i.payment_hash) i db h linked.0)
          (λ db' h'. poll_each-Polled is_settled now pending db' h' linked.1)

  module _ (db0 : Db) (cfg : BillingConfig) where
    enforce_budget-Transactions :
        (now : ℤ) (r : RentalRow) (db : Db)
        → Transactions json db0 db
        → Transactions json db0 (enforce_budget json cfg now r db).1
    unfolding enforce_budget
    enforce_budget-Transactions now r db h =
        elim (Option-cases (fetch (λ m. m.id == r.machine_id) db.machines)) [
          | inl unknown ↦ rw (unknown, enforce_budget) h
          | inr (m, found_m) ↦
              elim (Bool-cases
                (ltb_ℤ (heartbeat_timeout_secs cfg) (sub_i64 now m.last_heartbeat))) [
                  | inl silent ↦ rw (found_m, silent, enforce_budget) h
                  | inr heard ↦
                      elim (Option-cases (fetch (λ a. a.id == r.account_id) db.accounts)) [
                        | inl unknown ↦ rw (found_m, heard, unknown, enforce_budget) h
                        | inr (a, found_a) ↦
                            rw (found_m, heard, found_a, enforce_budget)
                              (elim (Bool-cases (
                                leb_ℤ (accrued_charge r.created_at now r.rate_sats_per_min)
                                  a.balance_sats)) [
                                    | inl pays ↦ rw pays h
                                    | inr over ↦ rw over (and_next h (rental_evicted r now))
                                  ])
                      ]
                ]
        ]

    enforce_each-Transactions :
        (now : ℕ → ℤ) (running : List RentalRow) (db : Db)
        → Transactions json db0 db
        → Transactions json db0 (enforce_each json cfg now running db).1
    unfolding enforce_each
    enforce_each-Transactions now [] db h = h
    enforce_each-Transactions now (r ∷ running) db h =
        and_then-leaves (Transactions json db0) (enforce_budget json cfg (now r.id) r db)
          (λ db'. enforce_each json cfg now running db')
          (enforce_budget-Transactions (now r.id) r db h)
          (λ db' h'. enforce_each-Transactions now running db' h')

  pub tick-Transactions :
      (is_settled : String → Result String Bool) (cfg : BillingConfig) (now_polling : String → ℤ)
      (now_marking : ℤ) (now_enforcing : ℕ → ℤ) (db : Db)
      → Inv db
      → Transactions json db (tick json is_settled cfg now_polling now_marking now_enforcing db).1
  unfolding tick poll_invoices enforce_budgets
  tick-Transactions is_settled cfg now_polling now_marking now_enforcing db v =
      let polled =
        poll_each-Polled db (map machine_id_of db.machines) (map account_id_of db.accounts)
          is_settled now_polling _ db ((v, refl, refl), no_more)
          (All-select _ _ db.invoices v.invoices_linked) in
      and_then-leaves (Transactions json db) (poll_invoices is_settled now_polling db) _ polled.1
        λ db' h.
          enforce_each-Transactions db cfg now_enforcing _ (mark_offline cfg now_marking db')
            (and_next h (marked_offline cfg now_marking))
