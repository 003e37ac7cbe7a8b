-- ===== src/ControlPlane/Invariant/Ticker.antt =====
-- A tick keeps the invariant, and no statement of it is refused, whatever the Lightning backend
-- answers and however the clock runs.
use computation_market_poc.Prelude.{
  ℕ, ◌≡◌, refl, ◌∙◌, Bool, true, false, String, List, [], ◌∷◌, map, none, some, Result, ok, err,
  arith, Bool-cases, inl, inr,
}
use computation_market_poc.Prelude.Int.{ℤ, pos, ◌≤ℤ◌, int_laws, ltb_ℤ, leb_ℤ}
use computation_market_poc.Prelude.Word.{sub_i64}
use computation_market_poc.Prelude.Key.{◌==◌, nat_eq, string_eq}
use computation_market_poc.Prelude.Table.{All, All-fetch, All-select, update, map-update}
use computation_market_poc.Core.Api.{Command}
use computation_market_poc.Core.Model.{LedgerKind}
use computation_market_poc.ControlPlane.Error.{SqlxError}
use computation_market_poc.ControlPlane.Db.{
  Db, RentalRow, InvoiceRow, machine_id_of, account_id_of, add_balance, record_row, with_command,
}
use computation_market_poc.ControlPlane.State.{BillingConfig, heartbeat_timeout_secs}
use computation_market_poc.ControlPlane.Codec.{CommandCodec}
use computation_market_poc.ControlPlane.Billing.{
  TickError, accrued_charge, settle_invoice, poll_answered, poll_each, poll_invoices, mark_offline,
  evict, enforce_budget, enforce_each, enforce_budgets, tick, commit_or_stop, and_then,
  mark_settled, set_evicting,
}
use computation_market_poc.ControlPlane.Invariant.Books.{Inv, Succeeds, RentalLinked, InvoiceLinked}
use computation_market_poc.ControlPlane.Invariant.Statements.{
  rentals-Inv, machines-Inv, invoices-Inv, note-Inv, fetch_account, fetch_machine, move_balance_lem,
  queue_command_lem,
}
use computation_market_poc.ControlPlane.Invariant.Movements.{deposit-Inv}

-- An answer of `tick` that is no error of the database.
abbrev pub NoSqlxError : Result TickError (Unit {0}) → Type 0
NoSqlxError (ok _) = Unit
NoSqlxError (err (TickError.sqlx e)) = ⊥
NoSqlxError (err (TickError.backend e)) = Unit

-- The invariant, over the accounts and machines that were there before.
abbrev pub Within : List ℕ → List String → Db → Type 0
Within machines accounts db =
    Inv db × (map machine_id_of db.machines ≡ machines) × (map account_id_of db.accounts ≡ accounts)

abbrev pub Runs : (Db → Type 0) → Result TickError (Unit {0}) × Db → Type 0
Runs P r = NoSqlxError r.0 × P r.1

and_then-Runs :
    (P : Db → Type 0) (r : Result TickError (Unit {0}) × Db)
    (rest : Db → Result TickError (Unit {0}) × Db)
    → Runs P r
    → ((db : Db) → P db → Runs P (rest db))
    → Runs P (and_then r rest)
and_then-Runs P (ok _, db) rest h k = k db h.1
and_then-Runs P (err e, db) rest h k = h

pub commit_or_stop-Runs :
    (P : Db → Type 0) (db : Db) (r : Result SqlxError Db)
    → Succeeds P r
    → Runs P (commit_or_stop db r)
commit_or_stop-Runs P db (ok db') h = (tt, h)
commit_or_stop-Runs P db (err e) h = absurd h

module _ (machines : List ℕ) (accounts : List String) where
  pub settle_invoice-Succeeds :
      (now : ℤ) (i : InvoiceRow) (db : Db)
      → Within machines accounts db
      → InvoiceLinked accounts i
      → Succeeds (Within machines accounts) (settle_invoice now i db)
  unfolding settle_invoice record_row
  settle_invoice-Succeeds now i db (v, ms, as_) linked =
      let (a, found) = fetch_account i.account_id db (rw as_ linked.0) in
      let db1 : Db = record db {
        invoices = update (λ j. j.payment_hash == i.payment_hash) mark_settled db.invoices;
      } in
      let marked : Inv db1 = invoices-Inv _ mark_settled db (λ _. refl) (λ _. refl) v in
      let nonneg = All-fetch (λ b. pos 0 ≤ℤ b.balance_sats) _ db.accounts a v.solvent found in
      let positive : pos 0 ≤ℤ i.sats = omega (arith, linked.1) in
      rw (move_balance_lem i.account_id i.sats a db1 found (omega (int_laws, nonneg, positive))) (
        deposit-Inv i.account_id i.sats now a db1 marked found positive,
        ms,
        map-update account_id_of _ (add_balance i.sats) (λ _. refl) db.accounts ∙ as_,
      )

  poll_answered-Runs :
      (answer : Result String Bool) (now : ℤ) (i : InvoiceRow) (db : Db)
      → Within machines accounts db
      → InvoiceLinked accounts i
      → Runs (Within machines accounts) (poll_answered answer now i db)
  unfolding poll_answered
  poll_answered-Runs (err e) now i db h linked = (tt, h)
  poll_answered-Runs (ok false) now i db h linked = (tt, h)
  poll_answered-Runs (ok true) now i db h linked =
      commit_or_stop-Runs _ db _ (settle_invoice-Succeeds now i db h linked)

  poll_each-Runs :
      (is_settled : String → Result String Bool) (now : String → ℤ) (pending : List InvoiceRow)
      (db : Db)
      → Within machines accounts db
      → All (InvoiceLinked accounts) pending
      → Runs (Within machines accounts) (poll_each is_settled now pending db)
  unfolding poll_each
  poll_each-Runs is_settled now [] db h linked = (tt, h)
  poll_each-Runs is_settled now (i ∷ pending) db h linked =
      and_then-Runs _ (poll_answered (is_settled i.payment_hash) (now i.payment_hash) i db)
        (λ db'. poll_each is_settled now pending db')
        (poll_answered-Runs (is_settled i.payment_hash) (now i.payment_hash) i db h linked.0)
        (λ db' h'. poll_each-Runs is_settled now pending db' h' linked.1)

  module _ (json : CommandCodec) where
    evict-Succeeds :
        (now : ℤ) (r : RentalRow) (db : Db)
        → Within machines accounts db
        → RentalLinked machines accounts r
        → Succeeds (Within machines accounts) (evict json now r db)
    unfolding evict record_row
    evict-Succeeds now r db (v, ms, as_) linked =
        let db1 : Db = record db { rentals = update (λ s. s.id == r.id) set_evicting db.rentals } in
        let stop = json.to_string (Command.stop_rental r.id) in
        rw (queue_command_lem r.machine_id stop now db1 (rw ms linked.0)) (
          note-Inv now LedgerKind.evict (some r.account_id) none (some r.id)
              (some "insufficient balance") (with_command r.machine_id stop now db1)
              (rentals-Inv _ set_evicting db (λ _. refl) (λ _. refl) (λ _. refl) v),
          ms,
          as_,
        )

    pub enforce_budget-Runs :
        (cfg : BillingConfig) (now : ℤ) (r : RentalRow) (db : Db)
        → Within machines accounts db
        → RentalLinked machines accounts r
        → Runs (Within machines accounts) (enforce_budget json cfg now r db)
    unfolding enforce_budget
    enforce_budget-Runs cfg now r db h linked =
        let (m, found_m) = fetch_machine r.machine_id db (rw h.1 linked.0) in
        let (a, found_a) = fetch_account r.account_id db (rw h.2 linked.1) in
        let silent = ltb_ℤ (heartbeat_timeout_secs cfg) (sub_i64 now m.last_heartbeat) in
        let within = leb_ℤ (accrued_charge r.created_at now r.rate_sats_per_min) a.balance_sats in
        rw (found_m, found_a, enforce_budget)
          (elim (Bool-cases silent) [
            | inl skipped ↦ rw skipped (tt, h)
            | inr heard ↦ rw heard (elim (Bool-cases within) [
              | inl pays ↦ rw pays (tt, h)
              | inr over ↦ rw over (commit_or_stop-Runs _ db _ (evict-Succeeds now r db h linked))
            ])
          ])

    enforce_each-Runs :
        (cfg : BillingConfig) (now : ℕ → ℤ) (running : List RentalRow) (db : Db)
        → Within machines accounts db
        → All (RentalLinked machines accounts) running
        → Runs (Within machines accounts) (enforce_each json cfg now running db)
    unfolding enforce_each
    enforce_each-Runs cfg now [] db h linked = (tt, h)
    enforce_each-Runs cfg now (r ∷ running) db h linked =
        and_then-Runs _ (enforce_budget json cfg (now r.id) r db)
          (λ db'. enforce_each json cfg now running db')
          (enforce_budget-Runs cfg (now r.id) r db h linked.0)
          (λ db' h'. enforce_each-Runs cfg now running db' h' linked.1)

Runs-Inv :
    (machines : List ℕ) (accounts : List String) (r : Result TickError (Unit {0}) × Db)
    → Runs (Within machines accounts) r
    → Runs Inv r
Runs-Inv machines accounts r h = (h.0, h.1.0)

-- A tick that begins with the invariant keeps it, whatever the backend answers, also where it
-- ends early. No statement of it is refused by the database: an error can come from the backend
-- alone.
pub tick-Runs :
    (json : CommandCodec) (is_settled : String → Result String Bool) (cfg : BillingConfig)
    (now_polling : String → ℤ) (now_marking : ℤ) (now_enforcing : ℕ → ℤ) (db : Db)
    → Inv db
    → Runs Inv (tick json is_settled cfg now_polling now_marking now_enforcing db)
unfolding tick poll_invoices mark_offline enforce_budgets
tick-Runs json is_settled cfg now_polling now_marking now_enforcing db v =
    and_then-Runs Inv (poll_invoices is_settled now_polling db) _
      (Runs-Inv _ _ (poll_invoices is_settled now_polling db) (
        poll_each-Runs (map machine_id_of db.machines) (map account_id_of db.accounts) is_settled
          now_polling _ db (v, refl, refl) (All-select _ _ db.invoices v.invoices_linked)))
      λ db' v'.
        let offline : Inv (mark_offline cfg now_marking db') =
          machines-Inv _ _ db' (λ _. refl) (λ _. refl) v' in
        Runs-Inv _ _ (enforce_budgets json cfg now_enforcing (mark_offline cfg now_marking db')) (
          enforce_each-Runs _ _ json cfg now_enforcing _ (mark_offline cfg now_marking db')
            (offline, refl, refl) (All-select _ _ db'.rentals offline.rentals_linked))
