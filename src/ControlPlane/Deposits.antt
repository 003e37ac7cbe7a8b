-- ===== src/ControlPlane/Deposits.antt =====
-- `poll_invoices` of billing.rs: what a round of polling credits.
use computation_market_poc.Prelude.{
  ◌≡◌, refl, ap, ◌∙◌, Bool, true, not, String, List, [], ◌∷◌, map, none, some, Result, ok, err,
  if◌then◌else◌, arith, Bool-cases, inl, inr,
}
use computation_market_poc.Prelude.Int.{ℤ, pos, ◌+ℤ◌, ◌≤ℤ◌, int_laws}
use computation_market_poc.Prelude.Key.{◌==◌, string_eq}
use computation_market_poc.Prelude.Table.{
  All, All-fetch, All-select, select, update, map-update, sum_by,
}
use computation_market_poc.Core.Model.{LedgerKind}
use computation_market_poc.ControlPlane.Db.{Db, InvoiceRow, account_id_of, record_row, add_balance}
use computation_market_poc.ControlPlane.Billing.{
  TickError, settle_invoice, poll_answered, poll_each, poll_invoices, and_then, mark_settled,
}
use computation_market_poc.ControlPlane.Invariant.{Inv, InvoiceLinked, held}
use computation_market_poc.ControlPlane.Invariant.Statements.{
  invoices-Inv, fetch_account, move_balance_lem,
}
use computation_market_poc.ControlPlane.Invariant.Movements.{deposit-Inv}
use computation_market_poc.ControlPlane.Invariant.Balances.{held-add_balance}

-- What the backend's answer makes of an invoice.
abbrev pub credit : (String → Bool) → InvoiceRow → ℤ
credit paid i = if paid i.payment_hash then i.sats else pos 0

-- After a round from `db` the accounts hold this much more, and nothing else has moved.
abbrev Credited : ℤ → Db → Result TickError (Unit {0}) × Db → Type 0
Credited sats db r =
    (r.0 ≡ ok tt)
    × Inv r.1
    × (map account_id_of r.1.accounts ≡ map account_id_of db.accounts)
    × (held r.1.accounts ≡ held db.accounts +ℤ sats)
    × (r.1.machines ≡ db.machines)

settled_db : ℤ → InvoiceRow → Db → Db
settled_db now i db =
    record_row now LedgerKind.deposit i.sats (some i.account_id) none none (some "deposit")
      (record db {
        invoices = update (λ j. j.payment_hash == i.payment_hash) mark_settled db.invoices;
        accounts = update (λ b. b.id == i.account_id) (add_balance i.sats) db.accounts;
      })

settle_invoice-Credited :
    (now : ℤ) (i : InvoiceRow) (db : Db)
    → Inv db
    → InvoiceLinked (map account_id_of db.accounts) i
    → Credited i.sats db (poll_answered (ok true) now i db)
unfolding poll_answered settle_invoice record_row
settle_invoice-Credited now i db v linked =
    let (a, found) = fetch_account i.account_id db linked.0 in
    let db1 : Db = record db {
      invoices = update (λ j. j.payment_hash == i.payment_hash) mark_settled db.invoices;
    } in
    let marked : Inv db1 = invoices-Inv _ mark_settled db (λ _. refl) (λ _. refl) v in
    let nonneg = All-fetch (λ b. pos 0 ≤ℤ b.balance_sats) _ db.accounts a v.solvent found in
    let positive : pos 0 ≤ℤ i.sats = omega (arith, linked.1) in
    rw (move_balance_lem i.account_id i.sats a db1 found (omega (int_laws, nonneg, positive))) (
      refl,
      deposit-Inv i.account_id i.sats now a db1 marked found positive,
      map-update account_id_of _ (add_balance i.sats) (λ _. refl) db.accounts,
      held-add_balance i.account_id i.sats db.accounts a v.account_keys found,
      refl,
    )

then_Credited :
    (first more_sats : ℤ) (db : Db) (r : Result TickError (Unit {0}) × Db)
    (rest : Db → Result TickError (Unit {0}) × Db)
    → Credited first db r
    → ((db' : Db)
        → Inv db'
        → map account_id_of db'.accounts ≡ map account_id_of db.accounts
        → Credited more_sats db' (rest db'))
    → Credited (first +ℤ more_sats) db (and_then r rest)
then_Credited first more_sats db (ok _, db') rest (runs, v, same, more, hosts) k =
    let (runs', v', same', more', hosts') = k db' v same in
    (
      runs',
      v',
      same' ∙ same,
      more' ∙ ap (λ h. h +ℤ more_sats) more ∙ omega int_laws,
      hosts' ∙ hosts,
    )
then_Credited first more_sats db (err e, db') rest (runs, v, same, more, hosts) k = cc

module _ (paid : String → Bool) (now : String → ℤ) where
  polled :
      (i : InvoiceRow) (db : Db)
      → Inv db
      → InvoiceLinked (map account_id_of db.accounts) i
      → Credited
          (credit paid i)
          db
          (poll_answered (ok (paid i.payment_hash)) (now i.payment_hash) i db)
  unfolding poll_answered
  polled i db v linked = elim (Bool-cases (paid i.payment_hash)) [
    | inl is_paid ↦ rw is_paid (settle_invoice-Credited (now i.payment_hash) i db v linked)
    | inr unpaid ↦ rw unpaid (refl, v, refl, omega int_laws, refl)
  ]

  poll_each-Credited :
      (pending : List InvoiceRow) (db : Db)
      → Inv db
      → All (InvoiceLinked (map account_id_of db.accounts)) pending
      → Credited (sum_by (credit paid) pending) db (poll_each (λ h. ok (paid h)) now pending db)
  unfolding poll_each sum_by
  poll_each-Credited [] db v linked = (refl, v, refl, omega int_laws, refl)
  poll_each-Credited (i ∷ pending) db v linked =
      then_Credited (credit paid i) (sum_by (credit paid) pending) db
        (poll_answered (ok (paid i.payment_hash)) (now i.payment_hash) i db)
        (λ db'. poll_each (λ h. ok (paid h)) now pending db') (polled i db v linked.0)
        (λ db' v' same. poll_each-Credited pending db' v' (rw same linked.1))

  -- If the invariant holds and the backend answers for every invoice, a round of polling
  -- succeeds, keeps the invariant, and raises what is held for tenants by exactly the sum of the
  -- pending invoices that the backend calls paid. The machines are not touched.
  pub poll_invoices-credits :
      (db : Db)
      → Inv db
      → ((poll_invoices (λ h. ok (paid h)) now db).0 ≡ ok tt)
        × Inv (poll_invoices (λ h. ok (paid h)) now db).1
        × (held (poll_invoices (λ h. ok (paid h)) now db).1.accounts
            ≡ held db.accounts +ℤ sum_by (credit paid) (select (λ i. not i.settled) db.invoices))
        × ((poll_invoices (λ h. ok (paid h)) now db).1.machines ≡ db.machines)
  unfolding poll_invoices
  poll_invoices-credits db v =
      let (runs, v', same, more, hosts) =
        poll_each-Credited (select (λ i. not i.settled) db.invoices) db v
          (All-select _ _ db.invoices v.invoices_linked) in
      (runs, v', more, hosts)
