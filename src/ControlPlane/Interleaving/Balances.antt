-- ===== src/ControlPlane/Interleaving/Balances.antt =====
-- What transactions in any order leave of the ledger and the balances.
use computation_market_poc.Prelude.{
  ◌≡◌, refl, ap, sym, ◌∙◌, ◌↔◌, List, [], ◌∷◌, map, arith, Bool-cases, Result-cases, inl, inr, none,
  some,
}
use computation_market_poc.Prelude.Int.{ℤ, pos, pos_part, neg_part, ◌+ℤ◌, ◌≤ℤ◌, int_laws, ltb_ℤ}
use computation_market_poc.Prelude.Key.{◌==◌, nat_eq}
use computation_market_poc.Prelude.Table.{All, sum_by, contains, select, update}
use computation_market_poc.Core.Api.{HeartbeatRequest, RateRequest, Command}
use computation_market_poc.ControlPlane.Db.{
  Db, MachineRow, RentalRow, machine_id_of, account_id_of, queue_command, InvoiceRow, with_command,
  record_row,
}
use computation_market_poc.Core.Model.{LedgerKind}
use computation_market_poc.ControlPlane.Codec.{CommandCodec}
use computation_market_poc.ControlPlane.Billing.{
  commit_or_stop, evict, mark_offline, set_offline, settle_invoice, set_evicting,
}
use computation_market_poc.ControlPlane.Routes.Auth.{commit}
use computation_market_poc.ControlPlane.Routes.Agent.{
  decode_each, pending, touch, heartbeat_tx, set_rate, rate_update, payout_tx, new_machine,
  refresh_machine,
}
use computation_market_poc.ControlPlane.Routes.Tenant.{delete_tx, set_status_evicting}
use computation_market_poc.ControlPlane.Interleaving.{
  Transaction, account_inserted, invoice_inserted, rental_inserted, rental_stopped,
  machine_inserted, machine_refreshed, heartbeat_taken, rental_reported, rate_set, balance_paid,
  invoice_settled, marked_offline, rental_evicted, Committed, created, commits,
}
use computation_market_poc.ControlPlane.Invariant.{Inv, held, owed, booked, empty_db-Inv}
use computation_market_poc.ControlPlane.Invariant.Books.{InvoiceLinked, commit-Inv}
use computation_market_poc.ControlPlane.Invariant.Statements.{
  rentals-Inv, machines-Inv, note-Inv, fetch_machine,
}
use computation_market_poc.ControlPlane.Invariant.Movements.{payout-Inv}
use computation_market_poc.ControlPlane.Invariant.Settlement.{report_tx-Succeeds}
use computation_market_poc.ControlPlane.Invariant.Ticker.{
  Within, settle_invoice-Succeeds, commit_or_stop-Runs,
}
use computation_market_poc.ControlPlane.Invariant.Agents.{registered-Inv}
use computation_market_poc.ControlPlane.Invariant.Tenants.{
  create_account-Inv, deposit_insert-Inv, create_rental-Inv,
}

sum_nonneg :
    {A : Type 0} (f : A → ℤ) (rows : List A) → All (λ r. pos 0 ≤ℤ f r) rows → pos 0 ≤ℤ sum_by f rows
unfolding sum_by
sum_nonneg f [] h = omega arith
sum_nonneg f (r ∷ rows) h = omega (int_laws, h.0, sum_nonneg f rows h.1)

sum_zero :
    {A : Type 0} (f : A → ℤ) (rows : List A)
    → All (λ r. pos 0 ≤ℤ f r) rows
    → sum_by f rows ≤ℤ pos 0
    → All (λ r. f r ≡ pos 0) rows
unfolding sum_by
sum_zero f [] h le = tt
sum_zero f (r ∷ rows) h le =
    let rest = sum_nonneg f rows h.1 in
    (omega (int_laws, h.0, le, rest), sum_zero f rows h.1 (omega (int_laws, h.0, le, rest)))

sum_by-zeros :
    {A : Type 0} (f : A → ℤ) (rows : List A) → All (λ r. f r ≡ pos 0) rows → sum_by f rows ≡ pos 0
unfolding sum_by
sum_by-zeros f [] h = refl
sum_by-zeros f (r ∷ rows) h = rw (h.0, sum_by-zeros f rows h.1) (omega int_laws)

heartbeat_tx-Inv :
    (json : CommandCodec) (m : MachineRow) (req : HeartbeatRequest) (now : ℤ) (db : Db)
    → Inv db
    → Inv (commit db (heartbeat_tx json m req now db)).1
unfolding heartbeat_tx
heartbeat_tx-Inv json m req now db v =
    elim (Result-cases (decode_each json (select (pending m.id) db.commands))) [
      | inr (e, bad) ↦ rw bad v
      | inl (commands, read) ↦ rw read (machines-Inv _ (touch req now) db (λ _. refl) (λ _. refl) v)
    ]

rate_update-Inv :
    (m : MachineRow) (req : RateRequest) (db : Db) → Inv db → Inv (rate_update req db m).1
rate_update-Inv m req db v = elim (Bool-cases (ltb_ℤ req.rate_sats_per_min (pos 1))) [
  | inl low ↦ rw low v
  | inr fits ↦
      rw fits (machines-Inv _ (set_rate req.rate_sats_per_min) db (λ _. refl) (λ _. refl) v)
]

delete_tx-Inv :
    (json : CommandCodec) (r : RentalRow) (now : ℤ) (db : Db)
    → Inv db
    → Inv (commit db (delete_tx json r now db)).1
unfolding delete_tx queue_command
delete_tx-Inv json r now db v =
    elim (Bool-cases (contains r.machine_id (map machine_id_of db.machines))) [
      | inr unknown ↦ rw unknown v
      | inl known ↦
          rw known (rentals-Inv _ set_status_evicting db (λ _. refl) (λ _. refl) (λ _. refl) v)
    ]

pub settled-Inv :
    (now : ℤ) (i : InvoiceRow) (db : Db)
    → Inv db
    → InvoiceLinked (map account_id_of db.accounts) i
    → Inv (commit_or_stop db (settle_invoice now i db)).1
settled-Inv now i db v linked =
    let machines = map machine_id_of db.machines in
    let accounts = map account_id_of db.accounts in
    (commit_or_stop-Runs (Within machines accounts) db (settle_invoice now i db)
      (settle_invoice-Succeeds machines accounts now i db (v, refl, refl) linked)).1.0

evict-Inv :
    (json : CommandCodec) (now : ℤ) (r : RentalRow) (db : Db)
    → Inv db
    → Inv (commit_or_stop db (evict json now r db)).1
unfolding evict queue_command record_row
evict-Inv json now r db v =
    elim (Bool-cases (contains r.machine_id (map machine_id_of db.machines))) [
      | inr unknown ↦ rw unknown v
      | inl known ↦
          let stop = json.to_string (Command.stop_rental r.id) in
          let db1 : Db = record db {
            rentals = update (λ s. s.id == r.id) set_evicting db.rentals;
          } in
          rw known (
            note-Inv now LedgerKind.evict (some r.account_id) none (some r.id)
              (some "insufficient balance") (with_command r.machine_id stop now db1)
              (rentals-Inv _ set_evicting db (λ _. refl) (λ _. refl) (λ _. refl) v))
    ]

module _ (json : CommandCodec) where
  Transaction-Inv : {db db' : Db} → Transaction json db db' → Inv db → Inv db'
  unfolding payout_tx new_machine refresh_machine mark_offline
  Transaction-Inv {db} (account_inserted id now) v = create_account-Inv id now db v
  Transaction-Inv {db} (invoice_inserted invoice id req now more) v =
      deposit_insert-Inv invoice id req now db v more
  Transaction-Inv {db} (rental_inserted req now) v = create_rental-Inv json req now db v
  Transaction-Inv {db} (rental_stopped r now) v = delete_tx-Inv json r now db v
  Transaction-Inv {db} (machine_inserted token req now) v =
      registered-Inv token (new_machine token req now db) db v (omega arith) refl
  Transaction-Inv {db} (machine_refreshed m req now) v =
      machines-Inv _ (refresh_machine req now) db (λ _. refl) (λ _. refl) v
  Transaction-Inv {db} (heartbeat_taken m req now) v = heartbeat_tx-Inv json m req now db v
  Transaction-Inv {db} (rental_reported m r req now known_m known_a) v =
      let (n, found) = fetch_machine m.id db known_m in
      commit-Inv db _ (report_tx-Succeeds m r now req n db v known_a found)
  Transaction-Inv {db} (rate_set m req) v = rate_update-Inv m req db v
  Transaction-Inv {db} (balance_paid m n now found same) v =
      rw (← same) (payout-Inv m.id now n db v found)
  Transaction-Inv {db} (invoice_settled i now known more) v = settled-Inv now i db v (known, more)
  Transaction-Inv {db} (marked_offline cfg now) v =
      machines-Inv _ set_offline db (λ _. refl) (λ _. refl) v
  Transaction-Inv {db} (rental_evicted r now) v = evict-Inv json now r db v

  pub Committed-Inv : {db : Db} → Committed json db → Inv db
  Committed-Inv created = empty_db-Inv
  Committed-Inv (commits before transaction) = Transaction-Inv transaction (Committed-Inv before)

  -- However requests and ticks interleave between their transactions, if no payout pays a balance
  -- that has changed since it was read, then after every transaction no account is overdrawn, no
  -- host is owed less than nothing, and the sum of the ledger is exactly what is held for tenants
  -- and owed to hosts.
  pub Committed-balanced :
      {db : Db}
      → Committed json db
      → All (λ a. pos 0 ≤ℤ a.balance_sats) db.accounts
        × All (λ m. pos 0 ≤ℤ m.payout_balance) db.machines
        × (booked db.ledger ≡ held db.accounts +ℤ owed db.machines)
  Committed-balanced reached = let v = Committed-Inv reached in (v.solvent, v.creditors, v.balanced)

  -- However requests and ticks interleave between their transactions, if no payout pays a balance
  -- that has changed since it was read, then after every transaction the ledger sums to zero
  -- exactly if every account and every machine has a balance of zero.
  pub booked-zero_iff :
      {db : Db}
      → Committed json db
      → (booked db.ledger ≡ pos 0) ↔ (
          All (λ a. a.balance_sats ≡ pos 0) db.accounts
          × All (λ m. m.payout_balance ≡ pos 0) db.machines)
  booked-zero_iff {db} reached =
      let v = Committed-Inv reached in
      let tenants = sum_nonneg (λ a. a.balance_sats) db.accounts v.solvent in
      let hosts = sum_nonneg (λ m. m.payout_balance) db.machines v.creditors in
      (
        λ zero.
            let p = ap pos_part (sym zero ∙ v.balanced) in
            let n = ap neg_part (sym zero ∙ v.balanced) in
            (
              sum_zero (λ a. a.balance_sats) db.accounts v.solvent
                  (omega (int_laws, p, n, tenants, hosts)),
              sum_zero (λ m. m.payout_balance) db.machines v.creditors
                  (omega (int_laws, p, n, tenants, hosts)),
            ),
        λ empty.
            v.balanced
            ∙ rw
                (
                  sum_by-zeros (λ a. a.balance_sats) db.accounts empty.0,
                  sum_by-zeros (λ m. m.payout_balance) db.machines empty.1,
                )
                (omega int_laws),
      )
