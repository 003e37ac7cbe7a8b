-- ===== src/ControlPlane/Queues/Tenants.antt =====
-- The handlers of the tenants' side keep the queues in order.
use Prim.Native.String
use computation_market_poc.Prelude.{
  ℕ, String, map, Bool-cases, Option-cases, Result-cases, inl, inr, map_err,
}
use computation_market_poc.Prelude.Int.{ℤ}
use computation_market_poc.Prelude.Key.{◌==◌, nat_eq, string_eq}
use computation_market_poc.Prelude.Table.{contains, fetch, update}
use computation_market_poc.Core.Api.{DepositRequest, CreateRentalRequest, Command}
use computation_market_poc.ControlPlane.Error.{from_sqlx}
use computation_market_poc.ControlPlane.Db.{
  Db, RentalRow, MachineRow, machine_id_of, account_id_of, insert_account, insert_invoice,
  insert_rental, queue_command,
}
use computation_market_poc.ControlPlane.Codec.{CommandCodec}
use computation_market_poc.ControlPlane.Lightning.{LightningBackend, Invoice}
use computation_market_poc.ControlPlane.Routes.Tenant.{
  create_account, deposit_check, deposit_insert, deposit, create_check, create_insert,
  create_rental, new_rental, delete_read, delete_tx, delete_rental, is_stopping,
  set_status_evicting,
}
use computation_market_poc.ControlPlane.Queues.{
  Kept, Kept->>=, Kept-map_err, Queued, commit-Queued, queue_command-Queued,
}

module _ (json : CommandCodec) where
  pub create_account-Queued :
      (id : String) (now : ℤ) (db : Db) → Queued json db → Queued json (create_account id now db).1
  unfolding create_account insert_account
  create_account-Queued id now db q =
      elim (Bool-cases (contains id (map account_id_of db.accounts))) [
        | inl taken ↦ rw taken q
        | inr free ↦ rw free q
      ]

  deposit_insert-Queued :
      (invoice : Invoice) (id : String) (req : DepositRequest) (now : ℤ) (db : Db)
      → Queued json db
      → Queued json (deposit_insert invoice id req now db).1
  unfolding deposit_insert insert_invoice
  deposit_insert-Queued invoice id req now db q =
      let used = contains invoice.payment_hash (map (λ i. i.payment_hash) db.invoices) in
      elim (Bool-cases used) [
        | inl taken ↦ rw taken q
        | inr free ↦ rw free (elim (Bool-cases (contains id (map account_id_of db.accounts))) [
          | inl known ↦ rw known q
          | inr unknown ↦ rw unknown q
        ])
      ]

  pub deposit-Queued :
      (ln : LightningBackend) (id : String) (req : DepositRequest) (now : ℤ) (db : Db)
      (s : ln.State)
      → Queued json db
      → Queued json (deposit ln id req now db s).0.1
  unfolding deposit
  deposit-Queued ln id req now db s q = elim (Result-cases (deposit_check id req db)) [
    | inr (e, refused) ↦ rw (refused, deposit) q
    | inl (u, checked) ↦
        let answer =
          ln.create_invoice (record { amount = req.sats }) (String.◌++◌ "deposit for " id) s in
        elim (Result-cases answer) [
          | inr (e, failed) ↦ rw (checked, failed, deposit) q
          | inl ((invoice, s'), made) ↦
              rw (checked, made, deposit) (deposit_insert-Queued invoice id req now db q)
        ]
  ]

  insert_rental-Queued :
      (row : RentalRow) (db : Db) → Queued json db → Kept (Queued json) (insert_rental row db)
  unfolding insert_rental
  insert_rental-Queued row db q =
      elim (Bool-cases (contains row.machine_id (map machine_id_of db.machines))) [
        | inr unknown ↦ rw unknown tt
        | inl known ↦ elim (Bool-cases (contains row.account_id (map account_id_of db.accounts))) [
          | inr unknown ↦ rw (known, unknown) tt
          | inl known_a ↦ rw (known, known_a) q
        ]
      ]

  create_insert-Queued :
      (req : CreateRentalRequest) (m : MachineRow) (key : String) (now : ℤ) (db : Db)
      → Queued json db
      → Kept (λ s. Queued json s.1) (create_insert json req m key now db)
  unfolding create_insert
  create_insert-Queued req m key now db q =
      let row = new_rental req key m.rate_sats_per_min now db in
      Kept->>= (Queued json) (λ s. Queued json s.1) (map_err from_sqlx (insert_rental row db)) _
        (Kept-map_err (Queued json) from_sqlx (insert_rental row db)
          (insert_rental-Queued row db q))
        (λ db1 q1.
          Kept->>= (Queued json) (λ s. Queued json s.1)
            (map_err from_sqlx (
              queue_command req.machine_id
                (json.to_string (Command.start_rental row.id req.image key)) now db1))
            _
            (Kept-map_err (Queued json) from_sqlx _ (
              queue_command-Queued json req.machine_id (Command.start_rental row.id req.image key)
                now db1 q1))
            (λ db2 q2. q2))

  pub create_rental-Queued :
      (req : CreateRentalRequest) (now : ℤ) (db : Db)
      → Queued json db
      → Queued json (create_rental json req now db).1
  unfolding create_rental
  create_rental-Queued req now db q = elim (Result-cases (create_check req db)) [
    | inr (e, refused) ↦ rw (refused, create_rental) q
    | inl ((m, a, key), checked) ↦
        rw (checked, create_rental)
          (commit-Queued json db _ q (create_insert-Queued req m key now db q))
  ]

  delete_tx-Queued :
      (r : RentalRow) (now : ℤ) (db : Db)
      → Queued json db
      → Kept (λ s. Queued json s.1) (delete_tx json r now db)
  unfolding delete_tx
  delete_tx-Queued r now db q =
      let db1 : Db = record db {
        rentals = update (λ s. s.id == r.id) set_status_evicting db.rentals;
      } in
      Kept->>= (Queued json) (λ s. Queued json s.1)
        (map_err from_sqlx
          (queue_command r.machine_id (json.to_string (Command.stop_rental r.id)) now db1))
        _
        (Kept-map_err (Queued json) from_sqlx _
          (queue_command-Queued json r.machine_id (Command.stop_rental r.id) now db1 q))
        (λ db2 q2. q2)

  pub delete_rental-Queued :
      (id : ℕ) (now : ℤ) (db : Db) → Queued json db → Queued json (delete_rental json id now db).1
  unfolding delete_rental delete_read
  delete_rental-Queued id now db q = elim (Option-cases (fetch (λ r. r.id == id) db.rentals)) [
    | inl unknown ↦ rw (unknown, delete_rental) q
    | inr (r, found) ↦
        rw (found, delete_rental)
          (elim (Bool-cases (is_stopping r)) [
            | inl stopping ↦ rw stopping q
            | inr live ↦ rw live (commit-Queued json db _ q (delete_tx-Queued r now db q))
          ])
  ]
