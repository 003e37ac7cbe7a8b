-- ===== src/ControlPlane/Invariant/Tenants.antt =====
-- The handlers of the tenants' side keep the invariant.
use Prim.Native.String
use computation_market_poc.Prelude.{
  ℕ, ◌≡◌, refl, String, [], ◌∷◌, ◌++◌, map, ok, arith, Bool-cases, Option-cases, Result-cases, inl,
  inr,
}
use computation_market_poc.Prelude.Int.{ℤ, pos, ◌≤ℤ◌, ltb_ℤ}
use computation_market_poc.Prelude.Key.{◌==◌, nat_eq, string_eq}
use computation_market_poc.Prelude.Table.{All-fetch, contains, fetch, update}
use computation_market_poc.Core.Api.{DepositRequest, CreateRentalRequest, Command}
use computation_market_poc.ControlPlane.Db.{
  Db, MachineRow, machine_id_of, account_id_of, insert_account, insert_invoice, insert_rental,
}
use computation_market_poc.ControlPlane.Codec.{CommandCodec}
use computation_market_poc.ControlPlane.Lightning.{LightningBackend, Invoice}
use computation_market_poc.ControlPlane.Routes.Auth.{commit}
use computation_market_poc.ControlPlane.Routes.Tenant.{
  create_account, deposit_check, deposit_insert, deposit, create_check, create_insert,
  create_rental, new_rental, delete_read, delete_tx, delete_rental, is_stopping,
  set_status_evicting,
}
use computation_market_poc.ControlPlane.Invariant.Books.{Inv}
use computation_market_poc.ControlPlane.Invariant.Statements.{rentals-Inv, queue_command_lem}
use computation_market_poc.ControlPlane.Invariant.Inserts.{account-Inv, invoice-Inv, rental-Inv}

pub create_account-Inv :
    (id : String) (now : ℤ) (db : Db) → Inv db → Inv (create_account id now db).1
unfolding create_account insert_account
create_account-Inv id now db v = elim (Bool-cases (contains id (map account_id_of db.accounts))) [
  | inl taken ↦ rw taken v
  | inr free ↦ rw free (account-Inv _ db v free refl)
]

pub deposit_insert-Inv :
    (invoice : Invoice) (id : String) (req : DepositRequest) (now : ℤ) (db : Db)
    → Inv db
    → pos 1 ≤ℤ req.sats
    → Inv (deposit_insert invoice id req now db).1
unfolding deposit_insert insert_invoice
deposit_insert-Inv invoice id req now db v more =
    let used = contains invoice.payment_hash (map (λ i. i.payment_hash) db.invoices) in
    elim (Bool-cases used) [
      | inl taken ↦ rw taken v
      | inr free ↦ rw free (elim (Bool-cases (contains id (map account_id_of db.accounts))) [
        | inl known ↦ rw known (invoice-Inv _ db v (known, more))
        | inr unknown ↦ rw unknown v
      ])
    ]

-- Only a deposit of one sat or more gets past the checks.
pub deposit_check_pos :
    (id : String) (req : DepositRequest) (db : Db) (u : Unit {0})
    → deposit_check id req db ≡ ok u
    → pos 1 ≤ℤ req.sats
unfolding deposit_check
deposit_check_pos id req db u h = elim (Bool-cases (ltb_ℤ req.sats (pos 1))) [
  | inl low ↦ let refused = rw low at h in cc
  | inr fits ↦ ground arith
]

-- A deposit adds an invoice at most: no money moves until it is settled.
pub deposit-Inv :
    (ln : LightningBackend) (id : String) (req : DepositRequest) (now : ℤ) (db : Db) (s : ln.State)
    → Inv db
    → Inv (deposit ln id req now db s).0.1
unfolding deposit
deposit-Inv ln id req now db s v = elim (Result-cases (deposit_check id req db)) [
  | inr (e, refused) ↦ rw (refused, deposit) v
  | inl (u, checked) ↦
      let answer =
        ln.create_invoice (record { amount = req.sats }) (String.◌++◌ "deposit for " id) s in
      elim (Result-cases answer) [
        | inr (e, failed) ↦ rw (checked, failed, deposit) v
        | inl ((invoice, s'), made) ↦
            rw (checked, made, deposit)
              (deposit_insert-Inv invoice id req now db v (deposit_check_pos id req db u checked))
      ]
]

create_insert-Inv :
    (json : CommandCodec) (req : CreateRentalRequest) (m : MachineRow) (key : String) (now : ℤ)
    (db : Db)
    → Inv db
    → Inv (commit db (create_insert json req m key now db)).1
unfolding create_insert insert_rental new_rental
create_insert-Inv json req m key now db v =
    let machine = contains req.machine_id (map machine_id_of db.machines) in
    let account = contains req.account_id (map account_id_of db.accounts) in
    elim (Bool-cases machine) [
      | inr unknown ↦ rw unknown v
      | inl known_m ↦ elim (Bool-cases account) [
        | inr unknown ↦ rw (known_m, unknown) v
        | inl known_a ↦
            let row = new_rental req key m.rate_sats_per_min now db in
            let db1 : Db = record db { rentals = db.rentals ++ row ∷ []; rental_seq = row.id } in
            let start = json.to_string (Command.start_rental row.id req.image key) in
            rw (known_m, known_a)
              (rw (queue_command_lem req.machine_id start now db1 known_m)
                (rental-Inv row db v (omega arith) (known_m, known_a)))
      ]
    ]

-- A new rental moves no money.
pub create_rental-Inv :
    (json : CommandCodec) (req : CreateRentalRequest) (now : ℤ) (db : Db)
    → Inv db
    → Inv (create_rental json req now db).1
unfolding create_rental
create_rental-Inv json req now db v = elim (Result-cases (create_check req db)) [
  | inr (e, refused) ↦ rw (refused, create_rental) v
  | inl ((m, a, key), checked) ↦
      rw (checked, create_rental) (create_insert-Inv json req m key now db v)
]

pub delete_rental-Inv :
    (json : CommandCodec) (id : ℕ) (now : ℤ) (db : Db)
    → Inv db
    → Inv (delete_rental json id now db).1
unfolding delete_rental delete_read delete_tx
delete_rental-Inv json id now db v = elim (Option-cases (fetch (λ r. r.id == id) db.rentals)) [
  | inl unknown ↦ rw (unknown, delete_rental) v
  | inr (r, found) ↦
      rw (found, delete_rental)
        (elim (Bool-cases (is_stopping r)) [
          | inl stopping ↦ rw stopping v
          | inr live ↦
              let linked = All-fetch _ _ db.rentals r v.rentals_linked found in
              let db1 : Db = record db {
                rentals = update (λ s. s.id == r.id) set_status_evicting db.rentals;
              } in
              rw live (
                rw
                  (queue_command_lem r.machine_id (json.to_string (Command.stop_rental r.id)) now
                    db1 linked.0)
                  (rentals-Inv _ set_status_evicting db (λ _. refl) (λ _. refl) (λ _. refl) v))
        ])
]
