-- ===== src/ControlPlane/Settling.antt =====
-- `report` of routes/agent.rs: what a rental's end costs, and that it is paid once.
pub mod Reports
pub mod Once
use computation_market_poc.Prelude.{
  ◌≡◌, refl, ap, Bool-cases, inl, inr, true, false, String, Option, some, Result, ok, err, arith,
}
use computation_market_poc.Prelude.Int.{
  ℤ, pos, ◌+ℤ◌, ◌-ℤ◌, ◌*ℤ◌, ◌≤ℤ◌, max_ℤ, min_ℤ, ltb_ℤ, div, int_laws,
}
use computation_market_poc.Prelude.Word.{wrap}
use computation_market_poc.Prelude.Key.{◌==◌, nat_eq, string_eq}
use computation_market_poc.Prelude.Table.{fetch, update, fetch-update_hit}
use computation_market_poc.ControlPlane.Db.{
  Db, MachineRow, AccountRow, RentalRow, record_charge, record_row, add_balance,
}
use computation_market_poc.ControlPlane.Billing.{accrued_charge}
use computation_market_poc.ControlPlane.Routes.Agent.{
  add_payout, transfer, charge_tenant, settle_rental, settlement,
}
use computation_market_poc.ControlPlane.Invariant.{Inv}
use computation_market_poc.ControlPlane.Invariant.Statements.{move_balance_lem}
use computation_market_poc.ControlPlane.Invariant.Settlement.{settlement-le}

-- The price of the time since the request, in the 64 bits of the code: the seconds, none if the
-- clock went backwards, times the rate, over 60, rounded down.
abbrev pub prorated : RentalRow → ℤ → ℤ
prorated rental now =
    div (wrap (max_ℤ (wrap (now -ℤ rental.created_at)) (pos 0) *ℤ rental.rate_sats_per_min)) 60

-- What is due of it: the account's balance at most.
abbrev pub due : RentalRow → ℤ → AccountRow → ℤ
due rental now a = min_ℤ (prorated rental now) a.balance_sats

-- What moves from the tenant to the host.
abbrev pub charged : RentalRow → ℤ → AccountRow → ℤ
charged rental now a = max_ℤ (due rental now a) (pos 0)

-- The whole minutes since the request.
abbrev pub minutes_used : RentalRow → ℤ → ℤ
minutes_used rental now = div (max_ℤ (wrap (now -ℤ rental.created_at)) (pos 0)) 60

-- The account of a tenant holds, and the host of a machine is owed, this many sats.
abbrev pub Holds : String → ℤ → Db → Type 0
Holds account sats db =
    (a : AccountRow) × (fetch (λ b. b.id == account) db.accounts ≡ some a) × (a.balance_sats ≡ sats)

abbrev pub Owes : MachineRow → ℤ → Db → Type 0
Owes machine sats db =
    (m : MachineRow) × (fetch (λ n. n.id == machine.id) db.machines ≡ some m)
    × (m.payout_balance ≡ sats)

max_of_positive : (c : ℤ) → ltb_ℤ (pos 0) c ≡ true → max_ℤ c (pos 0) ≡ c
max_of_positive c h = ground arith

max_of_other : (c : ℤ) → ltb_ℤ (pos 0) c ≡ false → max_ℤ c (pos 0) ≡ pos 0
max_of_other c h = ground arith

module _ (machine : MachineRow) (rental : RentalRow) (now : ℤ) (a : AccountRow) (m : MachineRow)
    (db : Db) (found_a : fetch (λ b. b.id == rental.account_id) db.accounts ≡ some a)
    (found_m : fetch (λ n. n.id == machine.id) db.machines ≡ some m)
    (solvent : pos 0 ≤ℤ a.balance_sats) where
  abbrev after_charge : ℤ → Db
  after_charge charge = record_charge now rental.account_id machine.id rental.id charge (record db {
    accounts = update (λ b. b.id == rental.account_id) (add_balance (pos 0 -ℤ charge)) db.accounts;
    machines = update (λ n. n.id == machine.id) (add_payout charge) db.machines;
  })

  -- The transfer goes through, and leaves the other rows of the database alone.
  transfer-moves :
      (charge : ℤ)
      → charge ≤ℤ a.balance_sats
      → (db' : Db) × (transfer machine rental now charge db ≡ ok db')
        × Holds rental.account_id (a.balance_sats -ℤ max_ℤ charge (pos 0)) db'
        × Owes machine (m.payout_balance +ℤ max_ℤ charge (pos 0)) db'
        × (db'.rentals ≡ db.rentals)
  unfolding transfer charge_tenant record_charge record_row
  transfer-moves charge covered = elim (Bool-cases (ltb_ℤ (pos 0) charge)) [
    | inl more ↦
        let bears : pos 0 ≤ℤ a.balance_sats +ℤ (pos 0 -ℤ charge) = omega (int_laws, covered) in
        (
          after_charge charge,
          rw (more, move_balance_lem rental.account_id (pos 0 -ℤ charge) a db found_a bears) refl,
          (
            add_balance (pos 0 -ℤ charge) a,
            fetch-update_hit (λ b. b.id == rental.account_id) _ db.accounts a (λ _. refl) found_a,
            rw (max_of_positive charge more) (omega int_laws),
          ),
          (
            add_payout charge m,
            fetch-update_hit (λ n. n.id == machine.id) _ db.machines m (λ _. refl) found_m,
            rw (max_of_positive charge more) refl,
          ),
          refl,
        )
    | inr nothing ↦ (
      db,
      rw nothing refl,
      (a, found_a, rw (max_of_other charge nothing) (omega int_laws)),
      (m, found_m, rw (max_of_other charge nothing) (omega int_laws)),
      refl,
    )
  ]

  -- A settlement: besides the transfer, the rental is given what it cost.
  pub settle_rental-moves :
      (db' : Db) × (settle_rental machine rental now db ≡ ok db')
      × Holds rental.account_id (a.balance_sats -ℤ charged rental now a) db'
      × Owes machine (m.payout_balance +ℤ charged rental now a) db'
      × (db'.rentals
          ≡ update
              (λ r. r.id == rental.id)
              (λ (r : RentalRow). record r {
                sats_charged = due rental now a;
                minutes_billed = minutes_used rental now;
              })
              db.rentals)
  unfolding settle_rental accrued_charge
  settle_rental-moves =
      let (db1, moved, holds, owes, same) =
        transfer-moves (settlement rental now a) (settlement-le rental now a) in
      let marked : Db = record db1 {
        rentals =
            update (λ r. r.id == rental.id)
              (λ (r : RentalRow). record r {
                sats_charged = due rental now a;
                minutes_billed = minutes_used rental now;
              })
              db1.rentals;
      } in
      (marked, rw (found_a, moved) refl, holds, owes, rw same refl)
