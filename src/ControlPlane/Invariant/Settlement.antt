-- ===== src/ControlPlane/Invariant/Settlement.antt =====
-- `report`: a settlement goes through and keeps the invariant.
use computation_market_poc.Prelude.{
  ◌≡◌, refl, Bool, true, false, String, map, Option, none, some, ok, ◌>>=◌, arith, Bool-cases,
  Result-cases, inl, inr, ok_or, >>=-eq_ok, ok_or-eq_ok,
}
use computation_market_poc.Prelude.Int.{ℤ, pos, ◌+ℤ◌, ◌-ℤ◌, ◌≤ℤ◌, ltb_ℤ, int_laws, min_ℤ}
use computation_market_poc.Prelude.Key.{◌==◌, nat_eq, string_eq}
use computation_market_poc.Prelude.Table.{All-fetch, contains, fetch, fetch_by_own_key}
use computation_market_poc.Core.Api.{ReportRequest}
use computation_market_poc.ControlPlane.Error.{ApiError}
use computation_market_poc.ControlPlane.Db.{
  Db, MachineRow, AccountRow, RentalRow, machine_id_of, account_id_of,
}
use computation_market_poc.ControlPlane.Billing.{accrued_charge}
use computation_market_poc.ControlPlane.Routes.Auth.{authenticate, bearer}
use computation_market_poc.ControlPlane.Routes.Agent.{
  apply_report, transfer, charge_tenant, settle_rental, settle_if, settles, settlement, report_read,
  report_tx, report, with_machine, reported,
}
use computation_market_poc.ControlPlane.Invariant.Books.{
  Inv, Succeeds, Succeeds->>=, Succeeds-map_err, commit-Inv,
}
use computation_market_poc.ControlPlane.Invariant.Statements.{
  rentals-Inv, fetch_account, move_balance_lem,
}
use computation_market_poc.ControlPlane.Invariant.Movements.{charge-Inv}

min-le_right : (a b : ℤ) → min_ℤ a b ≤ℤ b
min-le_right a b = ground arith

-- The charge is capped at the balance.
pub settlement-le :
    (rental : RentalRow) (now : ℤ) (a : AccountRow) → settlement rental now a ≤ℤ a.balance_sats
settlement-le rental now a =
    min-le_right (accrued_charge rental.created_at now rental.rate_sats_per_min) a.balance_sats

module _ (machine : MachineRow) (rental : RentalRow) (now : ℤ) where
  -- A charge that the balance covers goes through.
  charge_tenant-Succeeds :
      (charge : ℤ) (a : AccountRow) (m : MachineRow) (db : Db)
      → Inv db
      → fetch (λ b. b.id == rental.account_id) db.accounts ≡ some a
      → fetch (λ n. n.id == machine.id) db.machines ≡ some m
      → charge ≤ℤ a.balance_sats
      → pos 0 ≤ℤ charge
      → Succeeds Inv (charge_tenant machine rental now charge db)
  unfolding charge_tenant
  charge_tenant-Succeeds charge a m db v found_a found_m covered positive =
      let bears : pos 0 ≤ℤ a.balance_sats +ℤ (pos 0 -ℤ charge) = omega (int_laws, covered) in
      rw (move_balance_lem rental.account_id (pos 0 -ℤ charge) a db found_a bears) (
        charge-Inv rental.account_id machine.id rental.id now charge a m db v found_a found_m
          covered positive)

  transfer-Succeeds :
      (charge : ℤ) (a : AccountRow) (m : MachineRow) (db : Db)
      → Inv db
      → fetch (λ b. b.id == rental.account_id) db.accounts ≡ some a
      → fetch (λ n. n.id == machine.id) db.machines ≡ some m
      → charge ≤ℤ a.balance_sats
      → Succeeds Inv (transfer machine rental now charge db)
  unfolding transfer
  transfer-Succeeds charge a m db v found_a found_m covered =
      elim (Bool-cases (ltb_ℤ (pos 0) charge)) [
        | inl more ↦
            rw more (charge_tenant-Succeeds charge a m db v found_a found_m covered (ground arith))
        | inr nothing ↦ rw nothing v
      ]

  -- The account is known, so the charge is capped at what it holds: nothing is refused.
  settle_rental-Succeeds :
      (m : MachineRow) (db : Db)
      → Inv db
      → contains rental.account_id (map account_id_of db.accounts) ≡ true
      → fetch (λ n. n.id == machine.id) db.machines ≡ some m
      → Succeeds Inv (settle_rental machine rental now db)
  unfolding settle_rental
  settle_rental-Succeeds m db v known found_m =
      let (a, found_a) = fetch_account rental.account_id db known in
      rw found_a (
        Succeeds->>= Inv Inv (transfer machine rental now (settlement rental now a) db) _
          (transfer-Succeeds (settlement rental now a) a m db v found_a found_m
            (settlement-le rental now a))
          (λ db1 v1. rentals-Inv _ _ db1 (λ _. refl) (λ _. refl) (λ _. refl) v1))

  settle_if-Succeeds :
      (settle : Bool) (m : MachineRow) (db : Db)
      → Inv db
      → contains rental.account_id (map account_id_of db.accounts) ≡ true
      → fetch (λ n. n.id == machine.id) db.machines ≡ some m
      → Succeeds Inv (settle_if settle machine rental now db)
  settle_if-Succeeds false m db v known found_m = v
  settle_if-Succeeds true m db v known found_m =
      Succeeds-map_err Inv _ _ (settle_rental-Succeeds m db v known found_m)

  -- So the transaction of `report` always commits, and keeps the invariant.
  pub report_tx-Succeeds :
      (req : ReportRequest) (m : MachineRow) (db : Db)
      → Inv db
      → contains rental.account_id (map account_id_of db.accounts) ≡ true
      → fetch (λ n. n.id == machine.id) db.machines ≡ some m
      → Succeeds (λ r. Inv r.1) (report_tx machine rental req now db)
  unfolding report_tx apply_report
  report_tx-Succeeds req m db v known found_m =
      Succeeds->>= Inv (λ r. Inv r.1) (settle_if (settles rental req) machine rental now _) _
        (settle_if-Succeeds (settles rental req) m _
          (rentals-Inv _ _ db (λ _. refl) (λ _. refl) (λ _. refl) v) known found_m)
        (λ db1 v1. v1)

token_found :
    (token : Option String) (e e' : ApiError) (m : MachineRow) (db : Db)
    → (ok_or token e >>= λ t. ok_or (fetch (λ n. n.agent_token == t) db.machines) e') ≡ ok m
    → (t : String) × (fetch (λ n. n.agent_token == t) db.machines ≡ some m)
token_found none e e' m db h = cc
token_found (some t) e e' m db h = (t, ok_or-eq_ok _ e' m h)

-- What authentication tells of the machine.
pub authenticate_found :
    (authorization : Option String) (m : MachineRow) (db : Db)
    → Inv db
    → authenticate authorization db ≡ ok m
    → fetch (λ n. n.id == m.id) db.machines ≡ some m
unfolding authenticate
authenticate_found authorization m db v h =
    let (token, found) = token_found (bearer authorization) _ _ m db h in
    fetch_by_own_key machine_id_of (λ n. n.agent_token == token) db.machines m v.machine_keys found

with_machine-eq_ok :
    (n : MachineRow) (o : Option RentalRow) (m : MachineRow) (r : RentalRow)
    → with_machine n o ≡ ok (m, r)
    → (n ≡ m) × (o ≡ some r)
with_machine-eq_ok n none m r h = cc
with_machine-eq_ok n (some s) m r h = (cc, cc)

-- The rows that `report` acts on stand in their tables.
pub report_read_found :
    (authorization : Option String) (req : ReportRequest) (m : MachineRow) (r : RentalRow) (db : Db)
    → Inv db
    → report_read authorization req db ≡ ok (m, r)
    → (fetch (λ n. n.id == m.id) db.machines ≡ some m)
      × (fetch (reported req m) db.rentals ≡ some r)
unfolding report_read
report_read_found authorization req m r db v h =
    let (n, known, read) =
      >>=-eq_ok (authenticate authorization db)
        (λ k. with_machine k (fetch (reported req k) db.rentals)) (m, r) h in
    let (same, found) = with_machine-eq_ok n (fetch (reported req n) db.rentals) m r read in
    (authenticate_found authorization m db v (rw (← same) known), rw (← same) found)

-- `report` answers with 401 or 404 before anything is written, or it commits: no constraint of the
-- database refuses a settlement, and the invariant is kept.
pub report-Inv :
    (authorization : Option String) (req : ReportRequest) (now : ℤ) (db : Db)
    → Inv db
    → Inv (report authorization req now db).1
unfolding report
report-Inv authorization req now db v = elim (Result-cases (report_read authorization req db)) [
  | inr (e, refused) ↦ rw (refused, report) v
  | inl ((m, r), read) ↦
      let (known, found) = report_read_found authorization req m r db v read in
      let linked = All-fetch _ _ db.rentals r v.rentals_linked found in
      rw (read, report) (commit-Inv db _ (report_tx-Succeeds m r now req m db v linked.1 known))
]
