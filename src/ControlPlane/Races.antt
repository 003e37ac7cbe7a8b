-- ===== src/ControlPlane/Races.antt =====
-- Interleavings of two requests. `report`, `payout` and `delete_rental` read their row before BEGIN
-- IMMEDIATE, so what they write may rest on a row that another request has changed in between.
use computation_market_poc.Prelude.{
  ◌≡◌, refl, ◌↔◌, ap, ◌∙◌, true, false, Option, none, some, ok, String, arith,
}
use computation_market_poc.Prelude.Int.{ℤ, pos, pos_part, neg_part, ◌+ℤ◌, ◌-ℤ◌, ◌≤ℤ◌, int_laws}
use computation_market_poc.Prelude.Key.{◌==◌, ==_refl, nat_eq}
use computation_market_poc.Prelude.Table.{fetch, update, fetch-update_hit, All-fetch}
use computation_market_poc.Core.Api.{ReportRequest, Command}
use computation_market_poc.Core.Model.{LedgerKind, is_terminal}
use computation_market_poc.ControlPlane.Codec.{CommandCodec}
use computation_market_poc.ControlPlane.Db.{Db, MachineRow, RentalRow, record_row, with_command}
use computation_market_poc.ControlPlane.Routes.Agent.{payout_tx, payout_read, clear_payout, settles}
use computation_market_poc.ControlPlane.Routes.Tenant.{delete_tx, set_status_evicting, occupies}
use computation_market_poc.ControlPlane.Exclusion.{occupies_lem}
use computation_market_poc.ControlPlane.Invariant.Statements.{queue_command_lem}
use computation_market_poc.ControlPlane.Invariant.{Inv, held, owed, booked}
use computation_market_poc.ControlPlane.Invariant.Balances.{booked-record_row, owed-clear_payout}
use computation_market_poc.ControlPlane.Invariant.Movements.{payout-Inv}
use computation_market_poc.ControlPlane.Invariant.Agents.{payout_read_found}

-- The transaction of a payout, for a row that was read when the machine had another balance.
module _ (machine current : MachineRow) (now : ℤ) (db : Db) (v : Inv db)
    (found : fetch (λ n. n.id == machine.id) db.machines ≡ some current) where
  -- The ledger records what was read; the books lose what is owed now.
  payout_tx-sums :
      booked (payout_tx machine now db).ledger +ℤ machine.payout_balance
      ≡ held (payout_tx machine now db).accounts
        +ℤ owed (payout_tx machine now db).machines
        +ℤ current.payout_balance
  unfolding payout_tx record_row
  payout_tx-sums =
      let row =
        booked-record_row now LedgerKind.payout (pos 0 -ℤ machine.payout_balance) none
          (some machine.id) none (some "payout") db in
      let cleared = owed-clear_payout machine.id db.machines current v.machine_keys found in
      let balanced = v.balanced in
      rw (row, cleared) (omega (int_laws, ap pos_part balanced, ap neg_part balanced))

  unchanged : Inv (payout_tx machine now db) → machine.payout_balance ≡ current.payout_balance
  unchanged v' =
      let balanced = v'.balanced in
      let sums = payout_tx-sums in
      omega
        (int_laws, ap pos_part balanced, ap neg_part balanced, ap pos_part sums, ap neg_part sums)

  -- Where the invariant holds, the transaction of a payout keeps it exactly if the balance that
  -- was read for it is the machine's balance when it runs.
  pub payout_tx-Inv_iff :
      Inv (payout_tx machine now db) ↔ (machine.payout_balance ≡ current.payout_balance)
  unfolding payout_tx
  payout_tx-Inv_iff = (unchanged, λ same. rw same (payout-Inv machine.id now current db v found))

cleared_row :
    (m : MachineRow) (now : ℤ) (db : Db)
    → fetch (λ n. n.id == m.id) db.machines ≡ some m
    → fetch (λ n. n.id == m.id) (payout_tx m now db).machines ≡ some (clear_payout m)
unfolding payout_tx record_row
cleared_row m now db found =
    fetch-update_hit (λ n. n.id == m.id) clear_payout db.machines m (λ _. refl) found

-- Where the invariant holds, take one reading of what a host is owed and run the transaction of
-- a payout for it twice. The ledger's sum is then below what is held and owed, by that balance,
-- which is one sat at least.
pub payout-races :
    (authorization : Option String) (now now' : ℤ) (m : MachineRow) (db : Db)
    → Inv db
    → payout_read authorization db ≡ ok m
    → let db' = payout_tx m now' (payout_tx m now db) in
      (booked db'.ledger +ℤ m.payout_balance ≡ held db'.accounts +ℤ owed db'.machines)
      × (pos 1 ≤ℤ m.payout_balance)
payout-races authorization now now' m db v read =
    let (found, more) = payout_read_found authorization m db v read in
    let v1 = (payout_tx-Inv_iff m m now db v found).1 refl in
    (
      payout_tx-sums m (clear_payout m) now' (payout_tx m now db) v1 (cleared_row m now db found)
          ∙ omega int_laws,
      more,
    )

-- Where the invariant holds, take a reading of a rental, with its id and its machine, and run the
-- transaction that stops it once the rental has ended. The transaction succeeds and sets the row,
-- which has ended, to evicting: it occupies its machine again, and a terminal report of it then
-- settles it, which one before the transaction would not have done.
pub stop-races :
    (json : CommandCodec) (now : ℤ) (r current : RentalRow) (req : ReportRequest) (db : Db)
    → Inv db
    → fetch (λ s. s.id == r.id) db.rentals ≡ some current
    → r.machine_id ≡ current.machine_id
    → is_terminal current.status ≡ true
    → is_terminal req.status ≡ true
    → (db' : Db) × (delete_tx json r now db
        ≡ ok (record { rental_id = r.id; status = "evicting" }, db'))
      × (fetch (λ s. s.id == r.id) db'.rentals ≡ some (set_status_evicting current))
      × (occupies r.machine_id (set_status_evicting current) ≡ true)
      × (settles current req ≡ false)
      × (settles (set_status_evicting current) req ≡ true)
unfolding delete_tx is_terminal
stop-races json now r current req db v found same was over =
    let linked = All-fetch _ _ db.rentals current v.rentals_linked found in
    let test = λ (s : RentalRow). s.id == r.id in
    let db1 : Db = record db { rentals = update test set_status_evicting db.rentals } in
    let payload = json.to_string (Command.stop_rental r.id) in
    let queued = queue_command_lem r.machine_id payload now db1 (rw same linked.0) in
    (
      with_command r.machine_id payload now db1,
      rw queued refl,
      fetch-update_hit test set_status_evicting db.rentals current (λ _. refl) found,
      occupies_lem r.machine_id (set_status_evicting current)
          ∙ rw (same, ==_refl current.machine_id) refl,
      ground arith,
      rw over refl,
    )
