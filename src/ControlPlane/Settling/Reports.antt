-- ===== src/ControlPlane/Settling/Reports.antt =====
-- The reports of an agent: the first that ends a rental settles it, and no later one does.
use computation_market_poc.Prelude.{
  ◌≡◌, refl, ◌∙◌, true, false, String, Bool, Option, some, ok, ◌&&◌, get_or, or_else, arith,
}
use computation_market_poc.Prelude.Int.{ℤ, ◌+ℤ◌, ◌-ℤ◌}
use computation_market_poc.Prelude.Key.{◌==◌, nat_eq, string_eq, ==_refl}
use computation_market_poc.Prelude.Table.{All-fetch, fetch, update, fetch-update, fetch_passes}
use computation_market_poc.Core.Api.{ReportRequest}
use computation_market_poc.Core.Model.{is_terminal}
use computation_market_poc.ControlPlane.Db.{Db, MachineRow, AccountRow, RentalRow}
use computation_market_poc.ControlPlane.Routes.Agent.{
  report, report_read, report_tx, reported, apply_report, settles,
}
use computation_market_poc.ControlPlane.Invariant.{Inv}
use computation_market_poc.ControlPlane.Invariant.Settlement.{report_read_found}
use computation_market_poc.ControlPlane.Settling.{
  charged, due, minutes_used, Holds, Owes, settle_rental-moves,
}

-- The rental as a settling report leaves it.
abbrev pub settled_rental : MachineRow → ReportRequest → ℤ → RentalRow → AccountRow → RentalRow
settled_rental m req now r a = record r {
  status = req.status;
  kind = get_or req.kind r.kind;
  ssh_host = some m.public_ip;
  ssh_port = req.ssh_port;
  container_id = or_else req.container_id r.container_id;
  error = req.error;
  ended_at = or_else (some now) r.ended_at;
  sats_charged = due r now a;
  minutes_billed = minutes_used r now;
}

pub first_and : (a b : Bool) → a && b ≡ true → a ≡ true
first_and a b h = ground arith

ends_terminal :
    (r : RentalRow) (req : ReportRequest) → settles r req ≡ true → is_terminal req.status ≡ true
ends_terminal r req h = first_and _ _ h

module _ (authorization : Option String) (req : ReportRequest) (now : ℤ) (m : MachineRow)
    (r : RentalRow) (db : Db) where
  -- The rental that a report names has the report's status afterwards.
  reported_row :
      (g : RentalRow → RentalRow)
      → ((s : RentalRow) → (g s).id ≡ s.id)
      → ((s : RentalRow) → (g s).machine_id ≡ s.machine_id)
      → fetch (reported req m) db.rentals ≡ some r
      → fetch (reported req m) (
          update
            (λ s. s.id == r.id)
            g
            (update (λ s. s.id == req.rental_id) (apply_report m req now) db.rentals))
        ≡ some (g (apply_report m req now r))
  unfolding apply_report
  reported_row g same_id same_machine found =
      let named : (r.id == req.rental_id) ≡ true =
        first_and _ _ (fetch_passes (reported req m) db.rentals r found) in
      let first =
        fetch-update (reported req m) (λ s. s.id == req.rental_id) (apply_report m req now)
          (λ _. refl) db.rentals in
      let second =
        fetch-update (reported req m) (λ s. s.id == r.id) g
          (λ s. rw (same_id s, same_machine s) refl)
          (update (λ s. s.id == req.rental_id) (apply_report m req now) db.rentals) in
      rw (second, first, found, named, ==_refl r.id) refl

  pub report-runs :
      (db' : Db)
      → report_read authorization req db ≡ ok (m, r)
      → report_tx m r req now db ≡ ok (tt, db')
      → report authorization req now db ≡ (ok tt, db')
  unfolding report
  report-runs db' read goes = rw (read, report, goes) refl

  pub free_tx :
      settles r req ≡ false
      → report_tx m r req now db
        ≡ ok (
          tt,
          record db {
            rentals = update (λ s. s.id == req.rental_id) (apply_report m req now) db.rentals;
          },
        )
  unfolding report_tx
  free_tx stays = rw stays refl

  -- An accepted report with a terminal status, of a rental whose stored status is not terminal,
  -- is answered with success where the invariant holds. The tenant's account falls by the
  -- prorated charge up to now, capped at what it held and never negative. What the host is owed
  -- rises by the same amount. The rental's row takes the report's status, port and error, the
  -- report's kind and container or else its own, the host's address and the time of its end, with
  -- the capped charge and the whole minutes since the request.
  pub report-charges :
      (a : AccountRow)
      → Inv db
      → report_read authorization req db ≡ ok (m, r)
      → settles r req ≡ true
      → fetch (λ b. b.id == r.account_id) db.accounts ≡ some a
      → ((report authorization req now db).0 ≡ ok tt)
        × Holds r.account_id (a.balance_sats -ℤ charged r now a) (report authorization req now db).1
        × Owes m (m.payout_balance +ℤ charged r now a) (report authorization req now db).1
        × (fetch (reported req m) (report authorization req now db).1.rentals
            ≡ some (settled_rental m req now r a))
  unfolding report_tx apply_report
  report-charges a v read ends found_a =
      let (found_m, found_r) = report_read_found authorization req m r db v read in
      let db1 : Db = record db {
        rentals = update (λ s. s.id == req.rental_id) (apply_report m req now) db.rentals;
      } in
      let (db', goes, holds, owes, rows) =
        settle_rental-moves m r now a m db1 found_a found_m
          (All-fetch _ _ db.accounts a v.solvent found_a) in
      let tx : report_tx m r req now db ≡ ok (tt, db') = rw (ends, goes) refl in
      rw (report-runs db' read tx) (
        refl,
        holds,
        owes,
        rw (rows)
            (reported_row _ (λ _. refl) (λ _. refl) found_r ∙ rw (ends_terminal r req ends) refl),
      )

  -- An accepted report that does not settle, since its status is not terminal or the stored one
  -- is, leaves the accounts, the machines and the ledger as they are.
  pub report-free :
      report_read authorization req db ≡ ok (m, r)
      → settles r req ≡ false
      → ((report authorization req now db).1.accounts ≡ db.accounts)
        × ((report authorization req now db).1.machines ≡ db.machines)
        × ((report authorization req now db).1.ledger ≡ db.ledger)
  report-free read stays = rw (report-runs _ read (free_tx stays)) (refl, refl, refl)
