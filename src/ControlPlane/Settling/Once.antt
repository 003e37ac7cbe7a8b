-- ===== src/ControlPlane/Settling/Once.antt =====
-- How often the end of a rental is paid for.
use computation_market_poc.Prelude.{
  ℕ, ◌≡◌, refl, ◌∙◌, true, false, Bool, Bool-cases, inl, inr, List, [], ◌∷◌, Option, some, ok,
  arith,
}
use computation_market_poc.Prelude.Int.{ℤ}
use computation_market_poc.Prelude.Key.{◌==◌, nat_eq}
use computation_market_poc.Prelude.Table.{All, All-fetch, All-update, fetch, update, fetch_passes}
use computation_market_poc.Prelude.{String}
use computation_market_poc.Core.Api.{ReportRequest}
use computation_market_poc.Core.Model.{is_terminal}
use computation_market_poc.ControlPlane.Db.{Db, MachineRow, RentalRow}
use computation_market_poc.ControlPlane.Routes.Agent.{
  report, report_read, report_tx, reported, apply_report, settles,
}
use computation_market_poc.ControlPlane.Invariant.{Inv}
use computation_market_poc.ControlPlane.Invariant.Statements.{fetch_account}
use computation_market_poc.ControlPlane.Invariant.Settlement.{report_read_found, report-Inv}
use computation_market_poc.ControlPlane.Settling.{due, minutes_used, settle_rental-moves}
use computation_market_poc.ControlPlane.Settling.Reports.{
  report-runs, free_tx, report-free, first_and,
}

-- If the row has this number, its status is terminal as `over` says.
abbrev Ends : ℕ → Bool → RentalRow → Type 0
Ends id over s = (s.id == id) ≡ true → is_terminal s.status ≡ over

module _ (req : ReportRequest) (m : MachineRow) (now : ℤ) where
  applied-Ends :
      (over : Bool) (rentals : List RentalRow)
      → is_terminal req.status ≡ over
      → All
          (Ends req.rental_id over)
          (update (λ s. s.id == req.rental_id) (apply_report m req now) rentals)
  unfolding update apply_report
  applied-Ends over [] h = tt
  applied-Ends over (s ∷ rest) h = elim (Bool-cases (s.id == req.rental_id)) [
    | inl hit ↦ rw hit ((λ _. h), applied-Ends over rest h)
    | inr miss ↦ rw miss ((λ named. cc), applied-Ends over rest h)
  ]

module _ (authorization : Option String) (req : ReportRequest) (now : ℤ) (m : MachineRow)
    (r : RentalRow) (db : Db) (v : Inv db)
    (read : report_read authorization req db ≡ ok (m, r)) where
  -- After a report the rental is over if its status says so.
  report-Ends :
      All (Ends req.rental_id (is_terminal req.status)) (report authorization req now db).1.rentals
  unfolding report_tx
  report-Ends =
      let applied = applied-Ends req m now (is_terminal req.status) db.rentals refl in
      elim (Bool-cases (settles r req)) [
        | inr stays ↦
            rw
              (report-runs authorization req now m r db _ read
                (free_tx authorization req now m r db stays))
              applied
        | inl ends ↦
            let (found_m, found_r) = report_read_found authorization req m r db v read in
            let linked = All-fetch _ _ db.rentals r v.rentals_linked found_r in
            let (a, found_a) = fetch_account r.account_id db linked.1 in
            let db1 : Db = record db {
              rentals = update (λ s. s.id == req.rental_id) (apply_report m req now) db.rentals;
            } in
            let (db', goes, holds, owes, rows) =
              settle_rental-moves m r now a m db1 found_a found_m
                (All-fetch _ _ db.accounts a v.solvent found_a) in
            let tx : report_tx m r req now db ≡ ok (tt, db') = rw (ends, goes) refl in
            rw (report-runs authorization req now m r db db' read tx, rows)
              (All-update (Ends req.rental_id (is_terminal req.status)) (λ s. s.id == r.id)
                (λ (s : RentalRow). record s {
                  sats_charged = due r now a;
                  minutes_billed = minutes_used r now;
                })
                (λ _ _ h. h) _ applied)
      ]

  named_row :
      (later : ReportRequest) (n : MachineRow) (s : RentalRow) (db' : Db)
      → All (Ends req.rental_id (is_terminal req.status)) db'.rentals
      → later.rental_id ≡ req.rental_id
      → fetch (reported later n) db'.rentals ≡ some s
      → is_terminal s.status ≡ is_terminal req.status
  named_row later n s db' ended same found =
      let passes = fetch_passes (reported later n) db'.rentals s found in
      let named : (s.id == req.rental_id) ≡ true =
        rw (← same) (first_and (s.id == later.rental_id) _ passes) in
      All-fetch _ _ db'.rentals s ended found named

  -- A rental is paid for once: where the invariant holds, after an accepted report with a
  -- terminal status, the next accepted report of that rental changes no account, no machine and
  -- no row of the ledger, whatever its status is.
  pub report-once :
      (authorization' : Option String) (later : ReportRequest) (now' : ℤ) (n : MachineRow)
      (s : RentalRow)
      → is_terminal req.status ≡ true
      → later.rental_id ≡ req.rental_id
      → report_read authorization' later (report authorization req now db).1 ≡ ok (n, s)
      → let db' = (report authorization req now db).1 in
        ((report authorization' later now' db').1.accounts ≡ db'.accounts)
        × ((report authorization' later now' db').1.machines ≡ db'.machines)
        × ((report authorization' later now' db').1.ledger ≡ db'.ledger)
  report-once authorization' later now' n s over same again =
      let db' = (report authorization req now db).1 in
      let v' = report-Inv authorization req now db v in
      let (_, found) = report_read_found authorization' later n s db' v' again in
      let ended : is_terminal s.status ≡ true =
        named_row later n s db' report-Ends same found ∙ over in
      report-free authorization' later now' n s db' again (ground arith)

  -- A report may bring an ended rental back: where the invariant holds, after an accepted report
  -- whose status is not terminal, of a rental whose stored status was, the next accepted report
  -- with a terminal status is one that settles the rental. Without the report in between it is
  -- not.
  pub report-revives :
      (authorization' : Option String) (later : ReportRequest) (n : MachineRow) (s : RentalRow)
      → is_terminal r.status ≡ true
      → is_terminal req.status ≡ false
      → is_terminal later.status ≡ true
      → later.rental_id ≡ req.rental_id
      → report_read authorization' later (report authorization req now db).1 ≡ ok (n, s)
      → (settles r later ≡ false) × (settles s later ≡ true)
  report-revives authorization' later n s was open_ over same again =
      let db' = (report authorization req now db).1 in
      let v' = report-Inv authorization req now db v in
      let (_, found) = report_read_found authorization' later n s db' v' again in
      let ended : is_terminal s.status ≡ false =
        named_row later n s db' report-Ends same found ∙ open_ in
      (ground arith, ground arith)
