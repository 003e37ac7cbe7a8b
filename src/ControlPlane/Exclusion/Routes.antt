-- ===== src/ControlPlane/Exclusion/Routes.antt =====
-- The handlers that write rentals keep each machine to one tenant.
use computation_market_poc.Prelude.{
  ℕ, ◌≡◌, refl, true, false, String, List, Option, some, ok, Bool-cases, Option-cases, Result-cases,
  inl, inr, arith,
}
use mathlib.Core.Path.{subst}
use computation_market_poc.Prelude.Int.{ℤ}
use computation_market_poc.Prelude.Key.{◌==◌, nat_eq}
use computation_market_poc.Prelude.Table.{
  All-fetch, fetch, fetch_passes, fetch_by_own_key, update, count-update,
}
use computation_market_poc.Core.Api.{CreateRentalRequest, ReportRequest, Command}
use computation_market_poc.Core.Model.{is_terminal}
use computation_market_poc.ControlPlane.Db.{Db, MachineRow, RentalRow, rental_id_of}
use computation_market_poc.ControlPlane.Codec.{CommandCodec}
use computation_market_poc.ControlPlane.Routes.Agent.{
  report, report_read, report_tx, reported, apply_report, settles, set_charge,
}
use computation_market_poc.ControlPlane.Routes.Tenant.{
  create_rental, create_check, new_rental, occupies, delete_rental, delete_read, delete_tx,
  is_stopping, set_status_evicting,
}
use computation_market_poc.ControlPlane.Invariant.{Inv}
use computation_market_poc.ControlPlane.Invariant.Statements.{fetch_account, queue_command_lem}
use computation_market_poc.ControlPlane.Invariant.Settlement.{report_read_found}
use computation_market_poc.ControlPlane.Settling.{settle_rental-moves}
use computation_market_poc.ControlPlane.Settling.Reports.{report-runs, free_tx, first_and}
use computation_market_poc.ControlPlane.Admission.{create_check-Admitted_iff, create_rental-admits}
use computation_market_poc.ControlPlane.Exclusion.{
  Exclusive, update-Exclusive, new-Exclusive, open_before,
}

-- A request for a rental, whatever it asks for, keeps each machine to one rental at most that
-- occupies it.
pub create_rental-Exclusive :
    (json : CommandCodec) (req : CreateRentalRequest) (now : ℤ) (db : Db)
    → Exclusive db.rentals
    → Exclusive (create_rental json req now db).1.rentals
unfolding create_rental new_rental
create_rental-Exclusive json req now db v = elim (Result-cases (create_check req db)) [
  | inr (e, refused) ↦ rw (refused, create_rental) v
  | inl ((m, a, key), checked) ↦
      let h = (create_check-Admitted_iff req db m a key).0 checked in
      rw (create_rental-admits json req now db m a key h)
        (new-Exclusive (new_rental req key m.rate_sats_per_min now db) db.rentals h.is_idle v)
]

stopping_is_open : (r : RentalRow) → is_stopping r ≡ false → is_terminal r.status ≡ false
stopping_is_open r h = ground arith

-- Where the invariant holds, a request to stop a rental keeps each machine to one rental at most
-- that occupies it.
pub delete_rental-Exclusive :
    (json : CommandCodec) (id : ℕ) (now : ℤ) (db : Db)
    → Inv db
    → Exclusive db.rentals
    → Exclusive (delete_rental json id now db).1.rentals
unfolding delete_rental delete_read delete_tx
delete_rental-Exclusive json id now db v x =
    elim (Option-cases (fetch (λ r. r.id == id) db.rentals)) [
      | inl unknown ↦ rw (unknown, delete_rental) x
      | inr (r, found) ↦
          rw (found, delete_rental)
            (elim (Bool-cases (is_stopping r)) [
              | inl stopping ↦ rw stopping x
              | inr live ↦
                  let linked = All-fetch _ _ db.rentals r v.rentals_linked found in
                  let db1 : Db = record db {
                    rentals = update (λ s. s.id == r.id) set_status_evicting db.rentals;
                  } in
                  let own =
                    fetch_by_own_key rental_id_of (λ s. s.id == id) db.rentals r v.rental_keys
                      found in
                  rw live (
                    rw
                      (queue_command_lem r.machine_id (json.to_string (Command.stop_rental r.id))
                        now db1 linked.0)
                      (update-Exclusive r.id set_status_evicting r db.rentals v.rental_keys own refl
                        (λ _. stopping_is_open r live) x))
            ])
    ]

-- The columns of the charge do not matter here.
charged-Exclusive :
    (r : RentalRow) (charge minutes : ℤ) (rentals : List RentalRow)
    → Exclusive rentals
    → Exclusive (update (λ s. s.id == r.id) (set_charge charge minutes) rentals)
charged-Exclusive r charge minutes rentals x machine =
    let fewer =
      count-update (occupies machine) (λ s. s.id == r.id) (set_charge charge minutes) rentals
        (λ s _ h. open_before (set_charge charge minutes) s refl (λ k. k) machine h) in
    omega (arith, x machine, fewer)

module _ (authorization : Option String) (req : ReportRequest) (now : ℤ) (m : MachineRow)
    (r : RentalRow) (db : Db) where
  applied-Exclusive :
      Inv db
      → fetch (reported req m) db.rentals ≡ some r
      → (is_terminal r.status ≡ true → is_terminal req.status ≡ true)
      → Exclusive db.rentals
      → Exclusive (update (λ s. s.id == req.rental_id) (apply_report m req now) db.rentals)
  unfolding apply_report
  applied-Exclusive v found stays_over x =
      let named : (r.id == req.rental_id) ≡ true =
        first_and _ _ (fetch_passes (reported req m) db.rentals r found) in
      let same : r.id ≡ req.rental_id = (nat_eq.same_iff r.id req.rental_id).0 named in
      let own = fetch_by_own_key rental_id_of (reported req m) db.rentals r v.rental_keys found in
      update-Exclusive req.rental_id (apply_report m req now) r db.rentals v.rental_keys
        (subst (λ k. fetch (λ s. s.id == k) db.rentals ≡ some r) same own) refl
        (λ h. ground (arith, stays_over)) x

  -- Where the invariant holds, an accepted report keeps each machine to one rental at most that
  -- occupies it, provided that it is terminal if the stored status of its rental is.
  pub report-Exclusive :
      Inv db
      → report_read authorization req db ≡ ok (m, r)
      → (is_terminal r.status ≡ true → is_terminal req.status ≡ true)
      → Exclusive db.rentals
      → Exclusive (report authorization req now db).1.rentals
  unfolding report_tx
  report-Exclusive v read stays_over x =
      let (found_m, found_r) = report_read_found authorization req m r db v read in
      let applied = applied-Exclusive v found_r stays_over x in
      elim (Bool-cases (settles r req)) [
        | inr stays ↦
            rw
              (report-runs authorization req now m r db _ read
                (free_tx authorization req now m r db stays))
              applied
        | inl ends ↦
            let linked = All-fetch _ _ db.rentals r v.rentals_linked found_r in
            let (a, found_a) = fetch_account r.account_id db linked.1 in
            let db1 : Db = record db {
              rentals = update (λ s. s.id == req.rental_id) (apply_report m req now) db.rentals;
            } in
            let (db', goes, holds, owes, rows) =
              settle_rental-moves m r now a m db1 found_a found_m
                (All-fetch _ _ db.accounts a v.solvent found_a) in
            let tx : report_tx m r req now db ≡ ok (tt, db') = rw (ends, goes) refl in
            rw (report-runs authorization req now m r db db' read tx, rows)
              (charged-Exclusive r _ _ db1.rentals applied)
      ]
