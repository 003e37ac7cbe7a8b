-- ===== src/ControlPlane/Tests/Money.antt =====
-- What the theorems on money say of the small market.
use computation_market_poc.Prelude.{
  ◌+◌, ◌*◌, ◌≤◌, ◌<◌, ◌≡◌, arith, refl, String, true, false, Option, none, some, ok,
}
use computation_market_poc.Prelude.Int.{pos, pos_part, ◌+ℤ◌, ◌-ℤ◌, ◌*ℤ◌, ◌≤ℤ◌, div}
use computation_market_poc.Prelude.Word.{wrap}
use computation_market_poc.Prelude.Key.{nat_eq}
use computation_market_poc.Prelude.Text.{strip_prefix}
use computation_market_poc.Prelude.Table.{fetch, update}
use computation_market_poc.Core.Model.{RentalStatus, is_terminal}
use computation_market_poc.ControlPlane.Db.{Db, move_balance, record_charge, record_row}
use computation_market_poc.ControlPlane.Billing.{accrued_charge}
use computation_market_poc.ControlPlane.Billing.Bounds.{accrued_charge_bounds}
use computation_market_poc.ControlPlane.Routes.Auth.{authenticate}
use computation_market_poc.ControlPlane.Routes.Agent.{
  report, report_read, report_tx, reported, apply_report, settle_rental, transfer, charge_tenant,
  payout_read, payout_tx, settles,
}
use computation_market_poc.ControlPlane.Invariant.{held, owed, booked}
use computation_market_poc.ControlPlane.Settling.{Holds, Owes, charged}
use computation_market_poc.ControlPlane.Settling.Reports.{report-charges, settled_rental}
use computation_market_poc.ControlPlane.Settling.Once.{report-once, report-revives}
use computation_market_poc.ControlPlane.Races.{payout-races}
use computation_market_poc.ControlPlane.Tests.Market.{
  host, tenant, ended, running, market, market-Inv, stopped_report, running_report,
}

abbrev sent_token : Option String
sent_token = some "Bearer agt_1"

-- The database after the running rental was reported to have stopped.
abbrev after_stop : Db
after_stop = (report sent_token stopped_report (pos 1630) market).1

abbrev after_revival : Db
after_revival = (report sent_token running_report (pos 1630) market).1

stop_read : report_read sent_token stopped_report market ≡ ok (host, running)
unfolding report_read authenticate fetch strip_prefix
stop_read = refl

revival_read : report_read sent_token running_report market ≡ ok (host, ended)
unfolding report_read authenticate fetch strip_prefix
revival_read = refl

report-charges_example :
    ((report sent_token stopped_report (pos 1630) market).0 ≡ ok tt)
    × Holds "acct_1" (pos 460 -ℤ charged running (pos 1630) tenant) after_stop
    × Owes host (pos 40 +ℤ charged running (pos 1630) tenant) after_stop
    × (fetch (reported stopped_report host) after_stop.rentals
        ≡ some (settled_rental host stopped_report (pos 1630) running tenant))
unfolding fetch is_terminal
report-charges_example =
    report-charges sent_token stopped_report (pos 1630) host running market tenant market-Inv
      stop_read refl refl

-- A second report of the same end, an hour later.
stop_read_again :
    report_read sent_token stopped_report after_stop
    ≡ ok (
      record host { payout_balance = pos 145 },
      settled_rental host stopped_report (pos 1630) running tenant,
    )
unfolding report report_read report_tx authenticate fetch update strip_prefix is_terminal
    apply_report settle_rental transfer charge_tenant accrued_charge move_balance record_charge
    record_row div wrap ◌+ℤ◌ ◌-ℤ◌ ◌*ℤ◌
stop_read_again = refl

report-once_example :
    let later = (report sent_token stopped_report (pos 5230) after_stop).1 in
    (later.accounts ≡ after_stop.accounts)
    × (later.machines ≡ after_stop.machines)
    × (later.ledger ≡ after_stop.ledger)
unfolding is_terminal
report-once_example =
    report-once sent_token stopped_report (pos 1630) host running market market-Inv stop_read
      sent_token stopped_report (pos 5230) _ _ refl refl stop_read_again

payout_is_read : payout_read sent_token market ≡ ok host
unfolding payout_read authenticate fetch strip_prefix
payout_is_read = refl

payout-races_example :
    let paid_twice = payout_tx host (pos 1701) (payout_tx host (pos 1700) market) in
    (booked paid_twice.ledger +ℤ pos 40 ≡ held paid_twice.accounts +ℤ owed paid_twice.machines)
    × (pos 1 ≤ℤ pos 40)
payout-races_example =
    payout-races sent_token (pos 1700) (pos 1701) host market market-Inv payout_is_read

-- The ended rental is reported to run, and then to have stopped again.
revived_read :
    report_read sent_token (record stopped_report { rental_id = 1 }) after_revival
    ≡ ok (host, record ended { status = RentalStatus.running; ssh_port = none })
unfolding report report_read report_tx authenticate fetch update strip_prefix is_terminal
    apply_report settle_rental transfer charge_tenant accrued_charge move_balance record_charge
    record_row div wrap ◌+ℤ◌ ◌-ℤ◌ ◌*ℤ◌
revived_read = refl

report-revives_example :
    (settles ended (record stopped_report { rental_id = 1 }) ≡ false)
    × (settles
          (record ended { status = RentalStatus.running; ssh_port = none })
          (record stopped_report { rental_id = 1 })
        ≡ true)
unfolding is_terminal
report-revives_example =
    report-revives sent_token running_report (pos 1630) host ended market market-Inv revival_read
      sent_token (record stopped_report { rental_id = 1 }) host _ refl refl refl refl revived_read

-- 630 seconds at ten sats a minute.
accrued_charge_bounds_example :
    let charge = pos_part (accrued_charge (pos 1000) (pos 1630) (pos 10)) in
    (60 * charge ≤ 630 * 10) × (630 * 10 < 60 * (charge + 1))
unfolding ◌-ℤ◌
accrued_charge_bounds_example =
    accrued_charge_bounds (pos 1000) (pos 1630) 10
      (record { interval = (omega arith, omega arith); product = omega arith })
