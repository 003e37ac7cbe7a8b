-- ===== src/ControlPlane/Tests/Ticks.antt =====
-- The ticker, and the mock's payments, on the small market.
use computation_market_poc.Prelude.{
  ◌≡◌, refl, String, Bool, true, not, ◌&&◌, if◌then◌else◌, [], ◌∷◌, ok, err,
}
use computation_market_poc.Prelude.Int.{pos, ◌+ℤ◌, ltb_ℤ, leb_ℤ}
use computation_market_poc.Prelude.Word.{sub_i64}
use computation_market_poc.Prelude.Text.{pad_hex}
use computation_market_poc.Prelude.Table.{select, fetch, sum_by}
use computation_market_poc.Core.Api.{DepositRequest}
use computation_market_poc.ControlPlane.Db.{Db, AccountRow}
use computation_market_poc.ControlPlane.Error.{from_sqlx, unique_failed}
use computation_market_poc.ControlPlane.State.{default_billing, heartbeat_timeout_secs}
use computation_market_poc.ControlPlane.Lightning.Mock.{MockBackend, new, mock_backend}
use computation_market_poc.ControlPlane.Billing.{
  accrued_charge, poll_invoices, enforce_budget, enforce_budgets, tick,
}
use computation_market_poc.ControlPlane.Routes.Tenant.{deposit, deposit_check}
use computation_market_poc.ControlPlane.Invariant.{Inv, held}
use computation_market_poc.ControlPlane.Evictions.{
  SameMoney, evicted, enforce_budgets-SameMoney, enforce_budget-evicts,
}
use computation_market_poc.ControlPlane.Deposits.{credit, poll_invoices-credits}
use computation_market_poc.ControlPlane.Completion.{tick-completes}
use computation_market_poc.ControlPlane.MockPayments.{first_hash, deposit-restarted}
use computation_market_poc.ControlPlane.Tests.WireText.{wire_text}
use computation_market_poc.ControlPlane.Tests.Market.{
  host, tenant, running, invoice, market, market-Inv,
}

abbrev all_paid : String → Bool
all_paid _ = true

poll_invoices-credits_example :
    ((poll_invoices (λ h. ok (all_paid h)) (λ _. pos 1700) market).0 ≡ ok tt)
    × Inv (poll_invoices (λ h. ok (all_paid h)) (λ _. pos 1700) market).1
    × (held (poll_invoices (λ h. ok (all_paid h)) (λ _. pos 1700) market).1.accounts
        ≡ held market.accounts
          +ℤ sum_by (credit all_paid) (select (λ i. not i.settled) market.invoices))
    × ((poll_invoices (λ h. ok (all_paid h)) (λ _. pos 1700) market).1.machines ≡ market.machines)
poll_invoices-credits_example = poll_invoices-credits all_paid (λ _. pos 1700) market market-Inv

tick-completes_example :
    (tick wire_text
      (λ h. ok (all_paid h))
      default_billing
      (λ _. pos 1700)
      (pos 1700)
      (λ _. pos 1700)
      market).0
    ≡ ok tt
tick-completes_example =
    tick-completes wire_text all_paid default_billing (λ _. pos 1700) (pos 1700) (λ _. pos 1700)
      market market-Inv

-- At 1690 the running rental has cost 115 sats, and the tenant holds 100.
abbrev broke : AccountRow
broke = record tenant { balance_sats = pos 100 }

abbrev overdue : Db
overdue = record market { accounts = broke ∷ [] }

enforce_budgets-SameMoney_example :
    SameMoney overdue (enforce_budgets wire_text default_billing (λ _. pos 1690) overdue).1
enforce_budgets-SameMoney_example =
    enforce_budgets-SameMoney wire_text default_billing (λ _. pos 1690) overdue

enforce_budget-evicts_example :
    enforce_budget wire_text default_billing (pos 1690) running overdue ≡ (
      ok tt,
      if ltb_ℤ (pos 100) (accrued_charge (pos 1000) (pos 1690) (pos 10))
            && leb_ℤ (sub_i64 (pos 1690) (pos 1600)) (heartbeat_timeout_secs default_billing)
          then evicted wire_text (pos 1690) running overdue
          else overdue,
    )
unfolding fetch
enforce_budget-evicts_example =
    enforce_budget-evicts wire_text default_billing (pos 1690) running host broke overdue refl refl

abbrev fresh_mock : MockBackend
fresh_mock = new 2 1000

-- The market with the first invoice of an earlier run.
abbrev before_restart : Db
before_restart = record market { invoices = record invoice { payment_hash = first_hash } ∷ [] }

abbrev topping_up : DepositRequest
topping_up = record { sats = pos 25 }

topping_up_is_checked : deposit_check "acct_1" topping_up before_restart ≡ ok tt
unfolding deposit_check fetch
topping_up_is_checked = refl

deposit-restarted_example :
    (deposit mock_backend "acct_1" topping_up (pos 1800) before_restart (new 2 1000)).0
    ≡ (err (from_sqlx unique_failed), before_restart)
unfolding pad_hex
deposit-restarted_example =
    deposit-restarted "acct_1" topping_up (pos 1800) before_restart 2 1000 topping_up_is_checked
      refl
