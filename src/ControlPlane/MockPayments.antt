-- ===== src/ControlPlane/MockPayments.antt =====
-- The mock of lightning/mock.rs under the deposits of routes/tenant.rs.
use computation_market_poc.Prelude.{ℕ, ◌+◌, ◌≡◌, refl, true, leb, String, map, ok, err}
use computation_market_poc.Prelude.Int.{ℤ}
use computation_market_poc.Prelude.Key.{string_eq, ==_refl}
use computation_market_poc.Prelude.Text.{pad_hex}
use computation_market_poc.Prelude.Table.{fetch, contains}
use computation_market_poc.Core.Money.{Sats}
use computation_market_poc.Core.Api.{DepositRequest}
use computation_market_poc.ControlPlane.Error.{from_sqlx, unique_failed}
use computation_market_poc.ControlPlane.Db.{Db, insert_invoice}
use computation_market_poc.ControlPlane.Lightning.{Invoice}
use computation_market_poc.ControlPlane.Lightning.Mock.{
  MockBackend, new, create_invoice, is_settled, mock_backend,
}
use computation_market_poc.ControlPlane.Routes.Tenant.{deposit, deposit_check, deposit_insert}

-- The mock never refuses an invoice, and calls it paid from the moment at which the delay since its
-- creation is over, and not before.
pub is_settled-create_invoice :
    (sats : Sats) (memo : String) (mock : MockBackend)
    → (invoice : Invoice) × (mock' : MockBackend) × (create_invoice sats memo mock
        ≡ ok (invoice, mock'))
      × ((instant : ℕ)
          → is_settled invoice.payment_hash (record mock' { instant = instant })
            ≡ ok (leb (mock.instant + mock.settle_delay) instant))
unfolding create_invoice is_settled fetch
is_settled-create_invoice sats memo mock =
    (_, _, refl, λ instant. rw (==_refl (pad_hex 64 mock.counter)) refl)

-- The number of the first invoice after a start of the server.
abbrev pub first_hash : String
first_hash = pad_hex 64 1

-- If the database still has the invoice with the hash of the mock's first one, a valid deposit
-- right after a restart of the mock is answered with an error of the database, and the database
-- is unchanged.
pub deposit-restarted :
    (id : String) (req : DepositRequest) (now : ℤ) (db : Db) (settle_delay instant : ℕ)
    → deposit_check id req db ≡ ok tt
    → contains first_hash (map (λ i. i.payment_hash) db.invoices) ≡ true
    → (deposit mock_backend id req now db (new settle_delay instant)).0
      ≡ (err (from_sqlx unique_failed), db)
unfolding deposit deposit_insert insert_invoice create_invoice new
deposit-restarted id req now db settle_delay instant checked taken =
    rw (checked, taken, deposit) refl
