-- ===== src/ControlPlane/Routes/Tenant/Accounts.antt =====
-- `health`, `create_account`, `get_account` and `deposit` of routes/tenant.rs.
use Prim.Native.String
use computation_market_poc.Prelude.{
  String, Bool, true, false, Option, none, some, Result, ok, err, ◌>>=◌, ◌>>◌, ok_or, map_err,
  if◌then◌else◌, ◌&&◌, fail_if, not, is_some,
}
use computation_market_poc.Prelude.Int.{ℤ, pos, pos_part, ltb_ℤ, div}
use computation_market_poc.Prelude.Key.{◌==◌, string_eq}
use computation_market_poc.Prelude.Table.{select, fetch, sum_by}
use computation_market_poc.Core.Api.{
  HealthResponse, CreateAccountResponse, AccountResponse, DepositRequest, DepositResponse,
}
use computation_market_poc.Core.Model.{RentalStatus, status_eq}
use computation_market_poc.ControlPlane.Error.{
  ApiError, from_sqlx, bad_request_error, not_found_error, bad_gateway_error,
  invoice_creation_failed,
}
use computation_market_poc.ControlPlane.Db.{
  Db, AccountRow, InvoiceRow, RentalRow, insert_account, insert_invoice,
}
use computation_market_poc.ControlPlane.State.{AppState}
use computation_market_poc.ControlPlane.Lightning.{LightningBackend, Invoice}
use computation_market_poc.ControlPlane.Routes.Auth.{Reply, commit}

unfoldable pub health : {Ln : Type 0} → AppState Ln → HealthResponse
health state = record { ok = true; ln_backend = state.ln_backend_name }

abbrev new_account : String → ℤ → AccountRow
new_account id now = record { id = id; balance_sats = pos 0; created_at = now }

-- `id` is what `new_account_id` yields. One INSERT is its own transaction.
unfoldable pub create_account : String → ℤ → Db → Reply CreateAccountResponse
create_account id now db = commit db do
  db1 ← map_err from_sqlx (insert_account (new_account id now) db)
  ok (record { account_id = id }, db1)

-- The rentals that a balance pays for: `account_id=? AND status=?`.
abbrev pub is_running_of : String → RentalRow → Bool
is_running_of id r = r.account_id == id && status_eq r.status RentalStatus.running

-- `(burn > 0).then(|| balance / burn)`
unfoldable pub runway : ℤ → ℤ → Option ℤ
runway balance burn = if ltb_ℤ (pos 0) burn then some (div balance (pos_part burn)) else none

unfoldable pub get_account : String → Db → Result ApiError AccountResponse
get_account id db = do
  acct ← ok_or (fetch (λ a. a.id == id) db.accounts) (not_found_error "unknown account")
  let burn = sum_by (λ r. r.rate_sats_per_min) (select (is_running_of id) db.rentals)
  ok (record {
    account_id = acct.id;
    balance_sats = acct.balance_sats;
    burn_sats_per_min = burn;
    runway_minutes = runway acct.balance_sats burn;
  })

abbrev pub new_invoice : Invoice → String → ℤ → ℤ → InvoiceRow
new_invoice invoice account sats now = record {
  payment_hash = invoice.payment_hash;
  account_id = account;
  sats = sats;
  bolt11 = invoice.bolt11;
  settled = false;
  created_at = now;
}

abbrev deposit_response : Invoice → ℤ → DepositResponse
deposit_response invoice sats = record {
  bolt11 = invoice.bolt11;
  payment_hash = invoice.payment_hash;
  sats = sats;
}

-- The checks before the backend is asked.
unfoldable pub deposit_check : String → DepositRequest → Db → Result ApiError (Unit {0})
deposit_check id req db = do
  fail_if (ltb_ℤ req.sats (pos 1)) (bad_request_error "deposit must be >= 1 sat")
  fail_if (not (is_some (fetch (λ a. a.id == id) db.accounts))) (not_found_error "unknown account")

-- The INSERT, for the invoice that the backend made.
unfoldable pub deposit_insert : Invoice → String → DepositRequest → ℤ → Db → Reply DepositResponse
deposit_insert invoice id req now db = commit db do
  db1 ← map_err from_sqlx (insert_invoice (new_invoice invoice id req.sats now) db)
  ok (deposit_response invoice req.sats, db1)

module _ (ln : LightningBackend) where
  abbrev invoiced :
      Result String (Invoice × ln.State)
      → String
      → DepositRequest
      → ℤ
      → Db
      → ln.State
      → Reply DepositResponse × ln.State
  invoiced (err e) id req now db s = ((err (bad_gateway_error (invoice_creation_failed e)), db), s)
  invoiced (ok (invoice, s')) id req now db s = (deposit_insert invoice id req now db, s')

  unfoldable pub deposit :
      String → DepositRequest → ℤ → Db → ln.State → Reply DepositResponse × ln.State
  deposit id req now db s = elim (deposit_check id req db) [
    | err e ↦ ((err e, db), s)
    | ok _ ↦
        invoiced
          (ln.create_invoice (record { amount = req.sats }) (String.◌++◌ "deposit for " id) s) id
          req now db s
  ]
