-- ===== src/ControlPlane/Routes/Agent/Payout.antt =====
-- `payout` of routes/agent.rs: pay the host's invoice, then zero its balance. The balance is read
-- before the payment and the transaction, so there are two phases.
use computation_market_poc.Prelude.{
  String, Option, none, some, Result, ok, err, ◌>>=◌, ◌>>◌, fail_if,
}
use computation_market_poc.Prelude.Int.{ℤ, pos, ◌-ℤ◌, leb_ℤ}
use computation_market_poc.Prelude.Key.{◌==◌, nat_eq}
use computation_market_poc.Prelude.Table.{update}
use computation_market_poc.Core.Api.{PayoutRequest, PayoutResponse}
use computation_market_poc.Core.Model.{LedgerKind}
use computation_market_poc.ControlPlane.Error.{
  ApiError, bad_request_error, bad_gateway_error, payout_failed,
}
use computation_market_poc.ControlPlane.Db.{Db, MachineRow, record_row}
use computation_market_poc.ControlPlane.Lightning.{LightningBackend}
use computation_market_poc.ControlPlane.Routes.Auth.{authenticate}

-- The machine with the balance that is owed, or the refusal.
unfoldable pub payout_read : Option String → Db → Result ApiError MachineRow
payout_read authorization db = do
  machine ← authenticate authorization db
  fail_if (leb_ℤ machine.payout_balance (pos 0)) (bad_request_error "nothing owed")
  ok machine

abbrev pub clear_payout : MachineRow → MachineRow
clear_payout m = record m { payout_balance = pos 0 }

-- The transaction after the payment. The balance is positive: its negation does not overflow.
unfoldable pub payout_tx : MachineRow → ℤ → Db → Db
payout_tx machine now db =
    record_row now LedgerKind.payout (pos 0 -ℤ machine.payout_balance) none (some machine.id) none
      (some "payout")
      (record db { machines = update (λ m. m.id == machine.id) clear_payout db.machines })

module _ (ln : LightningBackend) where
  abbrev paid :
      MachineRow
      → ℤ
      → Db
      → ln.State
      → Result String ln.State
      → Result ApiError PayoutResponse × Db × ln.State
  paid machine now db s (err e) = (err (bad_gateway_error (payout_failed e)), db, s)
  paid machine now db s (ok s') =
      (ok (record { paid_sats = machine.payout_balance }), payout_tx machine now db, s')

  unfoldable pub payout :
      Option String
      → PayoutRequest
      → ℤ
      → Db
      → ln.State
      → Result ApiError PayoutResponse × Db × ln.State
  payout authorization req now db s = elim (payout_read authorization db) [
    | err e ↦ (err e, db, s)
    | ok machine ↦ paid machine now db s (ln.pay_invoice req.bolt11 s)
  ]
