-- ===== src/ControlPlane/Routes/Tenant/Create.antt =====
-- `create_rental` of routes/tenant.rs, one transaction from its first read on.
use computation_market_poc.Prelude.{
  suc, String, Option, none, some, Result, ok, err, ◌>>=◌, ◌>>◌, ok_or, map_err, if◌then◌else◌,
  fail_if, not, is_some,
}
use computation_market_poc.Prelude.Int.{ℤ, pos, ltb_ℤ}
use computation_market_poc.Prelude.Key.{◌==◌, nat_eq, string_eq}
use computation_market_poc.Prelude.Text.{trim, is_empty}
use computation_market_poc.Prelude.Table.{fetch}
use computation_market_poc.Core.Api.{CreateRentalRequest, CreateRentalResponse, Command}
use computation_market_poc.Core.Model.{RentalStatus, RentalKind, is_http_status_image}
use computation_market_poc.ControlPlane.Error.{
  ApiError, from_sqlx, bad_request_error, not_found_error, conflict_error, payment_required_error,
}
use computation_market_poc.ControlPlane.Db.{
  Db, MachineRow, AccountRow, RentalRow, insert_rental, queue_command,
}
use computation_market_poc.ControlPlane.Codec.{CommandCodec}
use computation_market_poc.ControlPlane.Routes.Auth.{Reply, commit}
use computation_market_poc.ControlPlane.Routes.Tenant.Offers.{occupies}

abbrev key_missing : String → Result ApiError String
key_missing image =
    if is_http_status_image image
    then ok ""
    else err
        (bad_request_error "ssh_pubkey is required for this image (only metal: images may omit it)")

-- The key that the rental is given: trimmed, and absent only for an HTTP-status image.
unfoldable pub rental_key : Option String → String → Result ApiError String
rental_key none image = key_missing image
rental_key (some k) image = if is_empty (trim k) then key_missing image else ok (trim k)

-- The row that is inserted: the columns that are not given have their defaults.
unfoldable pub new_rental : CreateRentalRequest → String → ℤ → ℤ → Db → RentalRow
new_rental req ssh_pubkey rate now db = record {
  id = suc db.rental_seq;
  machine_id = req.machine_id;
  account_id = req.account_id;
  image = req.image;
  ssh_pubkey = ssh_pubkey;
  status = RentalStatus.provisioning;
  kind = RentalKind.ssh;
  ssh_host = none;
  ssh_port = none;
  container_id = none;
  error = none;
  rate_sats_per_min = rate;
  sats_charged = pos 0;
  minutes_billed = pos 0;
  paid_through = pos 0;
  created_at = now;
  ended_at = none;
}

-- The checks, in their order; the rows and the key that they yield.
unfoldable pub create_check :
    CreateRentalRequest → Db → Result ApiError (MachineRow × AccountRow × String)
create_check req db = do
  machine ←
      ok_or (fetch (λ m. m.id == req.machine_id) db.machines) (not_found_error "unknown machine")
  account ←
      ok_or (fetch (λ a. a.id == req.account_id) db.accounts) (not_found_error "unknown account")
  ssh_pubkey ← rental_key req.ssh_pubkey req.image
  fail_if (not machine.online) (conflict_error "machine is offline")
  fail_if (is_some (fetch (occupies req.machine_id) db.rentals))
      (conflict_error "machine already rented")
  fail_if (ltb_ℤ account.balance_sats machine.rate_sats_per_min)
      (payment_required_error "balance below one minute at the machine's rate")
  ok (machine, account, ssh_pubkey)

module _ (json : CommandCodec) where
  -- The two INSERTs.
  unfoldable pub create_insert :
      CreateRentalRequest
      → MachineRow
      → String
      → ℤ
      → Db
      → Result ApiError (CreateRentalResponse × Db)
  create_insert req machine ssh_pubkey now db = do
    let rental = new_rental req ssh_pubkey machine.rate_sats_per_min now db
    db1 ← map_err from_sqlx (insert_rental rental db)
    db2 ← map_err from_sqlx (
        queue_command req.machine_id
          (json.to_string (Command.start_rental rental.id req.image ssh_pubkey)) now db1)
    ok (
      record {
        rental_id = rental.id;
        status = RentalStatus.provisioning;
        rate_sats_per_min = machine.rate_sats_per_min;
      },
      db2,
    )

  unfoldable pub create_rental : CreateRentalRequest → ℤ → Db → Reply CreateRentalResponse
  create_rental req now db = commit db do
    (machine, account, ssh_pubkey) ← create_check req db
    create_insert req machine ssh_pubkey now db
