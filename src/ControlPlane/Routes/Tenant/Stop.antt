-- ===== src/ControlPlane/Routes/Tenant/Stop.antt =====
-- `get_rental` and `delete_rental` of routes/tenant.rs. The rental to stop is read before the
-- transaction begins.
use Prim.Native.String
use computation_market_poc.Prelude.{
  ℕ, String, Bool, Option, none, some, Result, ok, err, ◌>>=◌, ok_or, map_err, if◌then◌else◌, ◌||◌,
}
use mathlib.Core.Option
use computation_market_poc.Prelude.Int.{ℤ}
use computation_market_poc.Prelude.Word.{as_i32}
use computation_market_poc.Prelude.Key.{◌==◌, nat_eq}
use computation_market_poc.Prelude.Text.{decimal_ℤ}
use computation_market_poc.Prelude.Table.{fetch, update}
use computation_market_poc.Core.Api.{RentalResponse, Command}
use computation_market_poc.Core.Model.{RentalStatus, RentalKind, is_terminal, as_str, status_eq}
use computation_market_poc.ControlPlane.Error.{ApiError, from_sqlx, row_not_found, not_found_error}
use computation_market_poc.ControlPlane.Db.{Db, RentalRow, queue_command}
use computation_market_poc.ControlPlane.Codec.{CommandCodec}
use computation_market_poc.ControlPlane.Routes.Auth.{Reply, commit}

-- `ssh -p {port} root@{host}`, for the container tier alone.
unfoldable pub ssh_command : RentalKind → Option String → Option ℤ → Option String
ssh_command RentalKind.ssh (some host) (some port) =
    some (String.◌++◌ "ssh -p " (String.◌++◌ (decimal_ℤ port) (String.◌++◌ " root@" host)))
ssh_command _ _ _ = none

unfoldable pub get_rental : ℕ → Db → Result ApiError RentalResponse
get_rental id db = do
  r ← ok_or (fetch (λ s. s.id == id) db.rentals) (not_found_error "unknown rental")
  m ← ok_or (fetch (λ n. n.id == r.machine_id) db.machines) (from_sqlx row_not_found)
  ok (record {
    id = r.id;
    machine_id = r.machine_id;
    account_id = r.account_id;
    image = r.image;
    status = r.status;
    kind = r.kind;
    gpu_name = m.gpu_name;
    gpu_count = as_i32 m.gpu_count;
    ssh_host = r.ssh_host;
    ssh_port = Option.map as_i32 r.ssh_port;
    ssh_command = ssh_command r.kind r.ssh_host r.ssh_port;
    rate_sats_per_min = r.rate_sats_per_min;
    sats_charged = r.sats_charged;
    minutes_billed = r.minutes_billed;
    paid_through = r.paid_through;
    error = r.error;
    created_at = r.created_at;
    ended_at = r.ended_at;
  })

-- The JSON answer `{ "rental_id": …, "status": … }`.
pub record StopResponse : Type 0 where
  pub rental_id : ℕ
  pub status : String

unfoldable pub delete_read : ℕ → Db → Result ApiError RentalRow
delete_read id db = ok_or (fetch (λ r. r.id == id) db.rentals) (not_found_error "unknown rental")

abbrev pub is_stopping : RentalRow → Bool
is_stopping r = is_terminal r.status || status_eq r.status RentalStatus.evicting

abbrev pub set_status_evicting : RentalRow → RentalRow
set_status_evicting r = record r { status = RentalStatus.evicting }

module _ (json : CommandCodec) where
  -- The transaction, for the rental as it was read.
  unfoldable pub delete_tx : RentalRow → ℤ → Db → Result ApiError (StopResponse × Db)
  delete_tx r now db = do
    let db1 : Db = record db { rentals = update (λ s. s.id == r.id) set_status_evicting db.rentals }
    db2 ←
        map_err from_sqlx
          (queue_command r.machine_id (json.to_string (Command.stop_rental r.id)) now db1)
    ok (record { rental_id = r.id; status = "evicting" }, db2)

  abbrev stop : RentalRow → ℤ → Db → Reply StopResponse
  stop r now db =
      if is_stopping r
      then (ok (record { rental_id = r.id; status = as_str r.status }), db)
      else commit db (delete_tx r now db)

  unfoldable pub delete_rental : ℕ → ℤ → Db → Reply StopResponse
  delete_rental id now db = elim (delete_read id db) [ err e ↦ (err e, db) | ok r ↦ stop r now db ]
