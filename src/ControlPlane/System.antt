-- ===== src/ControlPlane/System.antt =====
-- The control plane as a whole: the routes of crates/control-plane/src/lib.rs and the ticker of
-- main.rs, as steps that run one at a time from the empty database: serial histories. The
-- environment chooses the requests, the clock, the new tokens and the answers of the Lightning
-- backend. The server runs requests side by side, so it also has histories in which another request
-- comes between a read and the transaction that follows: these are not `Reachable` here, but
-- `Committed` in ControlPlane/Interleaving.
use computation_market_poc.Prelude.{ℕ, String, Bool, Option, Result}
use computation_market_poc.Prelude.Int.{ℤ}
use computation_market_poc.Core.Api.{
  RegisterRequest, HeartbeatRequest, ReportRequest, RateRequest, PayoutRequest, DepositRequest,
  CreateRentalRequest,
}
use computation_market_poc.ControlPlane.Db.{Db, empty_db}
use computation_market_poc.ControlPlane.State.{BillingConfig}
use computation_market_poc.ControlPlane.Codec.{CommandCodec}
use computation_market_poc.ControlPlane.Lightning.{LightningBackend}
use computation_market_poc.ControlPlane.Billing.{tick}
use computation_market_poc.ControlPlane.Routes.Agent.{register, heartbeat, report, rate, payout}
use computation_market_poc.ControlPlane.Routes.Tenant.{
  create_account, deposit, create_rental, delete_rental,
}

module _ (json : CommandCodec) (ln : LightningBackend) where
  -- A route that writes, or a tick, from its first read to its last write. The other routes read
  -- alone.
  pub data Step (db : Db) : Db → Type 0 where
    create_accounts : (id : String) (now : ℤ) → Step db (create_account id now db).1
    deposits :
        (id : String) (req : DepositRequest) (now : ℤ) (s : ln.State)
        → Step db (deposit ln id req now db s).0.1
    create_rentals :
        (req : CreateRentalRequest) (now : ℤ) → Step db (create_rental json req now db).1
    delete_rentals : (id : ℕ) (now : ℤ) → Step db (delete_rental json id now db).1
    registers :
        (token : String) (req : RegisterRequest) (now : ℤ) → Step db (register token req now db).1
    heartbeats :
        (authorization : Option String) (req : HeartbeatRequest) (now : ℤ)
        → Step db (heartbeat json authorization req now db).1
    reports :
        (authorization : Option String) (req : ReportRequest) (now : ℤ)
        → Step db (report authorization req now db).1
    rates :
        (authorization : Option String) (req : RateRequest) → Step db (rate authorization req db).1
    payouts :
        (authorization : Option String) (req : PayoutRequest) (now : ℤ) (s : ln.State)
        → Step db (payout ln authorization req now db s).1
    ticks :
        (is_settled : String → Result String Bool) (cfg : BillingConfig) (now_polling : String → ℤ)
        (now_marking : ℤ) (now_enforcing : ℕ → ℤ)
        → Step db (tick json is_settled cfg now_polling now_marking now_enforcing db).1

  -- What a serial history of requests and ticks can lead to.
  pub data Reachable : Db → Type 0 where
    here : Reachable empty_db
    next : {db db' : Db} → Reachable db → Step db db' → Reachable db'
