-- ===== src/ControlPlane/State.antt =====
-- crates/control-plane/src/state.rs: the billing configuration, the time source, and what a handler
-- is given.
use computation_market_poc.Prelude.{ℕ, String}
use computation_market_poc.Prelude.Int.{ℤ, pos}
use computation_market_poc.Prelude.Word.{wrap, add_i64}
use computation_market_poc.ControlPlane.Db.{Db}

-- `std::time::Duration`
pub record Duration : Type 0 where
  pub secs : ℕ
  pub nanos : ℕ

-- `Duration::from_secs`
abbrev pub from_secs : ℕ → Duration
from_secs n = record { secs = n; nanos = 0 }

pub record BillingConfig : Type 0 where
  pub tick : Duration
  pub heartbeat_timeout : Duration

-- `BillingConfig::default`
abbrev pub default_billing : BillingConfig
default_billing = record { tick = from_secs 5; heartbeat_timeout = from_secs 90 }

-- The cast from `u64` wraps.
unfoldable pub heartbeat_timeout_secs : BillingConfig → ℤ
heartbeat_timeout_secs cfg = wrap (pos cfg.heartbeat_timeout.secs)

pub data Clock : Type 0 where
  system : Clock
  manual : ℤ → Clock

-- The first argument is what `db::system_now` reads.
unfoldable pub now : ℤ → Clock → ℤ
now system_now Clock.system = system_now
now system_now (Clock.manual t) = t

unfoldable pub advance : ℤ → Clock → Clock
advance secs Clock.system = Clock.system
advance secs (Clock.manual t) = Clock.manual (add_i64 t secs)

-- `AppState`, over the state of a Lightning backend.
pub record AppState (Ln : Type 0) : Type 0 where
  pub pool : Db
  pub ln : Ln
  pub billing : BillingConfig
  pub clock : Clock
  pub ln_backend_name : String
