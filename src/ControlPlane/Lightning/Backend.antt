-- ===== src/ControlPlane/Lightning/Backend.antt =====
-- crates/control-plane/src/lightning/mod.rs: the interface to a Lightning node.
use computation_market_poc.Prelude.{String, Bool, Result}
use computation_market_poc.Core.Money.{Sats}

pub record Invoice : Type 0 where
  pub bolt11 : String
  pub payment_hash : String

-- The trait, over what a backend remembers. An error of `anyhow` is its text.
pub record LightningBackend : Type 1 where
  pub State : Type 0
  pub create_invoice : Sats → String → State → Result String (Invoice × State)
  pub is_settled : String → State → Result String Bool
  pub pay_invoice : String → State → Result String State
