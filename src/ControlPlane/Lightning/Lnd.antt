-- ===== src/ControlPlane/Lightning/Lnd.antt =====
-- crates/control-plane/src/lightning/lnd.rs: the reserved backend, which refuses every call.
use computation_market_poc.Prelude.{String, Result, err}
use computation_market_poc.ControlPlane.Lightning.Backend.{LightningBackend}

abbrev pub unimplemented : String
unimplemented = "the lnd backend is not implemented yet; set LN_BACKEND=mock"

-- `LndRest::new`
unfoldable pub new : Result String (Unit {0})
new = err unimplemented

unfoldable pub lnd_rest : LightningBackend
lnd_rest = record {
  State = Unit {0};
  create_invoice = λ _ _ _. err unimplemented;
  is_settled = λ _ _. err unimplemented;
  pay_invoice = λ _ _. err unimplemented;
}
