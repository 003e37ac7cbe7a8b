-- ===== src/GpuBench/Run/Resolved.antt =====
-- What a run that succeeds has measured, and that it can be printed.
use computation_market_poc.Prelude.{◌≡◌, true, false, Option, none, some, is_some}
use computation_market_poc.GpuBench.Backend.{Floats, Backend, NetworkResult}
use computation_market_poc.GpuBench.Network.{Peer}
use computation_market_poc.GpuBench.Suite.{Report}
use computation_market_poc.GpuBench.Run.{BackendChoice, Build, is_auto, backend_note}

module _ (fl : Floats) (build : Build fl.F64) where
  -- The choice that is realised is a concrete one, for which there is a note.
  abbrev Concrete : BackendChoice → Type 0
  Concrete c = (is_auto c ≡ false) × (is_some (backend_note c) ≡ true)

  module _ (peer : Peer fl.F64) where
    -- The network result in a report that may be missing.
    abbrev pub portable_network : Option (Report fl.F64) → Option (NetworkResult fl.F64)
    portable_network none = none
    portable_network (some p) = p.network
