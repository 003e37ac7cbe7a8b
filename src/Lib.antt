-- ===== src/Lib.antt =====
-- A marketplace for GPU rentals, paid in satoshis: crates/core holds the amounts and the bodies of
-- the wire, crates/control-plane the server with its ledger, crates/host-agent the program on a
-- host, crates/vgpu the tenant's command line, and crates/gpu-bench a benchmark. Hosts and tenants
-- call the server's routes; a ticker settles deposits, marks silent hosts offline and evicts
-- tenants whose budget is used up. A host registers with what its probe found, then asks for
-- commands with every heartbeat, and reports how they ended.
--
-- Files, and the code that they model:
--   Prelude: integers, wrapping 64-bit words, results, text, and a table as a list of rows.
--   Core/Money, Core/Model, Core/Api: crates/core/src/money.rs, model.rs and api.rs.
--   ControlPlane/Db: the row types of crates/control-plane/src/db.rs, the tables of migrations/, and
--     the statements with their constraints. `record` is `record_row`.
--   ControlPlane/Error, State, Lightning, Billing: error.rs, state.rs, lightning/ and billing.rs.
--   ControlPlane/Routes/Auth, Agent, Tenant: routes/mod.rs, agent.rs and tenant.rs, a function for each
--     handler.
--   ControlPlane/Codec: serde_json on `Command`, a parameter with the law that it reads what it wrote.
--   ControlPlane/System: the routes and the tick as steps from the empty database.
--   ControlPlane/Interleaving: the transactions as steps, and serial histories as sequences of them.
--   ControlPlane/Invariant: the invariant of the tables and what keeps it.
--   ControlPlane/Queues: what holds of the queued commands in every history.
--   ControlPlane/Admission, Exclusion, Settling, Delivery, Races: who may rent, one tenant for a
--     machine, the charge at a rental's end, the command queue, and requests that interleave.
--   ControlPlane/Registration: a host that registers twice.
--   ControlPlane/Deposits, Evictions, Completion, MockPayments, Listing: the steps of a tick, the
--     mock's invoices, and the list of offers.
--   HostAgent/Ports, Runtime, Parse, Docker, Metal: crates/host-agent/src/runtime.rs.
--   HostAgent/Benchmark: crates/host-agent/src/benchmark.rs.
--   HostAgent/Agent, Dispatch: crates/host-agent/src/main.rs. HostAgent/Worker: mac_worker.rs beside it.
--   GpuBench/Backend, Gemm, Triad, Wgpu, Cuda, Metal, Simd: backend.rs, wgpu_backend.rs with its
--     kernels, cuda_backend.rs, and metal_backend.rs with its kernel, of crates/gpu-bench/src.
--   GpuBench/Network, Suite, Run: network.rs, suite.rs and main.rs of crates/gpu-bench/src.
--   HostAgent/Lifecycle: one rental through crates/control-plane and crates/host-agent.
--   Vgpu: crates/vgpu/src/main.rs.
--   The modules Tests run the code on small data.
--
-- A handler is a function from the request, the clock's reading and the database to the answer and
-- the database that it leaves. A transaction is a body that yields a new database or an error, and
-- `commit` keeps the old one on an error. Where the code reads a row before BEGIN IMMEDIATE, the
-- read and the transaction are two functions, so that another request can come between them.
--
-- docs/SPEC.md, sections 4 and 5, describes billing by the minute in advance. The code charges once,
-- when a rental ends, and the definitions follow the code.
--
-- The histories of ControlPlane/System are serial: a request or a tick runs from its first read to its
-- last write before the next begins, and `Reachable` speaks of these alone. In
-- ControlPlane/Interleaving the steps are the transactions, which SQLite runs one at a time, on
-- rows that may have been read long before: `Committed` speaks of requests and ticks that overlap,
-- except that a payout pays a balance that has not changed since it was read. ControlPlane/Races has
-- two payouts and a stop that rest on stale rows.
--
-- Row numbers are natural numbers, for which the code has i64. Arithmetic of Rust wraps at 64 bits,
-- as in a release build; a debug build panics there. Sums and balances that SQLite computes are
-- exact here: in SQLite they turn into floating point beyond 63 bits. An f64 of the market is
-- finite, a whole number of 2 ^ -1074. Loops run over lists or counts, so no fuel is needed, except
-- for the while loop of the bandwidth kernel: its index grows, so one round more than there are
-- elements is enough.
--
-- Parameters stand for what is not in the repository: `Daemon` for bollard, `StateText` for the
-- JSON of the agent's state, `Sysinfo`, the list of GPUs and the hash of a fingerprint for the
-- host; `Floats` for f64, `Numbers` and `Exact` for the numbers of a
-- kernel, `Simdgroup` for the accumulation of Metal's simdgroup matrices, `Cublas`, `Gpu`,
-- `Peer` and `Build` for cuBLAS, Metal, the network and what was compiled in; `Http`, `Bodies` and
-- `Figures` for reqwest, the JSON of the bodies and the f64 of crates/vgpu.
--
-- Not modelled: crates/control-plane/src/main.rs, which wires the parts; the pool, sockets and
-- logging; JSON and HTTP; the calls that set up a GPU. A failure of the disk or a lock that is not
-- got is no answer of a statement here.
pub mod Prelude
pub mod Core
pub mod ControlPlane
pub mod HostAgent
pub mod GpuBench
pub mod Vgpu
