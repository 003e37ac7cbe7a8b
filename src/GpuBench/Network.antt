-- ===== src/GpuBench/Network.antt =====
-- The probe of crates/gpu-bench/src/network.rs. What the peer and the clock answer is a parameter:
-- the milliseconds of a request, the bytes of each read until the end of the body, and the seconds
-- of a transfer.
use Prim.Native.Nat.{◌+◌, ◌%◌, ◌^◌, max}
use computation_market_poc.Prelude.{
  ℕ, zero, suc, String, List, [], ◌∷◌, Result, ok, err, ◌>>=◌, nat_beq, if◌then◌else◌,
}
use computation_market_poc.GpuBench.Backend.{Floats, NetworkResult}

pub record NetConfig : Type 0 where
  pub down_bytes : ℕ
  pub up_bytes : ℕ
  pub latency_samples : ℕ

abbrev pub default_net_config : NetConfig
default_net_config = record { down_bytes = 25000000; up_bytes = 10000000; latency_samples = 5 }

-- `latency i` is the answer to request number `i`; `reads` are those of the body.
pub record Peer (F64 : Type 0) : Type 0 where
  pub latency : ℕ → Result String F64
  pub open_body : ℕ → Result String (List (Result String ℕ))
  pub down_seconds : F64
  pub upload : ℕ → Result String F64

-- The loop of reads, with the total of a `u64`; an empty read ends the body.
unfoldable pub drain : ℕ → List (Result String ℕ) → Result String ℕ
drain total [] = ok total
drain total (err e ∷ rest) = err e
drain total (ok n ∷ rest) =
    let more = drain ((total + n) % 2 ^ 64) rest in if nat_beq n 0 then ok total else more

module _ (fl : Floats) (peer : Peer fl.F64) where
  -- `bytes * 8 / secs / 1e6`, for at least a nanosecond.
  unfoldable pub to_mbps : ℕ → fl.F64 → fl.F64
  to_mbps bytes elapsed =
      let secs = fl.max elapsed (fl.over (fl.of_u64 1) (fl.of_u64 1000000000)) in
      fl.over (fl.over (fl.times (fl.of_u64 bytes) (fl.of_u64 8)) secs) (fl.of_u64 1000000)

  -- The loop over the samples: so many are left, after so many.
  unfoldable pub best_of : ℕ → ℕ → fl.F64 → Result String fl.F64
  best_of zero sample best = ok best
  best_of (suc left) sample best =
      peer.latency sample >>= λ elapsed. best_of left (suc sample) (fl.min best elapsed)

  unfoldable pub measure_latency : ℕ → Result String fl.F64
  measure_latency samples = best_of (max samples 1) 0 fl.infinity

  unfoldable pub measure_download : ℕ → Result String fl.F64
  measure_download bytes = do
    reads ← peer.open_body bytes
    total ← drain 0 reads
    ok (to_mbps total peer.down_seconds)

  unfoldable pub measure_upload : ℕ → Result String fl.F64
  measure_upload bytes = do elapsed ← peer.upload bytes; ok (to_mbps bytes elapsed)

  unfoldable pub probe : NetConfig → Result String (NetworkResult fl.F64)
  probe cfg = do
    latency_ms ← measure_latency cfg.latency_samples
    down_mbps ← measure_download cfg.down_bytes
    up_mbps ← measure_upload cfg.up_bytes
    ok (record { down_mbps = down_mbps; up_mbps = up_mbps; latency_ms = latency_ms })
