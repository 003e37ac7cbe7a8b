-- ===== src/HostAgent/Worker.antt =====
-- crates/host-agent/src/mac_worker.rs: the job of a rental on a Mac, and the status that it serves. The
-- kernel is that of GpuBench/Simd. Binding the port and the
-- readings of the clock are parameters; setting up the device is left out.
use Prim.Native.Nat.{◌+◌, ◌%◌, ◌^◌}
use Prim.Native.String.{len}
use computation_market_poc.Prelude.{
  ℕ, String, List, [], ◌∷◌, not, ◌&&◌, leb, nat_beq, Result, ok, ◌>>◌, fail_if,
}
use computation_market_poc.Prelude.Text.{decimal, format}
use computation_market_poc.GpuBench.Backend.{Floats, tflops_of}

-- Dispatches that are submitted at a time.
abbrev pub batch : ℕ
batch = 20

module _ (fl : Floats) (n : ℕ) where
  -- `Stats`: iterations and TFLOP/s. A `u64` wraps.
  abbrev pub Stats : Type 0
  Stats = ℕ × fl.F64

  -- The end of a round of the loop, with the seconds since its start.
  unfoldable pub after_batch : ℕ → fl.F64 → Stats
  after_batch iters elapsed =
      let more = (iters + batch) % 2 ^ 64 in (more, tflops_of fl n more elapsed)

  -- What is shared after the rounds whose readings of the clock these are.
  unfoldable pub gemm_loop : Stats → List fl.F64 → Stats
  gemm_loop stats [] = stats
  gemm_loop stats (elapsed ∷ later) = gemm_loop (after_batch stats.0 elapsed) later

  unfoldable pub status_body : Stats → String
  status_body (iters, tflops) = format (
      "{\"task\":\"gemm-fp16\",\"n\":"
      ∷ decimal n
      ∷ ",\"iters\":"
      ∷ decimal iters
      ∷ ",\"tflops\":"
      ∷ fl.fmt 3 tflops
      ∷ "}"
      ∷ [])

  unfoldable pub status_response : Stats → String
  status_response stats =
      let body = status_body stats in
      format (
        "HTTP/1.1 200 OK\r\ncontent-type: application/json\r\ncontent-length: "
        ∷ decimal (len body)
        ∷ "\r\nconnection: close\r\n\r\n"
        ∷ body
        ∷ [])

  -- `run`: the answer to a request that comes after these rounds, once the port is bound.
  unfoldable pub run : Result String (Unit {0}) → List fl.F64 → Result String String
  run bound elapsed = do
    fail_if (not (leb 8 n && nat_beq (n % 8) 0))
        (format ("n must be a multiple of 8 (got " ∷ decimal n ∷ ")" ∷ []))
    bound
    ok (status_response (gemm_loop (0, fl.of_u64 0) elapsed))
