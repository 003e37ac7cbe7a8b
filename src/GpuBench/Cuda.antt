-- ===== src/GpuBench/Cuda.antt =====
-- crates/gpu-bench/src/cuda_backend.rs, the host's side. cuBLAS and the clock are a parameter: the
-- seconds of the timed runs, and the first cell of the product once all runs are over.
use computation_market_poc.Prelude.{ℕ, String, Bool, Result, ok, err, ◌>>=◌, ◌>>◌, nat_beq, fail_if}
use computation_market_poc.GpuBench.Backend.{
  Floats, Precision, GemmResult, BandwidthResult, Backend, tflops_of,
}

pub record Cublas (F64 : Type 0) : Type 1 where
  pub Cell : Type 0
  pub timed : Precision → ℕ → ℕ → ℕ → Result String (F64 × Cell)
  pub is_close : Cell → ℕ → Bool

module _ (fl : Floats) (blas : Cublas fl.F64) (name : String) where
  -- `gemm_f32` and `gemm_f16`: `(host[0] - n).abs() < (n * 1e-3).max(1.0)`, after the timed runs.
  unfoldable pub gemm_timed : Precision → ℕ → ℕ → ℕ → Result String (fl.F64 × Bool)
  gemm_timed p n warmup iters = blas.timed p n warmup iters >>= λ r. ok (r.0, blas.is_close r.1 n)

  unfoldable pub cuda_gemm : ℕ → Precision → ℕ → ℕ → Result String (GemmResult fl.F64)
  cuda_gemm n precision warmup iterations = do
    fail_if (nat_beq n 0) "n must be > 0"
    (seconds, verified) ← gemm_timed precision n warmup iterations
    ok (record {
      device = name;
      backend = "cuBLAS";
      precision = precision;
      n = n;
      iterations = iterations;
      seconds = seconds;
      tflops = tflops_of fl n iterations seconds;
      verified = verified;
    })

  unfoldable pub cuda_bandwidth : ℕ → ℕ → ℕ → Result String (BandwidthResult fl.F64)
  cuda_bandwidth elements warmup iterations =
      err "cuBLAS backend measures GEMM only; use the portable backend for bandwidth"

  -- `impl Backend for CudaBackend`
  abbrev pub cuda_backend : Backend fl.F64
  cuda_backend = record {
    device_info = record { name = name; backend = "cuBLAS"; device_type = "DiscreteGpu" };
    gemm = cuda_gemm;
    bandwidth = cuda_bandwidth;
  }
