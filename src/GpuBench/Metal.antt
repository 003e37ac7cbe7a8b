-- ===== src/GpuBench/Metal.antt =====
-- crates/gpu-bench/src/metal_backend.rs, the host's side. The device, its compiler and the clock are a
-- parameter: what a pipeline or a buffer is refused with, the seconds of the timed runs, and the first
-- cell of the product once all runs are over.
use Prim.Native.Nat.{◌*◌, ◌%◌, ◌^◌}
use computation_market_poc.Prelude.{
  ℕ, String, Bool, not, ◌&&◌, [], ◌∷◌, Result, ok, ◌>>◌, leb, nat_beq, fail_if,
}
use computation_market_poc.Prelude.Text.{decimal, format}
use computation_market_poc.GpuBench.Backend.{
  Floats, Precision, GemmResult, BandwidthResult, Backend, tflops_of, gb_per_s_of,
}

-- `is_close` is `(first - n as f32).abs() < (n as f32 * 1e-3).max(1.0)`.
pub record Gpu (F64 : Type 0) : Type 1 where
  pub Cell : Type 0
  pub pipeline : String → Result String (Unit {0})
  pub output_buffer : ℕ → Result String (Unit {0})
  pub source_buffer : ℕ → Result String (Unit {0})
  pub destination_buffer : ℕ → Result String (Unit {0})
  pub gemm_seconds : F64
  pub copy_seconds : F64
  pub first_cell : Precision → ℕ → ℕ → ℕ → Cell
  pub is_close : Cell → ℕ → Bool

-- The kernel of a precision, in GEMM_MSL.
unfoldable pub kernel_of : Precision → String
kernel_of Precision.f32 = "gemm_f32"
kernel_of Precision.f16 = "gemm_f16"

module _ (fl : Floats) (gpu : Gpu fl.F64) (name : String) where
  -- The sizes in bytes are products of `usize`, which wrap.
  unfoldable pub metal_gemm : ℕ → Precision → ℕ → ℕ → Result String (GemmResult fl.F64)
  metal_gemm n precision warmup iterations = do
    fail_if (not (leb 8 n && nat_beq (n % 8) 0)) (
        format
          ("the Metal backend needs n to be a positive multiple of 8 (got " ∷ decimal n ∷ ")" ∷ []))
    gpu.pipeline (kernel_of precision)
    gpu.output_buffer (n * n % 2 ^ 64 * 4 % 2 ^ 64)
    ok (record {
      device = name;
      backend = "Metal";
      precision = precision;
      n = n;
      iterations = iterations;
      seconds = gpu.gemm_seconds;
      tflops = tflops_of fl n iterations gpu.gemm_seconds;
      verified = gpu.is_close (gpu.first_cell precision n warmup iterations) n;
    })

  -- A copy is a read and a write.
  unfoldable pub metal_bandwidth : ℕ → ℕ → ℕ → Result String (BandwidthResult fl.F64)
  metal_bandwidth elements warmup iterations = do
    let bytes = elements * 4 % 2 ^ 64
    gpu.source_buffer bytes
    gpu.destination_buffer bytes
    let bytes_per_iter = bytes * 2 % 2 ^ 64
    ok (record {
      device = name;
      backend = "Metal";
      bytes_per_iter = bytes_per_iter;
      iterations = iterations;
      seconds = gpu.copy_seconds;
      gb_per_s = gb_per_s_of fl bytes_per_iter iterations gpu.copy_seconds;
    })

  -- `impl Backend for MetalBackend`
  abbrev pub metal_backend : Backend fl.F64
  metal_backend = record {
    device_info = record { name = name; backend = "Metal"; device_type = "IntegratedGpu" };
    gemm = metal_gemm;
    bandwidth = metal_bandwidth;
  }
