-- ===== src/GpuBench/Wgpu.antt =====
-- `gemm` and `bandwidth` of crates/gpu-bench/src/wgpu_backend.rs, the host's side. The device's
-- memory starts as zeros; `seconds` is what the clock shows for the timed dispatches, and `readback`
-- whether the buffer can be mapped.
pub mod Verified
use Prim.Native.Nat.{◌+◌, ◌*◌, ◌/◌, ◌%◌, ◌^◌}
use computation_market_poc.Prelude.{
  ℕ, zero, suc, ◌≡◌, String, Bool, false, not, ltb, leb, nat_beq, ◌&&◌, Result, ok, ◌>>=◌, ◌>>◌,
  fail_if, if◌then◌else◌,
}
use computation_market_poc.GpuBench.Backend.{
  Floats, Precision, DeviceInfo, GemmResult, BandwidthResult, Backend, tflops_of, gb_per_s_of,
}
use computation_market_poc.GpuBench.Gemm.{Numbers, gemm}

-- The host's side of `f32`: what it knows of ones, and of the whole numbers below 2 ^ 24, which an
-- `f32` holds exactly. `near x y` is `(x - y).abs() < 0.5`.
pub record Exact (num : Numbers) : Type 0 where
  pub one : num.In
  pub of_u32 : ℕ → num.Acc
  pub near : num.Acc → num.Acc → Bool
  pub of-zero : num.acc_zero ≡ of_u32 0
  pub of-suc :
      (k : ℕ)
      → ltb k 16777216 ≡ Bool.true
      → num.plus (of_u32 k) (num.product one one) ≡ of_u32 (suc k)
  pub near_same :
      (j k : ℕ)
      → leb j 16777216 && leb k 16777216 ≡ Bool.true
      → near (of_u32 j) (of_u32 k) ≡ nat_beq j k

pub record WgpuBackend : Type 0 where
  pub info : DeviceInfo
  pub f16_supported : Bool

unfoldable pub is_f16 : Precision → Bool
is_f16 Precision.f32 = false
is_f16 Precision.f16 = Bool.true

module _ (fl : Floats) (num : Precision → Numbers) (ex : (p : Precision) → Exact (num p)) where
  -- `time_dispatches`: the buffer after this many runs of the kernel over ones.
  unfoldable pub dispatches : (p : Precision) → ℕ → ℕ → (ℕ → (num p).Acc) → ℕ → (num p).Acc
  dispatches p n zero c = c
  dispatches p n (suc count) c =
      gemm (num p) n (λ _. (ex p).one) (λ _. (ex p).one) (dispatches p n count c)

  module _ (be : WgpuBackend) (seconds : fl.F64) (readback : Result String (Unit {0})) where
    -- `self.read_first(&c)`, before the timed dispatches.
    unfoldable pub first_cell : (p : Precision) → ℕ → ℕ → (num p).Acc
    first_cell p n warmup =
        let fresh : ℕ → (num p).Acc = λ _. (num p).acc_zero in
        if ltb 0 warmup then dispatches p n warmup fresh 0 else fresh 0

    abbrev pub measured : ℕ → Precision → ℕ → Bool → GemmResult fl.F64
    measured n precision iterations verified = record {
      device = be.info.name;
      backend = be.info.backend;
      precision = precision;
      n = n;
      iterations = iterations;
      seconds = seconds;
      tflops = tflops_of fl n iterations seconds;
      verified = verified;
    }

    unfoldable pub wgpu_gemm : ℕ → Precision → ℕ → ℕ → Result String (GemmResult fl.F64)
    wgpu_gemm n precision warmup iterations = do
      fail_if (nat_beq n 0) "n must be > 0"
      fail_if (is_f16 precision && not be.f16_supported)
          "this device does not support SHADER_F16, so fp16 GEMM is unavailable"
      readback
      let verified = (ex precision).near (first_cell precision n warmup) ((ex precision).of_u32 n)
      ok (measured n precision iterations verified)

    -- Two reads and a write of four bytes for each element; a product of `u64`.
    unfoldable pub wgpu_bandwidth : ℕ → ℕ → ℕ → Result String (BandwidthResult fl.F64)
    wgpu_bandwidth elements warmup iterations = do
      fail_if (nat_beq elements 0) "elements must be > 0"
      let bytes_per_iter = elements * 3 % 2 ^ 64 * 4 % 2 ^ 64
      ok (record {
        device = be.info.name;
        backend = be.info.backend;
        bytes_per_iter = bytes_per_iter;
        iterations = iterations;
        seconds = seconds;
        gb_per_s = gb_per_s_of fl bytes_per_iter iterations seconds;
      })

    -- `impl Backend for WgpuBackend`
    abbrev pub wgpu_backend : Backend fl.F64
    wgpu_backend = record { device_info = be.info; gemm = wgpu_gemm; bandwidth = wgpu_bandwidth }
