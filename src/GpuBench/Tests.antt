-- ===== src/GpuBench/Tests.antt =====
-- The kernels over whole numbers, and a run on a machine with a native backend.
use Prim.Native.Nat.{◌+◌, ◌*◌, min, max, ◌/◌}
use computation_market_poc.Prelude.{
  ℕ, zero, suc, ◌≡◌, refl, true, false, ltb, nat_beq, some, ok, err, arith,
}
use computation_market_poc.Prelude.Text.{decimal}
use computation_market_poc.GpuBench.Backend.{Floats, Precision, DeviceInfo, GemmResult, Backend}
use computation_market_poc.GpuBench.Gemm.{Numbers, gemm}
use computation_market_poc.GpuBench.Gemm.Threads.{dot}
use computation_market_poc.GpuBench.Gemm.Cells.{gemm-dot}
use computation_market_poc.GpuBench.Simd.{Simdgroup, simd_gemm}
use computation_market_poc.GpuBench.Simd.Tiles.{block_product, simd_gemm-blocks}
use computation_market_poc.GpuBench.Triad.{triad, triad_value, triad_loop, stride, triad_groups}
use computation_market_poc.GpuBench.Triad.Coverage.{triad-writes}
use computation_market_poc.GpuBench.Wgpu.{Exact, WgpuBackend, is_f16, wgpu_gemm}
use computation_market_poc.GpuBench.Wgpu.Verified.{wgpu_gemm-verified}
use computation_market_poc.GpuBench.Network.{Peer}
use computation_market_poc.GpuBench.Suite.{report_of}
use computation_market_poc.GpuBench.Run.{BackendChoice, RunArgs, Build, Measured, config_of}

-- Whole numbers stand for themselves.
plus-zero : (x : ℕ) → Unit {0} → x + 0 * 0 ≡ x
plus-zero x _ = omega arith

abbrev whole : Numbers
whole = record {
  In = ℕ;
  Acc = ℕ;
  in_zero = 0;
  acc_zero = 0;
  product = λ x y. x * y;
  plus = λ x y. x + y;
  Plain = λ _. Unit {0};
  Plain-zero = tt;
  Plain-plus = λ _ _ _. tt;
  plus-zeros = plus-zero;
}

one_more : (k : ℕ) → ltb k 16777216 ≡ true → k + 1 * 1 ≡ suc k
one_more k h = omega arith

abbrev exact : Exact whole
exact = record {
  one = 1;
  of_u32 = λ k. k;
  near = nat_beq;
  of-zero = refl;
  of-suc = one_more;
  near_same = λ j k _. refl;
}

abbrev counts : Floats
counts = record {
  F64 = ℕ;
  of_u64 = λ n. n;
  times = λ x y. x * y;
  over = λ x y. x / y;
  min = min;
  max = max;
  infinity = 1000000;
  fmt = λ _ x. decimal x;
}

-- A matrix of 20 rows takes two tiles in each direction.
gemm-dot_example :
    gemm whole 20 (λ i. i) (λ i. 2 * i) (λ _. 7) (19 * 20 + 3)
    ≡ dot whole 20 (λ i. i) (λ i. 2 * i) 19 3 20
gemm-dot_example =
    gemm-dot whole 20 (λ i. i) (λ i. 2 * i) (omega arith) (λ _. 7) 19 3 (omega arith) (omega arith)

triad-writes_example :
    (ltb
        (triad_loop
          (triad_value (λ x y. x + y) (λ x y. x * y) 2 (λ i. i) (λ i. i))
          1000
          (stride (triad_groups 1000))
          1001
          5
          (λ _. 0)).1
        1000
      ≡ false)
    × (triad (λ x y. x + y) (λ x y. x * y) 2 (λ i. i) (λ i. i) 1000 (λ _. 0) 999 ≡ 2997)
triad-writes_example =
    triad-writes (λ x y. x + y) (λ x y. x * y) 2 (λ i. i) (λ i. i) 1000 5 999 (λ _. 0) (omega arith)
      (omega arith)

abbrev device : DeviceInfo
device = record { name = "M4"; backend = "Metal"; device_type = "IntegratedGpu" }

abbrev portable_device : WgpuBackend
portable_device = record { info = device; f16_supported = false }

wgpu_gemm-verified_example :
    (r : GemmResult ℕ) × (wgpu_gemm counts
        (λ _. whole)
        (λ _. exact)
        portable_device
        3
        (ok tt)
        64
        Precision.f32
        0
        50
      ≡ ok r)
    × (r.verified ≡ ltb 0 0)
unfolding is_f16
wgpu_gemm-verified_example =
    wgpu_gemm-verified counts (λ _. whole) (λ _. exact) portable_device 3 64 Precision.f32 0 50
      (omega arith) (omega arith) refl

-- A backend that measures GEMM alone.
abbrev gemm_alone : Backend ℕ
gemm_alone = record {
  device_info = device;
  gemm = λ n p warmup iters. ok (record {
    device = "M4";
    backend = "Metal";
    precision = p;
    n = n;
    iterations = iters;
    seconds = 2;
    tflops = 9;
    verified = true;
  });
  bandwidth = λ _ _ _. err "none";
}

abbrev mac : Build ℕ
mac = record {
  macos = true;
  cuda_feature = false;
  new_wgpu = ok gemm_alone;
  new_metal = ok gemm_alone;
  new_cuda = err "not built";
}

abbrev offline : Peer ℕ
offline = record {
  latency = λ _. err "unreachable";
  open_body = λ _. err "unreachable";
  down_seconds = 1;
  upload = λ _. err "unreachable";
}

abbrev args : RunArgs
args = record {
  n = 2048;
  iters = 50;
  warmup = 10;
  bandwidth_m = 32;
  backend = BackendChoice.auto;
  skip_fp16 = false;
  json = false;
  verbose = false;
}

abbrev native_gemm : Precision → GemmResult ℕ
native_gemm p = record {
  device = "M4";
  backend = "Metal";
  precision = p;
  n = 2048;
  iterations = 50;
  seconds = 2;
  tflops = 9;
  verified = true;
}

abbrev compared : Measured counts mac
compared = record {
  resolved = BackendChoice.metal;
  report =
      report_of counts offline gemm_alone (config_of counts mac args) (native_gemm Precision.f32);
  portable = some (
      report_of counts offline gemm_alone
        (record (config_of counts mac args) { include_network = false })
        (native_gemm Precision.f32));
}

-- The eight products of a cell on top of what it held, for whole numbers.
abbrev sum_of : (ℕ → ℕ → ℕ) → (ℕ → ℕ → ℕ) → ℕ → ℕ → ℕ → ℕ
sum_of ta tb i j zero = 0
sum_of ta tb i j (suc l) = sum_of ta tb i j l + ta i l * tb l j

abbrev whole_simd : Simdgroup
whole_simd = record {
  In = ℕ;
  Acc = ℕ;
  acc_zero = 0;
  multiply_accumulate = λ ta tb acc i j. acc i j + sum_of ta tb i j 8;
}

-- A matrix of 16 rows takes four groups of the native kernel.
simd_gemm-blocks_example :
    simd_gemm whole_simd 16 (λ i. i) (λ i. 2 * i) (λ _. 7) (15 * 16 + 3)
    ≡ block_product whole_simd 16 (λ i. i) (λ i. 2 * i) 1 0 2 7 3
simd_gemm-blocks_example =
    simd_gemm-blocks whole_simd 16 (λ i. i) (λ i. 2 * i) (omega arith) refl (λ _. 7) 15 3
      (omega arith) (omega arith)
