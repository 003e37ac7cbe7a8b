-- ===== src/GpuBench/Wgpu/Verified.antt =====
-- What `verified` says of a measurement by the portable backend.
use Prim.Native.Nat.{◌+◌, ◌*◌, ◌<◌, ◌≤◌}
use computation_market_poc.Prelude.{
  ℕ, zero, suc, ◌≡◌, refl, sym, ap, ◌∙◌, true, not, ltb, nat_beq, ◌&&◌, ok, arith, false,
}
use computation_market_poc.GpuBench.Backend.{Floats, Precision, GemmResult}
use computation_market_poc.GpuBench.Gemm.{Numbers, gemm}
use computation_market_poc.GpuBench.Gemm.Threads.{dot}
use computation_market_poc.GpuBench.Gemm.Cells.{gemm-dot}
use computation_market_poc.GpuBench.Wgpu.{
  Exact, WgpuBackend, is_f16, dispatches, first_cell, measured, wgpu_gemm,
}

module _ (num : Numbers) (ex : Exact num) where
  -- A sum of ones is exact.
  dot-ones :
      (n row col k : ℕ) → k ≤ 65536 → dot num n (λ _. ex.one) (λ _. ex.one) row col k ≡ ex.of_u32 k
  dot-ones n row col zero h = ex.of-zero
  dot-ones n row col (suc k) h =
      ap (λ (x : num.Acc). num.plus x (num.product ex.one ex.one))
        (dot-ones n row col k (omega arith))
      ∙ ex.of-suc k (ground arith)

  gemm-ones :
      (n : ℕ) (c : ℕ → num.Acc)
      → 0 < n
      → n ≤ 65536
      → gemm num n (λ _. ex.one) (λ _. ex.one) c 0 ≡ ex.of_u32 n
  gemm-ones n c some_n small =
      let first : 0 * n + 0 ≡ 0 = omega arith in
      ap (gemm num n (λ _. ex.one) (λ _. ex.one) c) (sym first)
      ∙ gemm-dot num n (λ _. ex.one) (λ _. ex.one) small c 0 0 some_n some_n
      ∙ dot-ones n 0 0 n small

module _ (fl : Floats) (num : Precision → Numbers) (ex : (p : Precision) → Exact (num p))
    (be : WgpuBackend) (seconds : fl.F64) where
  first_cell_lem :
      (p : Precision) (n warmup : ℕ)
      → 0 < n
      → n ≤ 65536
      → (ex p).near (first_cell fl num ex be seconds (ok tt) p n warmup) ((ex p).of_u32 n)
        ≡ ltb 0 warmup
  unfolding first_cell dispatches
  first_cell_lem p n zero some_n small =
      ap (λ (x : (num p).Acc). (ex p).near x ((ex p).of_u32 n)) (ex p).of-zero
      ∙ (ex p).near_same 0 n (ground arith)
      ∙ ground arith
  first_cell_lem p n (suc count) some_n small =
      let warm : ltb 0 (suc count) ≡ true = ground arith in
      rw warm (
        ap (λ (x : (num p).Acc). (ex p).near x ((ex p).of_u32 n))
          (gemm-ones (num p) (ex p) n (dispatches fl num ex p n count (λ _. (num p).acc_zero))
            some_n small)
        ∙ (ex p).near_same n n (ground arith)
        ∙ ground arith)

  -- On a device that can measure the precision and whose buffer can be read, a measurement of a
  -- matrix of 1 to 2 ^ 16 rows succeeds, and it is marked as verified exactly if there was a warm-up
  -- round, whatever the timed rounds compute.
  pub wgpu_gemm-verified :
      (n : ℕ) (p : Precision) (warmup iterations : ℕ)
      → 0 < n
      → n ≤ 65536
      → is_f16 p && not be.f16_supported ≡ false
      → (r : GemmResult fl.F64) × (wgpu_gemm fl num ex be seconds (ok tt) n p warmup iterations
          ≡ ok r)
        × (r.verified ≡ ltb 0 warmup)
  unfolding wgpu_gemm
  wgpu_gemm-verified n p warmup iterations some_n small can =
      let positive : nat_beq n 0 ≡ false = ground arith in
      let checked =
        (ex p).near (first_cell fl num ex be seconds (ok tt) p n warmup) ((ex p).of_u32 n) in
      (
        measured fl num ex be seconds (ok tt) n p iterations checked,
        rw (positive, can) refl,
        first_cell_lem p n warmup some_n small,
      )
