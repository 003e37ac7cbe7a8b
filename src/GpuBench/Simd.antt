-- ===== src/GpuBench/Simd.antt =====
-- The matrix product GEMM_MSL of crates/gpu-bench/src/metal_backend.rs, whose kernel for half
-- precision is that of crates/host-agent/src/mac_worker.rs. A simdgroup computes a tile of 8 × 8 cells
-- with the matrix operations of Metal: a load and a store with a row's stride, and an accumulation,
-- which is a parameter: how it rounds and in which order it adds up is the hardware's. The groups
-- of a dispatch are run one after the other, as they share nothing.
pub mod Tiles
use Prim.Native.Nat.{◌+◌, ◌*◌, ◌/◌}
use computation_market_poc.Prelude.{ℕ, zero, suc, nat_beq, if◌then◌else◌}
use computation_market_poc.GpuBench.Gemm.{u32}

-- The numbers and the accumulation of a simdgroup. A tile is a function of a row and a column, which
-- are below 8.
pub record Simdgroup : Type 1 where
  pub In : Type 0
  pub Acc : Type 0
  -- `0.0f`
  pub acc_zero : Acc
  -- `simdgroup_multiply_accumulate(acc, a, b, acc)`: the new `acc` from `a`, `b` and the old.
  pub multiply_accumulate : (ℕ → ℕ → In) → (ℕ → ℕ → In) → (ℕ → ℕ → Acc) → ℕ → ℕ → Acc

module _ (simd : Simdgroup) (n : ℕ) (a b : ℕ → simd.In) where
  -- `simdgroup_load(m, p + at, N)`: the cell in this row and column of the tile.
  abbrev pub simdgroup_load : (ℕ → simd.In) → ℕ → ℕ → ℕ → simd.In
  simdgroup_load p at i j = p (at + (i * n + j))

  module _ (gx gy : ℕ) where
    -- `for (uint k = 0; k < N; k += 8)`, after so many rounds: the tile `acc`.
    unfoldable pub accumulated : ℕ → ℕ → ℕ → simd.Acc
    accumulated zero = λ _ _. simd.acc_zero
    accumulated (suc t) =
        let k = t * 8 in
        simd.multiply_accumulate (simdgroup_load a (u32 (gy * 8 * n) + k))
          (simdgroup_load b (u32 (k * n) + gx * 8)) (accumulated t)

    -- The rounds of that loop: `k` is below `N`.
    abbrev pub rounds : ℕ
    rounds = (n + 7) / 8

    abbrev pub stored : ℕ → ℕ → (ℕ → simd.Acc) → ℕ → simd.Acc
    stored i j c cell =
        if nat_beq cell (u32 (gy * 8 * n) + gx * 8 + (i * n + j))
        then accumulated rounds i j
        else c cell

    -- `simdgroup_store(acc, C + row * N + col, N)`: so many columns of a row, and so many rows.
    unfoldable pub stored_row : ℕ → ℕ → (ℕ → simd.Acc) → ℕ → simd.Acc
    stored_row i zero c = c
    stored_row i (suc j) c = stored i j (stored_row i j c)

    unfoldable pub stored_rows : ℕ → (ℕ → simd.Acc) → ℕ → simd.Acc
    stored_rows zero c = c
    stored_rows (suc i) c = stored_row i 8 (stored_rows i c)

  -- The kernel for the groups of a row of the grid, and for its rows.
  unfoldable pub grid_row : ℕ → ℕ → (ℕ → simd.Acc) → ℕ → simd.Acc
  grid_row gy zero c = c
  grid_row gy (suc gx) c = stored_rows gx gy 8 (grid_row gy gx c)

  unfoldable pub grid_rows : ℕ → (ℕ → simd.Acc) → ℕ → simd.Acc
  grid_rows zero c = c
  grid_rows (suc gy) c = grid_row gy (n / 8) (grid_rows gy c)

  -- `run_gemm`, one dispatch over a grid of `n / 8` groups in each direction.
  unfoldable pub simd_gemm : (ℕ → simd.Acc) → ℕ → simd.Acc
  simd_gemm c = grid_rows (n / 8) c
