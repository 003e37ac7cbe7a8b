-- ===== src/GpuBench/Gemm.antt =====
-- The tiled matrix product of crates/gpu-bench/src/wgpu_backend.rs, GEMM_F32_WGSL and
-- GEMM_F16_WGSL. A workgroup of 16 × 16 threads runs in phases that its barriers divide: all
-- threads fill the two tiles, then each adds up its products. A buffer is a function of its index,
-- and the threads of a dispatch are run row by row: they share nothing but the tiles.
pub mod Threads
pub mod Cells
use Prim.Native.Nat.{◌+◌, ◌-◌, ◌*◌, ◌/◌, ◌%◌, ◌^◌}
use computation_market_poc.Prelude.{ℕ, zero, suc, ◌≡◌, ltb, nat_beq, ◌&&◌, if◌then◌else◌}

-- The numbers of a kernel: `In` is the type of its inputs and tiles, `Acc` that of the
-- accumulator. `Plain` holds of what can stand in an accumulator that began at 0.0: with
-- round-to-nearest a sum is -0.0 only if both summands are.
pub record Numbers : Type 1 where
  pub In : Type 0
  pub Acc : Type 0
  pub in_zero : In
  pub acc_zero : Acc
  pub product : In → In → Acc
  pub plus : Acc → Acc → Acc
  pub Plain : Acc → Type 0
  pub Plain-zero : Plain acc_zero
  pub Plain-plus : (x y : Acc) → Plain x → Plain (plus x y)
  pub plus-zeros : (x : Acc) → Plain x → plus x (product in_zero in_zero) ≡ x

abbrev pub tile : ℕ
tile = 16

-- The arithmetic of `u32`.
abbrev pub u32 : ℕ → ℕ
u32 x = x % 2 ^ 32

module _ (num : Numbers) (n : ℕ) (a b : ℕ → num.In) where
  -- What the thread at this place of the workgroup's row `wy` writes to `tile_a` in round `t`.
  unfoldable pub load_a : ℕ → ℕ → ℕ → ℕ → num.In
  load_a wy t ly lx =
      let row = wy * tile + ly in
      let a_col = u32 (t * tile + lx) in
      if ltb row n && ltb a_col n then a (u32 (row * n + a_col)) else num.in_zero

  unfoldable pub load_b : ℕ → ℕ → ℕ → ℕ → num.In
  load_b wx t ly lx =
      let col = wx * tile + lx in
      let b_row = u32 (t * tile + ly) in
      if ltb b_row n && ltb col n then b (u32 (b_row * n + col)) else num.in_zero

  -- A tile once every thread has written its cell, `lid.y * TILE + lid.x`.
  abbrev pub filled : (ℕ → ℕ → num.In) → ℕ → num.In
  filled load cell = load (cell / tile) (cell % tile)

  -- `for (var i = 0u; i < TILE; …)`, after this many rounds.
  unfoldable pub inner : (ℕ → num.In) → (ℕ → num.In) → ℕ → ℕ → num.Acc → ℕ → num.Acc
  inner tile_a tile_b ly lx acc zero = acc
  inner tile_a tile_b ly lx acc (suc i) =
      num.plus (inner tile_a tile_b ly lx acc i)
        (num.product (tile_a (ly * tile + i)) (tile_b (i * tile + lx)))

  -- `for (var t = 0u; t < num_tiles; …)`, after this many rounds: the accumulator of a thread.
  unfoldable pub outer : ℕ → ℕ → ℕ → ℕ → ℕ → num.Acc
  outer wx wy ly lx zero = num.acc_zero
  outer wx wy ly lx (suc t) =
      inner (filled (load_a wy t)) (filled (load_b wx t)) ly lx (outer wx wy ly lx t) tile

  abbrev pub num_tiles : ℕ
  num_tiles = u32 (u32 (n + tile) + (2 ^ 32 - 1)) / tile

  -- The whole kernel for the thread whose global id is `(x, y)`: what it makes of the buffer `c`.
  unfoldable pub gemm_thread : ℕ → ℕ → (ℕ → num.Acc) → ℕ → num.Acc
  gemm_thread x y c cell =
      let acc = outer (x / tile) (y / tile) (y % tile) (x % tile) num_tiles in
      if ltb y n && ltb x n && nat_beq cell (u32 (y * n + x)) then acc else c cell

  -- The threads of one row, and the rows, of a dispatch that is this wide.
  unfoldable pub gemm_row : ℕ → ℕ → (ℕ → num.Acc) → ℕ → num.Acc
  gemm_row y zero c = c
  gemm_row y (suc x) c = gemm_thread x y (gemm_row y x c)

  unfoldable pub gemm_rows : ℕ → ℕ → (ℕ → num.Acc) → ℕ → num.Acc
  gemm_rows width zero c = c
  gemm_rows width (suc y) c = gemm_row y width (gemm_rows width y c)

  -- `n.div_ceil(TILE)`
  abbrev pub groups : ℕ
  groups = (n + 15) / tile

  unfoldable pub gemm : (ℕ → num.Acc) → ℕ → num.Acc
  gemm c = gemm_rows (groups * tile) (groups * tile) c
