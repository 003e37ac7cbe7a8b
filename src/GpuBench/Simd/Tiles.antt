-- ===== src/GpuBench/Simd/Tiles.antt =====
-- The native kernel multiplies the matrices block by block.
use Prim.Native.Nat.{◌+◌, ◌*◌, ◌/◌, ◌%◌, ◌<◌, ◌≤◌}
use mathlib.Core.Path.{fun_ext}
use computation_market_poc.Prelude.{
  ℕ, zero, suc, ◌≡◌, refl, sym, ap, ◌∙◌, nat_beq, ltb, true, arith, Bool-cases, inl, inr,
}
use computation_market_poc.Prelude.Key.{nat_beq_iff}
use computation_market_poc.GpuBench.Gemm.{u32}
use computation_market_poc.GpuBench.Gemm.Threads.{u32_fits, cell_row, cell_col}
use computation_market_poc.GpuBench.Simd.{
  Simdgroup, simdgroup_load, accumulated, rounds, stored, stored_row, stored_rows, grid_row,
  grid_rows, simd_gemm,
}

-- An address in a tile is that of its row and column in the matrix.
tile_address : (n y x i j : ℕ) → y * n + x + (i * n + j) ≡ (y + i) * n + (x + j)
tile_address n y x i j = grind arith

row_fits : (n y : ℕ) → n ≤ 65536 → y < n → y * n < 4294967296
row_fits n y small h = grind arith

own_cell : (n x y x' y' : ℕ) → x < n → x' < n → y' * n + x' ≡ y * n + x → (y' ≡ y) × (x' ≡ x)
own_cell n x y x' y' hx hx' same = (
  sym (cell_row n y' x' hx') ∙ ap (λ (k : ℕ). k / n) same ∙ cell_row n y x hx,
  sym (cell_col n y' x' hx') ∙ ap (λ (k : ℕ). k % n) same ∙ cell_col n y x hx,
)

module _ (simd : Simdgroup) (n : ℕ) (a b : ℕ → simd.In) where
  -- A matrix in blocks of 8 × 8: the cell in this row and column of the block with this place.
  abbrev pub block : (ℕ → simd.In) → ℕ → ℕ → ℕ → ℕ → simd.In
  block m y x i j = m ((y * 8 + i) * n + (x * 8 + j))

  -- The blocks of a row of `A` with those of a column of `B`, accumulated in their order from
  -- zeros: as many as are given.
  abbrev pub block_product : ℕ → ℕ → ℕ → ℕ → ℕ → simd.Acc
  block_product y x zero = λ _ _. simd.acc_zero
  block_product y x (suc t) =
      simd.multiply_accumulate (block a y t) (block b t x) (block_product y x t)

module _ (simd : Simdgroup) (n : ℕ) (a b : ℕ → simd.In) (small : n ≤ 65536)
    (whole : n % 8 ≡ 0) where
  module _ (gx gy : ℕ) (gx_in : gx < n / 8) (gy_in : gy < n / 8) where
    row_start : u32 (gy * 8 * n) ≡ gy * 8 * n
    row_start = u32_fits (gy * 8 * n) (row_fits n (gy * 8) small (omega arith))

    accumulated-blocks :
        (t : ℕ) → t ≤ n / 8 → accumulated simd n a b gx gy t ≡ block_product simd n a b gy gx t
    unfolding accumulated
    accumulated-blocks zero ht = refl
    accumulated-blocks (suc t) ht =
        let before = accumulated-blocks t (omega arith) in
        let col_start = u32_fits (t * 8 * n) (row_fits n (t * 8) small (omega arith)) in
        let loads_a : simdgroup_load simd n a b a (u32 (gy * 8 * n) + t * 8)
            ≡ block simd n a b a gy t =
          fun_ext (λ i. fun_ext (λ l. ap a (
            ap (λ (s : ℕ). s + t * 8 + (i * n + l)) row_start
            ∙ tile_address n (gy * 8) (t * 8) i l))) in
        let loads_b : simdgroup_load simd n a b b (u32 (t * 8 * n) + gx * 8)
            ≡ block simd n a b b t gx =
          fun_ext (λ l. fun_ext (λ j. ap b (
            ap (λ (s : ℕ). s + gx * 8 + (l * n + j)) col_start
            ∙ tile_address n (t * 8) (gx * 8) l j))) in
        λ k. simd.multiply_accumulate (loads_a k) (loads_b k) (before k)

    -- Where a cell of the tile is stored, and what it holds.
    address : (i j : ℕ) → u32 (gy * 8 * n) + gx * 8 + (i * n + j) ≡ (gy * 8 + i) * n + (gx * 8 + j)
    address i j =
        ap (λ (s : ℕ). s + gx * 8 + (i * n + j)) row_start ∙ tile_address n (gy * 8) (gx * 8) i j

    tile_cell :
        (i j : ℕ)
        → accumulated simd n a b gx gy (rounds simd n a b gx gy) i j
          ≡ block_product simd n a b gy gx (n / 8) i j
    tile_cell i j =
        let all : rounds simd n a b gx gy ≡ n / 8 = omega arith in
        rw all (ap (λ (acc : ℕ → ℕ → simd.Acc). acc i j) (accumulated-blocks (n / 8) (omega arith)))

  -- The cell of this row and column is computed.
  abbrev Computed : ℕ → ℕ → (ℕ → simd.Acc) → Type 0
  Computed y x c = c (y * n + x) ≡ block_product simd n a b (y / 8) (x / 8) (n / 8) (y % 8) (x % 8)

  module _ (gx gy : ℕ) (gx_in : gx < n / 8) (gy_in : gy < n / 8) (y x : ℕ) (y_in : y < n)
      (x_in : x < n) where
    stored_makes :
        (i j : ℕ) (c : ℕ → simd.Acc)
        → i < 8
        → j < 8
        → gy * 8 + i ≡ y
        → gx * 8 + j ≡ x
        → Computed y x (stored simd n a b gx gy i j c)
    stored_makes i j c hi hj at_y at_x =
        let here = address gx gy gx_in gy_in i j in
        let value = tile_cell gx gy gx_in gy_in i j in
        let row : y / 8 ≡ gy = omega arith in
        let col : x / 8 ≡ gx = omega arith in
        let row_in : y % 8 ≡ i = omega arith in
        let col_in : x % 8 ≡ j = omega arith in
        let same : nat_beq (y * n + x) ((gy * 8 + i) * n + (gx * 8 + j)) ≡ true =
          (nat_beq_iff _ _).1 (rw (at_y, at_x) refl) in
        rw (here, same, row, col, row_in, col_in) value

    stored_keeps :
        (i j : ℕ) (c : ℕ → simd.Acc)
        → i < 8
        → j < 8
        → Computed y x c
        → Computed y x (stored simd n a b gx gy i j c)
    stored_keeps i j c hi hj h =
        elim (Bool-cases (nat_beq (y * n + x) ((gy * 8 + i) * n + (gx * 8 + j)))) [
          | inr miss ↦ rw (address gx gy gx_in gy_in i j, miss) h
          | inl hit ↦
              let (rows, cols) =
                own_cell n (gx * 8 + j) (gy * 8 + i) x y (omega arith) x_in
                  ((nat_beq_iff _ _).0 hit) in
              stored_makes i j c hi hj (sym rows) (sym cols)
        ]

    row_keeps :
        (i j : ℕ) (c : ℕ → simd.Acc)
        → i < 8
        → j ≤ 8
        → Computed y x c
        → Computed y x (stored_row simd n a b gx gy i j c)
    unfolding stored_row
    row_keeps i zero c hi hj h = h
    row_keeps i (suc j) c hi hj h =
        stored_keeps i j (stored_row simd n a b gx gy i j c) hi (omega arith)
          (row_keeps i j c hi (omega arith) h)

    row_makes :
        (i j : ℕ) (c : ℕ → simd.Acc)
        → i < 8
        → j ≤ 8
        → gy * 8 + i ≡ y
        → gx * 8 ≤ x
        → x < gx * 8 + j
        → Computed y x (stored_row simd n a b gx gy i j c)
    unfolding stored_row
    row_makes i zero c hi hj at_y from upto = absurd (omega arith)
    row_makes i (suc j) c hi hj at_y from upto = elim (Bool-cases (nat_beq (gx * 8 + j) x)) [
      | inl same ↦
          stored_makes i j (stored_row simd n a b gx gy i j c) hi (omega arith) at_y
            ((nat_beq_iff _ _).0 same)
      | inr other ↦
          stored_keeps i j (stored_row simd n a b gx gy i j c) hi (omega arith)
            (row_makes i j c hi (omega arith) at_y from (ground arith))
    ]

    rows_keep :
        (i : ℕ) (c : ℕ → simd.Acc)
        → i ≤ 8
        → Computed y x c
        → Computed y x (stored_rows simd n a b gx gy i c)
    unfolding stored_rows
    rows_keep zero c hi h = h
    rows_keep (suc i) c hi h =
        row_keeps i 8 (stored_rows simd n a b gx gy i c) (omega arith) (omega arith)
          (rows_keep i c (omega arith) h)

    rows_make :
        (i : ℕ) (c : ℕ → simd.Acc)
        → i ≤ 8
        → gy * 8 ≤ y
        → y < gy * 8 + i
        → gx * 8 ≤ x
        → x < gx * 8 + 8
        → Computed y x (stored_rows simd n a b gx gy i c)
    unfolding stored_rows
    rows_make zero c hi from upto left right = absurd (omega arith)
    rows_make (suc i) c hi from upto left right = elim (Bool-cases (nat_beq (gy * 8 + i) y)) [
      | inl same ↦
          row_makes i 8 (stored_rows simd n a b gx gy i c) (omega arith) (omega arith)
            ((nat_beq_iff _ _).0 same) left right
      | inr other ↦
          row_keeps i 8 (stored_rows simd n a b gx gy i c) (omega arith) (omega arith)
            (rows_make i c (omega arith) from (ground arith) left right)
    ]

  module _ (y x : ℕ) (y_in : y < n) (x_in : x < n) where
    grid_row_keeps :
        (gy gx : ℕ) (c : ℕ → simd.Acc)
        → gy < n / 8
        → gx ≤ n / 8
        → Computed y x c
        → Computed y x (grid_row simd n a b gy gx c)
    unfolding grid_row
    grid_row_keeps gy zero c hy hx h = h
    grid_row_keeps gy (suc gx) c hy hx h =
        rows_keep gx gy (omega arith) hy y x y_in x_in 8 (grid_row simd n a b gy gx c) (omega arith)
          (grid_row_keeps gy gx c hy (omega arith) h)

    grid_row_makes :
        (gy gx : ℕ) (c : ℕ → simd.Acc)
        → gy < n / 8
        → gx ≤ n / 8
        → gy * 8 ≤ y
        → y < gy * 8 + 8
        → x < gx * 8
        → Computed y x (grid_row simd n a b gy gx c)
    unfolding grid_row
    grid_row_makes gy zero c hy hx from upto left = absurd (omega arith)
    grid_row_makes gy (suc gx) c hy hx from upto left = elim (Bool-cases (ltb x (gx * 8))) [
      | inl before ↦
          rows_keep gx gy (omega arith) hy y x y_in x_in 8 (grid_row simd n a b gy gx c)
            (omega arith) (grid_row_makes gy gx c hy (omega arith) from upto (ground arith))
      | inr here ↦
          rows_make gx gy (omega arith) hy y x y_in x_in 8 (grid_row simd n a b gy gx c)
            (omega arith) from upto (ground arith) (omega arith)
    ]

    grid_rows_make :
        (gy : ℕ) (c : ℕ → simd.Acc)
        → gy ≤ n / 8
        → y < gy * 8
        → Computed y x (grid_rows simd n a b gy c)
    unfolding grid_rows
    grid_rows_make zero c hy upto = absurd (omega arith)
    grid_rows_make (suc gy) c hy upto = elim (Bool-cases (ltb y (gy * 8))) [
      | inl before ↦
          grid_row_keeps gy (n / 8) (grid_rows simd n a b gy c) (omega arith) (omega arith)
            (grid_rows_make gy c (omega arith) (ground arith))
      | inr here ↦
          grid_row_makes gy (n / 8) (grid_rows simd n a b gy c) (omega arith) (omega arith)
            (ground arith) (omega arith) (omega arith)
    ]

  -- For a matrix of a multiple of 8 rows, 2 ^ 16 at most, the native kernel leaves the product by
  -- blocks, whatever the buffer held before and however the hardware accumulates: each cell is that
  -- of its block, for which the blocks of its row of `A` and of its column of `B` are loaded in full
  -- and accumulated once each, from the first to the last, on zeros.
  pub simd_gemm-blocks :
      (c : ℕ → simd.Acc) (row col : ℕ)
      → row < n
      → col < n
      → simd_gemm simd n a b c (row * n + col)
        ≡ block_product simd n a b (row / 8) (col / 8) (n / 8) (row % 8) (col % 8)
  unfolding simd_gemm
  simd_gemm-blocks c row col hrow hcol =
      grid_rows_make row col hrow hcol (n / 8) c (omega arith) (omega arith)
