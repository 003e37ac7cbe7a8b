-- ===== src/GpuBench/Gemm/Cells.antt =====
-- What a dispatch of the tiled product leaves in the buffer.
use Prim.Native.Nat.{◌+◌, ◌*◌, ◌/◌, ◌%◌, ◌<◌, ◌≤◌}
use computation_market_poc.Prelude.{
  ℕ, zero, suc, ◌≡◌, refl, sym, ap, ◌∙◌, false, ltb, nat_beq, ◌&&◌, if◌then◌else◌, arith,
  Bool-cases, inl, inr,
}
use computation_market_poc.Prelude.Key.{nat_beq_iff}
use computation_market_poc.GpuBench.Gemm.Threads.{
  cell_fits, u32_fits, cell_row, cell_col, dot, outer_lem,
}
use computation_market_poc.GpuBench.Gemm.{Numbers, gemm_thread, gemm_row, gemm_rows, gemm, groups}

module _ (num : Numbers) (n : ℕ) (a b : ℕ → num.In) (small : n ≤ 65536) where
  thread_hit :
      (c : ℕ → num.Acc) (x y : ℕ)
      → x < n
      → y < n
      → gemm_thread num n a b x y c (y * n + x) ≡ dot num n a b y x n
  unfolding gemm_thread
  thread_hit c x y hx hy =
      let at_y : y / 16 * 16 + y % 16 ≡ y = omega arith in
      let at_x : x / 16 * 16 + x % 16 ≡ x = omega arith in
      let run =
        outer_lem num n a b small (x / 16) (y / 16) (y % 16) (x % 16) (omega arith) (omega arith)
          (omega arith) (omega arith) in
      let place = u32_fits (y * n + x) (cell_fits n y x small hy hx) in
      let named : dot num n a b (y / 16 * 16 + y % 16) (x / 16 * 16 + x % 16) n
          ≡ dot num n a b y x n =
        rw (at_y, at_x) refl in
      rw place (ground (arith, run ∙ named))

  -- Two threads write to different cells.
  pub own_cell : (x y x' y' : ℕ) → x < n → x' < n → y' * n + x' ≡ y * n + x → (y' ≡ y) × (x' ≡ x)
  own_cell x y x' y' hx hx' same = (
    sym (cell_row n y' x' hx') ∙ ap (λ (k : ℕ). k / n) same ∙ cell_row n y x hx,
    sym (cell_col n y' x' hx') ∙ ap (λ (k : ℕ). k % n) same ∙ cell_col n y x hx,
  )

  thread_miss :
      (c : ℕ → num.Acc) (x y x' y' : ℕ)
      → x' < n
      → y' < n
      → nat_beq y y' && nat_beq x x' ≡ false
      → gemm_thread num n a b x y c (y' * n + x') ≡ c (y' * n + x')
  unfolding gemm_thread
  thread_miss c x y x' y' hx' hy' apart = elim (Bool-cases (ltb y n && ltb x n)) [
    | inr out ↦ ground arith
    | inl in_ ↦
        let hx : x < n = ground arith in
        let place = u32_fits (y * n + x) (cell_fits n y x small (ground arith) hx) in
        rw place (elim (Bool-cases (nat_beq (y' * n + x') (y * n + x))) [
          | inr other ↦ ground arith
          | inl same ↦
              let (rows, cols) = own_cell x y x' y' hx hx' ((nat_beq_iff _ _).0 same) in
              ground arith
        ])
  ]

  row_lem :
      (c : ℕ → num.Acc) (y width x' y' : ℕ)
      → x' < n
      → y' < n
      → gemm_row num n a b y width c (y' * n + x')
        ≡ (if nat_beq y y' && ltb x' width then dot num n a b y' x' n else c (y' * n + x'))
  unfolding gemm_row
  row_lem c y zero x' y' hx' hy' = ground arith
  row_lem c y (suc x) x' y' hx' hy' = elim (Bool-cases (nat_beq y y' && nat_beq x x')) [
    | inr other ↦
        thread_miss (gemm_row num n a b y x c) x y x' y' hx' hy' other
        ∙ row_lem c y x x' y' hx' hy'
        ∙ ground arith
    | inl same ↦
        let at_x : x ≡ x' = ground arith in
        let at_y : y ≡ y' = ground arith in
        rw (at_x, at_y) (thread_hit _ x' y' hx' hy' ∙ ground arith)
  ]

  rows_lem :
      (c : ℕ → num.Acc) (width height x' y' : ℕ)
      → x' < n
      → y' < n
      → x' < width
      → y' < height
      → gemm_rows num n a b width height c (y' * n + x') ≡ dot num n a b y' x' n
  unfolding gemm_rows
  rows_lem c width zero x' y' hx' hy' hw hh = absurd (omega arith)
  rows_lem c width (suc y) x' y' hx' hy' hw hh = ground (
    arith,
    row_lem (gemm_rows num n a b width y c) y width x' y' hx' hy',
    rows_lem c width y x' y' hx' hy' hw,
  )

  -- For a matrix of 2 ^ 16 rows at most, every cell of the buffer that the dispatch leaves holds
  -- the textbook product of its row and column, added up in the textbook's order, whatever the
  -- buffer held before.
  pub gemm-dot :
      (c : ℕ → num.Acc) (row col : ℕ)
      → row < n
      → col < n
      → gemm num n a b c (row * n + col) ≡ dot num n a b row col n
  unfolding gemm
  gemm-dot c row col hrow hcol =
      rows_lem c (groups num n a b * 16) (groups num n a b * 16) col row hcol hrow (omega arith)
        (omega arith)
