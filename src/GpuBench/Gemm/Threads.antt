-- ===== src/GpuBench/Gemm/Threads.antt =====
-- The accumulator with which one thread of the tiled product leaves its loops.
use Prim.Native.Nat.{◌+◌, ◌*◌, ◌/◌, ◌%◌, ◌<◌, ◌≤◌}
use computation_market_poc.Prelude.{
  ℕ, zero, suc, ◌≡◌, refl, sym, ap, ◌∙◌, ltb, if◌then◌else◌, arith, Bool-cases, inl, inr,
}
use computation_market_poc.GpuBench.Gemm.{
  Numbers, u32, load_a, load_b, filled, inner, outer, num_tiles,
}

-- The cell of a row and a column is below 2 ^ 32.
pub cell_fits : (n y x : ℕ) → n ≤ 65536 → y < n → x < n → y * n + x < 4294967296
cell_fits n y x small hy hx = grind arith

pub u32_fits : (x : ℕ) → x < 4294967296 → u32 x ≡ x
u32_fits x h = omega arith

place_row : (y x : ℕ) → x < 16 → (y * 16 + x) / 16 ≡ y
place_row y x h = omega arith

place_col : (y x : ℕ) → x < 16 → (y * 16 + x) % 16 ≡ x
place_col y x h = omega arith

pub cell_row : (n y x : ℕ) → x < n → (y * n + x) / n ≡ y
cell_row n y x hx = grind arith

pub cell_col : (n y x : ℕ) → x < n → (y * n + x) % n ≡ x
cell_col n y x hx = grind arith

module _ (num : Numbers) (n : ℕ) (a b : ℕ → num.In) where
  -- The textbook product: the sum over `k`, in order, of the products of row and column.
  abbrev pub dot : ℕ → ℕ → ℕ → num.Acc
  dot row col zero = num.acc_zero
  dot row col (suc k) = num.plus (dot row col k) (num.product (a (row * n + k)) (b (k * n + col)))

  pub added :
      {x x' : num.Acc} {p p' q q' : num.In}
      → x ≡ x'
      → p ≡ p'
      → q ≡ q'
      → num.plus x (num.product p q) ≡ num.plus x' (num.product p' q')
  added h i j = cc

  dot-Plain : (row col k : ℕ) → num.Plain (dot row col k)
  dot-Plain row col zero = num.Plain-zero
  dot-Plain row col (suc k) = num.Plain-plus _ _ (dot-Plain row col k)

  -- The sum, which the kernel goes on with past `n` by products of zeros.
  abbrev upto : ℕ → ℕ
  upto k = if ltb k n then k else n

  -- The thread's place in its workgroup, in range.
  module _ (small : n ≤ 65536) (wx wy ly lx : ℕ) (hy : ly < 16) (hx : lx < 16)
      (row_in : wy * 16 + ly < n) (col_in : wx * 16 + lx < n) where
    abbrev row : ℕ
    row = wy * 16 + ly

    abbrev col : ℕ
    col = wx * 16 + lx

    -- The factor of the products past `n`.
    abbrev a_at : ℕ → num.In
    a_at k = if ltb k n then a (row * n + k) else num.in_zero

    abbrev b_at : ℕ → num.In
    b_at k = if ltb k n then b (k * n + col) else num.in_zero

    tile_a_cell :
        (t i : ℕ)
        → i < 16
        → t < 4097
        → filled num n a b (load_a num n a b wy t) (ly * 16 + i) ≡ a_at (t * 16 + i)
    unfolding load_a
    tile_a_cell t i hi ht =
        rw (place_row ly i hi, place_col ly i hi, u32_fits (t * 16 + i) (omega arith))
          (elim (Bool-cases (ltb (t * 16 + i) n)) [
            | inr out ↦ ground arith
            | inl in_ ↦
                let k = t * 16 + i in
                let fits : row * n + k < 4294967296 =
                  cell_fits n row k small row_in (ground arith) in
                rw (u32_fits (row * n + k) fits) (ground arith)
          ])

    tile_b_cell :
        (t i : ℕ)
        → i < 16
        → t < 4097
        → filled num n a b (load_b num n a b wx t) (i * 16 + lx) ≡ b_at (t * 16 + i)
    unfolding load_b
    tile_b_cell t i hi ht =
        rw (place_row i lx hx, place_col i lx hx, u32_fits (t * 16 + i) (omega arith))
          (elim (Bool-cases (ltb (t * 16 + i) n)) [
            | inr out ↦ ground arith
            | inl in_ ↦
                let k = t * 16 + i in
                let fits : k * n + col < 4294967296 =
                  cell_fits n k col small (ground arith) col_in in
                rw (u32_fits (k * n + col) fits) (ground arith)
          ])

    -- One round of the inner loop.
    dot_step :
        (k : ℕ)
        → num.plus (dot row col (upto k)) (num.product (a_at k) (b_at k))
          ≡ dot row col (upto (suc k))
    dot_step k = elim (Bool-cases (ltb k n)) [
      | inl more ↦ let e : upto (suc k) ≡ suc k = ground arith in rw (more, e) refl
      | inr past ↦
          let e : upto (suc k) ≡ n = ground arith in
          rw (past, e) (num.plus-zeros _ (dot-Plain row col n))
    ]

    abbrev tiles_a : ℕ → ℕ → num.In
    tiles_a t = filled num n a b (load_a num n a b wy t)

    abbrev tiles_b : ℕ → ℕ → num.In
    tiles_b t = filled num n a b (load_b num n a b wx t)

    -- The inner loop adds the products of its tile.
    inner-dot :
        (t i : ℕ)
        → i ≤ 16
        → t < 4097
        → inner num n a b (tiles_a t) (tiles_b t) ly lx (dot row col (upto (t * 16))) i
          ≡ dot row col (upto (t * 16 + i))
    unfolding inner
    inner-dot t zero hi ht =
        let same : t * 16 ≡ t * 16 + 0 = omega arith in ap (λ (k : ℕ). dot row col (upto k)) same
    inner-dot t (suc i) hi ht =
        let before = inner-dot t i (omega arith) ht in
        let cell_a = tile_a_cell t i hi ht in
        let cell_b = tile_b_cell t i hi ht in
        let step = dot_step (t * 16 + i) in
        let later : t * 16 + suc i ≡ suc (t * 16 + i) = omega arith in
        let reached : dot row col (upto (suc (t * 16 + i))) ≡ dot row col (upto (t * 16 + suc i)) =
          ap (λ (k : ℕ). dot row col (upto k)) (sym later) in
        added before cell_a cell_b ∙ step ∙ reached

    outer-dot : (t : ℕ) → t ≤ 4097 → outer num n a b wx wy ly lx t ≡ dot row col (upto (t * 16))
    unfolding outer
    outer-dot zero ht = let start : upto (0 * 16) ≡ 0 = ground arith in rw start refl
    outer-dot (suc t) ht =
        let later : suc t * 16 ≡ t * 16 + 16 = omega arith in
        rw (outer-dot t (omega arith), later) (inner-dot t 16 (omega arith) ht)

    -- The accumulator with which a thread leaves its loops.
    pub outer_lem : outer num n a b wx wy ly lx (num_tiles num n a b) ≡ dot row col n
    outer_lem =
        let enough : upto (num_tiles num n a b * 16) ≡ n = ground arith in
        outer-dot (num_tiles num n a b) (omega arith) ∙ ap (dot row col) enough
