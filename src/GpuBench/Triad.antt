-- ===== src/GpuBench/Triad.antt =====
-- The bandwidth kernel TRIAD_WGSL of crates/gpu-bench/src/wgpu_backend.rs, and the number of
-- workgroups with which `bandwidth` dispatches it. A buffer is a function of its index; the threads
-- run one after the other, as they write to different cells.
pub mod Coverage
use Prim.Native.Nat.{◌+◌, ◌*◌, ◌/◌, ◌%◌, ◌^◌, min}
use computation_market_poc.Prelude.{ℕ, zero, suc, ltb, nat_beq, if◌then◌else◌}
use computation_market_poc.GpuBench.Gemm.{u32}

-- `(elements as u32).div_ceil(256).min(65_535)`
unfoldable pub triad_groups : ℕ → ℕ
triad_groups elements = min ((u32 elements + 255) / 256) 65535

-- `nwg.x * 256u`
abbrev pub stride : ℕ → ℕ
stride groups = u32 (groups * 256)

-- `a[i] + 2.0 * b[i]`, over the sum and the product of `f32` and its `2.0`.
abbrev pub triad_value : {F : Type 0} → (F → F → F) → (F → F → F) → F → (ℕ → F) → (ℕ → F) → ℕ → F
triad_value plus times two a b i = plus (a i) (times two (b i))

-- `value i` is what is stored at the index `i`.
module _ {F : Type 0} (value : ℕ → F) (n step : ℕ) where
  abbrev pub store : ℕ → (ℕ → F) → ℕ → F
  store i c j = if nat_beq j i then value i else c j

  -- `while (i < n) { … }`, on fuel: the buffer and the index with which the loop is left.
  unfoldable pub triad_loop : ℕ → ℕ → (ℕ → F) → (ℕ → F) × ℕ
  triad_loop zero i c = (c, i)
  triad_loop (suc fuel) i c =
      let rest = triad_loop fuel (u32 (i + step)) (store i c) in if ltb i n then rest else (c, i)

  -- One thread. Its index grows with every round, so `n` rounds are enough.
  unfoldable pub triad_thread : ℕ → (ℕ → F) → ℕ → F
  triad_thread gid c = (triad_loop (suc n) gid c).0

  -- The threads with the global ids below this one.
  unfoldable pub triad_threads : ℕ → (ℕ → F) → ℕ → F
  triad_threads zero c = c
  triad_threads (suc gid) c = triad_thread gid (triad_threads gid c)

-- The dispatch over buffers of `n` elements.
unfoldable pub triad :
    {F : Type 0} → (F → F → F) → (F → F → F) → F → (ℕ → F) → (ℕ → F) → ℕ → (ℕ → F) → ℕ → F
triad plus times two a b n c =
    triad_threads (triad_value plus times two a b) n (stride (triad_groups n))
      (triad_groups n * 256) c
