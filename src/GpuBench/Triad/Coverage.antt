-- ===== src/GpuBench/Triad/Coverage.antt =====
-- The grid-stride loop ends, and the dispatch writes every element.
use Prim.Native.Nat.{◌+◌, ◌*◌, ◌/◌, ◌%◌, ◌<◌, ◌≤◌}
use computation_market_poc.Prelude.{
  ℕ, zero, suc, ◌≡◌, true, false, ltb, nat_beq, arith, Bool-cases, inl, inr,
}
use mathlib.Core.Path.{subst}
use computation_market_poc.GpuBench.Gemm.{u32}
use computation_market_poc.GpuBench.Triad.{
  triad_groups, stride, store, triad_loop, triad_thread, triad_threads, triad, triad_value,
}

module _ {F : Type 0} (value : ℕ → F) (n step : ℕ) (some_step : 0 < step)
    (no_wrap : n + step ≤ 4294967296) where
  -- With as much fuel as there are elements left, the loop is left by its test.
  loop_ends :
      (fuel i : ℕ) (c : ℕ → F) → n ≤ fuel + i → ltb (triad_loop value n step fuel i c).1 n ≡ false
  unfolding triad_loop
  loop_ends zero i c h = ground arith
  loop_ends (suc fuel) i c h = elim (Bool-cases (ltb i n)) [
    | inr past ↦ rw past past
    | inl in_ ↦
        let next : u32 (i + step) ≡ i + step = ground arith in
        rw (in_, next) (loop_ends fuel (i + step) (store value n step i c) (omega arith))
  ]

  -- A cell that holds its value keeps it.
  loop_keeps :
      (fuel i : ℕ) (c : ℕ → F) (j : ℕ)
      → c j ≡ value j
      → (triad_loop value n step fuel i c).0 j ≡ value j
  unfolding triad_loop
  loop_keeps zero i c j h = h
  loop_keeps (suc fuel) i c j h = elim (Bool-cases (ltb i n)) [
    | inr past ↦ rw past h
    | inl in_ ↦ rw in_ (loop_keeps fuel (u32 (i + step)) (store value n step i c) j (ground arith))
  ]

  -- A thread writes every cell that it comes to.
  loop_hits :
      (rounds fuel i : ℕ) (c : ℕ → F)
      → i + rounds * step < n
      → rounds < fuel
      → (triad_loop value n step fuel i c).0 (i + rounds * step) ≡ value (i + rounds * step)
  unfolding triad_loop
  loop_hits rounds zero i c h enough = absurd (omega arith)
  loop_hits zero (suc fuel) i c h enough =
      let here : ltb i n ≡ true = ground arith in
      rw here
        (loop_keeps fuel (u32 (i + step)) (store value n step i c) (i + 0 * step) (ground arith))
  loop_hits (suc rounds) (suc fuel) i c h enough =
      let before : i + step + rounds * step ≡ i + suc rounds * step = grind arith in
      let here : ltb i n ≡ true = ground arith in
      let next : u32 (i + step) ≡ i + step = ground arith in
      rw (here, next, ← before)
        (loop_hits rounds fuel (i + step) (store value n step i c) (omega arith) (omega arith))

  threads_write :
      (count : ℕ) (c : ℕ → F) (j : ℕ)
      → j < n
      → j % step < count
      → triad_threads value n step count c j ≡ value j
  unfolding triad_threads triad_thread
  threads_write zero c j h before = absurd (omega arith)
  threads_write (suc gid) c j h before = elim (Bool-cases (nat_beq (j % step) gid)) [
    | inr other ↦
        loop_keeps (suc n) gid (triad_threads value n step gid c) j
          (threads_write gid c j h (ground arith))
    | inl mine ↦
        let at : gid + j / step * step ≡ j = grind arith in
        let hit =
          loop_hits (j / step) (suc n) gid (triad_threads value n step gid c) (omega (arith, at))
            (grind arith) in
        subst
          (λ (k : ℕ).
            (triad_loop value n step (suc n) gid (triad_threads value n step gid c)).0 k ≡ value k)
          at hit
  ]

rest_lt : (i s : ℕ) → 0 < s → i % s < s
rest_lt i s h = grind arith

-- For buffers of 2 ^ 32 - 65535 · 256 elements at most, every thread of the dispatch leaves its
-- loop by the loop's test, and the dispatch leaves `a[i] + 2.0 * b[i]` in every element.
pub triad-writes :
    {F : Type 0} (plus times : F → F → F) (two : F) (a b : ℕ → F) (n gid i : ℕ) (c : ℕ → F)
    → n ≤ 4278190336
    → i < n
    → (ltb
          (triad_loop (triad_value plus times two a b) n (stride (triad_groups n)) (suc n) gid c).1
          n
        ≡ false)
      × (triad plus times two a b n c i ≡ plus (a i) (times two (b i)))
unfolding triad triad_groups
triad-writes plus times two a b n gid i c small h =
    let value = triad_value plus times two a b in
    let step = stride (triad_groups n) in
    let some_step : 0 < step = ground arith in
    let threads : triad_groups n * 256 ≡ step = ground arith in
    let no_wrap : n + step ≤ 4294967296 = ground arith in
    (
      loop_ends value n step some_step no_wrap (suc n) gid c (omega arith),
      threads_write value n step some_step no_wrap (triad_groups n * 256) c i h
          (let below = rest_lt i step some_step in omega (arith, below, threads)),
    )
