-- ===== src/HostAgent/Benchmark/Scores.antt =====
-- The bounds of the scores, in halves of a point.
use Prim.Native.Nat.{◌*◌, ◌^◌, ◌≤◌}
use computation_market_poc.Prelude.{
  ℕ, ◌≡◌, refl, String, Bool, true, List, [], ◌∷◌, ok, err, Result, ok_injective, arith, Bool-cases,
  inl, inr, ◌&&◌, leb,
}
use computation_market_poc.Prelude.Int.{◌≤ℤ◌}
use computation_market_poc.HostAgent.Benchmark.{
  GpuInfo, Inventory, length, table, apple_table, contains_text, first_match, apple_dlperf,
  lookup_dlperf, dlperf, probe, of_halves,
}

times_mono : (a b k : ℕ) → a ≤ b → a * k ≤ b * k
times_mono a b k h = grind arith

scaled : (a b : ℕ) → a ≤ b → of_halves a ≤ℤ of_halves b
scaled a b h = let more = times_mono a b (2 ^ 1073) h in omega arith

abbrev in_bounds : List (String × ℕ) → Bool
in_bounds [] = true
in_bounds ((needle, score) ∷ rows) = leb 4 score && leb score 640 && in_bounds rows

first_match_bounds :
    (lname : String) (rows : List (String × ℕ)) (fallback : ℕ)
    → in_bounds rows ≡ true
    → 4 ≤ fallback
    → fallback ≤ 640
    → (4 ≤ first_match lname rows fallback) × (first_match lname rows fallback ≤ 640)
unfolding first_match
first_match_bounds lname [] fallback h low high = (low, high)
first_match_bounds lname ((needle, score) ∷ rows) fallback h low high =
    elim (Bool-cases (contains_text lname needle)) [
      | inl hit ↦ rw hit (ground arith, ground arith)
      | inr miss ↦ rw miss (first_match_bounds lname rows fallback (ground arith) low high)
    ]

module _ (to_lowercase : String → String) where
  lookup_bounds :
      (name : String)
      → (4 ≤ lookup_dlperf to_lowercase name) × (lookup_dlperf to_lowercase name ≤ 640)
  unfolding lookup_dlperf apple_dlperf
  lookup_bounds name = elim (Bool-cases (contains_text (to_lowercase name) "apple")) [
    | inl apple ↦
        rw apple
          (first_match_bounds (to_lowercase name) apple_table 6 refl (omega arith) (omega arith))
    | inr other ↦
        rw other (first_match_bounds (to_lowercase name) table 36 refl (omega arith) (omega arith))
  ]

  dlperf_bounds :
      (gpus : List GpuInfo)
      → (4 * length gpus ≤ dlperf to_lowercase gpus)
        × (dlperf to_lowercase gpus ≤ 640 * length gpus)
  unfolding dlperf
  dlperf_bounds [] = (omega arith, omega arith)
  dlperf_bounds (g ∷ gpus) =
      let one = lookup_bounds g.name in
      let others = dlperf_bounds gpus in (omega arith, omega arith)

  -- A machine that is probed with success has a GPU, and its score lies between 2 and 320 points
  -- for each of its GPUs.
  pub probe_bounds :
      (digest : String → String) (inventory : Result String (List GpuInfo)) (i : Inventory)
      → probe to_lowercase digest inventory ≡ ok i
      → (1 ≤ length i.gpus)
        × (of_halves (4 * length i.gpus) ≤ℤ i.dlperf)
        × (i.dlperf ≤ℤ of_halves (640 * length i.gpus))
  unfolding probe
  probe_bounds digest (err e) i h = cc
  probe_bounds digest (ok []) i h = cc
  probe_bounds digest (ok (g ∷ gpus)) i h =
      let (low, high) = dlperf_bounds (g ∷ gpus) in
      rw (← (ok_injective h)) (
        omega arith,
        scaled (4 * length (g ∷ gpus)) (dlperf to_lowercase (g ∷ gpus)) low,
        scaled (dlperf to_lowercase (g ∷ gpus)) (640 * length (g ∷ gpus)) high,
      )
