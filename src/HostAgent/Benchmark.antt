-- ===== src/HostAgent/Benchmark.antt =====
-- crates/host-agent/src/benchmark.rs: the inventory of GPUs, their score and their fingerprint.
-- `digest` is SHA-256 in hexadecimal, `to_lowercase` the table of Unicode; the probing of the
-- devices is the parameter `inventory`.
pub mod Fingerprint
pub mod Scores
use Prim.Native.Nat.{◌+◌, ◌*◌, ◌^◌}
use Prim.Native.Char.{code}
use Prim.Native.String
use text.Mathlib.Text
use computation_market_poc.Prelude.{
  ℕ, suc, nat_beq, ltb, String, Bool, true, false, List, [], ◌∷◌, map, Option, none, some, is_some,
  get_or, Result, ok, err, ◌>>=◌, if◌then◌else◌,
}
use mathlib.Core.List.{foldr}
use mathlib.Core.Option
use computation_market_poc.Prelude.Int.{ℤ, pos, ◌+ℤ◌}
use computation_market_poc.Prelude.Word.{as_i32}
use computation_market_poc.Prelude.Text.{format}
use computation_market_poc.Core.Api.{F64}

pub record GpuInfo : Type 0 where
  pub name : String
  pub uuid : String
  pub pci_bus_id : String
  pub vram_mb : ℤ

pub record Inventory : Type 0 where
  pub gpus : List GpuInfo
  pub dlperf : F64
  pub hw_fingerprint : String

abbrev pub length {ℓ} : {A : Type ℓ} → List A → ℕ
length [] = 0
length (x ∷ xs) = suc (length xs)

abbrev pub first {ℓ} : {A : Type ℓ} → List A → Option A
first [] = none
first (x ∷ xs) = some x

unfoldable pub gpu_count : Inventory → ℤ
gpu_count i = as_i32 (pos (length i.gpus))

unfoldable pub gpu_name : Inventory → String
gpu_name i = get_or (Option.map (λ g. g.name) (first i.gpus)) "unknown"

unfoldable pub vram_mb : Inventory → ℤ
vram_mb i = get_or (Option.map (λ g. g.vram_mb) (first i.gpus)) (pos 0)

-- The order of texts: by code points, which is that of the bytes of UTF-8.
unfoldable pub at_most : String → String → Bool
at_most String.[] t = true
at_most (String.◌∷◌ c s) String.[] = false
at_most (String.◌∷◌ c s) (String.◌∷◌ d t) =
    let rest = at_most s t in
    if ltb (code c) (code d) then true else if nat_beq (code c) (code d) then rest else false

unfoldable pub insert : String → List String → List String
insert a [] = a ∷ []
insert a (b ∷ bs) = let rest = insert a bs in if at_most a b then a ∷ b ∷ bs else b ∷ rest

-- `Vec::sort`, which equal texts do not tell from another sort.
unfoldable pub sort : List String → List String
sort = foldr insert []

abbrev pub tuple_of : GpuInfo → String
tuple_of g = format (g.name ∷ "|" ∷ g.uuid ∷ "|" ∷ g.pci_bus_id ∷ [])

-- What the hasher is fed: every record with a zero byte after it.
unfoldable pub fed : List String → String
fed [] = ""
fed (t ∷ ts) = format (t ∷ "\0" ∷ fed ts ∷ [])

unfoldable pub fingerprint : (String → String) → List GpuInfo → String
fingerprint digest gpus = digest (fed (sort (map tuple_of gpus)))

-- A row of a table: the text to look for, and the score in halves, which are exact.
abbrev Row : Type 0
Row = String × ℕ

abbrev pub table : List Row
table =
    ("h200", 640)
    ∷ ("h100", 600)
    ∷ ("a100", 320)
    ∷ ("l40s", 190)
    ∷ ("l40", 180)
    ∷ ("a40", 148)
    ∷ ("a30", 110)
    ∷ ("a10g", 64)
    ∷ ("a10", 60)
    ∷ ("l4", 48)
    ∷ ("v100", 56)
    ∷ ("t4", 32)
    ∷ ("rtx 6000 ada", 180)
    ∷ ("rtx a6000", 156)
    ∷ ("rtx a5000", 110)
    ∷ ("rtx a4000", 80)
    ∷ ("4090", 84)
    ∷ ("4080", 60)
    ∷ ("4070 ti", 52)
    ∷ ("4070", 40)
    ∷ ("3090 ti", 62)
    ∷ ("3090", 54)
    ∷ ("3080", 48)
    ∷ ("3070", 34)
    ∷ ("2080 ti", 32)
    ∷ []

abbrev pub apple_table : List Row
apple_table =
    ("m3 ultra", 26)
    ∷ ("m2 ultra", 22)
    ∷ ("m1 ultra", 20)
    ∷ ("m4 max", 18)
    ∷ ("m3 max", 16)
    ∷ ("m2 max", 14)
    ∷ ("m1 max", 12)
    ∷ ("m4 pro", 12)
    ∷ ("m3 pro", 10)
    ∷ ("m2 pro", 9)
    ∷ ("m1 pro", 8)
    ∷ ("m4", 8)
    ∷ ("m3", 6)
    ∷ ("m2", 5)
    ∷ ("m1", 4)
    ∷ []

-- `str::contains`
abbrev pub contains_text : String → String → Bool
contains_text s t = is_some (Text.find? s t)

-- The loop over a table: the first row whose text occurs.
unfoldable pub first_match : String → List Row → ℕ → ℕ
first_match lname [] fallback = fallback
first_match lname ((needle, score) ∷ rows) fallback =
    let later = first_match lname rows fallback in
    if contains_text lname needle then score else later

unfoldable pub apple_dlperf : String → ℕ
apple_dlperf lname = first_match lname apple_table 6

-- Halves of a point as an `f64`: half a point is 2 ^ 1073 of its units.
abbrev pub of_halves : ℕ → F64
of_halves h = pos (h * 2 ^ 1073)

module _ (to_lowercase : String → String) where
  unfoldable pub lookup_dlperf : String → ℕ
  lookup_dlperf name =
      let lname = to_lowercase name in
      if contains_text lname "apple" then apple_dlperf lname else first_match lname table 36

  -- The sum over the GPUs. No measurement is made: `gemm_score` is `None`.
  unfoldable pub dlperf : List GpuInfo → ℕ
  dlperf [] = 0
  dlperf (g ∷ gpus) = lookup_dlperf g.name + dlperf gpus

  abbrev pub probed : (String → String) → List GpuInfo → Result String Inventory
  probed digest [] = err "no NVIDIA GPU detected — nothing to offer"
  probed digest (g ∷ gpus) = ok (record {
    gpus = g ∷ gpus;
    dlperf = of_halves (dlperf (g ∷ gpus));
    hw_fingerprint = fingerprint digest (g ∷ gpus);
  })

  unfoldable pub probe : (String → String) → Result String (List GpuInfo) → Result String Inventory
  probe digest inventory = inventory >>= λ gpus. probed digest gpus
