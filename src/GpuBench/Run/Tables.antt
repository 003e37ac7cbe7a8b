-- ===== src/GpuBench/Run/Tables.antt =====
-- What `run` of crates/gpu-bench/src/main.rs prints as tables, from a report. The layout of a table
-- is the library's; `net` and `list` print in the same way.
use Prim.Native.Nat.{◌*◌, ◌%◌, ◌^◌}
use computation_market_poc.Prelude.{
  ℕ, String, not, ◌&&◌, List, [], ◌∷◌, ◌++◌, map, Option, none, some, is_some, if◌then◌else◌,
}
use computation_market_poc.Prelude.Text.{decimal, format, Block, line, table}
use computation_market_poc.GpuBench.Backend.{
  Floats, DeviceInfo, GemmResult, BandwidthResult, NetworkResult, as_str,
}
use computation_market_poc.GpuBench.Network.{NetConfig}
use computation_market_poc.GpuBench.Suite.{Report}
use computation_market_poc.GpuBench.Run.{
  BackendChoice, RunArgs, backend_label, native_peak_desc, backend_note,
}

abbrev device_line : DeviceInfo → Block
device_line d =
    line (format ("Device:  " ∷ d.name ∷ " (" ∷ d.backend ∷ ", " ∷ d.device_type ∷ ")" ∷ []))

-- The rows of a measurement that may be missing.
abbrev rows_of {ℓ} : {A : Type ℓ} → (A → List String) → Option A → List (List String)
rows_of row none = []
rows_of row (some a) = row a ∷ []

module _ (fl : Floats) where
  abbrev pub gemm_row : GemmResult fl.F64 → List String
  gemm_row g =
      let checked = if g.verified then ", verified" else " — UNVERIFIED" in
      format ("GEMM " ∷ as_str g.precision ∷ [])
      ∷ format (fl.fmt 2 g.tflops ∷ " TFLOP/s" ∷ [])
      ∷ format (
          "n="
          ∷ decimal g.n
          ∷ ", "
          ∷ decimal g.iterations
          ∷ " iters, "
          ∷ fl.fmt 3 g.seconds
          ∷ "s"
          ∷ checked
          ∷ [])
      ∷ []

  abbrev pub bandwidth_row : BandwidthResult fl.F64 → List String
  bandwidth_row bw =
      "Memory bandwidth"
      ∷ format (fl.fmt 1 bw.gb_per_s ∷ " GB/s" ∷ [])
      ∷ format (
          fl.fmt 0 (fl.over (fl.of_u64 bw.bytes_per_iter) (fl.of_u64 1000000))
          ∷ " MB/iter, "
          ∷ decimal bw.iterations
          ∷ " iters, "
          ∷ fl.fmt 3 bw.seconds
          ∷ "s"
          ∷ [])
      ∷ []

  abbrev pub network_row : Option (NetworkResult fl.F64) → List String
  network_row (some nw) =
      "Network"
      ∷ format (fl.fmt 0 nw.down_mbps ∷ "↓ / " ∷ fl.fmt 0 nw.up_mbps ∷ "↑ Mbps" ∷ [])
      ∷ format ("latency " ∷ fl.fmt 1 nw.latency_ms ∷ " ms (speed.cloudflare.com)" ∷ [])
      ∷ []
  network_row none = "Network" ∷ ("n/a" ∷ ("probe failed (offline?)" ∷ []))

  -- The row for an fp16 measurement that was asked for and is missing.
  abbrev pub missing_fp16 : Report fl.F64 → RunArgs → List (List String)
  missing_fp16 report args =
      if not (is_some report.gemm_fp16) && not args.skip_fp16
      then ("GEMM fp16" ∷ ("n/a" ∷ ("not supported on this device" ∷ []))) ∷ []
      else []

  -- The note may be the arm that panics.
  unfoldable pub print_single : Report fl.F64 → BackendChoice → RunArgs → Option (List Block)
  print_single report resolved args = elim (backend_note resolved) [
    | none ↦ none
    | some note ↦ some (
        device_line report.device
        ∷ (table ("Measurement" ∷ ("Value" ∷ ("Detail" ∷ []))) (
              rows_of gemm_row report.gemm_fp32
              ++ (rows_of gemm_row report.gemm_fp16
                  ++ (missing_fp16 report args
                      ++ (rows_of bandwidth_row report.bandwidth
                          ++ (network_row report.network ∷ [])))))
            ∷ (line (format ("\nNote: " ∷ note ∷ [])) ∷ [])))
  ]

  unfoldable pub tflops_cell : Option (GemmResult fl.F64) → String
  tflops_cell none = "n/a"
  tflops_cell (some g) =
      if g.verified
      then format (fl.fmt 2 g.tflops ∷ " TFLOP/s" ∷ [])
      else format (fl.fmt 2 g.tflops ∷ " TFLOP/s (unverified)" ∷ [])

  unfoldable pub bandwidth_cell : Option (BandwidthResult fl.F64) → String
  bandwidth_cell none = "n/a"
  bandwidth_cell (some b) = format (fl.fmt 1 b.gb_per_s ∷ " GB/s" ∷ [])

  unfoldable pub network_summary : Option (NetworkResult fl.F64) → String
  network_summary none = "Network: probe failed (offline?)"
  network_summary (some nw) = format (
      "Network: "
      ∷ fl.fmt 0 nw.down_mbps
      ∷ "↓ / "
      ∷ fl.fmt 0 nw.up_mbps
      ∷ "↑ Mbps, latency "
      ∷ fl.fmt 1 nw.latency_ms
      ∷ " ms"
      ∷ [])

  abbrev comparison_note : RunArgs → BackendChoice → String
  comparison_note args resolved = format (
      "\nNote: "
      ∷ backend_label BackendChoice.wgpu
      ∷ " = cross-vendor ALU ranking; "
      ∷ backend_label resolved
      ∷ " = "
      ∷ native_peak_desc resolved
      ∷ ". n="
      ∷ decimal args.n
      ∷ ", "
      ∷ decimal args.iters
      ∷ " iters."
      ∷ [])

  unfoldable pub print_comparison :
      Report fl.F64 → BackendChoice → Report fl.F64 → RunArgs → List Block
  print_comparison native resolved portable args =
      let fp16 : List (List String) =
        if args.skip_fp16
        then []
        else ("GEMM fp16" ∷ (tflops_cell portable.gemm_fp16 ∷ (tflops_cell native.gemm_fp16 ∷ [])))
          ∷ [] in
      let fp32 =
        "GEMM fp32" ∷ (tflops_cell portable.gemm_fp32 ∷ (tflops_cell native.gemm_fp32 ∷ [])) in
      let bandwidth =
        "Memory bandwidth"
        ∷ (bandwidth_cell portable.bandwidth ∷ (bandwidth_cell native.bandwidth ∷ [])) in
      let note : List Block =
        if args.verbose then line (comparison_note args resolved) ∷ [] else [] in
      device_line native.device
      ∷ (table ("Measurement" ∷ (backend_label BackendChoice.wgpu ∷ (backend_label resolved ∷ [])))
            (fp32 ∷ (fp16 ++ (bandwidth ∷ [])))
          ∷ (table [] ((network_summary native.network ∷ []) ∷ []) ∷ note))

pub record NetArgs : Type 0 where
  pub down_mb : ℕ
  pub up_mb : ℕ
  pub latency_samples : ℕ

-- The products of `u64` wrap.
unfoldable pub net_config : NetArgs → NetConfig
net_config args = record {
  down_bytes = args.down_mb * 1000000 % 2 ^ 64;
  up_bytes = args.up_mb * 1000000 % 2 ^ 64;
  latency_samples = args.latency_samples;
}

unfoldable pub print_net : (fl : Floats) → NetworkResult fl.F64 → List Block
print_net fl r =
    table ("Metric" ∷ "Value" ∷ []) (
      ("Download" ∷ format (fl.fmt 1 r.down_mbps ∷ " Mbps" ∷ []) ∷ [])
      ∷ ("Upload" ∷ format (fl.fmt 1 r.up_mbps ∷ " Mbps" ∷ []) ∷ [])
      ∷ ("Latency" ∷ format (fl.fmt 1 r.latency_ms ∷ " ms" ∷ []) ∷ [])
      ∷ [])
    ∷ line "\nPeer: speed.cloudflare.com"
    ∷ []

abbrev device_row : DeviceInfo → List String
device_row d = d.name ∷ d.backend ∷ d.device_type ∷ []

unfoldable pub print_list : List DeviceInfo → List Block
print_list [] = line "No GPU adapters found." ∷ []
print_list (d ∷ devices) =
    table ("Device" ∷ "Backend" ∷ "Type" ∷ []) (map device_row (d ∷ devices)) ∷ []
