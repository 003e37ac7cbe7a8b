-- ===== src/Vgpu/Commands.antt =====
-- The commands of crates/vgpu/src/main.rs. A command prints its lines and tables, or ends with an
-- error. Floating point and the JSON of each body are parameters, and so is reading a file.
use Prim.Native.Nat.{◌-◌}
use Prim.Native.String.{len}
use computation_market_poc.Prelude.{
  ℕ, zero, suc, String, List, [], ◌∷◌, ◌++◌, Option, none, some, Result, ok, err, ◌>>=◌, map_err,
  if◌then◌else◌,
}
use computation_market_poc.Prelude.Int.{ℤ}
use computation_market_poc.Prelude.Text.{decimal_ℤ, format, trim, Block, line}
use computation_market_poc.Core.Api.{
  F64, AccountResponse, CreateAccountResponse, CreateRentalRequest, CreateRentalResponse,
  DepositRequest, DepositResponse, HealthResponse, OffersResponse, RentalResponse,
}
use computation_market_poc.Core.Model.{RentalKind, is_http_status_image}

-- The numbers of the printing: `fmt d` is `{:.d}`, and `of_f64` takes an `f64` of the wire.
pub record Figures : Type 1 where
  pub Fl : Type 0
  pub of_i64 : ℤ → Fl
  pub of_f64 : F64 → Fl
  pub times : Fl → Fl → Fl
  pub over : Fl → Fl → Fl
  pub max : Fl → Fl → Fl
  pub fmt : ℕ → Fl → String

-- `serde_json` on each body. `status_of` is `resp["status"].as_str()` of a text that is JSON.
pub record Bodies : Type 0 where
  pub health : String → Result String HealthResponse
  pub offers : String → Result String OffersResponse
  pub account : String → Result String AccountResponse
  pub created_account : String → Result String CreateAccountResponse
  pub deposit_of : DepositRequest → String
  pub deposit : String → Result String DepositResponse
  pub rental_of : CreateRentalRequest → String
  pub created_rental : String → Result String CreateRentalResponse
  pub rental : String → Result String RentalResponse
  pub status_of : String → Result String (Option String)

pub record OffersArgs : Type 0 where
  pub gpu : Option String
  pub min_vram_mb : Option ℤ
  pub min_gpu_count : Option ℤ
  pub max_rate : Option ℤ
  pub sort : Option String
  pub limit : Option ℤ

pub record RentArgs : Type 0 where
  pub machine_id : ℕ
  pub account_id : String
  pub image : String
  pub ssh_key : Option String
  pub ssh_key_file : Option String

-- The connection hint, by kind: the label and the command, once the host and the port are known.
unfoldable pub endpoint_hint : RentalKind → Option String → Option ℤ → Option (String × String)
endpoint_hint kind none port = none
endpoint_hint kind (some host) none = none
endpoint_hint RentalKind.ssh (some host) (some port) =
    some ("SSH:", format ("ssh -p " ∷ decimal_ℤ port ∷ " root@" ∷ host ∷ []))
endpoint_hint RentalKind.http_status (some host) (some port) =
    some ("Status:", format ("curl http://" ∷ host ∷ ":" ∷ decimal_ℤ port ∷ "/" ∷ []))
endpoint_hint RentalKind.http_openai (some host) (some port) = some (
  "LLM API:",
  format (
      "curl http://"
      ∷ host
      ∷ ":"
      ∷ decimal_ℤ port
      ∷ "/v1/chat/completions -H content-type:application/json -d '{\"messages\":[{\"role\":\"user\",\"content\":\"hi\"}],\"max_tokens\":64}'"
      ∷ []),
)

abbrev pub param : String → Option String → List (String × String)
param name none = []
param name (some v) = (name, v) ∷ []

abbrev number : Option ℤ → Option String
number none = none
number (some v) = some (decimal_ℤ v)

-- The query of `offers`, in the order in which it is pushed.
unfoldable pub offer_params : OffersArgs → List (String × String)
offer_params args =
    param "gpu_name" args.gpu
    ++ (param "min_vram_mb" (number args.min_vram_mb)
        ++ (param "min_gpu_count" (number args.min_gpu_count)
            ++ (param "max_rate_sats_per_min" (number args.max_rate)
                ++ (param "sort" args.sort ++ param "limit" (number args.limit)))))

-- `{s:<w}`
abbrev spaces : ℕ → String
spaces zero = ""
spaces (suc n) = format (" " ∷ spaces n ∷ [])

unfoldable pub pad_right : ℕ → String → String
pad_right w s = format (s ∷ spaces (w - len s) ∷ [])

abbrev pub hint_line : Option (String × String) → Block
hint_line (some (label, hint)) = line (format ("  " ∷ pad_right 8 label ∷ " " ∷ hint ∷ []))
hint_line none =
    line (format ("  " ∷ pad_right 8 "Endpoint:" ∷ " (pending — not running yet)" ∷ []))

abbrev pub error_line : Option String → List Block
error_line none = []
error_line (some e) = line (format ("  Error:   " ∷ e ∷ [])) ∷ []

-- The key of `rent`: given, or read from a file, or none for a Metal job.
module _ (read_file : String → Result String String) where
  abbrev no_key : String → Result String (Option String)
  no_key image =
      if is_http_status_image image
      then ok none
      else err "provide --ssh-key or --ssh-key-file (only metal: images may omit it)"

  unfoldable pub rent_key : RentArgs → Result String (Option String)
  rent_key args = elim args.ssh_key [
    | some k ↦ ok (some k)
    | none ↦ elim args.ssh_key_file [
      | none ↦ no_key args.image
      | some path ↦
          map_err (λ e. format ("reading " ∷ path ∷ ": " ∷ e ∷ [])) (read_file path) >>= λ raw.
          ok (some (trim raw))
    ]
  ]
