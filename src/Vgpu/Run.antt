-- ===== src/Vgpu/Run.antt =====
-- The handlers of crates/vgpu/src/main.rs, and `main`, which picks one.
use computation_market_poc.Prelude.{
  ℕ, String, List, [], ◌∷◌, map, Option, none, some, Result, ok, ◌>>=◌, get_or, if◌then◌else◌,
}
use computation_market_poc.Prelude.Int.{ℤ, pos, div}
use computation_market_poc.Prelude.Text.{decimal, decimal_ℤ, format, Block, line, table}
use computation_market_poc.Core.Api.{
  F64, AccountResponse, CreateAccountResponse, CreateRentalRequest, CreateRentalResponse,
  DepositResponse, HealthResponse, Offer, RentalResponse,
}
use computation_market_poc.Core.Model.{as_str}
use computation_market_poc.Vgpu.Client.{Http, Client, new, get, post, delete}
use computation_market_poc.Vgpu.Commands.{
  Figures, Bodies, OffersArgs, RentArgs, endpoint_hint, offer_params, hint_line, error_line,
  rent_key,
}

pub data Cmd : Type 0 where
  health_cmd : Cmd
  offers_cmd : OffersArgs → Cmd
  create_account_cmd : Cmd
  account_cmd : String → Cmd
  deposit_cmd : String → ℤ → Cmd
  rent_cmd : RentArgs → Cmd
  rental_cmd : ℕ → Cmd
  stop_cmd : ℕ → Cmd

module _ (fig : Figures) where
  -- Satoshis, with what they are in BTC and, at 100,000 USD a BTC, in USD.
  unfoldable pub fmt_sats : ℤ → String
  fmt_sats sats =
      let btc = fig.over (fig.of_i64 sats) (fig.of_i64 (pos 100000000)) in
      let usd = fig.times btc (fig.of_i64 (pos 100000)) in
      format (decimal_ℤ sats ∷ " sats  (≈ " ∷ fig.fmt 8 btc ∷ " BTC ≈ $" ∷ fig.fmt 2 usd ∷ ")" ∷ [])

  -- Sats per unit of dlperf, of at least 0.01: the double of that name is the quotient of 1 and 100.
  unfoldable pub value : ℤ → F64 → fig.Fl
  value rate_sats_per_min dlperf =
      let hundredth = fig.over (fig.of_i64 (pos 1)) (fig.of_i64 (pos 100)) in
      fig.over (fig.of_i64 rate_sats_per_min) (fig.max (fig.of_f64 dlperf) hundredth)

  abbrev health_lines : HealthResponse → List Block
  health_lines h =
      let state = if h.ok then "OK" else "DEGRADED" in
      line (format ("Control plane " ∷ state ∷ "  (lightning backend: " ∷ h.ln_backend ∷ ")" ∷ []))
      ∷ []

  abbrev offer_row : Offer → List String
  offer_row o =
      decimal o.machine_id
      ∷ o.gpu_name
      ∷ decimal_ℤ o.gpu_count
      ∷ format (decimal_ℤ (div o.vram_mb 1024) ∷ " GB" ∷ [])
      ∷ fig.fmt 0 (fig.of_f64 o.dlperf)
      ∷ decimal_ℤ o.rate_sats_per_min
      ∷ decimal_ℤ o.rate_sats_per_hour
      ∷ fig.fmt 2 (value o.rate_sats_per_min o.dlperf)
      ∷ get_or o.country "-"
      ∷ []

  unfoldable pub offers_lines : List Offer → List Block
  offers_lines [] = line "No machines available." ∷ []
  offers_lines (o ∷ os) =
      table ("ID" ∷ "GPU" ∷ "#" ∷ "VRAM" ∷ "dlperf" ∷ "sats/min" ∷ "sats/hr" ∷ "value" ∷ "loc" ∷ [])
        (map offer_row (o ∷ os))
      ∷ line "\nvalue = sats/min per unit of dlperf (lower is better). ~$100k/BTC."
      ∷ []

  abbrev created_account_lines : CreateAccountResponse → List Block
  created_account_lines r =
      line (format ("Created account: " ∷ r.account_id ∷ []))
      ∷ line (format ("Fund it with:  vgpu deposit " ∷ r.account_id ∷ " <sats>" ∷ []))
      ∷ []

  abbrev runway_line : Option ℤ → String
  runway_line none = "  Runway:  — (no running rentals)"
  runway_line (some m) = format ("  Runway:  " ∷ decimal_ℤ m ∷ " minutes" ∷ [])

  abbrev account_lines : AccountResponse → List Block
  account_lines a =
      line (format ("Account " ∷ a.account_id ∷ []))
      ∷ line (format ("  Balance: " ∷ fmt_sats a.balance_sats ∷ []))
      ∷ line (format ("  Burn:    " ∷ decimal_ℤ a.burn_sats_per_min ∷ " sats/min" ∷ []))
      ∷ line (runway_line a.runway_minutes)
      ∷ []

  abbrev deposit_lines : DepositResponse → List Block
  deposit_lines r =
      line (format ("Deposit invoice for " ∷ fmt_sats r.sats ∷ []))
      ∷ line (format ("  BOLT11:       " ∷ r.bolt11 ∷ []))
      ∷ line (format ("  Payment hash: " ∷ r.payment_hash ∷ []))
      ∷ line "\nPay the invoice to credit your balance (the mock backend settles automatically)."
      ∷ []

  abbrev rent_lines : CreateRentalResponse → List Block
  rent_lines r =
      line (
        format (
          "Rental "
          ∷ decimal r.rental_id
          ∷ " created  ["
          ∷ as_str r.status
          ∷ "]  at "
          ∷ decimal_ℤ r.rate_sats_per_min
          ∷ " sats/min"
          ∷ []))
      ∷ line (format ("Track it with:  vgpu rental " ∷ decimal r.rental_id ∷ []))
      ∷ []

  unfoldable pub rental_lines : RentalResponse → List Block
  rental_lines r =
      line (format ("Rental " ∷ decimal r.id ∷ "  [" ∷ as_str r.status ∷ "]" ∷ []))
      ∷ line (format ("  GPU:     " ∷ r.gpu_name ∷ " x" ∷ decimal_ℤ r.gpu_count ∷ []))
      ∷ line (format ("  Image:   " ∷ r.image ∷ []))
      ∷ hint_line (endpoint_hint r.kind r.ssh_host r.ssh_port)
      ∷ line (
          format (
            "  Billed:  "
            ∷ decimal_ℤ r.sats_charged
            ∷ " sats over "
            ∷ decimal_ℤ r.minutes_billed
            ∷ " min"
            ∷ []))
      ∷ error_line r.error

  abbrev stop_lines : ℕ → Option String → List Block
  stop_lines id status =
      line (
        format ("Rental " ∷ decimal id ∷ " -> " ∷ get_or status "evicting" ∷ " (stop queued)" ∷ []))
      ∷ []

  module _ (http : Http) (json : Bodies) (read_file : String → Result String String)
      (client : Client) where
    unfoldable pub health : Result String (List Block)
    health = do h ← get http client json.health "/health" []; ok (health_lines h)

    unfoldable pub offers : OffersArgs → Result String (List Block)
    offers args = do
      r ← get http client json.offers "/offers" (offer_params args)
      ok (offers_lines r.offers)

    unfoldable pub create_account : Result String (List Block)
    create_account = do
      r ← post http client json.created_account "/accounts" none
      ok (created_account_lines r)

    unfoldable pub account : String → Result String (List Block)
    account id = do
      a ← get http client json.account (format ("/accounts/" ∷ id ∷ [])) []
      ok (account_lines a)

    unfoldable pub deposit : String → ℤ → Result String (List Block)
    deposit account_id sats = do
      r ←
          post http client json.deposit (format ("/accounts/" ∷ account_id ∷ "/deposit" ∷ []))
            (some (json.deposit_of (record { sats = sats })))
      ok (deposit_lines r)

    abbrev pub rental_request : RentArgs → Option String → CreateRentalRequest
    rental_request args key = record {
      machine_id = args.machine_id;
      account_id = args.account_id;
      image = args.image;
      ssh_pubkey = key;
    }

    unfoldable pub rent : RentArgs → Result String (List Block)
    rent args = do
      key ← rent_key read_file args
      r ←
          post http client json.created_rental "/rentals"
            (some (json.rental_of (rental_request args key)))
      ok (rent_lines r)

    unfoldable pub rental : ℕ → Result String (List Block)
    rental id = do
      r ← get http client json.rental (format ("/rentals/" ∷ decimal id ∷ [])) []
      ok (rental_lines r)

    unfoldable pub stop : ℕ → Result String (List Block)
    stop id = do
      status ← delete http client json.status_of (format ("/rentals/" ∷ decimal id ∷ []))
      ok (stop_lines id status)

    unfoldable pub run_command : Cmd → Result String (List Block)
    run_command Cmd.health_cmd = health
    run_command (Cmd.offers_cmd args) = offers args
    run_command Cmd.create_account_cmd = create_account
    run_command (Cmd.account_cmd account_id) = account account_id
    run_command (Cmd.deposit_cmd account_id sats) = deposit account_id sats
    run_command (Cmd.rent_cmd args) = rent args
    run_command (Cmd.rental_cmd rental_id) = rental rental_id
    run_command (Cmd.stop_cmd rental_id) = stop rental_id

  -- `main`, for a base address.
  unfoldable pub main :
      Http → Bodies → (String → Result String String) → String → Cmd → Result String (List Block)
  main http json read_file control_plane cmd =
      run_command http json read_file (new control_plane) cmd
