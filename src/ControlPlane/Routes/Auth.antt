-- ===== src/ControlPlane/Routes/Auth.antt =====
-- routes/mod.rs: authentication, and the source of tokens and account ids. Here stands also the
-- COMMIT or ROLLBACK with which every transaction of a handler ends.
use Prim.Native.Nat.{bit_xor, bit_or}
use Prim.Native.String
use computation_market_poc.Prelude.{
  ℕ, ◌*◌, ◌/◌, ◌%◌, ◌^◌, String, Option, none, some, Result, ok, err, ◌>>=◌, ok_or,
}
use computation_market_poc.Prelude.Key.{◌==◌, string_eq}
use computation_market_poc.Prelude.Table.{fetch}
use computation_market_poc.Prelude.Text.{pad_hex, strip_prefix}
use computation_market_poc.ControlPlane.Error.{ApiError, unauthorized_error}
use computation_market_poc.ControlPlane.Db.{Db, MachineRow}

-- A handler's answer, and the database that it leaves.
abbrev pub Reply {ℓ} : Type ℓ → Type ℓ
Reply A = Result ApiError A × Db

-- `match outcome { Ok => COMMIT, Err => ROLLBACK }`: `db` is the database at BEGIN IMMEDIATE.
abbrev pub commit {ℓ} : {A : Type ℓ} → Db → Result ApiError (A × Db) → Reply A
commit db (ok (a, db')) = (ok a, db')
commit db (err e) = (err e, db)

abbrev pub bearer : Option String → Option String
bearer none = none
bearer (some s) = strip_prefix "Bearer " s

-- `authorization` is the header's value, if it is there and is text.
unfoldable pub authenticate : Option String → Db → Result ApiError MachineRow
authenticate authorization db = do
  token ← ok_or (bearer authorization) (unauthorized_error "missing or malformed bearer token")
  ok_or (fetch (λ m. m.agent_token == token) db.machines) (unauthorized_error "invalid agent token")

abbrev rotate_left_17 : ℕ → ℕ
rotate_left_17 w = bit_or (w * 2 ^ 17 % 2 ^ 64) (w / 2 ^ 47)

-- `mix`, at the clock's nanoseconds and the counter's value, both 64-bit words.
unfoldable pub mix : ℕ → ℕ → ℕ
mix nanos n = bit_xor nanos (rotate_left_17 (n * 0x9E3779B97F4A7C15 % 2 ^ 64))

unfoldable pub new_agent_token : ℕ → ℕ → String
unfolding mix
new_agent_token nanos n = String.◌++◌ "agt_" (pad_hex 16 (mix nanos n))

unfoldable pub new_account_id : ℕ → ℕ → String
unfolding mix
new_account_id nanos n = String.◌++◌ "acct_" (pad_hex 16 (mix nanos n))
