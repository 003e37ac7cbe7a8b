-- ===== src/HostAgent/Lifecycle/Rows.antt =====
-- Lemmas on the tables that a rental passes through: queued commands in `heartbeat` of
-- routes/agent.rs, and rows in `get_rental` of routes/tenant.rs.
use Prim.Native.Nat.{◌≤◌}
use mathlib.Core.Option
use computation_market_poc.Prelude.{
  ℕ, suc, ◌≡◌, refl, true, Bool, List, [], ◌∷◌, ◌++◌, ok, Option, none, some, String, Option-cases,
  Bool-cases, inl, inr, arith, ok_or-eq_ok,
}
use computation_market_poc.Prelude.Int.{ℤ}
use computation_market_poc.Prelude.Word.{as_i32}
use computation_market_poc.Prelude.Key.{◌==◌, nat_eq, string_eq, ==_refl}
use computation_market_poc.Prelude.Table.{All, fetch, update, select, fetch-update}
use computation_market_poc.Core.Api.{Command, HeartbeatRequest, RentalResponse}
use computation_market_poc.ControlPlane.Db.{Db, MachineRow, RentalRow, CommandRow}
use computation_market_poc.ControlPlane.Codec.{CommandCodec}
use computation_market_poc.ControlPlane.Routes.Auth.{authenticate, bearer}
use computation_market_poc.ControlPlane.Routes.Agent.{decode_each, touch}
use computation_market_poc.ControlPlane.Routes.Tenant.{get_rental}
use computation_market_poc.ControlPlane.Delivery.Heartbeats.{Written, Carries}

pub select-append_hit :
    (p : CommandRow → Bool) (rows : List CommandRow) (c : CommandRow)
    → p c ≡ true
    → select p (rows ++ c ∷ []) ≡ select p rows ++ c ∷ []
unfolding select
select-append_hit p [] c h = rw h refl
select-append_hit p (row ∷ rows) c h = elim (Bool-cases (p row)) [
  | inl hit ↦ rw (hit, select-append_hit p rows c h) refl
  | inr miss ↦ rw (miss, select-append_hit p rows c h) refl
]

pub decode_each-append :
    (json : CommandCodec) (rows : List CommandRow) (c : CommandRow) (k : Command)
    → All (Written json) rows
    → c.payload ≡ json.to_string k
    → (waiting : List Command) × (decode_each json (rows ++ c ∷ []) ≡ ok (waiting ++ k ∷ []))
      × Carries json rows waiting
unfolding decode_each
decode_each-append json [] c k h last = ([], rw (last, json.round_trip k) refl, refl)
decode_each-append json (row ∷ rows) c k h last =
    let (command, written) = h.0 in
    let (waiting, decoded, carried) = decode_each-append json rows c k h.1 last in
    (
      command ∷ waiting,
      rw (written, json.round_trip command, decoded) refl,
      rw (carried, written) refl,
    )

-- A heartbeat does not change who is authenticated.
pub authenticate-touch :
    (authorization : Option String) (req : HeartbeatRequest) (now : ℤ) (m : MachineRow) (db : Db)
    → authenticate authorization db ≡ ok m
    → authenticate authorization
        (record db { machines = update (λ n. n.id == m.id) (touch req now) db.machines })
      ≡ ok (touch req now m)
unfolding authenticate
authenticate-touch authorization req now m db h = elim (Option-cases (bearer authorization)) [
  | inl missing ↦ let bad = rw missing at h in cc
  | inr (t, there) ↦
      let found = ok_or-eq_ok (fetch (λ n. n.agent_token == t) db.machines) _ m (rw there at h) in
      let kept =
        fetch-update (λ n. n.agent_token == t) (λ n. n.id == m.id) (touch req now) (λ _. refl)
          db.machines in
      rw (there, kept, found, ==_refl m.id) refl
]

-- No row has the number that comes next.
pub fetch-fresh :
    (p : RentalRow → Bool) (seq : ℕ) (rows : List RentalRow)
    → ((r : RentalRow) → p r ≡ true → (r.id == suc seq) ≡ true)
    → All (λ r. r.id ≤ seq) rows
    → fetch p rows ≡ none
unfolding fetch
fetch-fresh p seq [] named h = refl
fetch-fresh p seq (row ∷ rows) named h = elim (Bool-cases (p row)) [
  | inl hit ↦ let same = named row hit in let old = h.0 in ground arith
  | inr miss ↦ rw miss (fetch-fresh p seq rows named h.1)
]

-- What `get_rental` shows of the rows that it finds.
pub get_rental_lem :
    (id : ℕ) (r : RentalRow) (n : MachineRow) (db : Db)
    → fetch (λ s. s.id == id) db.rentals ≡ some r
    → fetch (λ k. k.id == r.machine_id) db.machines ≡ some n
    → (shown : RentalResponse) × (get_rental id db ≡ ok shown)
      × (shown.status ≡ r.status)
      × (shown.kind ≡ r.kind)
      × (shown.ssh_host ≡ r.ssh_host)
      × (shown.ssh_port ≡ Option.map as_i32 r.ssh_port)
unfolding get_rental
get_rental_lem id r n db found_r found_n = rw (found_r, found_n) (_, refl, refl, refl, refl, refl)
