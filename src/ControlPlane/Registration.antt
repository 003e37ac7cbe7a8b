-- ===== src/ControlPlane/Registration.antt =====
-- A host that registers again: `register` of routes/agent.rs, applied twice.
use computation_market_poc.Prelude.{
  ◌≡◌, ℕ, map, refl, String, Bool, none, some, ok, map_err, Option-cases, Bool-cases, inl, inr,
  ◌||◌,
}
use computation_market_poc.Prelude.Int.{ℤ}
use computation_market_poc.Prelude.Key.{◌==◌, string_eq, nat_eq, ==_refl}
use computation_market_poc.Prelude.Table.{
  fetch, fetch-update, fetch-append_none, contains, map-update,
}
use computation_market_poc.Core.Api.{RegisterRequest, RegisterResponse}
use computation_market_poc.ControlPlane.Error.{from_sqlx}
use computation_market_poc.ControlPlane.Db.{Db, MachineRow, insert_machine}
use computation_market_poc.ControlPlane.Routes.Auth.{Reply}
use computation_market_poc.ControlPlane.Routes.Agent.{
  register, registered, refresh_machine, new_machine,
}

-- What an agent is told of its machine.
abbrev pub credentials : MachineRow → RegisterResponse
credentials m = record { machine_id = m.id; agent_token = m.agent_token }

-- What a registration never rewrites.
abbrev pub standing : MachineRow → ℕ × String × ℤ
standing m = (m.id, m.agent_token, m.payout_balance)

module _ (token : String) (req : RegisterRequest) (now : ℤ) (db : Db) where
  -- The answer names a machine that the host has from then on.
  abbrev Answered : Reply RegisterResponse → Type 0
  Answered reply =
      (r : RegisterResponse)
      → reply.0 ≡ ok r
      → (m : MachineRow) × (fetch (λ n. n.host_id == req.host_id) reply.1.machines ≡ some m)
        × (credentials m ≡ r)

  -- A host that has a machine is told that machine's number and token.
  known_host :
      (m : MachineRow)
      → fetch (λ n. n.host_id == req.host_id) db.machines ≡ some m
      → (register token req now db).0 ≡ ok (credentials m)
  unfolding register
  known_host m known = rw (known, register) refl

  -- A registration of a known host leaves each row's number, token and payout balance, and adds no
  -- row.
  known_host_rows :
      (m : MachineRow)
      → fetch (λ n. n.host_id == req.host_id) db.machines ≡ some m
      → map standing (register token req now db).1.machines ≡ map standing db.machines
  unfolding register refresh_machine
  known_host_rows m known =
      rw (known, register)
        (map-update standing (λ n. n.id == m.id) (refresh_machine req now) (λ _. refl) db.machines)

  abbrev host : MachineRow → Bool
  host n = n.host_id == req.host_id

  inserted :
      (m : MachineRow)
      → fetch (λ n. n.host_id == req.host_id) db.machines ≡ none
      → m.host_id ≡ req.host_id
      → m.agent_token ≡ token
      → Answered (registered token m db (map_err from_sqlx (insert_machine m db)))
  unfolding insert_machine
  inserted m unknown same its =
      let taken =
        contains m.agent_token (map (λ n. n.agent_token) db.machines)
        || contains m.host_id (map (λ n. n.host_id) db.machines) in
      elim (Bool-cases taken) [
        | inl refused ↦ rw refused (λ r h. cc)
        | inr free ↦ rw free (λ r h. (
          m,
          rw (fetch-append_none host db.machines m unknown, same, ==_refl req.host_id) refl,
          cc,
        ))
      ]

  added :
      fetch (λ n. n.host_id == req.host_id) db.machines ≡ none
      → Answered (register token req now db)
  unfolding register new_machine
  added unknown = rw (unknown, register) (inserted (new_machine token req now db) unknown refl refl)

  refreshed :
      (m : MachineRow)
      → fetch (λ n. n.host_id == req.host_id) db.machines ≡ some m
      → Answered (register token req now db)
  unfolding register refresh_machine
  refreshed m known r h =
      rw (known, register)
        (
          refresh_machine req now m,
          rw
              (fetch-update host (λ n. n.id == m.id) (refresh_machine req now) (λ _. refl)
                db.machines)
              (rw (known, ==_refl m.id) refl),
          let named = known_host m known in cc,
        )

  -- After a registration the host has a machine, and the answer names it.
  has_machine : Answered (register token req now db)
  unfolding register insert_machine new_machine
  has_machine r h = elim (Option-cases (fetch (λ m. m.host_id == req.host_id) db.machines)) [
    | inr (m, known) ↦ refreshed m known r h
    | inl unknown ↦ added unknown r h
  ]

-- Once a host is registered, a registration with the same host id, whatever else it says and
-- whatever token was drawn for it, is answered with the same machine number and token. It adds no
-- row, and every machine keeps its number, its token and what its host is owed.
pub register-again :
    (token token' : String) (req req' : RegisterRequest) (now now' : ℤ) (db : Db)
    (r : RegisterResponse)
    → (register token req now db).0 ≡ ok r
    → req'.host_id ≡ req.host_id
    → ((register token' req' now' (register token req now db).1).0 ≡ ok r)
      × (map standing (register token' req' now' (register token req now db).1).1.machines
          ≡ map standing (register token req now db).1.machines)
register-again token token' req req' now now' db r first same =
    let after = (register token req now db).1 in
    let (m, found, named) = has_machine token req now db r first in
    let known : fetch (λ n. n.host_id == req'.host_id) after.machines ≡ some m = rw same found in
    let told = known_host token' req' now' after m known in
    (cc, known_host_rows token' req' now' after m known)
