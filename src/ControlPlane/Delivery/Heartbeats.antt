-- ===== src/ControlPlane/Delivery/Heartbeats.antt =====
-- What a heartbeat answers, and what it leaves in the queues.
use computation_market_poc.Prelude.{
  ℕ, ◌≡◌, refl, true, false, List, [], ◌∷◌, map, ok, Option, String, arith,
}
use computation_market_poc.Prelude.Int.{ℤ}
use computation_market_poc.Prelude.Key.{◌==◌, nat_eq}
use computation_market_poc.Prelude.Table.{All, Distinct, All-select, select, update}
use computation_market_poc.Core.Api.{Command, HeartbeatRequest}
use computation_market_poc.ControlPlane.Db.{Db, CommandRow, MachineRow}
use computation_market_poc.ControlPlane.Codec.{CommandCodec}
use computation_market_poc.ControlPlane.Routes.Auth.{authenticate}
use computation_market_poc.ControlPlane.Routes.Agent.{
  heartbeat, heartbeat_tx, pending, decode_each, deliver_each, touch,
}
use computation_market_poc.ControlPlane.Delivery.{
  command_id_of, deliver_each_lem, among-select, drained, not_among_select, undisturbed,
}

other_queue :
    (machine other : ℕ)
    → (other == machine) ≡ false
    → (c : CommandRow) → pending other c ≡ true
    → pending machine c ≡ false
other_queue machine other differs c waits = ground arith

module _ (json : CommandCodec) where
  -- A payload that one of the handlers wrote.
  abbrev pub Written : CommandRow → Type 0
  Written c = (command : Command) × (c.payload ≡ json.to_string command)

  -- The rows of a queue carry these commands, in this order.
  abbrev pub Carries : List CommandRow → List Command → Type 0
  Carries rows commands = map json.to_string commands ≡ map (λ c. c.payload) rows

  decode_each-Written :
      (rows : List CommandRow)
      → All Written rows
      → (commands : List Command) × (decode_each json rows ≡ ok commands) × Carries rows commands
  unfolding decode_each
  decode_each-Written [] h = ([], refl, refl)
  decode_each-Written (row ∷ rows) h =
      let (command, written) = h.0 in
      let (commands, decoded, carried) = decode_each-Written rows h.1 in
      (
        command ∷ commands,
        rw (written, json.round_trip command, decoded) refl,
        rw (carried, written) refl,
      )

  -- The database after a heartbeat.
  abbrev pub delivered : HeartbeatRequest → ℤ → MachineRow → Db → Db
  delivered req now m db = record db {
    machines = update (λ n. n.id == m.id) (touch req now) db.machines;
    commands = deliver_each (select (pending m.id) db.commands) db.commands;
  }

  pub heartbeat-runs :
      (authorization : Option String) (req : HeartbeatRequest) (now : ℤ) (m : MachineRow) (db : Db)
      (commands : List Command)
      → authenticate authorization db ≡ ok m
      → decode_each json (select (pending m.id) db.commands) ≡ ok commands
      → heartbeat json authorization req now db
        ≡ (ok (record { commands = commands }), delivered req now m db)
  unfolding heartbeat heartbeat_tx
  heartbeat-runs authorization req now m db commands known decoded =
      rw (known, heartbeat, decoded) refl

  -- A heartbeat of an authenticated host is answered with the commands that wait for its machine, in
  -- the order in which they were queued, if the queue's payloads are ones that the control plane
  -- wrote and its rows have different numbers. Afterwards nothing waits for that machine, so a
  -- command is delivered once, and the queues of the other machines are as before.
  pub heartbeat-delivers :
      (authorization : Option String) (req : HeartbeatRequest) (now : ℤ) (m : MachineRow) (db : Db)
      → authenticate authorization db ≡ ok m
      → All Written db.commands
      → Distinct (map command_id_of db.commands)
      → ((commands : List Command) × ((heartbeat json authorization req now db).0
            ≡ ok (record { commands = commands }))
          × Carries (select (pending m.id) db.commands) commands)
        × (select (pending m.id) (heartbeat json authorization req now db).1.commands ≡ [])
        × ((other : ℕ)
            → (other == m.id) ≡ false
            → select (pending other) (heartbeat json authorization req now db).1.commands
              ≡ select (pending other) db.commands)
  heartbeat-delivers authorization req now m db known written distinct =
      let rows = select (pending m.id) db.commands in
      let (commands, decoded, carried) =
        decode_each-Written rows (All-select Written (pending m.id) db.commands written) in
      let runs = heartbeat-runs authorization req now m db commands known decoded in
      rw (runs, deliver_each_lem rows db.commands)
        (
          (commands, refl, carried),
          drained m.id rows db.commands (among-select (pending m.id) db.commands),
          λ other differs. undisturbed other rows db.commands (
              not_among_select (pending m.id) (pending other) db.commands distinct
                (other_queue m.id other differs)),
        )
