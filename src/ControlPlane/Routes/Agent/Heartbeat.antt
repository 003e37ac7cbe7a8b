-- ===== src/ControlPlane/Routes/Agent/Heartbeat.antt =====
-- `heartbeat` of routes/agent.rs: refresh the host's liveness and drain its queue of commands.
use computation_market_poc.Prelude.{
  ℕ, String, Bool, true, List, [], ◌∷◌, Option, Result, ok, err, ◌>>=◌, ok_or, ◌&&◌, not,
}
use computation_market_poc.Prelude.Int.{ℤ}
use computation_market_poc.Prelude.Key.{◌==◌, nat_eq}
use computation_market_poc.Prelude.Table.{select, update}
use computation_market_poc.Core.Api.{HeartbeatRequest, HeartbeatResponse, Command}
use computation_market_poc.ControlPlane.Error.{ApiError, from_serde}
use computation_market_poc.ControlPlane.Db.{Db, MachineRow, CommandRow}
use computation_market_poc.ControlPlane.Codec.{CommandCodec}
use computation_market_poc.ControlPlane.Routes.Auth.{Reply, commit, authenticate}

abbrev pub touch : HeartbeatRequest → ℤ → MachineRow → MachineRow
touch req now m = record m { last_heartbeat = now; online = req.online }

abbrev pub mark_delivered : CommandRow → CommandRow
mark_delivered c = record c { delivered = true }

-- The commands that wait for a machine. Rows stand in the order of their numbers.
abbrev pub pending : ℕ → CommandRow → Bool
pending machine c = c.machine_id == machine && not c.delivered

-- `for (id, _) in &rows`: one UPDATE for each row read.
unfoldable pub deliver_each : List CommandRow → List CommandRow → List CommandRow
deliver_each [] commands = commands
deliver_each (row ∷ rows) commands =
    deliver_each rows (update (λ c. c.id == row.id) mark_delivered commands)

module _ (json : CommandCodec) where
  unfoldable pub decode_each : List CommandRow → Result ApiError (List Command)
  decode_each [] = ok []
  decode_each (row ∷ rows) = do
    c ← ok_or (json.from_str row.payload) (from_serde row.payload)
    rest ← decode_each rows
    ok (c ∷ rest)

  -- The transaction, for the machine that was authenticated.
  unfoldable pub heartbeat_tx :
      MachineRow → HeartbeatRequest → ℤ → Db → Result ApiError (HeartbeatResponse × Db)
  heartbeat_tx machine req now db = do
    let rows = select (pending machine.id) db.commands
    commands ← decode_each rows
    ok (
      record { commands = commands },
      record db {
        machines = update (λ m. m.id == machine.id) (touch req now) db.machines;
        commands = deliver_each rows db.commands;
      },
    )

  unfoldable pub heartbeat : Option String → HeartbeatRequest → ℤ → Db → Reply HeartbeatResponse
  heartbeat authorization req now db = elim (authenticate authorization db) [
    | err e ↦ (err e, db)
    | ok m ↦ commit db (heartbeat_tx m req now db)
  ]
