-- ===== src/ControlPlane/Tests/Queues.antt =====
-- A heartbeat of the host fetches the one command that waits.
use computation_market_poc.Prelude.{ℕ, ◌≡◌, refl, false, List, [], Option, some, ok}
use computation_market_poc.Prelude.Int.{pos}
use computation_market_poc.Prelude.Key.{◌==◌, nat_eq}
use computation_market_poc.Prelude.Text.{strip_prefix}
use computation_market_poc.Prelude.Table.{select, fetch}
use computation_market_poc.Core.Api.{Command, HeartbeatRequest}
use computation_market_poc.Prelude.{String, true}
use computation_market_poc.ControlPlane.Routes.Auth.{authenticate}
use computation_market_poc.ControlPlane.Routes.Agent.{heartbeat, pending}
use computation_market_poc.ControlPlane.Delivery.Heartbeats.{heartbeat-delivers, Carries}
use computation_market_poc.ControlPlane.Tests.WireText.{wire_text}
use computation_market_poc.ControlPlane.Tests.Market.{host, market}

abbrev sent_token : Option String
sent_token = some "Bearer agt_1"

abbrev alive : HeartbeatRequest
alive = record { online = true }

known : authenticate sent_token market ≡ ok host
unfolding authenticate fetch strip_prefix
known = refl

heartbeat-delivers_example :
    ((commands : List Command) × ((heartbeat wire_text sent_token alive (pos 1600) market).0
        ≡ ok (record { commands = commands }))
      × Carries wire_text (select (pending 1) market.commands) commands)
    × (select (pending 1) (heartbeat wire_text sent_token alive (pos 1600) market).1.commands ≡ [])
    × ((other : ℕ)
        → (other == 1) ≡ false
        → select (pending other) (heartbeat wire_text sent_token alive (pos 1600) market).1.commands
          ≡ select (pending other) market.commands)
heartbeat-delivers_example =
    heartbeat-delivers wire_text sent_token alive (pos 1600) host market known
      ((Command.stop_rental 2, refl), tt) (refl, tt)
