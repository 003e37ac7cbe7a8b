-- ===== src/HostAgent/Agent/Loop.antt =====
-- What the agent's loop does with the commands that it is sent, up to a shutdown.
use computation_market_poc.Prelude.{
  ◌≡◌, refl, ap, ◌∙◌, String, false, List, [], ◌∷◌, ◌++◌, map, Option, Result, ok, err,
}
use computation_market_poc.Prelude.Int.{ℤ}
use computation_market_poc.Prelude.Key.{nat_eq}
use computation_market_poc.Prelude.Table.{All, Distinct, select}
use computation_market_poc.Core.Api.{Command, HeartbeatRequest, HeartbeatResponse}
use computation_market_poc.ControlPlane.Error.{ApiError}
use computation_market_poc.ControlPlane.Db.{Db, MachineRow}
use computation_market_poc.ControlPlane.Codec.{CommandCodec}
use computation_market_poc.ControlPlane.Routes.Auth.{authenticate}
use computation_market_poc.ControlPlane.Routes.Agent.{heartbeat, pending}
use computation_market_poc.ControlPlane.Delivery.{command_id_of}
use computation_market_poc.ControlPlane.Delivery.Heartbeats.{Written, Carries, heartbeat-delivers}
use computation_market_poc.HostAgent.Agent.{Event, Act, agent_loop}
use computation_market_poc.HostAgent.Agent.Restarts.{ensure_ok}

abbrev pub commands_of : List Act → List Command
commands_of [] = []
commands_of (Act.dispatched c ∷ acts) = c ∷ commands_of acts
commands_of (Act.heartbeat _ ∷ acts) = commands_of acts

-- The commands in the answers, those of failed heartbeats being none.
abbrev pub received : List (Result String (List Command)) → List Command
received [] = []
received (ok commands ∷ rs) = commands ++ received rs
received (err _ ∷ rs) = received rs

abbrev pub ticks : List (Result String (List Command)) → List Event → List Event
ticks [] events = events
ticks (r ∷ rs) events = Event.tick r ∷ ticks rs events

commands-dispatched :
    (commands : List Command) (acts : List Act)
    → commands_of (map Act.dispatched commands ++ acts) ≡ commands ++ commands_of acts
commands-dispatched [] acts = refl
commands-dispatched (c ∷ commands) acts =
    ap (λ (cs : List Command). c ∷ cs) (commands-dispatched commands acts)

-- Until the shutdown, every command that is received is dispatched once, in the order of the
-- answers and within each in its order. Whatever the answer to the last heartbeat is, and whatever
-- would come later, nothing more is dispatched.
pub loop-dispatches :
    (rs : List (Result String (List Command))) (last : Result String (List Command))
    (later : List Event)
    → commands_of (agent_loop (ticks rs (Event.ctrl_c last ∷ later))) ≡ received rs
unfolding agent_loop
loop-dispatches [] last later = refl
loop-dispatches (ok commands ∷ rs) last later =
    commands-dispatched commands (agent_loop (ticks rs (Event.ctrl_c last ∷ later)))
    ∙ ap (λ (cs : List Command). commands ++ cs) (loop-dispatches rs last later)
loop-dispatches (err e ∷ rs) last later = loop-dispatches rs last later

abbrev pub off : HeartbeatRequest
off = record { online = false }

-- The body of the control plane's answer, as the agent sees it.
abbrev pub body_of :
    (ApiError → String) → Result ApiError HeartbeatResponse → Result String (List Command)
body_of shown (ok r) = ok r.commands
body_of shown (err e) = ensure_ok shown (err e)

-- A clean shutdown loses what waits: for a host that is authenticated, where the queue's payloads are
-- ones that the control plane wrote and its rows have different numbers, the last heartbeat is
-- answered with every command that waits for its machine, and none waits for it any more, while the
-- agent, from that heartbeat on, dispatches none.
pub shutdown-drops :
    (json : CommandCodec) (shown : ApiError → String) (authorization : Option String) (now : ℤ)
    (m : MachineRow) (db : Db) (later : List Event)
    → authenticate authorization db ≡ ok m
    → All (Written json) db.commands
    → Distinct (map command_id_of db.commands)
    → let (answer, db') = heartbeat json authorization off now db in
      (commands : List Command) × (body_of shown answer ≡ ok commands)
      × Carries json (select (pending m.id) db.commands) commands
      × (select (pending m.id) db'.commands ≡ [])
      × (commands_of (agent_loop (Event.ctrl_c (body_of shown answer) ∷ later)) ≡ [])
unfolding agent_loop
shutdown-drops json shown authorization now m db later known written distinct =
    let ((commands, sent, carried), drained, _) =
      heartbeat-delivers json authorization off now m db known written distinct in
    (commands, ap (body_of shown) sent, carried, drained, refl)
