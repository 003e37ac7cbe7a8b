-- ===== src/HostAgent/Dispatch.antt =====
-- `dispatch` of crates/host-agent/src/main.rs: run one command, and the report on it. Sending the
-- report, and the tasks that run commands side by side, are the environment's.
use computation_market_poc.Prelude.{
  ℕ, ◌≡◌, refl, true, false, Bool, ◌||◌, is_some, String, none, some, Result, ok, err,
}
use computation_market_poc.Core.Api.{Command, ReportRequest}
use computation_market_poc.Core.Model.{RentalStatus, is_terminal}
use computation_market_poc.HostAgent.Runtime.{HostRuntime, Started}

-- The report on `start_rental`.
unfoldable pub start_report : ℕ → Result String Started → ReportRequest
start_report rental_id (ok started) = record {
  rental_id = rental_id;
  status = RentalStatus.running;
  kind = some started.kind;
  ssh_port = some started.ssh_port;
  container_id = some started.container_id;
  error = none;
}
start_report rental_id (err e) = record {
  rental_id = rental_id;
  status = RentalStatus.failed;
  kind = none;
  ssh_port = none;
  container_id = none;
  error = some e;
}

-- The report on `stop_rental`.
unfoldable pub stop_report : ℕ → Result String (Unit {0}) → ReportRequest
stop_report rental_id (ok _) = record {
  rental_id = rental_id;
  status = RentalStatus.stopped;
  kind = none;
  ssh_port = none;
  container_id = none;
  error = none;
}
stop_report rental_id (err e) = record {
  rental_id = rental_id;
  status = RentalStatus.failed;
  kind = none;
  ssh_port = none;
  container_id = none;
  error = some e;
}

module _ (rt : HostRuntime) where
  unfoldable pub dispatch : Command → rt.State → ReportRequest × rt.State
  dispatch (Command.start_rental rental_id image ssh_pubkey) s =
      let (started, s') =
        rt.start_rental (record { rental_id = rental_id; image = image; ssh_pubkey = ssh_pubkey })
          s in
      (start_report rental_id started, s')
  dispatch (Command.stop_rental rental_id) s =
      let (stopped, s') = rt.stop_rental rental_id s in (stop_report rental_id stopped, s')

abbrev pub rental_of : Command → ℕ
rental_of (Command.start_rental rental_id _ _) = rental_id
rental_of (Command.stop_rental rental_id) = rental_id

abbrev pub is_stop : Command → Bool
is_stop (Command.start_rental _ _ _) = false
is_stop (Command.stop_rental _) = true

start_report-ends :
    (rental_id : ℕ) (started : Result String Started)
    → ((start_report rental_id started).rental_id ≡ rental_id)
      × (is_terminal (start_report rental_id started).status
          ≡ is_some (start_report rental_id started).error)
unfolding start_report is_terminal
start_report-ends rental_id (ok started) = (refl, refl)
start_report-ends rental_id (err e) = (refl, refl)

stop_report-ends :
    (rental_id : ℕ) (stopped : Result String (Unit {0}))
    → ((stop_report rental_id stopped).rental_id ≡ rental_id)
      × (is_terminal (stop_report rental_id stopped).status ≡ true)
unfolding stop_report is_terminal
stop_report-ends rental_id (ok _) = (refl, refl)
stop_report-ends rental_id (err e) = (refl, refl)

-- Whatever the launcher answers, the report names the command's rental. Its status is terminal
-- after every stop, a failed one too, and after a start exactly if the report gives an error.
pub dispatch-ends :
    (rt : HostRuntime) (command : Command) (s : rt.State)
    → ((dispatch rt command s).0.rental_id ≡ rental_of command)
      × (is_terminal (dispatch rt command s).0.status
          ≡ (is_stop command || is_some (dispatch rt command s).0.error))
unfolding dispatch
dispatch-ends rt (Command.start_rental rental_id image ssh_pubkey) s = start_report-ends rental_id _
dispatch-ends rt (Command.stop_rental rental_id) s = stop_report-ends rental_id _
