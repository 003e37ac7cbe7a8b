-- ===== src/HostAgent/Lifecycle.antt =====
-- The way of a rental from the tenant's request to a running container: `create_rental` of
-- routes/tenant.rs, the next heartbeat of the host, `dispatch` of crates/host-agent/src/main.rs,
-- `report` of routes/agent.rs, and what the tenant then reads.
pub mod Rows
use Prim.Native.Nat.{◌≤◌}
use mathlib.Core.Option
use computation_market_poc.Prelude.{
  ℕ, suc, ◌≡◌, refl, ap, sym, ◌∙◌, ◌&&◌, true, false, Bool, List, [], ◌∷◌, ◌++◌, map, ok, err,
  Option, none, some, String, Result, Option-cases, Bool-cases, inl, inr, arith, ok_or, ok_or-eq_ok,
}
use computation_market_poc.Prelude.Int.{ℤ, ◌+ℤ◌, ◌-ℤ◌}
use computation_market_poc.Prelude.Word.{as_i32}
use computation_market_poc.Prelude.Key.{◌==◌, nat_eq, string_eq, ==_refl}
use computation_market_poc.Prelude.Table.{
  All, fetch, update, select, All-select, fetch-update, fetch-append_none, fetch_passes,
}
use computation_market_poc.Core.Api.{
  Command, CreateRentalRequest, HeartbeatRequest, HeartbeatResponse, CreateRentalResponse,
  ReportRequest, RentalResponse,
}
use computation_market_poc.Core.Model.{RentalStatus, is_terminal}
use computation_market_poc.ControlPlane.Error.{ApiError}
use computation_market_poc.ControlPlane.Db.{
  Db, MachineRow, AccountRow, RentalRow, CommandRow, new_command,
}
use computation_market_poc.ControlPlane.Codec.{CommandCodec}
use computation_market_poc.ControlPlane.Routes.Auth.{Reply, authenticate, bearer}
use computation_market_poc.ControlPlane.Routes.Agent.{
  heartbeat, pending, decode_each, touch, report, report_read, report_tx, reported, apply_report,
  settles,
}
use computation_market_poc.ControlPlane.Routes.Tenant.{create_rental, new_rental, get_rental}
use computation_market_poc.ControlPlane.Admission.{
  Admitted, admitted_row, let_in, create_rental-admits,
}
use computation_market_poc.ControlPlane.Delivery.Heartbeats.{
  Written, Carries, delivered, heartbeat-runs,
}
use computation_market_poc.ControlPlane.Invariant.{Inv}
use computation_market_poc.ControlPlane.Settling.Reports.{
  report-runs, free_tx, first_and, report-charges, settled_rental,
}
use computation_market_poc.ControlPlane.Settling.{charged, Holds, Owes}
use computation_market_poc.ControlPlane.Invariant.Agents.{heartbeat-Inv}
use computation_market_poc.ControlPlane.Invariant.Tenants.{create_rental-Inv}
use mathlib.Core.Path.{subst}
use computation_market_poc.HostAgent.Runtime.{HostRuntime, RentalSpec, Started}
use computation_market_poc.HostAgent.Dispatch.{dispatch, start_report}
use computation_market_poc.HostAgent.Lifecycle.Rows.{
  select-append_hit, decode_each-append, authenticate-touch, fetch-fresh, get_rental_lem,
}

abbrev pub alive : HeartbeatRequest
alive = record { online = true }

module _ (json : CommandCodec) (req : CreateRentalRequest) (db : Db) (m : MachineRow)
    (a : AccountRow) (key : String) where
  abbrev pub start_of : Command
  start_of = Command.start_rental (suc db.rental_seq) req.image key

  -- The database after the request, and after the heartbeat that follows it.
  abbrev pub rented : ℤ → Db
  rented created = let_in json req created db m a key

  abbrev pub handed_over : ℤ → ℤ → Db
  handed_over created now = delivered json alive now m (rented created)

  same_machine : Admitted req db m a key → m.id ≡ req.machine_id
  same_machine h =
      let same = fetch_passes (λ n. n.id == req.machine_id) db.machines m h.machine in
      ground (arith, same)

  handed_over_lem :
      (authorization : Option String) (created now : ℤ)
      → Admitted req db m a key
      → authenticate authorization db ≡ ok m
      → All (Written json) db.commands
      → (waiting : List Command) × Carries json (select (pending m.id) db.commands) waiting
        × (heartbeat json authorization alive now (rented created)
            ≡ (ok (record { commands = waiting ++ start_of ∷ [] }), handed_over created now))
  unfolding authenticate new_rental
  handed_over_lem authorization created now h known written =
      let row = new_command req.machine_id (json.to_string start_of) created db in
      let waits : pending m.id row ≡ true = rw (same_machine h, ==_refl req.machine_id) refl in
      let (waiting, decoded, carried) =
        decode_each-append json (select (pending m.id) db.commands) row start_of
          (All-select (Written json) (pending m.id) db.commands written) refl in
      let queue = select-append_hit (pending m.id) db.commands row waits in
      (
        waiting,
        carried,
        heartbeat-runs json authorization alive now m (rented created) (waiting ++ start_of ∷ [])
            known (ap (decode_each json) queue ∙ decoded),
      )

  abbrev pub rented_row : ℤ → RentalRow
  rented_row created = admitted_row json req created db m a key

  -- The report on a start that succeeded, and the database that it leaves.
  abbrev pub running_report : Started → ReportRequest
  running_report started = start_report (suc db.rental_seq) (ok started)

  abbrev pub up : ℤ → ℤ → ℤ → Started → Db
  up created now later started = record (handed_over created now) {
    rentals =
        update (λ s. s.id == suc db.rental_seq)
          (apply_report (touch alive now m) (running_report started) later)
          (rented created).rentals;
  }

  found_row :
      (p : RentalRow → Bool) (created : ℤ)
      → Inv db
      → ((r : RentalRow) → p r ≡ true → (r.id == suc db.rental_seq) ≡ true)
      → p (rented_row created) ≡ true
      → fetch p (rented created).rentals ≡ some (rented_row created)
  found_row p created v named passes =
      fetch-append_none p db.rentals (rented_row created)
        (fetch-fresh p db.rental_seq db.rentals named v.rental_fresh)
      ∙ rw passes refl

  recognised :
      (authorization : Option String) (created now : ℤ)
      → authenticate authorization db ≡ ok m
      → authenticate authorization (handed_over created now) ≡ ok (touch alive now m)
  unfolding authenticate
  recognised authorization created now known =
      authenticate-touch authorization alive now m (rented created) known

  report_lem :
      (authorization : Option String) (created now later : ℤ) (started : Started)
      → Inv db
      → Admitted req db m a key
      → authenticate authorization db ≡ ok m
      → report authorization (running_report started) later (handed_over created now)
        ≡ (ok tt, up created now later started)
  unfolding report_read start_report new_rental is_terminal
  report_lem authorization created now later started v h known =
      let found =
        found_row (reported (running_report started) m) created v (λ r. first_and _ _)
          (rw (==_refl (suc db.rental_seq), same_machine h, ==_refl req.machine_id) refl) in
      let seen = recognised authorization created now known in
      report-runs authorization (running_report started) later (touch alive now m)
        (rented_row created) (handed_over created now) (up created now later started)
        (rw (seen, found) refl)
        (free_tx authorization (running_report started) later (touch alive now m)
          (rented_row created) (handed_over created now) refl)

  -- What the tenant reads of a rental that runs.
  abbrev pub Shows : Started → RentalResponse → Type 0
  Shows started shown =
      (shown.status ≡ RentalStatus.running)
      × (shown.kind ≡ started.kind)
      × (shown.ssh_host ≡ some m.public_ip)
      × (shown.ssh_port ≡ some (as_i32 started.ssh_port))

  read_lem :
      (created now later : ℤ) (started : Started)
      → Inv db
      → Admitted req db m a key
      → (shown : RentalResponse) × (get_rental (suc db.rental_seq) (up created now later started)
          ≡ ok shown)
        × Shows started shown
  unfolding get_rental new_rental apply_report start_report
  read_lem created now later started v h =
      let found =
        found_row (λ s. s.id == suc db.rental_seq) created v (λ _ same. same)
          (==_refl (suc db.rental_seq)) in
      let row =
        fetch-update (λ s. s.id == suc db.rental_seq) (λ s. s.id == suc db.rental_seq)
          (apply_report (touch alive now m) (running_report started) later) (λ _. refl)
          (rented created).rentals in
      let machine =
        fetch-update (λ n. n.id == req.machine_id) (λ n. n.id == m.id) (touch alive now) (λ _. refl)
          db.machines in
      let (shown, read, status, kind, ssh_host, ssh_port) =
        get_rental_lem (suc db.rental_seq)
          (apply_report (touch alive now m) (running_report started) later (rented_row created))
          (touch alive now m) (up created now later started)
          (rw (row, found, ==_refl (suc db.rental_seq)) refl)
          (rw (machine, h.machine, ==_refl m.id) refl) in
      (shown, read, (status, kind, ssh_host, ssh_port))

  -- A rental that is let in runs after one round. Where the invariant holds, the host is
  -- authenticated and the queue's payloads are ones that the control plane wrote: the next heartbeat
  -- of the host is answered with the command to start the rental, behind those that were waiting. If
  -- the launcher then starts it, the agent's report is accepted, and the tenant who asks for the
  -- rental reads that it runs, of which kind it is, the host's address and the launcher's port.
  pub rental-starts :
      (rt : HostRuntime) (authorization : Option String) (created now later : ℤ) (started : Started)
      (s s' : rt.State)
      → Inv db
      → Admitted req db m a key
      → authenticate authorization db ≡ ok m
      → All (Written json) db.commands
      → rt.start_rental
          (record { rental_id = suc db.rental_seq; image = req.image; ssh_pubkey = key })
          s
        ≡ (ok started, s')
      → let db1 = (create_rental json req created db).1 in
        let (answer, db2) = heartbeat json authorization alive now db1 in
        let sent = (dispatch rt start_of s).0 in
        let (accepted, db3) = report authorization sent later db2 in
        ((waiting : List Command) × (answer ≡ ok (record { commands = waiting ++ start_of ∷ [] }))
          × Carries json (select (pending m.id) db.commands) waiting)
        × (accepted ≡ ok tt)
        × ((shown : RentalResponse) × (get_rental (suc db.rental_seq) db3 ≡ ok shown)
            × Shows started shown)
  unfolding dispatch
  rental-starts rt authorization created now later started s s' v h known written starts =
      let (waiting, carried, beat) = handed_over_lem authorization created now h known written in
      rw (create_rental-admits json req created db m a key h, beat, starts)
        (rw (report_lem authorization created now later started v h known)
          ((waiting, refl, carried), refl, read_lem created now later started v h))

  -- The report on a start that failed.
  abbrev pub failed_report : String → ReportRequest
  failed_report e = start_report (suc db.rental_seq) (err e)

  -- A rental that is let in and that the launcher cannot start has failed after one round, where
  -- the invariant holds, the host is authenticated and the queue's payloads are ones that the
  -- control plane wrote. The agent's report is accepted. The tenant pays the prorated charge for
  -- the time since the request, at the machine's rate and capped at the balance, and the host is
  -- owed as much. The rental's row has failed with the launcher's error, and states the charge and
  -- the time.
  pub rental-fails :
      (rt : HostRuntime) (authorization : Option String) (created now later : ℤ) (e : String)
      (s s' : rt.State)
      → Inv db
      → Admitted req db m a key
      → authenticate authorization db ≡ ok m
      → All (Written json) db.commands
      → rt.start_rental
          (record { rental_id = suc db.rental_seq; image = req.image; ssh_pubkey = key })
          s
        ≡ (err e, s')
      → let db2 =
          (heartbeat json authorization alive now (create_rental json req created db).1).1 in
        let sent = (dispatch rt start_of s).0 in
        let (accepted, db3) = report authorization sent later db2 in
        (sent ≡ record {
          rental_id = suc db.rental_seq;
          status = RentalStatus.failed;
          kind = none;
          ssh_port = none;
          container_id = none;
          error = some e;
        })
        × (accepted ≡ ok tt)
        × Holds req.account_id (a.balance_sats -ℤ charged (rented_row created) later a) db3
        × Owes m (m.payout_balance +ℤ charged (rented_row created) later a) db3
        × (fetch (reported sent m) db3.rentals
            ≡ some (settled_rental (touch alive now m) sent later (rented_row created) a))
  unfolding dispatch start_report new_rental report_read is_terminal
  rental-fails rt authorization created now later e s s' v h known written starts =
      let (waiting, carried, beat) = handed_over_lem authorization created now h known written in
      let ran = create_rental-admits json req created db m a key h in
      let v2 : Inv (handed_over created now) =
        subst Inv (ap (λ (x : Reply HeartbeatResponse). x.1) beat) (
          heartbeat-Inv json authorization alive now (rented created) (
            subst Inv (ap (λ (x : Reply CreateRentalResponse). x.1) ran)
              (create_rental-Inv json req created db v))) in
      let found =
        found_row (reported (failed_report e) m) created v (λ r. first_and _ _)
          (rw (==_refl (suc db.rental_seq), same_machine h, ==_refl req.machine_id) refl) in
      let seen = recognised authorization created now known in
      let (accepted, holds, owes, row) =
        report-charges authorization (failed_report e) later (touch alive now m)
          (rented_row created) (handed_over created now) a v2 (rw (seen, found) refl) refl
          h.account in
      rw (ran, beat, starts) (refl, accepted, holds, owes, row)
