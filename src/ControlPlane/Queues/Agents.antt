-- ===== src/ControlPlane/Queues/Agents.antt =====
-- The handlers of the agents' side keep the queues in order.
use computation_market_poc.Prelude.{
  String, Bool, true, false, map, Option, some, none, Bool-cases, Option-cases, Result-cases, inl,
  inr, ◌||◌, map_err,
}
use computation_market_poc.Prelude.Int.{ℤ, pos, ◌-ℤ◌, ltb_ℤ}
use computation_market_poc.Prelude.Key.{◌==◌, nat_eq, string_eq}
use computation_market_poc.Prelude.Table.{contains, fetch, select, update}
use computation_market_poc.Core.Api.{
  RegisterRequest, HeartbeatRequest, RateRequest, PayoutRequest, ReportRequest,
}
use computation_market_poc.ControlPlane.Error.{from_sqlx}
use computation_market_poc.ControlPlane.Db.{
  Db, AccountRow, MachineRow, RentalRow, insert_machine, check_balance, add_balance, move_balance,
  record_row, record_charge,
}
use computation_market_poc.ControlPlane.Codec.{CommandCodec}
use computation_market_poc.ControlPlane.Lightning.{LightningBackend}
use computation_market_poc.ControlPlane.Routes.Auth.{authenticate}
use computation_market_poc.ControlPlane.Routes.Agent.{
  register, registered, rate, heartbeat, heartbeat_tx, decode_each, pending, payout_read, payout_tx,
  payout, report, report_read, report_tx, settle_if, settle_rental, settlement, transfer,
  charge_tenant, settles, apply_report,
}
use computation_market_poc.ControlPlane.Queues.{
  Kept, Kept->>=, Kept-map_err, Queued, commit-Queued, deliver_each-Queue,
}

module _ (json : CommandCodec) where
  registered-Queued :
      (token : String) (m : MachineRow) (db : Db)
      → Queued json db
      → Queued json (registered token m db (map_err from_sqlx (insert_machine m db))).1
  unfolding insert_machine
  registered-Queued token m db q =
      let taken =
        contains m.agent_token (map (λ n. n.agent_token) db.machines)
        || contains m.host_id (map (λ n. n.host_id) db.machines) in
      elim (Bool-cases taken) [ inl refused ↦ rw refused q | inr free ↦ rw free q ]

  pub register-Queued :
      (token : String) (req : RegisterRequest) (now : ℤ) (db : Db)
      → Queued json db
      → Queued json (register token req now db).1
  unfolding register
  register-Queued token req now db q =
      elim (Option-cases (fetch (λ m. m.host_id == req.host_id) db.machines)) [
        | inr (m, known) ↦ rw (known, register) q
        | inl unknown ↦ rw (unknown, register) (registered-Queued token _ db q)
      ]

  pub heartbeat-Queued :
      (authorization : Option String) (req : HeartbeatRequest) (now : ℤ) (db : Db)
      → Queued json db
      → Queued json (heartbeat json authorization req now db).1
  unfolding heartbeat heartbeat_tx
  heartbeat-Queued authorization req now db q =
      elim (Result-cases (authenticate authorization db)) [
        | inr (e, refused) ↦ rw (refused, heartbeat) q
        | inl (m, known) ↦
            let rows = select (pending m.id) db.commands in
            elim (Result-cases (decode_each json rows)) [
              | inr (e, bad) ↦ rw (known, heartbeat) (rw bad q)
              | inl (commands, read) ↦
                  rw (known, heartbeat)
                    (rw read (deliver_each-Queue json rows db.commands db.command_seq q))
            ]
      ]

  pub rate-Queued :
      (authorization : Option String) (req : RateRequest) (db : Db)
      → Queued json db
      → Queued json (rate authorization req db).1
  unfolding rate
  rate-Queued authorization req db q = elim (Result-cases (authenticate authorization db)) [
    | inr (e, refused) ↦ rw (refused, rate) q
    | inl (m, known) ↦
        rw (known, rate)
          (elim (Bool-cases (ltb_ℤ req.rate_sats_per_min (pos 1))) [
            | inl low ↦ rw low q
            | inr fits ↦ rw fits q
          ])
  ]

  pub payout-Queued :
      (ln : LightningBackend) (authorization : Option String) (req : PayoutRequest) (now : ℤ)
      (db : Db) (s : ln.State)
      → Queued json db
      → Queued json (payout ln authorization req now db s).1
  unfolding payout payout_tx record_row
  payout-Queued ln authorization req now db s q =
      elim (Result-cases (payout_read authorization db)) [
        | inr (e, refused) ↦ rw (refused, payout) q
        | inl (m, read) ↦ elim (Result-cases (ln.pay_invoice req.bolt11 s)) [
          | inr (e, failed) ↦ rw (read, failed, payout) q
          | inl (s', paid) ↦ rw (read, paid, payout) q
        ]
      ]

  check_balance-Queued :
      (a : Option AccountRow) (db : Db) → Queued json db → Kept (Queued json) (check_balance a db)
  check_balance-Queued none db q = q
  check_balance-Queued (some a) db q = elim (Bool-cases (ltb_ℤ a.balance_sats (pos 0))) [
    | inl low ↦ rw low tt
    | inr bears ↦ rw bears q
  ]

  pub move_balance-Queued :
      (id : String) (d : ℤ) (db : Db) → Queued json db → Kept (Queued json) (move_balance id d db)
  unfolding move_balance
  move_balance-Queued id d db q =
      let rows = update (λ a. a.id == id) (add_balance d) db.accounts in
      check_balance-Queued (fetch (λ a. a.id == id) rows) (record db { accounts = rows }) q

  transfer-Queued :
      (m : MachineRow) (r : RentalRow) (now charge : ℤ) (db : Db)
      → Queued json db
      → Kept (Queued json) (transfer m r now charge db)
  unfolding transfer charge_tenant record_charge record_row
  transfer-Queued m r now charge db q = elim (Bool-cases (ltb_ℤ (pos 0) charge)) [
    | inr nothing ↦ rw nothing q
    | inl more ↦ rw more (
        Kept->>= (Queued json) (Queued json) (move_balance r.account_id (pos 0 -ℤ charge) db) _
          (move_balance-Queued r.account_id (pos 0 -ℤ charge) db q) (λ db1 q1. q1))
  ]

  settle_rental-Queued :
      (m : MachineRow) (r : RentalRow) (now : ℤ) (db : Db)
      → Queued json db
      → Kept (Queued json) (settle_rental m r now db)
  unfolding settle_rental
  settle_rental-Queued m r now db q =
      elim (Option-cases (fetch (λ a. a.id == r.account_id) db.accounts)) [
        | inl unknown ↦ rw unknown tt
        | inr (a, found) ↦ rw found (
            Kept->>= (Queued json) (Queued json) (transfer m r now (settlement r now a) db) _
              (transfer-Queued m r now (settlement r now a) db q) (λ db1 q1. q1))
      ]

  settle_if-Queued :
      (settles : Bool) (m : MachineRow) (r : RentalRow) (now : ℤ) (db : Db)
      → Queued json db
      → Kept (Queued json) (settle_if settles m r now db)
  settle_if-Queued false m r now db q = q
  settle_if-Queued true m r now db q =
      Kept-map_err (Queued json) from_sqlx (settle_rental m r now db)
        (settle_rental-Queued m r now db q)

  report_tx-Queued :
      (m : MachineRow) (r : RentalRow) (req : ReportRequest) (now : ℤ) (db : Db)
      → Queued json db
      → Kept (λ s. Queued json s.1) (report_tx m r req now db)
  unfolding report_tx
  report_tx-Queued m r req now db q =
      Kept->>= (Queued json) (λ s. Queued json s.1) (settle_if (settles r req) m r now _) _
        (settle_if-Queued (settles r req) m r now
          (record db {
            rentals = update (λ s. s.id == req.rental_id) (apply_report m req now) db.rentals;
          })
          q)
        (λ db1 q1. q1)

  pub report-Queued :
      (authorization : Option String) (req : ReportRequest) (now : ℤ) (db : Db)
      → Queued json db
      → Queued json (report authorization req now db).1
  unfolding report
  report-Queued authorization req now db q =
      elim (Result-cases (report_read authorization req db)) [
        | inr (e, refused) ↦ rw (refused, report) q
        | inl ((m, r), read) ↦
            rw (read, report) (commit-Queued json db _ q (report_tx-Queued m r req now db q))
      ]
