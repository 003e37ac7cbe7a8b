-- ===== src/ControlPlane/Interleaving/Serial.antt =====
-- A request or a tick that runs alone is a sequence of transactions.
use Prim.Native.String
use computation_market_poc.Prelude.{
  ◌≡◌, refl, sym, ◌∙◌, ℕ, map, true, Bool-cases, Option, Option-cases, Result-cases, inl, inr,
  String,
}
use computation_market_poc.Prelude.Int.{ℤ}
use computation_market_poc.Prelude.Key.{◌==◌, nat_eq, string_eq}
use computation_market_poc.Prelude.Table.{All-fetch, fetch, fetch-contains, contains}
use computation_market_poc.Core.Api.{
  RegisterRequest, HeartbeatRequest, ReportRequest, RateRequest, PayoutRequest, DepositRequest,
}
use computation_market_poc.ControlPlane.Db.{Db, machine_id_of}
use computation_market_poc.ControlPlane.Codec.{CommandCodec}
use computation_market_poc.ControlPlane.Lightning.{LightningBackend}
use computation_market_poc.ControlPlane.Routes.Auth.{authenticate}
use computation_market_poc.ControlPlane.Routes.Agent.{
  register, heartbeat, report, report_read, rate, payout, payout_read,
}
use computation_market_poc.ControlPlane.Routes.Tenant.{
  deposit, deposit_check, delete_rental, delete_read, is_stopping,
}
use computation_market_poc.ControlPlane.Invariant.{Inv}
use computation_market_poc.ControlPlane.Invariant.Settlement.{report_read_found}
use computation_market_poc.ControlPlane.Invariant.Agents.{payout_read_found}
use computation_market_poc.ControlPlane.Invariant.Tenants.{deposit_check_pos}
use computation_market_poc.ControlPlane.System.{
  Step, create_accounts, deposits, create_rentals, delete_rentals, registers, heartbeats, reports,
  rates, payouts, ticks, Reachable, here, next,
}
use computation_market_poc.ControlPlane.Interleaving.{
  Transaction, account_inserted, invoice_inserted, rental_inserted, rental_stopped,
  machine_inserted, machine_refreshed, heartbeat_taken, rental_reported, rate_set, balance_paid,
  Committed, created, commits, Transactions, no_more, and_next,
}
use computation_market_poc.ControlPlane.Interleaving.Balances.{Committed-Inv}
use computation_market_poc.ControlPlane.Interleaving.Ticks.{tick-Transactions}

module _ (json : CommandCodec) where
  one : {db db' : Db} → Transaction json db db' → Transactions json db db'
  one t = and_next no_more t

  deposit-Transactions :
      (ln : LightningBackend) (id : String) (req : DepositRequest) (now : ℤ) (db : Db)
      (s : ln.State)
      → Transactions json db (deposit ln id req now db s).0.1
  unfolding deposit
  deposit-Transactions ln id req now db s = elim (Result-cases (deposit_check id req db)) [
    | inr (e, refused) ↦ rw (refused, deposit) no_more
    | inl (u, checked) ↦
        let answer =
          ln.create_invoice (record { amount = req.sats }) (String.◌++◌ "deposit for " id) s in
        elim (Result-cases answer) [
          | inr (e, failed) ↦ rw (checked, failed, deposit) no_more
          | inl ((invoice, s'), made) ↦
              rw (checked, made, deposit)
                (one (invoice_inserted invoice id req now (deposit_check_pos id req db u checked)))
        ]
  ]

  delete_rental-Transactions :
      (id : ℕ) (now : ℤ) (db : Db) → Transactions json db (delete_rental json id now db).1
  unfolding delete_rental
  delete_rental-Transactions id now db = elim (Result-cases (delete_read id db)) [
    | inr (e, unknown) ↦ rw (unknown, delete_rental) no_more
    | inl (r, read) ↦
        rw (read, delete_rental)
          (elim (Bool-cases (is_stopping r)) [
            | inl stopping ↦ rw stopping no_more
            | inr live ↦ rw live (one (rental_stopped r now))
          ])
  ]

  register-Transactions :
      (token : String) (req : RegisterRequest) (now : ℤ) (db : Db)
      → Transactions json db (register token req now db).1
  unfolding register
  register-Transactions token req now db =
      elim (Option-cases (fetch (λ m. m.host_id == req.host_id) db.machines)) [
        | inr (m, known) ↦ rw (known, register) (one (machine_refreshed m req now))
        | inl unknown ↦ rw (unknown, register) (one (machine_inserted token req now))
      ]

  heartbeat-Transactions :
      (authorization : Option String) (req : HeartbeatRequest) (now : ℤ) (db : Db)
      → Transactions json db (heartbeat json authorization req now db).1
  unfolding heartbeat
  heartbeat-Transactions authorization req now db =
      elim (Result-cases (authenticate authorization db)) [
        | inr (e, refused) ↦ rw (refused, heartbeat) no_more
        | inl (m, known) ↦ rw (known, heartbeat) (one (heartbeat_taken m req now))
      ]

  report-Transactions :
      (authorization : Option String) (req : ReportRequest) (now : ℤ) (db : Db)
      → Inv db
      → Transactions json db (report authorization req now db).1
  unfolding report
  report-Transactions authorization req now db v =
      elim (Result-cases (report_read authorization req db)) [
        | inr (e, refused) ↦ rw (refused, report) no_more
        | inl ((m, r), read) ↦
            let (known, found) = report_read_found authorization req m r db v read in
            let linked = All-fetch _ _ db.rentals r v.rentals_linked found in
            let there : contains m.id (map machine_id_of db.machines) ≡ true =
              sym (fetch-contains machine_id_of m.id db.machines) ∙ rw known refl in
            rw (read, report) (one (rental_reported m r req now there linked.1))
      ]

  rate-Transactions :
      (authorization : Option String) (req : RateRequest) (db : Db)
      → Transactions json db (rate authorization req db).1
  unfolding rate
  rate-Transactions authorization req db = elim (Result-cases (authenticate authorization db)) [
    | inr (e, refused) ↦ rw (refused, rate) no_more
    | inl (m, known) ↦ rw (known, rate) (one (rate_set m req))
  ]

  payout-Transactions :
      (ln : LightningBackend) (authorization : Option String) (req : PayoutRequest) (now : ℤ)
      (db : Db) (s : ln.State)
      → Inv db
      → Transactions json db (payout ln authorization req now db s).1
  unfolding payout
  payout-Transactions ln authorization req now db s v =
      elim (Result-cases (payout_read authorization db)) [
        | inr (e, refused) ↦ rw (refused, payout) no_more
        | inl (m, read) ↦ elim (Result-cases (ln.pay_invoice req.bolt11 s)) [
          | inr (e, failed) ↦ rw (read, failed, payout) no_more
          | inl (s', paid) ↦
              rw (read, paid, payout)
                (one (balance_paid m m now (payout_read_found authorization m db v read).0 refl))
        ]
      ]

  module _ (ln : LightningBackend) where
    Step-Transactions : {db db' : Db} → Step json ln db db' → Inv db → Transactions json db db'
    Step-Transactions (create_accounts id now) v = one (account_inserted id now)
    Step-Transactions {db} (deposits id req now s) v = deposit-Transactions ln id req now db s
    Step-Transactions (create_rentals req now) v = one (rental_inserted req now)
    Step-Transactions {db} (delete_rentals id now) v = delete_rental-Transactions id now db
    Step-Transactions {db} (registers token req now) v = register-Transactions token req now db
    Step-Transactions {db} (heartbeats authorization req now) v =
        heartbeat-Transactions authorization req now db
    Step-Transactions {db} (reports authorization req now) v =
        report-Transactions authorization req now db v
    Step-Transactions {db} (rates authorization req) v = rate-Transactions authorization req db
    Step-Transactions {db} (payouts authorization req now s) v =
        payout-Transactions ln authorization req now db s v
    Step-Transactions {db} (ticks is_settled cfg now_polling now_marking now_enforcing) v =
        tick-Transactions json is_settled cfg now_polling now_marking now_enforcing db v

    extended : {db db' : Db} → Committed json db → Transactions json db db' → Committed json db'
    extended before no_more = before
    extended before (and_next run t) = commits (extended before run) t

    -- What requests and ticks reach one at a time, each from its first read to its last write, is
    -- reached by transactions that interleave.
    pub Reachable-Committed : {db : Db} → Reachable json ln db → Committed json db
    Reachable-Committed here = created
    Reachable-Committed (next reached step) =
        let before = Reachable-Committed reached in
        extended before (Step-Transactions step (Committed-Inv json before))
