-- ===== src/ControlPlane/Invariant/Agents.antt =====
-- The handlers of the agents' side keep the invariant.
use computation_market_poc.Prelude.{
  ◌≡◌, refl, String, map, Option, some, ok, ◌>>◌, arith, Bool-cases, Option-cases, Result-cases,
  inl, inr, ◌||◌, ◌<◌, map_err, >>=-eq_ok, fail_if,
}
use computation_market_poc.Prelude.Int.{ℤ, pos, ◌≤ℤ◌, ltb_ℤ, leb_ℤ}
use computation_market_poc.Prelude.Key.{◌==◌, nat_eq, string_eq}
use computation_market_poc.Prelude.Table.{contains, fetch, select}
use computation_market_poc.Core.Api.{RegisterRequest, HeartbeatRequest, RateRequest, PayoutRequest}
use computation_market_poc.ControlPlane.Error.{ApiError, bad_request_error, from_sqlx}
use computation_market_poc.ControlPlane.Db.{Db, MachineRow, insert_machine}
use computation_market_poc.ControlPlane.Codec.{CommandCodec}
use computation_market_poc.ControlPlane.Lightning.{LightningBackend}
use computation_market_poc.ControlPlane.Routes.Auth.{authenticate}
use computation_market_poc.ControlPlane.Routes.Agent.{
  register, registered, rate, heartbeat, heartbeat_tx, decode_each, pending, touch, refresh_machine,
  new_machine, set_rate, payout_read, payout_tx, payout,
}
use computation_market_poc.ControlPlane.Invariant.Books.{Inv}
use computation_market_poc.ControlPlane.Invariant.Statements.{machines-Inv}
use computation_market_poc.ControlPlane.Invariant.Inserts.{machine-Inv}
use computation_market_poc.ControlPlane.Invariant.Movements.{payout-Inv}
use computation_market_poc.ControlPlane.Invariant.Settlement.{authenticate_found}

owed_read :
    (n m : MachineRow) (e : ApiError)
    → (fail_if (leb_ℤ n.payout_balance (pos 0)) e >> ok n) ≡ ok m
    → (n ≡ m) × (pos 1 ≤ℤ n.payout_balance)
owed_read n m e h = elim (Bool-cases (leb_ℤ n.payout_balance (pos 0))) [
  | inl nothing ↦ let refused = rw nothing at h in cc
  | inr some_owed ↦ let read = rw some_owed at h in (cc, ground arith)
]

-- What `payout` reads stands in its table, with something owed.
pub payout_read_found :
    (authorization : Option String) (m : MachineRow) (db : Db)
    → Inv db
    → payout_read authorization db ≡ ok m
    → (fetch (λ n. n.id == m.id) db.machines ≡ some m) × (pos 1 ≤ℤ m.payout_balance)
unfolding payout_read
payout_read_found authorization m db v h =
    let (n, known, read) =
      >>=-eq_ok (authenticate authorization db)
        (λ k. fail_if (leb_ℤ k.payout_balance (pos 0)) (bad_request_error "nothing owed") >> ok k) m
        h in
    let (same, more) = owed_read n m _ read in
    (authenticate_found authorization m db v (rw (← same) known), rw (← same) more)

-- A payout takes what is owed off the books, and nothing is written where it is refused or where the
-- payment fails.
pub payout_handler-Inv :
    (ln : LightningBackend) (authorization : Option String) (req : PayoutRequest) (now : ℤ)
    (db : Db) (s : ln.State)
    → Inv db
    → Inv (payout ln authorization req now db s).1
unfolding payout payout_tx
payout_handler-Inv ln authorization req now db s v =
    elim (Result-cases (payout_read authorization db)) [
      | inr (e, refused) ↦ rw (refused, payout) v
      | inl (m, read) ↦ elim (Result-cases (ln.pay_invoice req.bolt11 s)) [
        | inr (e, failed) ↦ rw (read, failed, payout) v
        | inl (s', paid) ↦
            rw (read, paid, payout)
              (payout-Inv m.id now m db v (payout_read_found authorization m db v read).0)
      ]
    ]

pub rate-Inv :
    (authorization : Option String) (req : RateRequest) (db : Db)
    → Inv db
    → Inv (rate authorization req db).1
unfolding rate
rate-Inv authorization req db v = elim (Result-cases (authenticate authorization db)) [
  | inr (e, refused) ↦ rw (refused, rate) v
  | inl (m, known) ↦
      rw (known, rate)
        (elim (Bool-cases (ltb_ℤ req.rate_sats_per_min (pos 1))) [
          | inl low ↦ rw low v
          | inr fits ↦
              rw fits (machines-Inv _ (set_rate req.rate_sats_per_min) db (λ _. refl) (λ _. refl) v)
        ])
]

pub heartbeat-Inv :
    (json : CommandCodec) (authorization : Option String) (req : HeartbeatRequest) (now : ℤ)
    (db : Db)
    → Inv db
    → Inv (heartbeat json authorization req now db).1
unfolding heartbeat heartbeat_tx
heartbeat-Inv json authorization req now db v =
    elim (Result-cases (authenticate authorization db)) [
      | inr (e, refused) ↦ rw (refused, heartbeat) v
      | inl (m, known) ↦
          elim (Result-cases (decode_each json (select (pending m.id) db.commands))) [
            | inr (e, bad) ↦ rw (known, heartbeat) (rw bad v)
            | inl (commands, read) ↦
                rw (known, heartbeat)
                  (rw read (machines-Inv _ (touch req now) db (λ _. refl) (λ _. refl) v))
          ]
    ]

pub registered-Inv :
    (token : String) (m : MachineRow) (db : Db)
    → Inv db
    → db.machine_seq < m.id
    → m.payout_balance ≡ pos 0
    → Inv (registered token m db (map_err from_sqlx (insert_machine m db))).1
unfolding insert_machine
registered-Inv token m db v fresh nothing =
    let taken =
      contains m.agent_token (map (λ n. n.agent_token) db.machines)
      || contains m.host_id (map (λ n. n.host_id) db.machines) in
    elim (Bool-cases taken) [
      | inl refused ↦ rw refused v
      | inr free ↦ rw free (machine-Inv m db v fresh nothing)
    ]

-- A registration adds a machine that is owed nothing, or refreshes the one with that host id.
pub register-Inv :
    (token : String) (req : RegisterRequest) (now : ℤ) (db : Db)
    → Inv db
    → Inv (register token req now db).1
unfolding register insert_machine refresh_machine new_machine
register-Inv token req now db v =
    elim (Option-cases (fetch (λ m. m.host_id == req.host_id) db.machines)) [
      | inr (m, known) ↦
          rw (known, register)
            (machines-Inv _ (refresh_machine req now) db (λ _. refl) (λ _. refl) v)
      | inl unknown ↦
          rw (unknown, register)
            (registered-Inv token (new_machine token req now db) db v (omega arith) refl)
    ]
