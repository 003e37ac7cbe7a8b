-- ===== src/ControlPlane/Queues/Histories.antt =====
-- The queues of every database that can be reached, and the heartbeats on them.
use computation_market_poc.Prelude.Key.{nat_eq}
use computation_market_poc.ControlPlane.Db.{Db}
use computation_market_poc.ControlPlane.Codec.{CommandCodec}
use computation_market_poc.ControlPlane.Lightning.{LightningBackend}
use computation_market_poc.ControlPlane.System.{
  Step, create_accounts, deposits, create_rentals, delete_rentals, registers, heartbeats, reports,
  rates, payouts, ticks, Reachable, here, next,
}
use computation_market_poc.ControlPlane.Queues.{Queued}
use computation_market_poc.ControlPlane.Queues.Tenants.{
  create_account-Queued, deposit-Queued, create_rental-Queued, delete_rental-Queued,
}
use computation_market_poc.ControlPlane.Queues.Agents.{
  register-Queued, heartbeat-Queued, report-Queued, rate-Queued, payout-Queued,
}
use computation_market_poc.ControlPlane.Queues.Ticks.{tick-Queued}

module _ (json : CommandCodec) (ln : LightningBackend) where
  Step-Queued : {db db' : Db} → Step json ln db db' → Queued json db → Queued json db'
  Step-Queued {db} (create_accounts id now) q = create_account-Queued json id now db q
  Step-Queued {db} (deposits id req now s) q = deposit-Queued json ln id req now db s q
  Step-Queued {db} (create_rentals req now) q = create_rental-Queued json req now db q
  Step-Queued {db} (delete_rentals id now) q = delete_rental-Queued json id now db q
  Step-Queued {db} (registers token req now) q = register-Queued json token req now db q
  Step-Queued {db} (heartbeats authorization req now) q =
      heartbeat-Queued json authorization req now db q
  Step-Queued {db} (reports authorization req now) q = report-Queued json authorization req now db q
  Step-Queued {db} (rates authorization req) q = rate-Queued json authorization req db q
  Step-Queued {db} (payouts authorization req now s) q =
      payout-Queued json ln authorization req now db s q
  Step-Queued {db} (ticks is_settled cfg now_polling now_marking now_enforcing) q =
      tick-Queued json is_settled cfg now_polling now_marking now_enforcing db q

  -- If requests and ticks run one at a time, then in every database that they reach each queued
  -- payload is the text of a command, and the rows of the table of commands have different numbers.
  pub Reachable-Queued : {db : Db} → Reachable json ln db → Queued json db
  Reachable-Queued here = record { written = tt; distinct = tt; fresh = tt }
  Reachable-Queued (next reached step) = Step-Queued step (Reachable-Queued reached)
