-- ===== src/ControlPlane/Evictions.antt =====
-- `enforce_budgets` of billing.rs: it moves no money, and evicts the tenants who cannot pay.
use computation_market_poc.Prelude.{
  ℕ, suc, ◌++◌, ◌≡◌, refl, sym, ◌∙◌, arith, Bool, true, false, not, ◌&&◌, if◌then◌else◌, List, [],
  ◌∷◌, map, none, some, Result, ok, err, Bool-cases, Option-cases, inl, inr,
}
use computation_market_poc.Prelude.Int.{ℤ, pos, ltb_ℤ, leb_ℤ, int_laws}
use computation_market_poc.Prelude.Word.{sub_i64}
use computation_market_poc.Prelude.Key.{◌==◌, nat_eq, string_eq}
use computation_market_poc.Prelude.Table.{fetch, fetch-contains, update, contains}
use computation_market_poc.Core.Api.{Command}
use computation_market_poc.Core.Model.{LedgerKind, RentalStatus}
use computation_market_poc.ControlPlane.Db.{
  Db, MachineRow, AccountRow, RentalRow, machine_id_of, record_row, queue_command,
}
use computation_market_poc.ControlPlane.State.{BillingConfig, heartbeat_timeout_secs}
use computation_market_poc.ControlPlane.Codec.{CommandCodec}
use computation_market_poc.ControlPlane.Billing.{
  TickError, accrued_charge, commit_or_stop, and_then, set_evicting, evict, enforce_budget,
  enforce_each, enforce_budgets,
}
use computation_market_poc.ControlPlane.Invariant.{booked}
use computation_market_poc.ControlPlane.Invariant.Balances.{booked-record_row}
use computation_market_poc.ControlPlane.Invariant.Statements.{queue_command_lem}

-- The same balances and invoices, and the same sum of the ledger.
abbrev pub SameMoney : Db → Db → Type 0
SameMoney db db' =
    (db'.accounts ≡ db.accounts)
    × (db'.machines ≡ db.machines)
    × (db'.invoices ≡ db.invoices)
    × (booked db'.ledger ≡ booked db.ledger)

less_iff_not : (a b : ℤ) → ltb_ℤ b a ≡ not (leb_ℤ a b)
less_iff_not a b = ground arith

-- The nested tests of the code against one condition.
decided :
    (pays heard : Bool) (db db' : Db)
    → ◌≡◌ {A = Result TickError (Unit {0}) × Db}
        (if not heard then (ok tt, db) else if pays then (ok tt, db) else (ok tt, db'))
        (ok tt, if not pays && heard then db' else db)
decided false false db db' = refl
decided false true db db' = refl
decided true false db db' = refl
decided true true db db' = refl

chained :
    (db0 : Db) (r : Result TickError (Unit {0}) × Db) (rest : Db → Result TickError (Unit {0}) × Db)
    → SameMoney db0 r.1
    → ((db : Db) → SameMoney db0 db → SameMoney db0 (rest db).1)
    → SameMoney db0 (and_then r rest).1
chained db0 (ok _, db) rest h k = k db h
chained db0 (err e, db) rest h k = h

module _ (json : CommandCodec) where
  -- The database with the rental evicted: its row is marked, a command to stop it is queued
  -- behind the others, and a row of the ledger notes it.
  abbrev pub evicted : ℤ → RentalRow → Db → Db
  evicted now r db = record db {
    rentals =
        update (λ s. s.id == r.id)
          (λ (s : RentalRow). record s {
            status = RentalStatus.evicting;
            error = some "insufficient balance";
          })
          db.rentals;
    commands =
        db.commands
        ++ record {
          id = suc db.command_seq;
          machine_id = r.machine_id;
          payload = json.to_string (Command.stop_rental r.id);
          delivered = false;
          created_at = now;
        }
          ∷ [];
    command_seq = suc db.command_seq;
    ledger =
        db.ledger
        ++ record {
          id = suc db.ledger_seq;
          ts = now;
          account_id = some r.account_id;
          machine_id = none;
          rental_id = some r.id;
          delta_sats = pos 0;
          kind = LedgerKind.evict;
          note = some "insufficient balance";
        }
          ∷ [];
    ledger_seq = suc db.ledger_seq;
  }

  evict_lem :
      (now : ℤ) (r : RentalRow) (db : Db)
      → contains r.machine_id (map machine_id_of db.machines) ≡ true
      → evict json now r db ≡ ok (evicted now r db)
  unfolding evict record_row
  evict_lem now r db known =
      let db1 : Db = record db { rentals = update (λ s. s.id == r.id) set_evicting db.rentals } in
      rw (queue_command_lem r.machine_id (json.to_string (Command.stop_rental r.id)) now db1 known)
        refl

  evicted-SameMoney : (now : ℤ) (r : RentalRow) (db : Db) → SameMoney db (evicted now r db)
  unfolding record_row
  evicted-SameMoney now r db = (
    refl,
    refl,
    refl,
    booked-record_row now LedgerKind.evict (pos 0) (some r.account_id) none (some r.id)
          (some "insufficient balance") db
        ∙ omega int_laws,
  )

  evict-SameMoney :
      (now : ℤ) (r : RentalRow) (db0 db : Db)
      → SameMoney db0 db
      → SameMoney db0 (commit_or_stop db (evict json now r db)).1
  unfolding evict queue_command
  evict-SameMoney now r db0 db h =
      elim (Bool-cases (contains r.machine_id (map machine_id_of db.machines))) [
        | inr unknown ↦ rw unknown h
        | inl known ↦
            let same = evicted-SameMoney now r db in
            rw (evict_lem now r db known) (same.0 ∙ h.0, same.1 ∙ h.1, same.2 ∙ h.2, same.3 ∙ h.3)
      ]

  enforce_budget-SameMoney :
      (cfg : BillingConfig) (now : ℤ) (r : RentalRow) (db0 db : Db)
      → SameMoney db0 db
      → SameMoney db0 (enforce_budget json cfg now r db).1
  unfolding enforce_budget
  enforce_budget-SameMoney cfg now r db0 db h =
      elim (Option-cases (fetch (λ m. m.id == r.machine_id) db.machines)) [
        | inl unknown ↦ rw (unknown, enforce_budget) h
        | inr (m, found_m) ↦
            elim (Bool-cases (ltb_ℤ (heartbeat_timeout_secs cfg) (sub_i64 now m.last_heartbeat))) [
              | inl silent ↦ rw (found_m, silent, enforce_budget) h
              | inr heard ↦ elim (Option-cases (fetch (λ a. a.id == r.account_id) db.accounts)) [
                | inl unknown ↦ rw (found_m, heard, unknown, enforce_budget) h
                | inr (a, found_a) ↦
                    rw (found_m, heard, found_a, enforce_budget)
                      (elim (Bool-cases (
                        leb_ℤ (accrued_charge r.created_at now r.rate_sats_per_min)
                          a.balance_sats)) [
                            | inl pays ↦ rw pays h
                            | inr over ↦ rw over (evict-SameMoney now r db0 db h)
                          ])
              ]
            ]
      ]

  enforce_each-SameMoney :
      (cfg : BillingConfig) (now : ℕ → ℤ) (running : List RentalRow) (db0 db : Db)
      → SameMoney db0 db
      → SameMoney db0 (enforce_each json cfg now running db).1
  unfolding enforce_each
  enforce_each-SameMoney cfg now [] db0 db h = h
  enforce_each-SameMoney cfg now (r ∷ running) db0 db h =
      chained db0 (enforce_budget json cfg (now r.id) r db)
        (λ db'. enforce_each json cfg now running db')
        (enforce_budget-SameMoney cfg (now r.id) r db0 db h)
        (λ db' h'. enforce_each-SameMoney cfg now running db0 db' h')

  -- The check of the budgets moves no money, whatever it evicts and wherever it stops: the accounts,
  -- the machines with what they are owed, and the invoices stay, and the ledger's sum too.
  pub enforce_budgets-SameMoney :
      (cfg : BillingConfig) (now : ℕ → ℤ) (db : Db)
      → SameMoney db (enforce_budgets json cfg now db).1
  unfolding enforce_budgets
  enforce_budgets-SameMoney cfg now db =
      enforce_each-SameMoney cfg now _ db db (refl, refl, refl, refl)

  -- For a rental whose machine and account are known, the check of its budget succeeds. Exactly if
  -- the host was heard of within the timeout and the accrued charge is more than the account holds,
  -- the rental's row is set to evicting for want of balance, a command to stop it is queued and the
  -- ledger notes the eviction. Otherwise nothing changes.
  pub enforce_budget-evicts :
      (cfg : BillingConfig) (now : ℤ) (r : RentalRow) (m : MachineRow) (a : AccountRow) (db : Db)
      → fetch (λ n. n.id == r.machine_id) db.machines ≡ some m
      → fetch (λ b. b.id == r.account_id) db.accounts ≡ some a
      → enforce_budget json cfg now r db ≡ (
        ok tt,
        if ltb_ℤ a.balance_sats (accrued_charge r.created_at now r.rate_sats_per_min)
              && leb_ℤ (sub_i64 now m.last_heartbeat) (heartbeat_timeout_secs cfg)
            then evicted now r db
            else db,
      )
  unfolding enforce_budget
  enforce_budget-evicts cfg now r m a db found_m found_a =
      let known = sym (fetch-contains machine_id_of r.machine_id db.machines) ∙ rw found_m refl in
      let charge = accrued_charge r.created_at now r.rate_sats_per_min in
      let silence = sub_i64 now m.last_heartbeat in
      let timeout = heartbeat_timeout_secs cfg in
      rw
        (
          found_m,
          found_a,
          evict_lem now r db known,
          less_iff_not charge a.balance_sats,
          less_iff_not silence timeout,
          enforce_budget,
        )
        (decided (leb_ℤ charge a.balance_sats) (leb_ℤ silence timeout) db (evicted now r db))
