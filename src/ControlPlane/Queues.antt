-- ===== src/ControlPlane/Queues.antt =====
-- What holds of the table `commands` between two requests, and the statements that keep it.
pub mod Tenants
pub mod Agents
pub mod Ticks
pub mod Histories
use computation_market_poc.Prelude.{
  ℕ, suc, ◌≡◌, ◌≤◌, refl, sym, Bool, String, List, [], ◌∷◌, ◌++◌, map, Result, ok, err, ◌>>=◌,
  map_err, arith, Bool-cases, inl, inr,
}
use mathlib.Core.Path.{subst}
use computation_market_poc.Prelude.Int.{ℤ}
use computation_market_poc.Prelude.Key.{nat_eq}
use computation_market_poc.Prelude.Table.{
  All, All-append, All-map, All-update, Distinct, contains, map-update, update,
}
use computation_market_poc.Core.Api.{Command}
use computation_market_poc.ControlPlane.Error.{ApiError, SqlxError}
use computation_market_poc.ControlPlane.Db.{
  Db, CommandRow, machine_id_of, with_command, queue_command,
}
use computation_market_poc.ControlPlane.Codec.{CommandCodec}
use computation_market_poc.ControlPlane.Billing.{TickError, commit_or_stop, and_then}
use computation_market_poc.ControlPlane.Routes.Auth.{Reply, commit}
use computation_market_poc.ControlPlane.Routes.Agent.{mark_delivered, deliver_each}
use computation_market_poc.ControlPlane.Delivery.{command_id_of, is_among, deliver_each_lem}
use computation_market_poc.ControlPlane.Delivery.Heartbeats.{Written}
use computation_market_poc.ControlPlane.Invariant.Inserts.{Distinct-snoc, fresh_missing}

-- The payloads were written by a handler, and the rows are numbered without repetition.
pub record Queue (json : CommandCodec) (commands : List CommandRow) (seq : ℕ) : Type 0 where
  pub written : All (Written json) commands
  pub distinct : Distinct (map command_id_of commands)
  pub fresh : All (λ c. c.id ≤ seq) commands

-- A fallible statement whose result, if there is one, has the property.
abbrev pub Kept : {E A : Type 0} → (A → Type 0) → Result E A → Type 0
Kept P (ok a) = P a
Kept P (err e) = Unit

pub Kept->>= :
    {E A B : Type 0} (P : A → Type 0) (Q : B → Type 0) (m : Result E A) (f : A → Result E B)
    → Kept P m
    → ((a : A) → P a → Kept Q (f a))
    → Kept Q (m >>= f)
Kept->>= P Q (ok a) f h k = k a h
Kept->>= P Q (err e) f h k = tt

pub Kept-map_err :
    {E F A : Type 0} (P : A → Type 0) (f : E → F) (m : Result E A) → Kept P m → Kept P (map_err f m)
Kept-map_err P f (ok a) h = h
Kept-map_err P f (err e) h = tt

module _ (json : CommandCodec) where
  abbrev pub Queued : Db → Type 0
  Queued db = Queue json db.commands db.command_seq

  pub commit-Queued :
      {A : Type 0} (db : Db) (r : Result ApiError (A × Db))
      → Queued db
      → Kept (λ s. Queued s.1) r
      → Queued (commit db r).1
  commit-Queued db (ok (a, db')) q h = h
  commit-Queued db (err e) q h = q

  pub commit_or_stop-Queued :
      (db : Db) (r : Result SqlxError Db)
      → Queued db
      → Kept Queued r
      → Queued (commit_or_stop db r).1
  commit_or_stop-Queued db (ok db') q h = h
  commit_or_stop-Queued db (err e) q h = q

  pub and_then-Queued :
      (r : Result TickError (Unit {0}) × Db) (rest : Db → Result TickError (Unit {0}) × Db)
      → Queued r.1
      → ((db : Db) → Queued db → Queued (rest db).1)
      → Queued (and_then r rest).1
  and_then-Queued (ok _, db) rest q k = k db q
  and_then-Queued (err e, db) rest q k = q

  pub queue_command-Queued :
      (machine : ℕ) (command : Command) (now : ℤ) (db : Db)
      → Queued db
      → Kept Queued (queue_command machine (json.to_string command) now db)
  unfolding queue_command
  queue_command-Queued machine command now db q =
      elim (Bool-cases (contains machine (map machine_id_of db.machines))) [
        | inr unknown ↦ rw unknown tt
        | inl known ↦ rw known (record {
          written = All-append (Written json) db.commands q.written (command, refl);
          distinct = Distinct-snoc command_id_of db.commands _ q.distinct (
              fresh_missing command_id_of db.command_seq (suc db.command_seq) db.commands q.fresh
                (omega arith));
          fresh =
              All-append _ db.commands (All-map _ (λ c h. omega arith) db.commands q.fresh)
                (omega arith);
        })
      ]

  pub deliver_each-Queue :
      (rows commands : List CommandRow) (seq : ℕ)
      → Queue json commands seq
      → Queue json (deliver_each rows commands) seq
  deliver_each-Queue rows commands seq q = rw (deliver_each_lem rows commands) (record {
    written =
        All-update (Written json) (is_among rows) mark_delivered (λ c _ w. w) commands q.written;
    distinct =
        rw (map-update command_id_of (is_among rows) mark_delivered (λ _. refl) commands)
          q.distinct;
    fresh =
        All-update (λ c. c.id ≤ seq) (is_among rows) mark_delivered (λ c _ h. h) commands q.fresh;
  })
