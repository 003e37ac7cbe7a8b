-- ===== src/ControlPlane/Completion.antt =====
-- A tick of billing.rs comes to its end.
use computation_market_poc.Prelude.{
  ℕ, ◌≡◌, refl, ap, ◌∙◌, Bool, String, List, [], ◌∷◌, Result, ok, err,
}
use computation_market_poc.Prelude.Int.{ℤ}
use computation_market_poc.Prelude.Table.{All, All-select}
use computation_market_poc.ControlPlane.Db.{Db, RentalRow}
use computation_market_poc.ControlPlane.State.{BillingConfig}
use computation_market_poc.ControlPlane.Codec.{CommandCodec}
use computation_market_poc.ControlPlane.Billing.{
  TickError, and_then, poll_invoices, mark_offline, enforce_budget, enforce_each, enforce_budgets,
  tick,
}
use computation_market_poc.ControlPlane.Invariant.{Inv, RentalLinked}
use computation_market_poc.ControlPlane.Invariant.Statements.{
  fetch_account, fetch_machine, machines-Inv,
}
use computation_market_poc.ControlPlane.Invariant.Ticker.{Within, enforce_budget-Runs}
use computation_market_poc.ControlPlane.Deposits.{poll_invoices-credits}
use computation_market_poc.ControlPlane.Evictions.{enforce_budget-evicts}

goes_on :
    (r : Result TickError (Unit {0}) × Db) (rest : Db → Result TickError (Unit {0}) × Db)
    → r.0 ≡ ok tt
    → and_then r rest ≡ rest r.1
goes_on (ok _, db) rest h = refl
goes_on (err e, db) rest h = cc

module _ (json : CommandCodec) (cfg : BillingConfig) (machines : List ℕ)
    (accounts : List String) where
  enforce_each-completes :
      (now : ℕ → ℤ) (running : List RentalRow) (db : Db)
      → Within machines accounts db
      → All (RentalLinked machines accounts) running
      → (enforce_each json cfg now running db).0 ≡ ok tt
  unfolding enforce_each
  enforce_each-completes now [] db h linked = refl
  enforce_each-completes now (r ∷ running) db h linked =
      let (m, found_m) = fetch_machine r.machine_id db (rw h.1 linked.0.0) in
      let (a, found_a) = fetch_account r.account_id db (rw h.2 linked.0.1) in
      let step = enforce_budget json cfg (now r.id) r db in
      let runs : step.0 ≡ ok tt =
        ap (λ x. x.0) (enforce_budget-evicts json cfg (now r.id) r m a db found_m found_a) in
      let after = enforce_budget-Runs machines accounts json cfg (now r.id) r db h linked.0 in
      ap (λ x. x.0) (goes_on step (λ db'. enforce_each json cfg now running db') runs)
      ∙ enforce_each-completes now running step.1 after.1 linked.1

-- If the invariant holds and the Lightning backend answers for every invoice, a tick runs to its
-- end without an error, however the clock runs meanwhile.
pub tick-completes :
    (json : CommandCodec) (paid : String → Bool) (cfg : BillingConfig) (now_polling : String → ℤ)
    (now_marking : ℤ) (now_enforcing : ℕ → ℤ) (db : Db)
    → Inv db
    → (tick json (λ h. ok (paid h)) cfg now_polling now_marking now_enforcing db).0 ≡ ok tt
unfolding tick enforce_budgets mark_offline
tick-completes json paid cfg now_polling now_marking now_enforcing db v =
    let round = poll_invoices (λ h. ok (paid h)) now_polling db in
    let (runs, v', more, hosts) = poll_invoices-credits paid now_polling db v in
    let offline : Inv (mark_offline cfg now_marking round.1) =
      machines-Inv _ _ round.1 (λ _. refl) (λ _. refl) v' in
    ap (λ x. x.0)
      (goes_on round
        (λ db'. enforce_budgets json cfg now_enforcing (mark_offline cfg now_marking db')) runs)
    ∙ enforce_each-completes json cfg _ _ now_enforcing _ (mark_offline cfg now_marking round.1)
        (offline, refl, refl) (All-select _ _ round.1.rentals offline.rentals_linked)
