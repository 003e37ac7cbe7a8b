-- ===== src/ControlPlane/Invariant/Movements.antt =====
-- The three movements of money keep the invariant: a deposit, a charge and a payout.
use computation_market_poc.Prelude.{
  ℕ, ◌≤◌, ◌≡◌, refl, ap, ◌∙◌, String, List, map, none, some, arith,
}
use computation_market_poc.Prelude.Int.{ℤ, pos, ◌+ℤ◌, ◌-ℤ◌, ◌≤ℤ◌, int_laws}
use computation_market_poc.Prelude.Key.{◌==◌, nat_eq, string_eq}
use computation_market_poc.Prelude.Table.{
  All, All-update, All-update_key, All-fetch, fetch, update, map-update,
}
use computation_market_poc.Core.Model.{LedgerKind}
use computation_market_poc.ControlPlane.Db.{
  Db, MachineRow, AccountRow, LedgerRow, machine_id_of, account_id_of, record_row, record_charge,
  add_balance,
}
use computation_market_poc.ControlPlane.Routes.Agent.{add_payout, clear_payout}
use computation_market_poc.ControlPlane.Invariant.Books.{Inv, held, owed, booked}
use computation_market_poc.ControlPlane.Invariant.Balances.{
  booked-record_row, booked-record_charge, held-add_balance, owed-add_payout, owed-clear_payout,
}

-- New balances under the old keys keep the invariant, if the new ledger accounts for them.
rebalanced :
    (accounts : List AccountRow) (machines : List MachineRow) (ledger : List LedgerRow) (db : Db)
    → Inv db
    → map account_id_of accounts ≡ map account_id_of db.accounts
    → map machine_id_of machines ≡ map machine_id_of db.machines
    → All (λ a. pos 0 ≤ℤ a.balance_sats) accounts
    → All (λ m. m.id ≤ db.machine_seq) machines
    → All (λ m. pos 0 ≤ℤ m.payout_balance) machines
    → booked ledger ≡ held accounts +ℤ owed machines
    → Inv (record db { accounts = accounts; machines = machines; ledger = ledger })
rebalanced accounts machines ledger db v same_a same_m solvent fresh creditors balanced = record {
  machine_keys = rw same_m v.machine_keys;
  account_keys = rw same_a v.account_keys;
  rental_keys = v.rental_keys;
  machine_fresh = fresh;
  rental_fresh = v.rental_fresh;
  solvent = solvent;
  creditors = creditors;
  rentals_linked = rw (same_m, same_a) v.rentals_linked;
  invoices_linked = rw same_a v.invoices_linked;
  balanced = balanced;
}

module _ (account : String) (d : ℤ) (a : AccountRow) (db : Db) (v : Inv db)
    (found : fetch (λ b. b.id == account) db.accounts ≡ some a)
    (bears : pos 0 ≤ℤ a.balance_sats +ℤ d) where
  moved_keys :
      map account_id_of (update (λ b. b.id == account) (add_balance d) db.accounts)
      ≡ map account_id_of db.accounts
  moved_keys = map-update account_id_of _ (add_balance d) (λ _. refl) db.accounts

  moved_solvent :
      All (λ b. pos 0 ≤ℤ b.balance_sats) (update (λ b. b.id == account) (add_balance d) db.accounts)
  moved_solvent =
      All-update_key account_id_of _ account (add_balance d) db.accounts a v.account_keys found
        bears v.solvent

-- A deposit: the account rises by what the ledger records.
pub deposit-Inv :
    (account : String) (sats ts : ℤ) (a : AccountRow) (db : Db)
    → Inv db
    → fetch (λ b. b.id == account) db.accounts ≡ some a
    → pos 0 ≤ℤ sats
    → Inv (
        record_row ts LedgerKind.deposit sats
          (some account)
          none
          none
          (some "deposit")
          (record db { accounts = update (λ b. b.id == account) (add_balance sats) db.accounts }))
unfolding record_row
deposit-Inv account sats ts a db v found positive =
    let nonneg = All-fetch (λ b. pos 0 ≤ℤ b.balance_sats) _ db.accounts a v.solvent found in
    let bears : pos 0 ≤ℤ a.balance_sats +ℤ sats = omega (int_laws, nonneg) in
    rebalanced _ db.machines _ db v (moved_keys account sats a db v found bears) refl
      (moved_solvent account sats a db v found bears) v.machine_fresh v.creditors
      (rw (held-add_balance account sats db.accounts a v.account_keys found) (
        booked-record_row ts LedgerKind.deposit sats (some account) none none (some "deposit") db
        ∙ ap (λ h. h +ℤ sats) v.balanced
        ∙ omega int_laws))

-- A charge: what the tenant pays is what the host is owed.
pub charge-Inv :
    (account : String) (machine rental : ℕ) (ts charge : ℤ) (a : AccountRow) (m : MachineRow)
    (db : Db)
    → Inv db
    → fetch (λ b. b.id == account) db.accounts ≡ some a
    → fetch (λ n. n.id == machine) db.machines ≡ some m
    → charge ≤ℤ a.balance_sats
    → pos 0 ≤ℤ charge
    → Inv (
        record_charge ts account machine rental charge (record db {
          accounts = update (λ b. b.id == account) (add_balance (pos 0 -ℤ charge)) db.accounts;
          machines = update (λ n. n.id == machine) (add_payout charge) db.machines;
        }))
unfolding record_charge record_row
charge-Inv account machine rental ts charge a m db v found_a found_m covered positive =
    let bears : pos 0 ≤ℤ a.balance_sats +ℤ (pos 0 -ℤ charge) = omega (int_laws, covered) in
    rebalanced _ _ _ db v (moved_keys account (pos 0 -ℤ charge) a db v found_a bears)
      (map-update machine_id_of _ (add_payout charge) (λ _. refl) db.machines)
      (moved_solvent account (pos 0 -ℤ charge) a db v found_a bears)
      (All-update _ _ (add_payout charge) (λ _ _ h. h) db.machines v.machine_fresh)
      (All-update _ _ (add_payout charge) (λ _ _ h. omega (int_laws, h, positive)) db.machines
        v.creditors)
      (rw
        (
          held-add_balance account (pos 0 -ℤ charge) db.accounts a v.account_keys found_a,
          owed-add_payout machine charge db.machines m v.machine_keys found_m,
        )
        (booked-record_charge ts account machine rental charge db ∙ v.balanced ∙ omega int_laws))

-- A payout: the host's balance leaves the books, and the ledger records it.
pub payout-Inv :
    (machine : ℕ) (ts : ℤ) (m : MachineRow) (db : Db)
    → Inv db
    → fetch (λ n. n.id == machine) db.machines ≡ some m
    → Inv (
        record_row ts LedgerKind.payout
          (pos 0 -ℤ m.payout_balance)
          none
          (some machine)
          none
          (some "payout")
          (record db { machines = update (λ n. n.id == machine) clear_payout db.machines }))
unfolding record_row
payout-Inv machine ts m db v found =
    rebalanced db.accounts _ _ db v refl
      (map-update machine_id_of _ clear_payout (λ _. refl) db.machines) v.solvent
      (All-update _ _ clear_payout (λ _ _ h. h) db.machines v.machine_fresh)
      (All-update _ _ clear_payout (λ _ _ h. omega arith) db.machines v.creditors)
      (rw (owed-clear_payout machine db.machines m v.machine_keys found) (
        booked-record_row ts LedgerKind.payout (pos 0 -ℤ m.payout_balance) none (some machine) none
          (some "payout") db
        ∙ ap (λ h. h +ℤ (pos 0 -ℤ m.payout_balance)) v.balanced
        ∙ omega int_laws))
