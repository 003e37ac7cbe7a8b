-- ===== src/ControlPlane/Admission.antt =====
-- `create_rental` of routes/tenant.rs: who is let in, and what a new rental is.
use computation_market_poc.Prelude.{
  suc, ◌≡◌, ◌↔◌, refl, ◌∙◌, sym, true, false, String, [], ◌∷◌, ◌++◌, map, Option, none, some,
  Result, ok, ◌>>◌, fail_if, not, is_some, Bool-cases, Option-cases, Result-cases, inl, inr, arith,
}
use computation_market_poc.Prelude.Int.{ℤ, pos, ◌≤ℤ◌, ltb_ℤ}
use computation_market_poc.Prelude.Key.{◌==◌, nat_eq, string_eq}
use computation_market_poc.Prelude.Table.{fetch, contains, fetch-contains}
use computation_market_poc.Core.Api.{CreateRentalRequest, CreateRentalResponse, Command}
use computation_market_poc.Core.Model.{RentalStatus, RentalKind}
use computation_market_poc.ControlPlane.Error.{ApiError}
use computation_market_poc.ControlPlane.Db.{
  Db, MachineRow, AccountRow, RentalRow, CommandRow, machine_id_of, account_id_of, insert_rental,
  queue_command,
}
use computation_market_poc.ControlPlane.Codec.{CommandCodec}
use computation_market_poc.ControlPlane.Routes.Tenant.{
  create_check, create_insert, create_rental, new_rental, rental_key, occupies,
}

-- The machine and the account are known, the key is given where it has to be, the machine is online
-- and idle, and the account pays for a minute at least.
pub record Admitted (req : CreateRentalRequest) (db : Db) (m : MachineRow) (a : AccountRow)
    (key : String) : Type 0 where
  pub machine : fetch (λ n. n.id == req.machine_id) db.machines ≡ some m
  pub account : fetch (λ b. b.id == req.account_id) db.accounts ≡ some a
  pub ssh_key : rental_key req.ssh_pubkey req.image ≡ ok key
  pub is_online : m.online ≡ true
  pub is_idle : fetch (occupies req.machine_id) db.rentals ≡ none
  pub pays_a_minute : m.rate_sats_per_min ≤ℤ a.balance_sats

module _ (req : CreateRentalRequest) (db : Db) (m : MachineRow) (a : AccountRow)
    (key : String) where
  admitted : Admitted req db m a key → create_check req db ≡ ok (m, a, key)
  unfolding create_check
  admitted h =
      let funded : ltb_ℤ a.balance_sats m.rate_sats_per_min ≡ false =
        ground (arith, h.pays_a_minute) in
      rw (h.machine, h.account, h.ssh_key, h.is_online, h.is_idle, funded) refl

-- The last three checks.
checks_pass :
    (n : MachineRow) (b : AccountRow) (rented : Option RentalRow) (e1 e2 e3 : ApiError)
    (rest : Result ApiError (MachineRow × AccountRow × String))
    (found : MachineRow × AccountRow × String)
    → (fail_if (not n.online) e1
        >> (fail_if (is_some rented) e2
            >> (fail_if (ltb_ℤ b.balance_sats n.rate_sats_per_min) e3 >> rest)))
      ≡ ok found
    → (n.online ≡ true)
      × (rented ≡ none)
      × (n.rate_sats_per_min ≤ℤ b.balance_sats)
      × (rest ≡ ok found)
checks_pass n b rented e1 e2 e3 rest found h = elim (Bool-cases n.online) [
  | inr off ↦ let bad = rw off at h in cc
  | inl on ↦ elim (Option-cases rented) [
    | inr (r, busy) ↦ let bad = rw (on, busy) at h in cc
    | inl idle ↦ elim (Bool-cases (ltb_ℤ b.balance_sats n.rate_sats_per_min)) [
      | inl broke ↦ let bad = rw (on, idle, broke) at h in cc
      | inr funded ↦ (on, idle, ground arith, rw (on, idle, funded) at h)
    ]
  ]
]

module _ (req : CreateRentalRequest) (db : Db) (m : MachineRow) (a : AccountRow)
    (key : String) where
  checked : create_check req db ≡ ok (m, a, key) → Admitted req db m a key
  unfolding create_check
  checked h = elim (Option-cases (fetch (λ n. n.id == req.machine_id) db.machines)) [
    | inl unknown ↦ let bad = rw unknown at h in cc
    | inr (n, is_m) ↦ elim (Option-cases (fetch (λ b. b.id == req.account_id) db.accounts)) [
      | inl unknown ↦ let bad = rw (is_m, unknown) at h in cc
      | inr (b, is_a) ↦ elim (Result-cases (rental_key req.ssh_pubkey req.image)) [
        | inr (e, no_key) ↦ let bad = rw (is_m, is_a, no_key) at h in cc
        | inl (k, is_key) ↦
            let (on, idle, funded, same) =
              checks_pass n b (fetch (occupies req.machine_id) db.rentals) _ _ _ (ok (n, b, k))
                (m, a, key) (rw (is_m, is_a, is_key) at h) in
            let same_m : n ≡ m = cc in
            let same_a : b ≡ a = cc in
            let same_key : k ≡ key = cc in
            record {
              machine = rw (← same_m) is_m;
              account = rw (← same_a) is_a;
              ssh_key = rw (← same_key) is_key;
              is_online = rw (← same_m) on;
              is_idle = idle;
              pays_a_minute = rw (← same_m, ← same_a) funded;
            }
      ]
    ]
  ]

  -- A rental is let in exactly if its machine is known, online and idle, its account is known and
  -- holds a minute's rate at least, and it has a key or an image that needs none.
  pub create_check-Admitted_iff : (create_check req db ≡ ok (m, a, key)) ↔ Admitted req db m a key
  create_check-Admitted_iff = (checked, admitted req db m a key)

module _ (json : CommandCodec) (req : CreateRentalRequest) (now : ℤ) (db : Db) (m : MachineRow)
    (a : AccountRow) (key : String) where
  -- The row of a rental that is let in, column by column.
  abbrev pub admitted_row : RentalRow
  admitted_row = record {
    id = suc db.rental_seq;
    machine_id = req.machine_id;
    account_id = req.account_id;
    image = req.image;
    ssh_pubkey = key;
    status = RentalStatus.provisioning;
    kind = RentalKind.ssh;
    ssh_host = none;
    ssh_port = none;
    container_id = none;
    error = none;
    rate_sats_per_min = m.rate_sats_per_min;
    sats_charged = pos 0;
    minutes_billed = pos 0;
    paid_through = pos 0;
    created_at = now;
    ended_at = none;
  }

  -- The command that is queued for its host.
  abbrev pub start_command : CommandRow
  start_command = record {
    id = suc db.command_seq;
    machine_id = req.machine_id;
    payload = json.to_string (Command.start_rental (suc db.rental_seq) req.image key);
    delivered = false;
    created_at = now;
  }

  -- What the control plane holds once the rental is let in.
  abbrev pub let_in : Db
  let_in = record db {
    rentals = db.rentals ++ admitted_row ∷ [];
    rental_seq = suc db.rental_seq;
    commands = db.commands ++ start_command ∷ [];
    command_seq = suc db.command_seq;
  }

  abbrev pub accepted : CreateRentalResponse
  accepted = record {
    rental_id = suc db.rental_seq;
    status = RentalStatus.provisioning;
    rate_sats_per_min = m.rate_sats_per_min;
  }

  inserted :
      contains req.machine_id (map machine_id_of db.machines) ≡ true
      → contains req.account_id (map account_id_of db.accounts) ≡ true
      → create_insert json req m key now db ≡ ok (accepted, let_in)
  unfolding create_insert insert_rental new_rental queue_command
  inserted known_m known_a = rw (known_m, known_a, known_m) refl

  -- A rental that is let in gets the next number, the machine's rate of that moment and the time
  -- of the request, and is provisioning with nothing charged. Its command to start is queued behind
  -- the others, in the same transaction, and accounts, machines and ledger are not touched.
  pub create_rental-admits :
      Admitted req db m a key → create_rental json req now db ≡ (ok accepted, let_in)
  unfolding create_rental
  create_rental-admits h =
      let known_m =
        sym (fetch-contains machine_id_of req.machine_id db.machines) ∙ rw h.machine refl in
      let known_a =
        sym (fetch-contains account_id_of req.account_id db.accounts) ∙ rw h.account refl in
      rw (admitted req db m a key h, inserted known_m known_a) refl
