-- ===== src/ControlPlane/Delivery.antt =====
-- `heartbeat` of routes/agent.rs: the queue of commands is drained in order, each command once.
pub mod Heartbeats
use computation_market_poc.Prelude.{
  ℕ, ◌≡◌, refl, sym, ap, ◌∙◌, Bool, true, false, not, ◌&&◌, ◌||◌, List, [], ◌∷◌, map, Result, ok,
  Bool-cases, inl, inr, ◌>>=◌, ok_or, arith, if◌then◌else◌, String, Option,
}
use mathlib.Core.Path.{subst}
use computation_market_poc.Prelude.Int.{ℤ}
use computation_market_poc.Prelude.Key.{◌==◌, nat_eq, ==_refl}
use computation_market_poc.Prelude.Table.{All, Distinct, contains, select, update}
use computation_market_poc.Core.Api.{Command, HeartbeatRequest}
use computation_market_poc.ControlPlane.Db.{Db, CommandRow, MachineRow}
use computation_market_poc.ControlPlane.Codec.{CommandCodec}
use computation_market_poc.ControlPlane.Routes.Agent.{
  mark_delivered, pending, deliver_each, decode_each,
}

abbrev pub command_id_of : CommandRow → ℕ
command_id_of c = c.id

-- A row that is among the given ones, by its number.
abbrev pub is_among : List CommandRow → CommandRow → Bool
is_among [] c = false
is_among (row ∷ rows) c = c.id == row.id || is_among rows c

update_none : (cs : List CommandRow) → update (is_among []) mark_delivered cs ≡ cs
unfolding update
update_none [] = refl
update_none (c ∷ cs) = ap (λ rest. c ∷ rest) (update_none cs)

among-marked :
    (rows : List CommandRow) (c : CommandRow) → is_among rows (mark_delivered c) ≡ is_among rows c
among-marked [] c = refl
among-marked (row ∷ rows) c = rw (among-marked rows c) refl

update_both :
    (row : CommandRow) (rows cs : List CommandRow)
    → update (is_among rows) mark_delivered (update (λ c. c.id == row.id) mark_delivered cs)
      ≡ update (is_among (row ∷ rows)) mark_delivered cs
unfolding update
update_both row rows [] = refl
update_both row rows (c ∷ cs) = elim (Bool-cases (c.id == row.id)) [
  | inl hit ↦ elim (Bool-cases (is_among rows c)) [
    | inl more ↦ rw (hit, among-marked rows c, more, update_both row rows cs) refl
    | inr other ↦ rw (hit, among-marked rows c, other, update_both row rows cs) refl
  ]
  | inr miss ↦ rw (miss, update_both row rows cs) refl
]

-- One UPDATE for each row is one UPDATE for all of them.
pub deliver_each_lem :
    (rows commands : List CommandRow)
    → deliver_each rows commands ≡ update (is_among rows) mark_delivered commands
unfolding deliver_each
deliver_each_lem [] commands = sym (update_none commands)
deliver_each_lem (row ∷ rows) commands =
    deliver_each_lem rows (update (λ c. c.id == row.id) mark_delivered commands)
    ∙ update_both row rows commands

-- Every row that waits for the machine is among those that are read.
among-weaken :
    (q : CommandRow → Bool) (row : CommandRow) (rows cs : List CommandRow)
    → All (λ c. q c ≡ true → is_among rows c ≡ true) cs
    → All (λ c. q c ≡ true → is_among (row ∷ rows) c ≡ true) cs
among-weaken q row rows [] h = tt
among-weaken q row rows (c ∷ cs) h =
    ((λ waits. let found = h.0 waits in ground arith), among-weaken q row rows cs h.1)

select-hit :
    (q : CommandRow → Bool) (c : CommandRow) (cs : List CommandRow)
    → q c ≡ true
    → select q (c ∷ cs) ≡ c ∷ select q cs
unfolding select
select-hit q c cs h = rw h refl

select-miss :
    (q : CommandRow → Bool) (c : CommandRow) (cs : List CommandRow)
    → q c ≡ false
    → select q (c ∷ cs) ≡ select q cs
unfolding select
select-miss q c cs h = rw h refl

pub among-select :
    (q : CommandRow → Bool) (cs : List CommandRow)
    → All (λ c. q c ≡ true → is_among (select q cs) c ≡ true) cs
among-select q [] = tt
among-select q (c ∷ cs) =
    let within : List CommandRow → Type 0 =
      λ rows. All (λ d. q d ≡ true → is_among rows d ≡ true) (c ∷ cs) in
    elim (Bool-cases (q c)) [
      | inl hit ↦
          subst within (sym (select-hit q c cs hit))
            ((λ _. rw (==_refl c.id) refl), among-weaken q c (select q cs) cs (among-select q cs))
      | inr miss ↦ subst within (sym (select-miss q c cs miss)) ((λ waits. cc), among-select q cs)
    ]

-- A row that does not wait for the machine is not among those that are read.
fresh_ids :
    (id : ℕ) (cs : List CommandRow)
    → contains id (map command_id_of cs) ≡ false
    → All (λ c. (c.id == id) ≡ false) cs
fresh_ids id [] h = tt
fresh_ids id (c ∷ cs) h = (ground arith, fresh_ids id cs (ground arith))

not_among :
    (q : CommandRow → Bool) (c : CommandRow) (cs : List CommandRow)
    → contains c.id (map command_id_of cs) ≡ false
    → is_among (select q cs) c ≡ false
unfolding select
not_among q c [] h = refl
not_among q c (d ∷ cs) h = elim (Bool-cases (q d)) [
  | inl hit ↦
      let other : (c.id == d.id) ≡ false = ground arith in
      rw (hit, not_among q c cs (ground arith), other) refl
  | inr miss ↦ rw miss (not_among q c cs (ground arith))
]

among-other :
    (q p : CommandRow → Bool) (row : CommandRow) (rows cs : List CommandRow)
    → All (λ c. (c.id == row.id) ≡ false) cs
    → All (λ c. p c ≡ true → is_among rows c ≡ false) cs
    → All (λ c. p c ≡ true → is_among (row ∷ rows) c ≡ false) cs
among-other q p row rows [] n h = tt
among-other q p row rows (c ∷ cs) n h =
    ((λ waits. rw (n.0, h.0 waits) refl), among-other q p row rows cs n.1 h.1)

pub not_among_select :
    (q p : CommandRow → Bool) (cs : List CommandRow)
    → Distinct (map command_id_of cs)
    → ((c : CommandRow) → p c ≡ true → q c ≡ false)
    → All (λ c. p c ≡ true → is_among (select q cs) c ≡ false) cs
not_among_select q p [] d out = tt
not_among_select q p (c ∷ cs) d out =
    let without : List CommandRow → Type 0 =
      λ rows. All (λ d. p d ≡ true → is_among rows d ≡ false) (c ∷ cs) in
    elim (Bool-cases (q c)) [
      | inl hit ↦ subst without (sym (select-hit q c cs hit)) (
        (λ waits. let never = out c waits in cc),
        among-other q p c (select q cs) cs (fresh_ids c.id cs d.0)
            (not_among_select q p cs d.1 out),
      )
      | inr miss ↦
          subst without (sym (select-miss q c cs miss))
            ((λ _. not_among q c cs d.0), not_among_select q p cs d.1 out)
    ]

-- After the update nothing waits for the machine.
pub drained :
    (machine : ℕ) (rows cs : List CommandRow)
    → All (λ c. pending machine c ≡ true → is_among rows c ≡ true) cs
    → select (pending machine) (update (is_among rows) mark_delivered cs) ≡ []
unfolding select update
drained machine rows [] h = refl
drained machine rows (c ∷ cs) h = elim (Bool-cases (is_among rows c)) [
  | inl hit ↦ rw (hit, drained machine rows cs h.1) (ground arith)
  | inr miss ↦
      let out : pending machine c ≡ false = ground arith in
      rw (miss, drained machine rows cs h.1, out) refl
]

-- The queue of another machine is left as it is.
pub undisturbed :
    (machine : ℕ) (rows cs : List CommandRow)
    → All (λ c. pending machine c ≡ true → is_among rows c ≡ false) cs
    → select (pending machine) (update (is_among rows) mark_delivered cs)
      ≡ select (pending machine) cs
unfolding select update
undisturbed machine rows [] h = refl
undisturbed machine rows (c ∷ cs) h = elim (Bool-cases (is_among rows c)) [
  | inl hit ↦
      let out : pending machine c ≡ false = ground arith in
      rw (hit, undisturbed machine rows cs h.1, out) (ground arith)
  | inr miss ↦ rw (miss, undisturbed machine rows cs h.1) refl
]
