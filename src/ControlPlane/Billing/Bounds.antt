-- ===== src/ControlPlane/Billing/Bounds.antt =====
-- The prorated charge against the exact quotient, and its order.
use computation_market_poc.Prelude.{ℕ, ◌+◌, ◌-◌, ◌*◌, ◌/◌, ◌^◌, ◌≤◌, ◌<◌, ◌≡◌, ap, ◌∙◌, arith}
use computation_market_poc.Prelude.Int.{ℤ, pos, negsuc, pos_part, ◌-ℤ◌, ◌*ℤ◌, div, max_ℤ}
use computation_market_poc.Prelude.Word.{InRange, wrap, wrap_of_InRange}
use computation_market_poc.ControlPlane.Billing.Charge.{accrued_charge}

-- Seconds from `start` to `end`, none if the clock went backwards.
abbrev pub elapsed : ℤ → ℤ → ℕ
elapsed start end = pos_part (end -ℤ start)

-- No intermediate result leaves the `i64`s.
pub record Fits (start end : ℤ) (rate : ℕ) : Type 0 where
  pub interval : InRange (end -ℤ start)
  pub product : elapsed start end * rate ≤ 2 ^ 63 - 1

max-zero : (a : ℤ) → max_ℤ a (pos 0) ≡ pos (pos_part a)
max-zero (pos n) = ground arith
max-zero (negsuc n) = ground arith

pos-mul : (m n : ℕ) → pos m *ℤ pos n ≡ pos (m * n)
unfolding ◌*ℤ◌
pos-mul m n = ground arith

-- Where nothing overflows, the charge is the time used times the rate, over 60, rounded down.
pub accrued_charge-exact :
    (start end : ℤ) (rate : ℕ)
    → Fits start end rate
    → accrued_charge start end (pos rate) ≡ pos (elapsed start end * rate / 60)
unfolding accrued_charge div
accrued_charge-exact start end rate fits =
    let n = elapsed start end in
    let product : wrap (pos n *ℤ pos rate) ≡ pos (n * rate) =
      ap wrap (pos-mul n rate) ∙ wrap_of_InRange _ (fits.product, omega arith) in
    let interval : max_ℤ (wrap (end -ℤ start)) (pos 0) ≡ pos n =
      ap (λ a. max_ℤ a (pos 0)) (wrap_of_InRange _ fits.interval) ∙ max-zero (end -ℤ start) in
    rw (interval, product)

-- Where the rate is not negative and no intermediate result leaves the 64 bits, sixty times the
-- charge is at most the seconds used times the rate, and more than that less sixty: a tenant never
-- pays for more than was used, and less than one sat short of it.
pub accrued_charge_bounds :
    (start end : ℤ) (rate : ℕ)
    → Fits start end rate
    → let charge = pos_part (accrued_charge start end (pos rate)) in
      (60 * charge ≤ elapsed start end * rate) × (elapsed start end * rate < 60 * (charge + 1))
accrued_charge_bounds start end rate fits =
    rw (accrued_charge-exact start end rate fits) (omega arith, omega arith)
