-- ===== src/ControlPlane/Billing/Charge.antt =====
-- `accrued_charge` of billing.rs: the prorated charge for an interval, over wrapping `i64`.
use computation_market_poc.Prelude.Int.{ℤ, pos, max_ℤ, div}
use computation_market_poc.Prelude.Word.{sub_i64, mul_i64}

unfoldable pub accrued_charge : ℤ → ℤ → ℤ → ℤ
accrued_charge start end rate_sats_per_min =
    let elapsed = max_ℤ (sub_i64 end start) (pos 0) in div (mul_i64 elapsed rate_sats_per_min) 60
