-- ===== src/Core/Money.antt =====
-- crates/core/src/money.rs: `Sats`, a signed amount of satoshis, and its arithmetic. The operators
-- of `i64` wrap, as in a release build.
pub mod Sums
use computation_market_poc.Prelude.{Bool, List, [], ◌∷◌}
use computation_market_poc.Prelude.Int.{ℤ, pos, eqb_ℤ}
use computation_market_poc.Prelude.Word.{add_i64, sub_i64, mul_i64, neg_i64}

pub record Sats : Type 0 where
  pub amount : ℤ

-- `Sats::ZERO`
abbrev pub zero_sats : Sats
zero_sats = record { amount = pos 0 }

-- `Sats::new` and `Sats::get`
abbrev pub new : ℤ → Sats
new value = record { amount = value }

abbrev pub get : Sats → ℤ
get s = s.amount

unfoldable pub is_zero : Sats → Bool
is_zero s = eqb_ℤ s.amount (pos 0)

unfoldable pub add : Sats → Sats → Sats
add a b = record { amount = add_i64 a.amount b.amount }

unfoldable pub sub : Sats → Sats → Sats
sub a b = record { amount = sub_i64 a.amount b.amount }

-- `AddAssign` and `SubAssign`: the new value of the left side.
unfoldable pub add_assign : Sats → Sats → Sats
add_assign a b = record a { amount = add_i64 a.amount b.amount }

unfoldable pub sub_assign : Sats → Sats → Sats
sub_assign a b = record a { amount = sub_i64 a.amount b.amount }

unfoldable pub neg : Sats → Sats
neg a = record { amount = neg_i64 a.amount }

unfoldable pub mul : Sats → ℤ → Sats
mul a n = record { amount = mul_i64 a.amount n }

-- `Iterator::sum` over `i64`: from zero, adding from the left.
unfoldable pub sum_from : ℤ → List Sats → ℤ
sum_from acc [] = acc
sum_from acc (s ∷ rest) = sum_from (add_i64 acc s.amount) rest

-- `impl Sum for Sats`
unfoldable pub sum : List Sats → Sats
unfolding sum_from
sum amounts = record { amount = sum_from (pos 0) amounts }
