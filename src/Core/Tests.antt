-- ===== src/Core/Tests.antt =====
-- Amounts at the edge of 64 bits.
use computation_market_poc.Prelude.{◌^◌, ◌-◌, ◌≡◌, [], ◌∷◌, arith}
use computation_market_poc.Prelude.Int.{pos, negsuc, ◌+ℤ◌}
use computation_market_poc.Prelude.Table.{sum_by}
use computation_market_poc.Core.Money.{Sats, sum}
use computation_market_poc.Core.Money.Sums.{sum-exact}

abbrev largest : Sats
largest = record { amount = pos (2 ^ 63 - 1) }

abbrev one : Sats
one = record { amount = pos 1 }

-- The first partial sum wraps around, the whole does not.
sum-exact_example :
    (sum (largest ∷ one ∷ record { amount = negsuc 4 } ∷ [])).amount ≡ pos (2 ^ 63 - 5)
unfolding sum_by ◌+ℤ◌
sum-exact_example = sum-exact (largest ∷ one ∷ record { amount = negsuc 4 } ∷ []) (omega arith)
