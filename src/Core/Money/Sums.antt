-- ===== src/Core/Money/Sums.antt =====
-- The wrapping operators of `Sats` against the exact integers.
use computation_market_poc.Prelude.{◌≡◌, ap, sym, ◌∙◌, List, [], ◌∷◌, arith}
use computation_market_poc.Prelude.Int.{ℤ, pos, ◌+ℤ◌, ◌-ℤ◌, int_laws}
use computation_market_poc.Prelude.Word.{
  InRange, wrap, wrap_of_InRange, wrap-InRange, wrap-add_left,
}
use computation_market_poc.Prelude.Table.{sum_by}
use computation_market_poc.Core.Money.{Sats, add, sub, sum, sum_from}

-- For two 64-bit amounts, adding the second and taking it back restores the first, also where
-- the sum wraps around.
pub sub-add :
    (a b : Sats) → InRange a.amount → InRange b.amount → (sub (add a b) b).amount ≡ a.amount
unfolding add sub wrap ◌+ℤ◌ ◌-ℤ◌
sub-add a b ha hb = ground arith

sum_from_lem :
    (acc : ℤ) (amounts : List Sats)
    → InRange acc
    → sum_from acc amounts ≡ wrap (acc +ℤ sum_by (λ s. s.amount) amounts)
unfolding sum_from sum_by
sum_from_lem acc [] h =
    let same : acc +ℤ pos 0 ≡ acc = omega int_laws in rw same (sym (wrap_of_InRange acc h))
sum_from_lem acc (s ∷ rest) h =
    let regroup : acc +ℤ s.amount +ℤ sum_by (λ t. t.amount) rest
        ≡ acc +ℤ (s.amount +ℤ sum_by (λ t. t.amount) rest) =
      omega int_laws in
    sum_from_lem (wrap (acc +ℤ s.amount)) rest (wrap-InRange _)
    ∙ wrap-add_left _ _
    ∙ ap wrap regroup

-- Where the exact sum of some amounts fits 64 bits, their sum is that, even if a partial sum
-- wrapped around.
pub sum-exact :
    (amounts : List Sats)
    → InRange (sum_by (λ s. s.amount) amounts)
    → (sum amounts).amount ≡ sum_by (λ s. s.amount) amounts
unfolding sum
sum-exact amounts h =
    let same : pos 0 +ℤ sum_by (λ s. s.amount) amounts ≡ sum_by (λ s. s.amount) amounts =
      omega int_laws in
    sum_from_lem (pos 0) amounts (omega arith) ∙ ap wrap same ∙ wrap_of_InRange _ h
