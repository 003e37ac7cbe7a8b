-- ===== src/Prelude/Word.antt =====
-- Rust's `i64` in a release build: the true result, reduced to two's complement of 64 bits.
use Prim.Native.Nat.{ℕ, ◌-◌, ◌^◌, ◌%◌, ◌≤◌}
use mathlib.Core.Path.{◌≡◌}
use native.Mathlib.Omega.{arith}
use computation_market_poc.Prelude.Tests.{ltb, if◌then◌else◌}
use computation_market_poc.Prelude.Int.{ℤ, pos, negsuc, pos_part, neg_part, ◌+ℤ◌, ◌-ℤ◌, ◌*ℤ◌}

-- The bit pattern of an integer, below 2 ^ 64.
abbrev to_bits : ℤ → ℕ
to_bits (pos n) = n % 2 ^ 64
to_bits (negsuc n) = 2 ^ 64 - 1 - n % 2 ^ 64

abbrev of_bits : ℕ → ℤ
of_bits w = if ltb w (2 ^ 63) then pos w else negsuc (2 ^ 64 - 1 - w)

unfoldable pub wrap : ℤ → ℤ
wrap a = of_bits (to_bits a)

abbrev pub add_i64 : ℤ → ℤ → ℤ
add_i64 a b = wrap (a +ℤ b)

abbrev pub sub_i64 : ℤ → ℤ → ℤ
sub_i64 a b = wrap (a -ℤ b)

abbrev pub mul_i64 : ℤ → ℤ → ℤ
mul_i64 a b = wrap (a *ℤ b)

abbrev pub neg_i64 : ℤ → ℤ
neg_i64 a = wrap (pos 0 -ℤ a)

-- The values of an `i64`.
abbrev pub InRange : ℤ → Type 0
InRange a = (pos_part a ≤ 2 ^ 63 - 1) × (neg_part a ≤ 2 ^ 63)

-- A result that fits is the true one.
pub wrap_of_InRange : (a : ℤ) → InRange a → wrap a ≡ a
unfolding wrap
wrap_of_InRange a h = ground arith

-- Every result is a value of an `i64`.
pub wrap-InRange : (a : ℤ) → InRange (wrap a)
unfolding wrap
wrap-InRange a = ground arith

-- Reducing a summand first changes nothing.
pub wrap-add_left : (a b : ℤ) → wrap (wrap a +ℤ b) ≡ wrap (a +ℤ b)
unfolding wrap ◌+ℤ◌
wrap-add_left a b = ground arith

-- The cast `as i32`.
abbrev to_bits32 : ℤ → ℕ
to_bits32 (pos n) = n % 2 ^ 32
to_bits32 (negsuc n) = 2 ^ 32 - 1 - n % 2 ^ 32

unfoldable pub as_i32 : ℤ → ℤ
as_i32 a = let w = to_bits32 a in if ltb w (2 ^ 31) then pos w else negsuc (2 ^ 32 - 1 - w)
