-- ===== src/Prelude/Key.antt =====
-- Types with a decidable test of equality: the keys of the tables.
use Prim.Native.Nat.{ℕ}
use Prim.Native.String.{String}
use mathlib.Core.Path.{◌≡◌, refl}
use mathlib.Core.Logic.{◌↔◌}
use mathlib.Core.Bool.{Bool, true}
use native.Mathlib.Omega.{arith}
use text.Mathlib.Text
use text.Mathlib.TextEquality
use computation_market_poc.Prelude.Int.{ℤ, eqb_ℤ}
use computation_market_poc.Prelude.Tests.{nat_beq}

-- A column type that SQLite compares.
pub record Comparable {κ} (K : Type κ) : Type κ where
  pub is_same : K → K → Bool
  pub same_iff : (j k : K) → (is_same j k ≡ true) ↔ (j ≡ k)

pub nat_beq_iff : (a b : ℕ) → (nat_beq a b ≡ true) ↔ (a ≡ b)
nat_beq_iff a b = ground arith

pub eqb_iff : (a b : ℤ) → (eqb_ℤ a b ≡ true) ↔ (a ≡ b)
eqb_iff a b = ground arith

module _ {κ} {K : Type κ} ⦃column : Comparable K⦄ where
  infix 50 ◌==◌
  abbrev pub ◌==◌ : K → K → Bool
  j == k = column.is_same j k

  pub ==_refl : (k : K) → (k == k) ≡ true
  ==_refl k = (column.same_iff k k).1 refl

instance abbrev pub string_eq : Comparable String
string_eq = record { is_same = Text.◌==◌; same_iff = TextEquality.eq_iff }

instance abbrev pub nat_eq : Comparable ℕ
nat_eq = record { is_same = nat_beq; same_iff = nat_beq_iff }

instance abbrev pub port_eq : Comparable ℤ
port_eq = record { is_same = eqb_ℤ; same_iff = eqb_iff }
