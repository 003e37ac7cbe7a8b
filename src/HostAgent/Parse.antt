-- ===== src/HostAgent/Parse.antt =====
-- Rust's `str::parse` for integers, and that it reads back what `format!` writes.
pub mod Printed
use Prim.Native.Nat.{◌*◌, ◌+◌, ◌-◌, ◌^◌}
use Prim.Native.Char.{code}
use Prim.Native.String
use computation_market_poc.Prelude.{
  ℕ, suc, nat_beq, ltb, leb, String, Option, none, some, if◌then◌else◌, ◌&&◌,
}
use mathlib.Core.Option
use computation_market_poc.Prelude.Int.{ℤ, pos, sub_ℕ}

-- Digits after the value of those before them; `none` from `limit` on.
unfoldable pub digits_onto : ℕ → ℕ → String → Option ℕ
digits_onto limit n String.[] = some n
digits_onto limit n (String.◌∷◌ c s) =
    let m = n * 10 + (code c - 48) in
    let rest = digits_onto limit m s in
    if leb 48 (code c) && leb (code c) 57 && ltb m limit then rest else none

unfoldable pub parse_digits : ℕ → String → Option ℕ
parse_digits limit String.[] = none
parse_digits limit (String.◌∷◌ c s) = digits_onto limit 0 (String.◌∷◌ c s)

-- `str::parse::<u32>`: an optional plus, digits, no overflow.
unfoldable pub parse_u32 : String → Option ℕ
parse_u32 String.[] = none
parse_u32 (String.◌∷◌ c s) =
    if nat_beq (code c) 43 then parse_digits (2 ^ 32) s else parse_digits (2 ^ 32) (String.◌∷◌ c s)

-- A signed integer below `limit` and from `-limit` on: an optional sign, digits, no overflow.
unfoldable pub parse_signed : ℕ → String → Option ℤ
parse_signed limit String.[] = none
parse_signed limit (String.◌∷◌ c s) =
    if nat_beq (code c) 43
    then Option.map pos (parse_digits limit s)
    else if nat_beq (code c) 45
    then Option.map (λ n. sub_ℕ 0 n) (parse_digits (suc limit) s)
    else Option.map pos (parse_digits limit (String.◌∷◌ c s))

-- `str::parse::<i64>` and `str::parse::<i32>`.
abbrev pub parse_i64 : String → Option ℤ
parse_i64 = parse_signed (2 ^ 63)

abbrev pub parse_i32 : String → Option ℤ
parse_i32 = parse_signed (2 ^ 31)
