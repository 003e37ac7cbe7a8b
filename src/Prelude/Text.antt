-- ===== src/Prelude/Text.antt =====
-- Numbers as text, as `format!` prints them, and the text methods that the source calls.
use Prim.Native.Nat.{ℕ, zero, suc, ◌/◌, ◌%◌}
use Prim.Native.Char.{code}
use Prim.Native.String.{String, ◌++◌, slice, len}
use mathlib.Core.Bool.{Bool, true, false, ◌&&◌, ◌||◌}
use mathlib.Core.Option.{Option, none, some}
use mathlib.Core.List.{List}
use text.Mathlib.Text.{starts_with}
use computation_market_poc.Prelude.Tests.{ltb, leb, nat_beq, if◌then◌else◌}
use computation_market_poc.Prelude.Int.{ℤ, pos, negsuc}

unfoldable pub hex_digit : ℕ → String
hex_digit d = slice "0123456789abcdef" d (suc d)

-- `{n:0wx}` for a number below 16 ^ w.
unfoldable pub pad_hex : ℕ → ℕ → String
unfolding hex_digit
pad_hex zero n = ""
pad_hex (suc w) n = pad_hex w (n / 16) ++ hex_digit (n % 16)

unfoldable pub digits_from : ℕ → ℕ → String
unfolding hex_digit
digits_from zero n = ""
digits_from (suc fuel) n =
    let high = digits_from fuel (n / 10) in
    if ltb n 10 then hex_digit n else high ++ hex_digit (n % 10)

-- `{n}` for a number below 10 ^ 20, which every 64-bit word is.
unfoldable pub decimal : ℕ → String
unfolding digits_from
decimal n = digits_from 20 n

-- `{n}` for an `i64`.
unfoldable pub decimal_ℤ : ℤ → String
unfolding decimal
decimal_ℤ (pos n) = decimal n
decimal_ℤ (negsuc n) = "-" ++ decimal (suc n)

-- `format!`, of the pieces in their order.
unfoldable pub format : List String → String
format List.[] = ""
format (List.◌∷◌ s rest) = s ++ format rest

-- What is printed: a line, or a table with its header and its rows.
pub data Block : Type 0 where
  line : String → Block
  table : List String → List (List String) → Block

-- `str::strip_prefix`
unfoldable pub strip_prefix : String → String → Option String
strip_prefix prefix s = if starts_with s prefix then some (slice s (len prefix) (len s)) else none

-- `char::is_whitespace`: the code points of the Unicode property White_Space.
abbrev is_whitespace : ℕ → Bool
is_whitespace c =
    (leb 9 c && leb c 13)
    || nat_beq c 0x20
    || nat_beq c 0x85
    || nat_beq c 0xa0
    || nat_beq c 0x1680
    || (leb 0x2000 c && leb c 0x200a)
    || nat_beq c 0x2028
    || nat_beq c 0x2029
    || nat_beq c 0x202f
    || nat_beq c 0x205f
    || nat_beq c 0x3000

unfoldable pub trim_start : String → String
trim_start String.[] = ""
trim_start (String.◌∷◌ c s) =
    let rest = trim_start s in if is_whitespace (code c) then rest else String.◌∷◌ c s

abbrev pub is_empty : String → Bool
is_empty String.[] = true
is_empty (String.◌∷◌ _ _) = false

unfoldable pub trim_end : String → String
trim_end String.[] = ""
trim_end (String.◌∷◌ c s) =
    let rest = trim_end s in
    if is_empty rest && is_whitespace (code c) then "" else String.◌∷◌ c rest

-- `str::trim`
unfoldable pub trim : String → String
unfolding trim_start trim_end
trim s = trim_end (trim_start s)
