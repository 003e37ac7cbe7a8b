-- ===== src/HostAgent/Parse/Printed.antt =====
-- Reading back a number that was printed.
use Prim.Native.Nat.{◌*◌, ◌+◌, ◌-◌, ◌/◌, ◌%◌, ◌<◌, ◌≤◌}
use Prim.Native.Char.{Char, code}
use Prim.Native.String.{◌++◌}
use text.Mathlib.TextLemmas.{append_assoc, append-nil, cons-append, nil-append}
use computation_market_poc.Prelude.{
  ℕ, zero, suc, ◌≡◌, refl, ap, sym, ◌∙◌, true, false, nat_beq, ltb, leb, String, some, arith,
  Bool-cases, inl, inr,
}
use mathlib.Core.Option
use computation_market_poc.Prelude.Int.{pos}
use computation_market_poc.Prelude.Text.{decimal, digits_from, hex_digit, is_empty}
use computation_market_poc.HostAgent.Parse.{digits_onto, parse_digits, parse_signed}

read_digit :
    (limit n d : ℕ) (c : Char) (s : String)
    → code c ≡ 48 + d
    → d < 10
    → n * 10 + d < limit
    → digits_onto limit n (String.◌∷◌ c String.[] ++ s) ≡ digits_onto limit (n * 10 + d) s
unfolding digits_onto
read_digit limit n d c s is h fits =
    let one : String.◌∷◌ c String.[] ++ s ≡ String.◌∷◌ c s =
      cons-append c String.[] s ∙ ap (String.◌∷◌ c) (nil-append s) in
    let value : n * 10 + (code c - 48) ≡ n * 10 + d = omega (arith, is) in
    let low : leb 48 (code c) ≡ true = ground arith in
    let high : leb (code c) 57 ≡ true = ground arith in
    let fits' : ltb (n * 10 + d) limit ≡ true = ground arith in
    ap (digits_onto limit n) one ∙ rw (value, low, high, fits') refl

-- One printed digit.
digits-hex_digit :
    (limit n d : ℕ) (s : String)
    → d < 10
    → n * 10 + d < limit
    → digits_onto limit n (hex_digit d ++ s) ≡ digits_onto limit (n * 10 + d) s
unfolding hex_digit
digits-hex_digit limit n zero s h fits = read_digit limit n 0 "0" s refl h fits
digits-hex_digit limit n (suc zero) s h fits = read_digit limit n 1 "1" s refl h fits
digits-hex_digit limit n (suc (suc zero)) s h fits = read_digit limit n 2 "2" s refl h fits
digits-hex_digit limit n (suc (suc (suc zero))) s h fits = read_digit limit n 3 "3" s refl h fits
digits-hex_digit limit n (suc (suc (suc (suc zero)))) s h fits =
    read_digit limit n 4 "4" s refl h fits
digits-hex_digit limit n (suc (suc (suc (suc (suc zero))))) s h fits =
    read_digit limit n 5 "5" s refl h fits
digits-hex_digit limit n (suc (suc (suc (suc (suc (suc zero)))))) s h fits =
    read_digit limit n 6 "6" s refl h fits
digits-hex_digit limit n (suc (suc (suc (suc (suc (suc (suc zero))))))) s h fits =
    read_digit limit n 7 "7" s refl h fits
digits-hex_digit limit n (suc (suc (suc (suc (suc (suc (suc (suc zero)))))))) s h fits =
    read_digit limit n 8 "8" s refl h fits
digits-hex_digit limit n (suc (suc (suc (suc (suc (suc (suc (suc (suc zero))))))))) s h fits =
    read_digit limit n 9 "9" s refl h fits
digits-hex_digit limit n (suc (suc (suc (suc (suc (suc (suc (suc (suc (suc d)))))))))) s h fits =
    absurd (omega arith)

-- The numbers with at most this many digits are below this one.
abbrev power_of_ten : ℕ → ℕ
power_of_ten zero = 1
power_of_ten (suc fuel) = 10 * power_of_ten fuel

digits-digits_from :
    (fuel limit n : ℕ) (s : String)
    → n < power_of_ten fuel
    → n < limit
    → digits_onto limit 0 (digits_from fuel n ++ s) ≡ digits_onto limit n s
unfolding digits_from
digits-digits_from zero limit n s h fits =
    let none_left : n ≡ 0 = omega arith in rw none_left (ap (digits_onto limit 0) (nil-append s))
digits-digits_from (suc fuel) limit n s h fits = elim (Bool-cases (ltb n 10)) [
  | inl last ↦
      let none_before : 0 * 10 + n ≡ n = omega arith in
      rw last (
        digits-hex_digit limit 0 n s (ground arith) (omega arith)
        ∙ ap (λ (k : ℕ). digits_onto limit k s) none_before)
  | inr more ↦
      let whole : n / 10 * 10 + n % 10 ≡ n = omega arith in
      rw (more, append_assoc (digits_from fuel (n / 10)) (hex_digit (n % 10)) s)
        (digits-digits_from fuel limit (n / 10) (hex_digit (n % 10) ++ s) (omega arith)
            (omega arith)
          ∙ digits-hex_digit limit (n / 10) (n % 10) s (omega arith) (omega (arith, whole))
          ∙ ap (λ (k : ℕ). digits_onto limit k s) whole)
]

digits-decimal :
    (limit n : ℕ) → n < 100000000000000000000 → n < limit → digits_onto limit 0 (decimal n) ≡ some n
unfolding decimal digits_onto
digits-decimal limit n h fits =
    ap (digits_onto limit 0) (sym (append-nil (digits_from 20 n)))
    ∙ digits-digits_from 20 limit n "" h fits

first_digit :
    (limit n : ℕ) (c : Char) (s : String)
    → digits_onto limit 0 (String.◌∷◌ c s) ≡ some n
    → leb 48 (code c) ≡ true
unfolding digits_onto
first_digit limit n c s e = ground arith

-- Text that begins with a digit has no sign.
signed_lem :
    (limit n : ℕ) (s : String)
    → is_empty s ≡ false
    → digits_onto limit 0 s ≡ some n
    → parse_signed limit s ≡ some (pos n)
unfolding parse_signed parse_digits
signed_lem limit n String.[] h e = cc
signed_lem limit n (String.◌∷◌ c s) h e =
    let digit = first_digit limit n c s e in
    let no_plus : nat_beq (code c) 43 ≡ false = ground arith in
    let no_minus : nat_beq (code c) 45 ≡ false = ground arith in
    rw (no_plus, no_minus) (ap (Option.map pos) e)

zero_of_empty :
    (limit n : ℕ) (s : String) → is_empty s ≡ true → digits_onto limit 0 s ≡ some n → n ≡ 0
unfolding digits_onto
zero_of_empty limit n String.[] h e = cc
zero_of_empty limit n (String.◌∷◌ c s) h e = cc

decimal_not_empty : (n : ℕ) → n < 100000000000000000000 → is_empty (decimal n) ≡ false
unfolding decimal digits_from hex_digit
decimal_not_empty n h = elim (Bool-cases (is_empty (decimal n))) [
  | inr some_digit ↦ some_digit
  | inl nothing ↦
      let zero_ =
        zero_of_empty (suc n) n (decimal n) nothing (digits-decimal (suc n) n h (omega arith)) in
      rw zero_ refl
]

-- Every number below the limit of the type is read back as it was printed.
pub parse_signed-decimal :
    (limit n : ℕ)
    → limit ≤ 100000000000000000000
    → n < limit
    → parse_signed limit (decimal n) ≡ some (pos n)
parse_signed-decimal limit n small fits =
    signed_lem limit n (decimal n) (decimal_not_empty n (omega arith))
      (digits-decimal limit n (omega arith) fits)
