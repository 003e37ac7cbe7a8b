-- ===== src/ControlPlane/Tests/WireText.antt =====
-- A codec for commands, to run the handlers with: lengths in unary, then the texts.
use Prim.Native.Char.{Char, char, code, nul}
use computation_market_poc.Prelude.{
  ℕ, zero, suc, ◌≡◌, refl, String, Option, some, if◌then◌else◌, nat_beq,
}
use computation_market_poc.Core.Api.{Command}
use computation_market_poc.ControlPlane.Codec.{CommandCodec}

joined : String → String → String
joined String.[] t = t
joined (String.◌∷◌ c s) t = String.◌∷◌ c (joined s t)

size : String → ℕ
size String.[] = zero
size (String.◌∷◌ _ s) = suc (size s)

abbrev mark : Char
mark = char 49 tt

-- A number, as that many marks and a stop.
put_nat : ℕ → String → String
put_nat zero t = String.◌∷◌ nul t
put_nat (suc n) t = String.◌∷◌ mark (put_nat n t)

take_nat : String → ℕ × String
take_nat String.[] = (zero, "")
take_nat (String.◌∷◌ c s) =
    let rest = take_nat s in if nat_beq (code c) 49 then (suc rest.0, rest.1) else (zero, s)

take_nat-put_nat : (n : ℕ) (t : String) → take_nat (put_nat n t) ≡ (n, t)
unfolding take_nat put_nat
take_nat-put_nat zero t = refl
take_nat-put_nat (suc n) t = rw (take_nat-put_nat n t) refl

cut : ℕ → String → String × String
cut zero s = ("", s)
cut (suc n) String.[] = ("", "")
cut (suc n) (String.◌∷◌ c s) = let rest = cut n s in (String.◌∷◌ c rest.0, rest.1)

cut-joined : (s t : String) → cut (size s) (joined s t) ≡ (s, t)
unfolding cut size joined
cut-joined String.[] t = refl
cut-joined (String.◌∷◌ c s) t = rw (cut-joined s t) refl

write : Command → String
unfolding put_nat size joined
write (Command.start_rental id image key) =
    put_nat 0 (put_nat id (put_nat (size image) (joined image key)))
write (Command.stop_rental id) = put_nat 1 (put_nat id "")

read_start : String → Command
unfolding take_nat cut
read_start s =
    let (id, rest) = take_nat s in
    let (n, texts) = take_nat rest in
    let (image, key) = cut n texts in Command.start_rental id image key

read_tagged : ℕ → String → Option Command
unfolding read_start take_nat
read_tagged zero s = some (read_start s)
read_tagged (suc _) s = some (Command.stop_rental (take_nat s).0)

read : String → Option Command
unfolding take_nat read_tagged
read s = let (tag, rest) = take_nat s in read_tagged tag rest

read-write : (c : Command) → read (write c) ≡ some c
unfolding read write read_start read_tagged
read-write (Command.start_rental id image key) =
    rw
      (
        take_nat-put_nat id (put_nat (size image) (joined image key)),
        take_nat-put_nat (size image) (joined image key),
        cut-joined image key,
      )
      refl
read-write (Command.stop_rental id) = rw (take_nat-put_nat id "") refl

pub wire_text : CommandCodec
unfolding write read
wire_text = record { to_string = write; from_str = read; round_trip = read-write }
