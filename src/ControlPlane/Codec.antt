-- ===== src/ControlPlane/Codec.antt =====
-- `serde_json` on `Command`, whose text is a queue entry's payload. Writing this enum cannot fail.
use computation_market_poc.Prelude.{String, Option, some, ◌≡◌}
use computation_market_poc.Core.Api.{Command}

pub record CommandCodec : Type 0 where
  pub to_string : Command → String
  pub from_str : String → Option Command
  -- What was written is read back: SPEC section 7's wire form.
  pub round_trip : (c : Command) → from_str (to_string c) ≡ some c
