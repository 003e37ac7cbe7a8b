-- ===== src/ControlPlane/Lightning/Mock.antt =====
-- crates/control-plane/src/lightning/mock.rs: invoices that settle after a delay.
use Prim.Native.String
use computation_market_poc.Prelude.{
  ℕ, ◌+◌, ◌%◌, ◌^◌, String, Bool, false, List, [], ◌∷◌, Option, none, some, Result, ok, leb,
}
use computation_market_poc.Prelude.Key.{◌==◌, string_eq}
use computation_market_poc.Prelude.Table.{fetch}
use computation_market_poc.Prelude.Text.{pad_hex, decimal, decimal_ℤ}
use computation_market_poc.Core.Money.{Sats}
use computation_market_poc.ControlPlane.Lightning.Backend.{Invoice, LightningBackend}

-- `MockBackend`: the map as a list with the newest entry first, and what `Instant::now()` reads.
pub record MockBackend : Type 0 where
  pub settle_delay : ℕ
  pub counter : ℕ
  pub settle_at : List (String × ℕ)
  pub instant : ℕ

-- `MockBackend::new`
unfoldable pub new : ℕ → ℕ → MockBackend
new settle_delay instant = record {
  settle_delay = settle_delay;
  counter = 1;
  settle_at = [];
  instant = instant;
}

-- The counter is an `AtomicU64`: `fetch_add` wraps.
unfoldable pub create_invoice : Sats → String → MockBackend → Result String (Invoice × MockBackend)
create_invoice sats memo mock =
    let n = mock.counter in
    let payment_hash = pad_hex 64 n in
    let invoice : Invoice = record {
      bolt11 =
          String.◌++◌ "lnbcmock"
            (String.◌++◌ (decimal_ℤ sats.amount) (String.◌++◌ "n" (decimal n)));
      payment_hash = payment_hash;
    } in
    ok (
      invoice,
      record mock {
        counter = (n + 1) % 2 ^ 64;
        settle_at = (payment_hash, mock.instant + mock.settle_delay) ∷ mock.settle_at;
      },
    )

abbrev due : ℕ → Option (String × ℕ) → Bool
due instant none = false
due instant (some (_, at)) = leb at instant

unfoldable pub is_settled : String → MockBackend → Result String Bool
is_settled payment_hash mock =
    ok (due mock.instant (fetch (λ entry. entry.0 == payment_hash) mock.settle_at))

unfoldable pub pay_invoice : String → MockBackend → Result String MockBackend
pay_invoice bolt11 mock = ok mock

abbrev pub mock_backend : LightningBackend
mock_backend = record {
  State = MockBackend;
  create_invoice = create_invoice;
  is_settled = is_settled;
  pay_invoice = pay_invoice;
}
