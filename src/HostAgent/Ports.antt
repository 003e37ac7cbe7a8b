-- ===== src/HostAgent/Ports.antt =====
-- `pick_free_port` of crates/host-agent/src/runtime.rs, and the list of free ports.
pub mod Lowest
use computation_market_poc.Prelude.{
  ℕ, zero, suc, ◌≡◌, Bool, List, [], ◌∷◌, Option, none, some, if◌then◌else◌, not, arith,
}
use computation_market_poc.Prelude.Int.{ℤ, pos, pos_part, ◌+ℤ◌, ◌-ℤ◌}
use computation_market_poc.Prelude.Key.{◌==◌, port_eq}
use computation_market_poc.Prelude.Table.{select, fetch, contains}

-- This many numbers, from the first on.
unfoldable pub count_from : ℤ → ℕ → List ℤ
count_from start zero = []
count_from start (suc n) = start ∷ count_from (start +ℤ pos 1) n

-- `start..=end`
abbrev pub inclusive_range : ℤ → ℤ → List ℤ
inclusive_range start end = count_from start (pos_part (end -ℤ start +ℤ pos 1))

-- `used` holds the members of the set.
unfoldable pub pick_free_port : ℤ → ℤ → List ℤ → Option ℤ
pick_free_port start end used = fetch (λ p. not (contains p used)) (inclusive_range start end)

-- What `available` answers, for the ports in use.
unfoldable pub free_ports : ℤ → ℤ → List ℤ → List ℤ
free_ports start end used = select (λ p. not (contains p used)) (inclusive_range start end)
