-- ===== src/HostAgent/Ports/Lowest.antt =====
-- The port that is picked is the lowest free one.
use computation_market_poc.Prelude.{
  ℕ, ◌+◌, ◌≢◌, ◌⊎◌, zero, suc, ◌≡◌, refl, true, false, List, Option, none, some, not, arith,
  Bool-cases, inl, inr,
}
use computation_market_poc.Prelude.Int.{
  ℤ, pos, negsuc, pos_part, neg_part, ◌+ℤ◌, ◌-ℤ◌, ◌≤ℤ◌, ◌<ℤ◌, int_laws,
}
use computation_market_poc.Prelude.Key.{◌==◌, port_eq}
use computation_market_poc.Prelude.Table.{fetch, contains}
use computation_market_poc.HostAgent.Ports.{count_from, pick_free_port}

-- Every port from `low` on and below `high` is in use.
abbrev pub UsedFrom : List ℤ → ℤ → ℤ → Type 0
UsedFrom used low high = (q : ℤ) → low ≤ℤ q → q <ℤ high → contains q used ≡ true

-- What a search answers.
abbrev pub Lowest : List ℤ → ℤ → ℤ → Option ℤ → Type 0
Lowest used low high none = UsedFrom used low high
Lowest used low high (some p) =
    (low ≤ℤ p) × (p <ℤ high) × (contains p used ≡ false) × UsedFrom used low p

one_more :
    (used : List ℤ) (start high : ℤ)
    → contains start used ≡ true
    → UsedFrom used (start +ℤ pos 1) high
    → UsedFrom used start high
one_more used start high taken later q at_least below = elim (Bool-cases (q == start)) [
  | inl first ↦ let e : q ≡ start = (port_eq.same_iff q start).0 first in rw e taken
  | inr other ↦
      let past : pos_part start + neg_part q ≢ pos_part q + neg_part start = ground arith in
      later q (omega (int_laws, at_least, past)) below
]

extend :
    (used : List ℤ) (start high : ℤ) (found : Option ℤ)
    → contains start used ≡ true
    → Lowest used (start +ℤ pos 1) high found
    → Lowest used start high found
extend used start high none taken h = one_more used start high taken h
extend used start high (some p) taken h =
    (omega (int_laws, h.0), h.1, h.2, one_more used start p taken h.3)

search_lem :
    (used : List ℤ) (start : ℤ) (n : ℕ)
    → Lowest used start (start +ℤ pos n) (fetch (λ p. not (contains p used)) (count_from start n))
unfolding fetch count_from
search_lem used start zero = λ q at_least below. absurd (omega (int_laws, at_least, below))
search_lem used start (suc n) = elim (Bool-cases (contains start used)) [
  | inr free ↦ rw free (
    omega int_laws,
    omega int_laws,
    free,
    λ q at_least below. absurd (omega (arith, at_least, below)),
  )
  | inl taken ↦
      let same : start +ℤ pos 1 +ℤ pos n ≡ start +ℤ pos (suc n) = omega int_laws in
      rw taken (
        extend used start (start +ℤ pos (suc n)) _ taken
          (rw same at (search_lem used (start +ℤ pos 1) n)))
]

one_part : (a : ℤ) → (pos_part a ≡ 0) ⊎ (neg_part a ≡ 0)
one_part (pos n) = inr refl
one_part (negsuc n) = inl refl

module _ (start end : ℤ) (used : List ℤ) where
  searched :
      (found : Option ℤ)
      → pick_free_port start end used ≡ found
      → Lowest used start (start +ℤ pos (pos_part (end -ℤ start +ℤ pos 1))) found
  unfolding pick_free_port
  searched found h = rw h at (search_lem used start (pos_part (end -ℤ start +ℤ pos 1)))

  within : (p : ℤ) → start ≤ℤ p → p <ℤ start +ℤ pos (pos_part (end -ℤ start +ℤ pos 1)) → p ≤ℤ end
  within p at_least below = elim (one_part (end -ℤ start +ℤ pos 1)) [
    | inl empty ↦ absurd (omega (int_laws, at_least, below, empty))
    | inr some_ports ↦ omega (int_laws, at_least, below, some_ports)
  ]

  -- A port that is picked is in the range and free, and every lower port of the range is in use.
  pub pick_free_port-lowest :
      (p : ℤ)
      → pick_free_port start end used ≡ some p
      → (start ≤ℤ p) × (p ≤ℤ end) × (contains p used ≡ false) × UsedFrom used start p
  pick_free_port-lowest p picked =
      let h = searched (some p) picked in (h.0, within p h.0 h.1, h.2, h.3)

  -- No port is picked only if every port of the range is in use.
  pub pick_free_port-exhausted :
      pick_free_port start end used ≡ none → UsedFrom used start (end +ℤ pos 1)
  pick_free_port-exhausted nothing q at_least below =
      searched none nothing q at_least (omega (int_laws, at_least, below))
