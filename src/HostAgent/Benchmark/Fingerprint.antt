-- ===== src/HostAgent/Benchmark/Fingerprint.antt =====
-- The fingerprint does not depend on the order in which the GPUs are listed.
use text.Mathlib.TextEquality.{codes_equal}
use computation_market_poc.Prelude.{
  ◌≡◌, refl, ap, String, true, false, List, [], ◌∷◌, arith, Bool-cases, inl, inr,
}
use mathlib.Core.List.{Perm, List-discrete}
use mathlib.Core.HLevel.{hedberg}
use mathlib.Core.List.Perm
use computation_market_poc.Prelude.Key.{◌==◌, string_eq}
use computation_market_poc.HostAgent.Benchmark.{
  GpuInfo, at_most, insert, sort, tuple_of, fed, fingerprint,
}

at_most_total : (s t : String) → at_most s t ≡ false → at_most t s ≡ true
unfolding at_most
at_most_total String.[] t h = cc
at_most_total (String.◌∷◌ c s) String.[] h = refl
at_most_total (String.◌∷◌ c s) (String.◌∷◌ d t) h = ground (arith, at_most_total s t)

at_most_antisym : (s t : String) → at_most s t ≡ true → at_most t s ≡ true → s ≡ t
unfolding at_most
at_most_antisym String.[] String.[] h k = refl
at_most_antisym String.[] (String.◌∷◌ d t) h k = cc
at_most_antisym (String.◌∷◌ c s) String.[] h k = cc
at_most_antisym (String.◌∷◌ c s) (String.◌∷◌ d t) h k =
    ground (arith, codes_equal c d, at_most_antisym s t)

at_most_trans : (s t u : String) → at_most s t ≡ true → at_most t u ≡ true → at_most s u ≡ true
unfolding at_most
at_most_trans String.[] t u h k = refl
at_most_trans (String.◌∷◌ c s) String.[] u h k = cc
at_most_trans (String.◌∷◌ c s) (String.◌∷◌ d t) String.[] h k = cc
at_most_trans (String.◌∷◌ c s) (String.◌∷◌ d t) (String.◌∷◌ e u) h k =
    ground (arith, at_most_trans s t u)

-- Two texts may be inserted in either order.
insert_comm : (a b : String) (l : List String) → insert a (insert b l) ≡ insert b (insert a l)
unfolding insert
insert_comm a b [] = ground (arith, at_most_total a b, at_most_antisym a b)
insert_comm a b (c ∷ l) = ground (
  arith,
  at_most_total a b,
  at_most_antisym a b,
  at_most_trans a b c,
  at_most_trans b a c,
  insert_comm a b l,
)

text_discrete : Discrete String
text_discrete s t = elim (Bool-cases (s == t)) [
  | inl same ↦ yes ((string_eq.same_iff s t).0 same)
  | inr other ↦ no (λ e. cc ((string_eq.same_iff s t).1 e))
]

texts_set : IsSet (List String)
texts_set = hedberg (List-discrete text_discrete)

-- Two lists of the same GPUs, in whatever order the devices were enumerated, have the same
-- fingerprint, for any digest.
pub fingerprint-perm :
    (digest : String → String) (gpus gpus' : List GpuInfo)
    → Perm gpus gpus'
    → fingerprint digest gpus ≡ fingerprint digest gpus'
unfolding fingerprint sort
fingerprint-perm digest gpus gpus' p =
    ap (λ (ts : List String). digest (fed ts))
      (Perm.foldr-eq texts_set insert insert_comm (Perm.map tuple_of p) [])
