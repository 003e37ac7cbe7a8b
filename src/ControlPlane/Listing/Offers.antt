-- ===== src/ControlPlane/Listing/Offers.antt =====
-- `offers` of routes/tenant.rs: which machines are listed, and in which order.
use computation_market_poc.Prelude.{
  ℕ, ◌≤◌, ◌<◌, ◌≡◌, ◌≢◌, sym, ◌↔◌, ap, Bool, true, false, String, List, [], ◌∷◌, Option, none, some,
  Bool-cases, inl, inr, get_or, arith,
}
use computation_market_poc.Prelude.Int.{ℤ, pos, pos_part, ◌≤ℤ◌, leb_ℤ, max_ℤ, min_ℤ}
use computation_market_poc.Prelude.Key.{◌==◌, string_eq, nat_eq}
use computation_market_poc.Prelude.Table.{All, All-map, select}
use computation_market_poc.Core.Api.{F64}
use computation_market_poc.ControlPlane.Db.{Db, MachineRow}
use computation_market_poc.ControlPlane.Routes.Tenant.{
  OffersQuery, order_by, is_offered, sorts_before, offered_machines, clamped_limit, least_dlperf,
}
use computation_market_poc.ControlPlane.Listing.{
  Chain, Chain-map, Member, length, All-order_by, Member-order_by, Ordered-order_by, Ordered-take,
  All-take, length-take, take_all, Member-select,
}
use computation_market_poc.ControlPlane.Listing.Matching.{leb_iff, Matches, is_offered_iff}

leb_total : (a b : ℤ) → leb_ℤ a b ≡ false → leb_ℤ b a ≡ true
leb_total a b h = ground arith

selected_passes :
    {A : Type 0} (p : A → Bool) (rows : List A) → All (λ a. p a ≡ true) (select p rows)
unfolding select
selected_passes p [] = tt
selected_passes p (r ∷ rows) = elim (Bool-cases (p r)) [
  | inl hit ↦ rw hit (hit, selected_passes p rows)
  | inr miss ↦ rw miss (selected_passes p rows)
]

clamped : (a : ℤ) → pos_part (max_ℤ (pos 1) (min_ℤ a (pos 200))) ≤ 200
clamped a = ground arith

-- The number of rows that are listed at most.
abbrev pub most : OffersQuery → ℕ
most q = pos_part (max_ℤ (pos 1) (min_ℤ (get_or q.limit (pos 200)) (pos 200)))

module _ (like : String → String → Bool) (divide : ℤ → F64 → F64) where
  -- One machine comes no later than another: by the rate upwards, by performance downwards, or
  -- else by the rate for a unit of performance upwards, with 0.01 units at least.
  abbrev pub InOrder : Option String → MachineRow → MachineRow → Type 0
  InOrder sort m n =
      (sort ≡ some "rate" → m.rate_sats_per_min ≤ℤ n.rate_sats_per_min)
      × (sort ≡ some "dlperf" → n.dlperf ≤ℤ m.dlperf)
      × (sort ≢ some "rate"
          → sort ≢ some "dlperf"
          → divide m.rate_sats_per_min (max_ℤ m.dlperf least_dlperf)
            ≤ℤ divide n.rate_sats_per_min (max_ℤ n.dlperf least_dlperf))

  given_as :
      (sort : Option String) (k : String)
      → (k ≡ "value" → ⊥)
      → (get_or sort "value" == k) ≡ true
      → sort ≡ some k
  given_as none k other h = absurd (other (sym ((string_eq.same_iff "value" k).0 h)))
  given_as (some s) k other h = ap some ((string_eq.same_iff s k).0 h)

  sorts_before-InOrder :
      (sort : Option String) (m n : MachineRow)
      → sorts_before like divide sort m n ≡ true
      → InOrder sort m n
  unfolding sorts_before
  sorts_before-InOrder sort m n h = (
    λ by_rate. (leb_iff m.rate_sats_per_min n.rate_sats_per_min).0 (rw by_rate at h),
    λ by_perf. (leb_iff n.dlperf m.dlperf).0 (rw by_perf at h),
    λ not_rate not_perf. elim (Bool-cases (get_or sort "value" == "rate")) [
      | inl by_rate ↦ absurd (not_rate (given_as sort "rate" (λ e. cc) by_rate))
      | inr other ↦ elim (Bool-cases (get_or sort "value" == "dlperf")) [
        | inl by_perf ↦ absurd (not_perf (given_as sort "dlperf" (λ e. cc) by_perf))
        | inr by_value ↦
            (leb_iff (divide m.rate_sats_per_min (max_ℤ m.dlperf least_dlperf))
                (divide n.rate_sats_per_min (max_ℤ n.dlperf least_dlperf))).0
              (rw (other, by_value) at h)
      ]
    ],
  )

  sorts_before_total :
      (sort : Option String) (m n : MachineRow)
      → sorts_before like divide sort m n ≡ false
      → sorts_before like divide sort n m ≡ true
  unfolding sorts_before
  sorts_before_total sort m n h = elim (Bool-cases (get_or sort "value" == "rate")) [
    | inl by_rate ↦ rw by_rate (leb_total m.rate_sats_per_min n.rate_sats_per_min (rw by_rate at h))
    | inr other ↦ elim (Bool-cases (get_or sort "value" == "dlperf")) [
      | inl by_perf ↦ rw (other, by_perf) (leb_total n.dlperf m.dlperf (rw (other, by_perf) at h))
      | inr by_value ↦
          rw (other, by_value)
            (leb_total (divide m.rate_sats_per_min (max_ℤ m.dlperf least_dlperf))
              (divide n.rate_sats_per_min (max_ℤ n.dlperf least_dlperf))
              (rw (other, by_value) at h))
    ]
  ]

  -- Every listed machine is online, has no rental that is not over, and meets the filters that
  -- are given. Each comes no later than the next: by the rate upwards, by performance downwards, or
  -- else by the rate for a unit of performance upwards. No more are listed than the limit, which is
  -- brought between 1 and 200 and is 200 if none is given.
  pub offered_machines-Ordered :
      (q : OffersQuery) (db : Db)
      → All (Matches like divide q db) (offered_machines like divide q db)
        × Chain (InOrder q.sort) (offered_machines like divide q db)
        × (length (offered_machines like divide q db) ≤ most q)
        × (most q ≤ 200)
  unfolding offered_machines clamped_limit
  offered_machines-Ordered q db =
      let matching = select (is_offered like divide q db) db.machines in
      let before = sorts_before like divide q.sort in
      (
        All-map (λ m. is_offered like divide q db m ≡ true)
            (λ m h. (is_offered_iff like divide q db m).0 h) _
            (All-take _ (most q) (order_by before matching)
              (All-order_by before _ matching (selected_passes _ db.machines))),
        Chain-map (sorts_before-InOrder q.sort) _ (
            Ordered-take before (most q) (order_by before matching)
              (Ordered-order_by before (sorts_before_total q.sort) matching)),
        rw (length-take (most q) (order_by before matching)) (omega arith),
        clamped (get_or q.limit (pos 200)),
      )

  -- If fewer are listed than the limit, a machine is listed exactly if it is in the table, is
  -- online, has no rental that is not over, and meets the filters that are given.
  pub offered_machines-all :
      (q : OffersQuery) (db : Db)
      → length (offered_machines like divide q db) < most q
      → (m : MachineRow)
      → Member m (offered_machines like divide q db)
        ↔ (Member m db.machines × Matches like divide q db m)
  unfolding offered_machines clamped_limit
  offered_machines-all q db few m =
      let matching = select (is_offered like divide q db) db.machines in
      let before = sorts_before like divide q.sort in
      let sorted = order_by before matching in
      let cut = length-take (most q) sorted in
      let all = take_all (most q) sorted (omega (arith, cut, few)) in
      let (unsorted, resorted) = Member-order_by before m matching in
      let (found, selected) = Member-select (is_offered like divide q db) m db.machines in
      let (matches, offered) = is_offered_iff like divide q db m in
      (
        λ there. let (row, passes) = found (unsorted (rw all at there)) in (row, matches passes),
        λ h. rw all (resorted (selected (h.0, offered h.1))),
      )
