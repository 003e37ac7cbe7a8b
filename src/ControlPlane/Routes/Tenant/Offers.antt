-- ===== src/ControlPlane/Routes/Tenant/Offers.antt =====
-- `offers` of routes/tenant.rs: the online and idle machines, filtered, sorted and cut.
-- `like` is SQLite's LIKE on a pattern and a text, `divide` its division of an INTEGER, cast to
-- REAL, by a REAL. SQLite leaves the order of equal rows open; here it is the table's order.
use Prim.Native.String
use computation_market_poc.Prelude.{
  ℕ, zero, suc, ◌*◌, ◌^◌, String, Bool, true, List, [], ◌∷◌, map, Option, none, some, ◌&&◌, not,
  if◌then◌else◌, is_some, get_or,
}
use computation_market_poc.Prelude.Int.{ℤ, pos, pos_part, leb_ℤ, max_ℤ, min_ℤ}
use computation_market_poc.Prelude.Word.{mul_i64, as_i32}
use computation_market_poc.Prelude.Key.{◌==◌, nat_eq, string_eq}
use computation_market_poc.Prelude.Table.{select, fetch, contains}
use computation_market_poc.Core.Api.{F64, Offer, OffersResponse}
use computation_market_poc.Core.Model.{occupies_machine, as_str, all_statuses}
use computation_market_poc.ControlPlane.Db.{Db, MachineRow, RentalRow}

-- The statuses of the SQL list, in the order of `RentalStatus::ALL`.
unfoldable pub occupying_in_list : List String
occupying_in_list = map as_str (select occupies_machine all_statuses)

-- `status IN (…)`: the column holds the status as text.
unfoldable pub occupies : ℕ → RentalRow → Bool
occupies machine r = r.machine_id == machine && contains (as_str r.status) occupying_in_list

unfoldable pub machine_to_offer : MachineRow → Offer
machine_to_offer m = record {
  machine_id = m.id;
  gpu_name = m.gpu_name;
  gpu_count = as_i32 m.gpu_count;
  vram_mb = m.vram_mb;
  cpu_name = m.cpu_name;
  cpu_cores = as_i32 m.cpu_cores;
  ram_mb = m.ram_mb;
  disk_gb = m.disk_gb;
  disk_type = m.disk_type;
  public_ip = m.public_ip;
  country = m.country;
  inet_down_mbps = m.inet_down_mbps;
  inet_up_mbps = m.inet_up_mbps;
  dlperf = m.dlperf;
  rate_sats_per_min = m.rate_sats_per_min;
  rate_sats_per_hour = mul_i64 m.rate_sats_per_min (pos 60);
}

pub record OffersQuery : Type 0 where
  pub gpu_name : Option String
  pub min_vram_mb : Option ℤ
  pub min_gpu_count : Option ℤ
  pub max_rate_sats_per_min : Option ℤ
  pub sort : Option String
  pub limit : Option ℤ

-- A clause that is added for a parameter that is given.
abbrev pub clause : {A : Type 0} → Option A → (A → Bool) → Bool
clause none p = true
clause (some a) p = p a

-- 0.01, the double nearest to it.
abbrev pub least_dlperf : F64
least_dlperf = pos (5764607523034235 * 2 ^ 1015)

-- `q.limit.unwrap_or(200).clamp(1, 200)`
unfoldable pub clamped_limit : Option ℤ → ℤ
clamped_limit limit = max_ℤ (pos 1) (min_ℤ (get_or limit (pos 200)) (pos 200))

module _ {A : Type 0} where
  -- A stable sort by a test for `a` not after `b`.
  unfoldable pub insert_sorted : (A → A → Bool) → A → List A → List A
  insert_sorted before a [] = a ∷ []
  insert_sorted before a (b ∷ bs) =
      let rest = insert_sorted before a bs in if before a b then a ∷ b ∷ bs else b ∷ rest

  unfoldable pub order_by : (A → A → Bool) → List A → List A
  order_by before [] = []
  order_by before (a ∷ as_) = insert_sorted before a (order_by before as_)

  unfoldable pub take : ℕ → List A → List A
  take zero rows = []
  take (suc n) [] = []
  take (suc n) (a ∷ rows) = a ∷ take n rows

module _ (like : String → String → Bool) (divide : ℤ → F64 → F64) where
  -- The WHERE clause.
  unfoldable pub is_offered : OffersQuery → Db → MachineRow → Bool
  is_offered q db m =
      m.online
      && not (is_some (fetch (occupies m.id) db.rentals))
      && clause q.gpu_name (λ name. like (String.◌++◌ "%" (String.◌++◌ name "%")) m.gpu_name)
      && clause q.min_vram_mb (λ v. leb_ℤ v m.vram_mb)
      && clause q.min_gpu_count (λ c. leb_ℤ c m.gpu_count)
      && clause q.max_rate_sats_per_min (λ r. leb_ℤ m.rate_sats_per_min r)

  -- Sats per unit of performance.
  abbrev pub value_of : MachineRow → F64
  value_of m = divide m.rate_sats_per_min (max_ℤ m.dlperf least_dlperf)

  -- The ORDER BY clause.
  unfoldable pub sorts_before : Option String → MachineRow → MachineRow → Bool
  sorts_before sort m n =
      if get_or sort "value" == "rate"
      then leb_ℤ m.rate_sats_per_min n.rate_sats_per_min
      else if get_or sort "value" == "dlperf"
      then leb_ℤ n.dlperf m.dlperf
      else leb_ℤ (value_of m) (value_of n)

  unfoldable pub offered_machines : OffersQuery → Db → List MachineRow
  offered_machines q db =
      take (pos_part (clamped_limit q.limit))
        (order_by (sorts_before q.sort) (select (is_offered q db) db.machines))

  unfoldable pub offers : OffersQuery → Db → OffersResponse
  offers q db = record { offers = map machine_to_offer (offered_machines q db) }
