-- ===== src/Smallbank.antt =====
-- internal/smallbank: the SmallBank benchmark's layout of customers on items (schema.go), the
-- operations that it generates (txns.go) and its check that no money is lost (invariant.go).
pub mod Txns
pub mod Layout
pub mod Placement
pub mod Tracked
pub mod Routing
pub mod Picker
pub mod Results
mod Tests
use byz_bank.Prelude.{
  ℕ, zero, suc, ◌+◌, ◌-◌, ◌*◌, Bool, true, false, not, ◌&&◌, ◌||◌, List, [], ◌∷◌, ◌++◌,
  if◌then◌else◌,
}
use byz_bank.Prelude.Int.{ℤ, pos, pos_part, ◌+ℤ◌, ◌-ℤ◌, ◌+64◌, ◌-64◌, quot, rem, ltb_ℤ, int_key}
use byz_bank.Prelude.Keys.{◌==◌}
use byz_bank.Config.{Topology, items_per_cluster, same_cluster}

pub record Schema : Type 0 where
  pub topo : Topology
  pub customers_per_cluster : ℕ
  pub penalty_amount : ℤ

unfoldable pub new_schema : Topology → Schema
new_schema topo = record { topo = topo; customers_per_cluster = 400; penalty_amount = pos 1 }

unfoldable pub total_customers : Schema → ℕ
total_customers s = s.customers_per_cluster * s.topo.num_clusters

-- `(cluster-1)*per + 1`
unfoldable pub cluster_base : Schema → ℕ → ℤ
cluster_base s cluster = let per = items_per_cluster s.topo in pos (cluster * per + 1) -ℤ pos per

abbrev pub out_of_range : Schema → ℤ → Bool
out_of_range s cust = ltb_ℤ cust (pos 1) || ltb_ℤ (pos (total_customers s)) cust

unfoldable pub cust_cluster : Schema → ℤ → ℕ
cust_cluster s cust =
    if out_of_range s cust then 1 else pos_part (quot (cust -64 pos 1) s.customers_per_cluster) + 1

unfoldable pub savings_item : Schema → ℤ → ℤ
unfolding cluster_base cust_cluster
savings_item s cust =
    let local = rem (cust -64 pos 1) s.customers_per_cluster +64 pos 1 in
    let place = local -64 pos 1 in cluster_base s (cust_cluster s cust) +64 (place +64 place)

unfoldable pub checking_item : Schema → ℤ → ℤ
unfolding savings_item
checking_item s cust = savings_item s cust +64 pos 1

unfoldable pub treasury_item : Schema → ℕ → ℤ
unfolding cluster_base
treasury_item s cluster = cluster_base s cluster +64 pos (items_per_cluster s.topo) -64 pos 1

-- The loop is at customer `cust`, with `k` rounds left.
unfoldable pub account_items_from : Schema → ℕ → ℕ → List ℤ
account_items_from s cust zero = []
account_items_from s cust (suc k) =
    savings_item s (pos cust) ∷ checking_item s (pos cust) ∷ account_items_from s (cust + 1) k

unfoldable pub account_items : Schema → List ℤ
unfolding account_items_from
account_items s = account_items_from s 1 (total_customers s)

unfoldable pub treasuries_from : Schema → ℕ → ℕ → List ℤ
treasuries_from s cluster zero = []
treasuries_from s cluster (suc k) = treasury_item s cluster ∷ treasuries_from s (cluster + 1) k

unfoldable pub all_tracked_items : Schema → List ℤ
unfolding account_items treasuries_from
all_tracked_items s = account_items s ++ treasuries_from s 1 s.topo.num_clusters

-- `Validate`: whether it returns no error.
unfoldable pub validate : Schema → ℤ → Bool
validate s cust =
    if out_of_range s cust
    then false
    else same_cluster s.topo (savings_item s cust) (checking_item s cust)

-- `CheckConservation`: whether it returns no error.
unfoldable pub check_conservation : ℤ → ℤ → ℤ → Bool
check_conservation initial final penalties = final == (initial -64 penalties)
