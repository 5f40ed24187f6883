-- ===== src/Smallbank/Picker.antt =====
-- internal/smallbank/skew.go: the customers that the picker gives, for any numbers that the source of random
-- numbers and the fractions give.
use byz_bank.Prelude.{ℕ, ◌+◌, ◌*◌, ◌/◌, ◌≤◌, ◌<◌, ◌≡◌, true, false, if◌then◌else◌, ltb, arith}
use native.Mathlib.Nat.{div-add-mod'}
use byz_bank.Prelude.Int.{pos}
use byz_bank.Smallbank.{Schema, total_customers, validate}
use byz_bank.Smallbank.Layout.{IsSized}
use byz_bank.Smallbank.Placement.{validate_iff}

pub record Picker : Type 0 where
  pub total : ℕ
  pub num_clusters : ℕ
  pub customers_per_cluster : ℕ
  pub hot_per_cluster : ℕ

abbrev at_least_one : ℕ → ℕ
at_least_one n = if ltb n 1 then 1 else n

-- `NewPicker` of sizes that are not negative; `hot` is `int(float64(totalCustomers) * hotsetFraction)`.
unfoldable pub new_picker : ℕ → ℕ → ℕ → ℕ → Picker
new_picker total num_clusters customers_per_cluster hot =
    let clusters = if ltb num_clusters 1 then 1 else num_clusters in
    let per =
      if ltb customers_per_cluster 1
      then (if ltb (total / clusters) 1 then 1 else total / clusters)
      else customers_per_cluster in
    let enough = if ltb hot clusters then clusters else hot in
    record {
      total = total;
      num_clusters = clusters;
      customers_per_cluster = per;
      hot_per_cluster = if ltb (enough / clusters) 1 then 1 else enough / clusters;
    }

-- What `Pick` draws: a customer of the hot set, at a place of a cluster, or any customer.
pub data Draw : Type 0 where
  hot_draw : ℕ → ℕ → Draw
  any_draw : ℕ → Draw

-- `Intn(n)` is below n.
abbrev pub IsDrawn : Picker → Draw → Type 0
IsDrawn p (hot_draw cluster local) = (cluster < p.num_clusters) × (local < p.hot_per_cluster)
IsDrawn p (any_draw n) = n < p.total

unfoldable pub pick : Picker → Draw → ℕ
pick p (hot_draw cluster local) = cluster * p.customers_per_cluster + (1 + local)
pick p (any_draw n) = 1 + n

hot-le : (hot clusters per : ℕ) → 0 < clusters → hot ≤ per * clusters → hot / clusters ≤ per
hot-le hot clusters per some le = grind (arith, div-add-mod' hot clusters)

places : (cluster clusters per : ℕ) → cluster < clusters → cluster * per + per ≤ per * clusters
places cluster clusters per lt = grind arith

-- The customers of a picker that is made for the layout are in it: `Validate` accepts each. It is asked
-- that the items of a cluster have room for two of every customer and a treasury, that there is a customer,
-- that customers and items are fewer than 2^62, that the hot set is at most all customers, that there is a
-- cluster, and that the draws are in their ranges.
pub pick_valid :
    (s : Schema) (hot : ℕ) (draw : Draw)
    → IsSized s
    → 0 < s.topo.num_clusters
    → hot ≤ total_customers s
    → IsDrawn (new_picker (total_customers s) s.topo.num_clusters s.customers_per_cluster hot) draw
    → validate s (
        pos (
          pick
            (new_picker (total_customers s) s.topo.num_clusters s.customers_per_cluster hot)
            draw))
      ≡ true
unfolding new_picker pick total_customers
pick_valid s hot (any_draw n) sized some few drawn =
    (validate_iff s sized (pos (1 + n))).1 (omega arith, omega arith)
pick_valid s hot (hot_draw cluster local) sized some few (here, place) =
    let per = s.customers_per_cluster in
    let clusters = s.topo.num_clusters in
    let many : 0 < per = sized.populated in
    let enough : (if ltb hot clusters then clusters else hot) ≤ per * clusters = grind arith in
    let hot-per = hot-le (if ltb hot clusters then clusters else hot) clusters per some enough in
    let one : ltb clusters 1 ≡ false = ground arith in
    let two : ltb per 1 ≡ false = ground arith in
    let cluster-lt : cluster < clusters = rw one at here in
    let small : local < (
        if ltb ((if ltb hot clusters then clusters else hot) / clusters) 1
        then 1
        else (if ltb hot clusters then clusters else hot) / clusters) =
      rw one at place in
    let local-lt : local < per = ground arith in
    let room = places cluster clusters per cluster-lt in
    rw two ((validate_iff s sized (pos (cluster * per + (1 + local)))).1 (omega arith, omega arith))
