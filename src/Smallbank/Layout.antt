-- ===== src/Smallbank/Layout.antt =====
-- The layout of internal/smallbank/schema.go: the items of the customers and the treasuries as numbers.
use byz_bank.Prelude.{ℕ, suc, ◌+◌, ◌*◌, ◌/◌, ◌%◌, ◌≤◌, ◌<◌, ◌^◌, ◌≡◌, refl, ap, ◌∙◌, false, arith}
use native.Mathlib.Numerals.{add-one}
use native.Mathlib.Nat.{mod-lt, div-lt_iff_lt-mul}
use byz_bank.Prelude.Int.{pos, ◌+ℤ◌, ◌-ℤ◌, ◌+64◌, ◌-64◌, +64-eq, -64-eq, quot, rem}
use byz_bank.Config.{items_per_cluster}
use byz_bank.Config.Members.{mul_mono}
use byz_bank.Smallbank.{
  Schema, total_customers, cluster_base, out_of_range, cust_cluster, savings_item, checking_item,
  treasury_item,
}

-- Every cluster has room for the items of its customers and a treasury, and the numbers are small.
pub record IsSized (s : Schema) : Type 0 where
  pub populated : 0 < s.customers_per_cluster
  pub fits : 2 * s.customers_per_cluster + 1 ≤ items_per_cluster s.topo
  pub few_customers : total_customers s < 2 ^ 62
  pub few_items : s.topo.num_clusters * items_per_cluster s.topo < 2 ^ 62

pub add_small : (a b : ℕ) → a + b < 2 ^ 63 → pos a +64 pos b ≡ pos (a + b)
unfolding ◌+ℤ◌
add_small a b h = +64-eq (pos a) (pos b) (ground arith) ∙ ground arith

pub sub_small : (a b c : ℕ) → a ≡ b + c → a < 2 ^ 63 → pos a -64 pos b ≡ pos c
unfolding ◌-ℤ◌
sub_small a b c e h = -64-eq (pos a) (pos b) (ground arith) ∙ ground arith

pred_small : (k : ℕ) → k < 2 ^ 62 → pos (suc k) -64 pos 1 ≡ pos k
pred_small k h = sub_small (suc k) 1 k (omega arith) (omega arith)

module _ (s : Schema) (sized : IsSized s) where
  in_range : (k : ℕ) → k < total_customers s → out_of_range s (pos (suc k)) ≡ false
  in_range k h = ground arith

  pub cluster_index-lt :
      (k : ℕ) → k < total_customers s → k / s.customers_per_cluster < s.topo.num_clusters
  unfolding total_customers
  cluster_index-lt k h =
      (div-lt_iff_lt-mul {x = k} {y = s.topo.num_clusters} sized.populated).1 (grind arith)

  pub cust_cluster-eq :
      (k : ℕ)
      → k < total_customers s
      → cust_cluster s (pos (suc k)) ≡ k / s.customers_per_cluster + 1
  unfolding cust_cluster quot
  cust_cluster-eq k h = rw (in_range k h, pred_small k (omega (arith, sized.few_customers))) refl

  pub cluster_base-eq : (c : ℕ) → cluster_base s (suc c) ≡ pos (c * items_per_cluster s.topo + 1)
  unfolding cluster_base ◌-ℤ◌
  cluster_base-eq c = grind arith

  place_small :
      (k : ℕ)
      → k % s.customers_per_cluster + k % s.customers_per_cluster + 1 ≤ 2 * s.customers_per_cluster
  place_small k = omega (arith, mod-lt k sized.populated)

  -- The cluster's block holds both items of every customer, and the treasury after them.
  block_end :
      (c : ℕ)
      → c < s.topo.num_clusters
      → c * items_per_cluster s.topo + items_per_cluster s.topo < 2 ^ 62
  block_end c h =
      grind (arith, mul_mono c s.topo.num_clusters (items_per_cluster s.topo) h, sized.few_items)

  -- The savings item of the customer numbered k + 1.
  pub savings_item-eq :
      (k : ℕ)
      → k < total_customers s
      → savings_item s (pos (suc k))
        ≡ pos (
            (k / s.customers_per_cluster) * items_per_cluster s.topo
            + 1
            + (k % s.customers_per_cluster + k % s.customers_per_cluster))
  unfolding savings_item rem
  savings_item-eq k h =
      let r = k % s.customers_per_cluster in
      let room = block_end (k / s.customers_per_cluster) (cluster_index-lt k h) in
      let low = place_small k in
      let fits = sized.fits in
      let base = cluster_base-eq (k / s.customers_per_cluster) in
      rw
        (
          cust_cluster-eq k h,
          add-one (k / s.customers_per_cluster),
          base,
          pred_small k (omega (arith, sized.few_customers)),
          add_small r 1 (omega arith),
          sub_small (r + 1) 1 r (omega arith) (omega arith),
          add_small r r (omega arith),
        )
        (add_small _ (r + r) (omega arith))

  pub checking_item-eq :
      (k : ℕ)
      → k < total_customers s
      → checking_item s (pos (suc k))
        ≡ pos (
            (k / s.customers_per_cluster) * items_per_cluster s.topo
            + 2
            + (k % s.customers_per_cluster + k % s.customers_per_cluster))
  unfolding checking_item
  checking_item-eq k h =
      let room = block_end (k / s.customers_per_cluster) (cluster_index-lt k h) in
      let low = place_small k in
      let fits = sized.fits in
      rw (savings_item-eq k h) (add_small _ 1 (omega arith) ∙ ap pos (omega arith))

  -- The treasury is the last item of the cluster's block.
  pub treasury_item-eq :
      (c : ℕ)
      → c < s.topo.num_clusters
      → treasury_item s (suc c) ≡ pos (c * items_per_cluster s.topo + items_per_cluster s.topo)
  unfolding treasury_item
  treasury_item-eq c h =
      let per = items_per_cluster s.topo in
      let room = block_end c h in
      rw (cluster_base-eq c, add_small (c * per + 1) per (omega arith))
        (sub_small _ 1 _ (omega arith) (omega arith))
