-- ===== src/Config/Shards.antt =====
-- The shard map of internal/config/topology.go.
use byz_bank.Prelude.{ℕ, suc, ◌+◌, ◌*◌, ◌/◌, ◌≤◌, ◌<◌, ◌^◌, ◌≡◌, ◌↔◌, ◌∙◌, ◌⊎◌, inl, inr, arith}
use native.Mathlib.Nat.{div-add-mod', mod-lt, div-lt_iff_lt-mul}
use byz_bank.Config.Members.{mul_mono}
use byz_bank.Prelude.Int.{ℤ, pos, negsuc, ◌-ℤ◌, ◌-64◌, -64-eq, int_laws, quot}
use byz_bank.Config.{Topology, cluster_of, clamp_index, items_per_cluster}

clamp_index-lt : (num : ℕ) (i : ℤ) → 0 < num → clamp_index num i < num
unfolding clamp_index
clamp_index-lt num (negsuc _) h = omega arith
clamp_index-lt num (pos i) h = ground arith

-- Every item, in the key space or not, belongs to one of the clusters.
pub cluster_of-bounds :
    (t : Topology) (item : ℤ)
    → 0 < t.num_clusters
    → (1 ≤ cluster_of t item) × (cluster_of t item ≤ t.num_clusters)
unfolding cluster_of
cluster_of-bounds t item h =
    let lt = clamp_index-lt t.num_clusters (quot (item -64 pos 1) (items_per_cluster t)) h in
    (omega arith, omega arith)

pred_item : (n : ℕ) → suc n < 2 ^ 63 → pos (suc n) -64 pos 1 ≡ pos n
pred_item n h =
    let e : pos (suc n) -ℤ pos 1 ≡ pos n = omega int_laws in
    -64-eq (pos (suc n)) (pos 1) (rw e (omega arith, omega arith)) ∙ e

lt_cases : (a b : ℕ) → (a ≡ b) ⊎ (a < b) ⊎ (b < a)
lt_cases a b = ground arith

-- A number lies in the q-th block of `per` numbers, and in no other.
block_unique :
    (per n q c : ℕ)
    → q * per ≤ n
    → n < (q + 1) * per
    → (q ≡ c) ↔ ((c * per ≤ n) × (n < (c + 1) * per))
block_unique per n q c lo hi = (
  λ e. rw (← e) (lo, hi),
  λ (a, b). elim (lt_cases q c) [
    | inl e ↦ e
    | inr (inl lt) ↦ absurd (grind (arith, mul_mono q c per lt))
    | inr (inr gt) ↦ absurd (grind (arith, mul_mono c q per gt))
  ],
)

div_block : (per n : ℕ) → 0 < per → ((n / per) * per ≤ n) × (n < (n / per + 1) * per)
div_block per n h = let e = div-add-mod' n per in let lt = mod-lt n h in (omega arith, omega arith)

clamp_index-div :
    (num per n : ℕ) → 0 < per → n < num * per → clamp_index num (pos (n / per)) ≡ n / per
unfolding clamp_index
clamp_index-div num per n h fits = ground (arith, (div-lt_iff_lt-mul {x = n} {y = num} h).1 fits)

cluster_of-suc :
    (t : Topology) (n : ℕ)
    → 0 < items_per_cluster t
    → n < t.num_clusters * items_per_cluster t
    → suc n < 2 ^ 63
    → cluster_of t (pos (suc n)) ≡ n / items_per_cluster t + 1
unfolding cluster_of quot
cluster_of-suc t n per fits small =
    rw (pred_item n small, clamp_index-div t.num_clusters (items_per_cluster t) n per fits)

-- Cluster c owns exactly the items from (c-1) * per + 1 to c * per, of those that are in the key
-- space that the clusters share out.
pub cluster_of_iff :
    (t : Topology) (n c : ℕ)
    → 0 < items_per_cluster t
    → n < t.num_clusters * items_per_cluster t
    → suc n < 2 ^ 63
    → (cluster_of t (pos (suc n)) ≡ suc c)
      ↔ ((c * items_per_cluster t ≤ n) × (n < (c + 1) * items_per_cluster t))
unfolding cluster_of
cluster_of_iff t n c per fits small = rw (cluster_of-suc t n per fits small) (
    let (lo, hi) = div_block (items_per_cluster t) n per in
    let (to, back) = block_unique (items_per_cluster t) n (n / items_per_cluster t) c lo hi in
    (λ e. to (omega arith), λ h. omega (arith, back h)))
