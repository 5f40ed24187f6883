-- ===== src/Smallbank/Placement.antt =====
-- Where the items of internal/smallbank/schema.go lie.
use byz_bank.Prelude.{
  ℕ, zero, suc, ◌+◌, ◌*◌, ◌/◌, ◌%◌, ◌-◌, ◌<◌, ◌≡◌, refl, ap, ◌∙◌, ◌↔◌, ◌⊎◌, inl, inr, true, false,
  ◌||◌, arith, Bool-cases,
}
use native.Mathlib.Numerals.{add-one}
use native.Mathlib.Nat.{mod-lt}
use byz_bank.Prelude.Int.{ℤ, pos, negsuc, pos_part, ◌≤ℤ◌, ltb_ℤ}
use byz_bank.Prelude.Keys.{nat_key, beq_refl}
use byz_bank.Config.{cluster_of, items_per_cluster, same_cluster}
use byz_bank.Config.Members.{mul_mono}
use byz_bank.Config.Shards.{cluster_of_iff}
use byz_bank.Smallbank.{
  Schema, total_customers, out_of_range, cust_cluster, savings_item, checking_item, treasury_item,
  validate,
}
use byz_bank.Smallbank.Layout.{
  IsSized, cluster_index-lt, cust_cluster-eq, savings_item-eq, checking_item-eq, treasury_item-eq,
}

order_cases : (a b : ℕ) → (a ≡ b) ⊎ (a < b) ⊎ (b < a)
order_cases a b = ground arith

-- The item at offset `o` of the c-th block of `per` items.
abbrev pub spot : ℕ → ℕ → ℕ → ℤ
spot per c o = pos (c * per + o + 1)

pos_inj : (a b : ℕ) → pos a ≡ pos b → a ≡ b
pos_inj a b h = ap pos_part h

pub spot-injective :
    (per c o c' o' : ℕ) → o < per → o' < per → spot per c o ≡ spot per c' o' → (c ≡ c') × (o ≡ o')
spot-injective per c o c' o' h h' e =
    let same : c * per + o + 1 ≡ c' * per + o' + 1 = pos_inj _ _ e in
    elim (order_cases c c') [
      | inl eq ↦ (eq, offset per c c' o o' eq same)
      | inr (inl lt) ↦ absurd (grind (arith, mul_mono c c' per lt))
      | inr (inr gt) ↦ absurd (grind (arith, mul_mono c' c per gt))
    ]
  where
    offset : (per c c' o o' : ℕ) → c ≡ c' → c * per + o + 1 ≡ c' * per + o' + 1 → o ≡ o'
    offset per c c' o o' eq same =
        let k : c * per ≡ c' * per = ap (λ (t : ℕ). t * per) eq in omega arith

in_bounds :
    (cust top : ℤ)
    → (ltb_ℤ cust (pos 1) || ltb_ℤ top cust) ≡ false
    → (pos 1 ≤ℤ cust) × (cust ≤ℤ top)
in_bounds cust top h = ground arith

pub customer :
    (cust : ℤ) (total : ℕ)
    → (pos 1 ≤ℤ cust) × (cust ≤ℤ pos total)
    → (k : ℕ) × (cust ≡ pos (suc k)) × (k < total)
customer (pos (suc k)) total h = (k, refl, omega arith)
customer (pos zero) total h = absurd (omega arith)
customer (negsuc n) total h = absurd (omega arith)

module _ (s : Schema) (sized : IsSized s) where
  abbrev pub per : ℕ
  per = items_per_cluster s.topo

  abbrev pub block : ℕ → ℕ
  block k = k / s.customers_per_cluster

  abbrev pub place : ℕ → ℕ
  place k = k % s.customers_per_cluster

  pub place-lt : (k : ℕ) → place k + place k + 1 < per
  place-lt k = omega (arith, mod-lt k sized.populated, sized.fits)

  pub savings-spot :
      (k : ℕ)
      → k < total_customers s
      → savings_item s (pos (suc k)) ≡ spot per (block k) (place k + place k)
  savings-spot k h = savings_item-eq s sized k h ∙ ap pos (omega arith)

  pub checking-spot :
      (k : ℕ)
      → k < total_customers s
      → checking_item s (pos (suc k)) ≡ spot per (block k) (place k + place k + 1)
  checking-spot k h = checking_item-eq s sized k h ∙ ap pos (omega arith)

  pub treasury-spot :
      (c : ℕ) → c < s.topo.num_clusters → treasury_item s (suc c) ≡ spot per c (per - 1)
  treasury-spot c h = treasury_item-eq s sized c h ∙ ap pos (omega (arith, sized.fits))

  cluster_of-spot :
      (c o : ℕ) → c < s.topo.num_clusters → o < per → cluster_of s.topo (spot per c o) ≡ suc c
  cluster_of-spot c o h lt =
      let room = mul_mono c s.topo.num_clusters per h in
      let small = sized.few_items in
      rw (add-one (c * per + o)) (
        (cluster_of_iff s.topo (c * per + o) c (omega (arith, sized.fits)) (grind arith)
            (grind arith)).1
          (omega arith, grind arith))

  -- A customer's items and the treasury of its cluster lie in that cluster.
  pub customer_placed :
      (k : ℕ)
      → k < total_customers s
      → (cluster_of s.topo (savings_item s (pos (suc k))) ≡ cust_cluster s (pos (suc k)))
        × (cluster_of s.topo (checking_item s (pos (suc k))) ≡ cust_cluster s (pos (suc k)))
        × (cluster_of s.topo (treasury_item s (cust_cluster s (pos (suc k))))
            ≡ cust_cluster s (pos (suc k)))
  customer_placed k h =
      let lt = cluster_index-lt s sized k h in
      let room = place-lt k in
      let here : cust_cluster s (pos (suc k)) ≡ suc (block k) =
        cust_cluster-eq s sized k h ∙ add-one (block k) in
      rw (savings-spot k h, checking-spot k h, here, treasury-spot (block k) lt)
        (
          cluster_of-spot (block k) _ lt (omega arith),
          cluster_of-spot (block k) _ lt (omega arith),
          cluster_of-spot (block k) _ lt (omega arith),
        )

  validate-customer : (k : ℕ) → k < total_customers s → validate s (pos (suc k)) ≡ true
  unfolding validate same_cluster
  validate-customer k h =
      let inside : out_of_range s (pos (suc k)) ≡ false = ground arith in
      let (a, b, _) = customer_placed k h in
      rw (inside, a, b) (beq_refl (cust_cluster s (pos (suc k))))

  -- `Validate` accepts exactly the customers from 1 to the total.
  pub validate_iff :
      (cust : ℤ) → (validate s cust ≡ true) ↔ ((pos 1 ≤ℤ cust) × (cust ≤ℤ pos (total_customers s)))
  unfolding validate
  validate_iff cust = (
    λ h. elim (Bool-cases (out_of_range s cust)) [
      | inl bad ↦ cc (rw bad at h)
      | inr good ↦ in_bounds cust (pos (total_customers s)) good
    ],
    λ h. let (k, e, lt) = customer cust (total_customers s) h in rw e (validate-customer k lt),
  )
