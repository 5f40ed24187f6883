-- ===== src/Smallbank/Tracked.antt =====
-- No two items that internal/smallbank/schema.go tracks are the same.
use byz_bank.Prelude.{
  ℕ, zero, suc, ◌+◌, ◌*◌, ◌≤◌, ◌<◌, ◌≡◌, ◌≢◌, ap, arith, All, Differ, Differ-append,
}
use native.Mathlib.Numerals.{add-one}
use native.Mathlib.Nat.{div-add-mod', mod-lt}
use byz_bank.Prelude.Int.{ℤ, pos}
use byz_bank.Prelude.Keys.{nat_key}
use byz_bank.Smallbank.{
  Schema, total_customers, savings_item, checking_item, treasury_item, account_items_from,
  account_items, treasuries_from, all_tracked_items,
}
use byz_bank.Smallbank.Layout.{IsSized}
use byz_bank.Smallbank.Placement.{
  spot-injective, per, block, place, place-lt, savings-spot, checking-spot, treasury-spot,
}

module _ (s : Schema) (sized : IsSized s) where
  -- Two customers that share a place of a block are one.
  same_customer :
      (j k : ℕ) → block s sized j ≡ block s sized k → place s sized j ≡ place s sized k → j ≡ k
  same_customer j k b p =
      let e = div-add-mod' j s.customers_per_cluster in
      let e' = div-add-mod' k s.customers_per_cluster in
      let m = ap (λ (t : ℕ). t * s.customers_per_cluster) b in omega arith

  -- What the items of the customers numbered from `i` on have in common.
  account_items_from-All :
      (P : ℤ → Type 0) (i rounds : ℕ)
      → ((k : ℕ)
          → i ≤ k
          → k < i + rounds
          → P (savings_item s (pos (suc k))) × P (checking_item s (pos (suc k))))
      → All P (account_items_from s (suc i) rounds)
  unfolding account_items_from
  account_items_from-All P i zero h = tt
  account_items_from-All P i (suc rounds) h =
      let (a, b) = h i (omega arith) (omega arith) in
      (
        a,
        (
          b,
          rw (add-one (suc i)) (
              account_items_from-All P (suc i) rounds (λ k lo hi. h k (omega arith) (omega arith))),
        ),
      )

  later-All :
      (P : ℤ → Type 0) (i rounds : ℕ)
      → ((k : ℕ)
          → suc i ≤ k
          → k < suc i + rounds
          → P (savings_item s (pos (suc k))) × P (checking_item s (pos (suc k))))
      → All P (account_items_from s (suc i + 1) rounds)
  later-All P i rounds h = rw (add-one (suc i)) (account_items_from-All P (suc i) rounds h)

  -- The items of two customers, and the two of one, are different.
  items_apart :
      (j k : ℕ)
      → j < k
      → k < total_customers s
      → (savings_item s (pos (suc j)) ≢ savings_item s (pos (suc k)))
        × (savings_item s (pos (suc j)) ≢ checking_item s (pos (suc k)))
        × (checking_item s (pos (suc j)) ≢ savings_item s (pos (suc k)))
        × (checking_item s (pos (suc j)) ≢ checking_item s (pos (suc k)))
  items_apart j k lt h =
      let pj = place-lt s sized j in
      let pk = place-lt s sized k in
      let one = same_customer j k in
      rw
        (
          savings-spot s sized j (omega arith),
          checking-spot s sized j (omega arith),
          savings-spot s sized k h,
          checking-spot s sized k h,
        )
        (
          (λ e.
              let (b, o) =
                spot-injective (per s sized) (block s sized j) _ (block s sized k) _ (omega arith)
                  (omega arith) e in
              absurd (omega (arith, one b (omega arith)))),
          (λ e.
              let (b, o) =
                spot-injective (per s sized) (block s sized j) _ (block s sized k) _ (omega arith)
                  (omega arith) e in
              absurd (omega arith)),
          (λ e.
              let (b, o) =
                spot-injective (per s sized) (block s sized j) _ (block s sized k) _ (omega arith)
                  (omega arith) e in
              absurd (omega arith)),
          (λ e.
              let (b, o) =
                spot-injective (per s sized) (block s sized j) _ (block s sized k) _ (omega arith)
                  (omega arith) e in
              absurd (omega (arith, one b (omega arith)))),
        )

  own_items_apart :
      (k : ℕ) → k < total_customers s → savings_item s (pos (suc k)) ≢ checking_item s (pos (suc k))
  own_items_apart k h =
      let pk = place-lt s sized k in
      rw (savings-spot s sized k h, checking-spot s sized k h)
        λ e.
          let (b, o) =
            spot-injective (per s sized) (block s sized k) _ (block s sized k) _ (omega arith)
              (omega arith) e in
          absurd (omega arith)

  account_items_from-Differ :
      (i rounds : ℕ) → i + rounds ≤ total_customers s → Differ (account_items_from s (suc i) rounds)
  unfolding account_items_from
  account_items_from-Differ i zero h = tt
  account_items_from-Differ i (suc rounds) h =
      let bound : suc i + rounds ≤ total_customers s = omega arith in
      let rest = account_items_from-Differ (suc i) rounds bound in
      let sav =
        later-All (λ y. savings_item s (pos (suc i)) ≢ y) i rounds
          λ k lo hi. let (a, b, _, _) = items_apart i k lo (omega arith) in (a, b) in
      let chk =
        later-All (λ y. checking_item s (pos (suc i)) ≢ y) i rounds
          λ k lo hi. let (_, _, a, b) = items_apart i k lo (omega arith) in (a, b) in
      ((own_items_apart i (omega arith), sav), (chk, rw (add-one (suc i)) rest))

  treasuries_from-All :
      (P : ℤ → Type 0) (c rounds : ℕ)
      → ((d : ℕ) → c ≤ d → d < c + rounds → P (treasury_item s (suc d)))
      → All P (treasuries_from s (suc c) rounds)
  unfolding treasuries_from
  treasuries_from-All P c zero h = tt
  treasuries_from-All P c (suc rounds) h = (
    h c (omega arith) (omega arith),
    rw (add-one (suc c))
        (treasuries_from-All P (suc c) rounds (λ d lo hi. h d (omega arith) (omega arith))),
  )

  treasuries_apart :
      (c d : ℕ)
      → c < d
      → d < s.topo.num_clusters
      → treasury_item s (suc c) ≢ treasury_item s (suc d)
  treasuries_apart c d lt h =
      let room = sized.fits in
      rw (treasury-spot s sized c (omega arith), treasury-spot s sized d h)
        λ e.
          let (b, o) = spot-injective (per s sized) c _ d _ (omega arith) (omega arith) e in
          absurd (omega arith)

  treasuries_from-Differ :
      (c rounds : ℕ) → c + rounds ≤ s.topo.num_clusters → Differ (treasuries_from s (suc c) rounds)
  unfolding treasuries_from
  treasuries_from-Differ c zero h = tt
  treasuries_from-Differ c (suc rounds) h =
      let bound : suc c + rounds ≤ s.topo.num_clusters = omega arith in
      let rest = treasuries_from-Differ (suc c) rounds bound in
      (
        rw (add-one (suc c)) (
            treasuries_from-All (λ y. treasury_item s (suc c) ≢ y) (suc c) rounds
              (λ d lo hi. treasuries_apart c d lo (omega arith))),
        rw (add-one (suc c)) rest,
      )

  treasury_apart :
      (k d : ℕ)
      → k < total_customers s
      → d < s.topo.num_clusters
      → (savings_item s (pos (suc k)) ≢ treasury_item s (suc d))
        × (checking_item s (pos (suc k)) ≢ treasury_item s (suc d))
  treasury_apart k d h lt =
      let pk = place-lt s sized k in
      let low = mod-lt k sized.populated in
      let room = sized.fits in
      rw (savings-spot s sized k h, checking-spot s sized k h, treasury-spot s sized d lt)
        (
          (λ e.
              let (b, o) =
                spot-injective (per s sized) (block s sized k) _ d _ (omega arith) (omega arith)
                  e in
              absurd (omega arith)),
          (λ e.
              let (b, o) =
                spot-injective (per s sized) (block s sized k) _ d _ (omega arith) (omega arith)
                  e in
              absurd (omega arith)),
        )

  -- Where the items of a cluster have room for two of every customer and a treasury, there is a customer,
  -- and customers and items are fewer than 2^62: no item stands twice in `AllTrackedItems`. The savings and checking items of all customers and the
  -- treasuries of all clusters are different, so that the sum of the balances counts none twice.
  pub all_tracked_items-Differ : Differ (all_tracked_items s)
  unfolding all_tracked_items account_items
  all_tracked_items-Differ =
      Differ-append (account_items_from s 1 (total_customers s)) _
        (account_items_from-Differ 0 (total_customers s) (omega arith))
        (treasuries_from-Differ 0 s.topo.num_clusters (omega arith))
        (account_items_from-All _ 0 (total_customers s) λ k lo hi. (
          treasuries_from-All _ 0 s.topo.num_clusters
              (λ d _ lt. (treasury_apart k d (omega arith) (omega arith)).0),
          treasuries_from-All _ 0 s.topo.num_clusters
              (λ d _ lt. (treasury_apart k d (omega arith) (omega arith)).1),
        ))
