-- ===== src/Config/Tests.antt =====
-- Runs of internal/config/topology.go: two clusters of four servers and a hundred items.
use byz_bank.Prelude.{ℕ, true, false, ◌∷◌, ◌≡◌, refl, [], arith}
use byz_bank.Prelude.Int.{pos, negsuc, ◌+ℤ◌, ◌-ℤ◌}
use byz_bank.Prelude.Distinct.{contains}
use byz_bank.Config.{Topology, new, primary_of, f, quorum}
use byz_bank.Config.Quorum.{quorum-intersection}

abbrev two_by_four : Topology
two_by_four = new 2 4 100 9000 [] (pos 10)

far_primary : primary_of two_by_four 2 (negsuc 0) ≡ 8
unfolding primary_of new ◌+ℤ◌ ◌-ℤ◌
far_primary = refl

quorum-intersection_example :
    (k : ℕ) × (contains k (1 ∷ 2 ∷ 3 ∷ []) ≡ true)
    × (contains k (2 ∷ 3 ∷ 4 ∷ []) ≡ true)
    × (contains k (2 ∷ []) ≡ false)
unfolding new f quorum contains
quorum-intersection_example =
    quorum-intersection two_by_four (1 ∷ 2 ∷ 3 ∷ 4 ∷ []) (1 ∷ 2 ∷ 3 ∷ []) (2 ∷ 3 ∷ 4 ∷ []) (2 ∷ [])
      refl refl (omega arith) (refl, (refl, (refl, tt))) (refl, (refl, (refl, tt)))
      (refl, (refl, (refl, tt))) (refl, (refl, (refl, tt))) (omega arith) (omega arith)
