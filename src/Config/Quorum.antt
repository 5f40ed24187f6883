-- ===== src/Config/Quorum.antt =====
-- The quorums of internal/config/topology.go: when two of them meet in an honest server.
use byz_bank.Prelude.Distinct.{
  contains, IsDistinct, Subset, common, length-common-le, member_outside, common-IsDistinct,
  contains-common_iff,
}
use byz_bank.Prelude.{ℕ, List, true, false, length, ◌+◌, ◌*◌, ◌≤◌, ◌<◌, ◌≡◌, ◌↔◌, arith}
use byz_bank.Config.{Topology, f, quorum, collector_quorum, client_quorum}

-- In a cluster of 3f+1 servers of which at most f are faulty, every two quorums of different servers
-- have a server in common that is not faulty.
pub quorum-intersection :
    (t : Topology) (members a b faulty : List ℕ)
    → t.cluster_size ≡ 3 * f t + 1
    → length members ≡ t.cluster_size
    → length faulty ≤ f t
    → IsDistinct a
    → IsDistinct b
    → Subset a members
    → Subset b members
    → quorum t ≤ length a
    → quorum t ≤ length b
    → (k : ℕ) × (contains k a ≡ true) × (contains k b ≡ true) × (contains k faulty ≡ false)
unfolding quorum
quorum-intersection t members a b faulty shape all few da db sa sb ha hb =
    let overlap = length-common-le a b members da db sa sb in
    let (k, both, sound) =
      member_outside (common a b) faulty (common-IsDistinct a b da) (omega arith) in
    let (ka, kb) = contains-common_iff k a b both in (k, ka, kb, sound)

-- Two sets of 2f+1 servers must share more than f exactly when the cluster has 3f+1 servers.
quorum_shape :
    (t : Topology)
    → 0 < t.cluster_size
    → (t.cluster_size + f t + 1 ≤ 2 * quorum t) ↔ (t.cluster_size ≡ 3 * f t + 1)
unfolding f quorum
quorum_shape t h = (λ a. omega arith, λ a. omega arith)

-- The collector threshold n-f is safe and live in a cluster of every size: two of them share more
-- than f servers, and the n-f servers that are not faulty reach it; it is never below 2f+1, and a
-- client's f+1 replies hold an honest one.
pub collector-intersection :
    (t : Topology)
    → 0 < t.cluster_size
    → (t.cluster_size + f t + 1 ≤ 2 * collector_quorum t)
      × (collector_quorum t + f t ≡ t.cluster_size)
      × (quorum t ≤ collector_quorum t)
      × (f t < client_quorum t)
unfolding f quorum collector_quorum client_quorum
collector-intersection t h = (omega arith, omega arith, omega arith, omega arith)
