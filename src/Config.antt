-- ===== src/Config.antt =====
-- internal/config/topology.go: the servers, the clusters, the shard map and the quorums.
-- A cluster id and a server id are 1-based; the id 0 stands for every id below 1, which no server
-- has. Go panics on a division by zero, so the theorems ask for a positive divisor.
pub mod Quorum
pub mod Shards
pub mod Members
mod Tests
use byz_bank.Prelude.{
  ℕ, zero, suc, ◌+◌, ◌-◌, ◌*◌, ◌/◌, Bool, List, [], ◌∷◌, ◌++◌, Option, none, some, leb,
  if◌then◌else◌,
}
use byz_bank.Prelude.Int.{ℤ, pos, negsuc, pos_part, ◌+ℤ◌, ◌-64◌, quot, rem}
use byz_bank.Prelude.Keys.{◌==◌, nat_key}
use byz_bank.Prelude.Text.{Bytes}

pub record Server : Type 0 where
  pub id : ℕ
  pub cluster : ℕ
  pub host : Bytes
  pub port : ℕ

pub record Topology : Type 0 where
  pub num_clusters : ℕ
  pub cluster_size : ℕ
  pub total_items : ℕ
  pub base_port : ℕ
  pub host : Bytes
  pub initial_balance : ℤ
  pub servers : List Server

-- The server numbered `id` of the cluster that is `c` places behind the first.
abbrev pub server : ℕ → Bytes → ℕ → ℕ → Server
server base_port host c id = record { id = id; cluster = c + 1; host = host; port = base_port + id }

-- The two loops of `New`: the inner one has `k` rounds left, at `i` of cluster `c`.
unfoldable pub cluster_block : ℕ → Bytes → ℕ → ℕ → ℕ → ℕ → List Server
cluster_block base_port host size c i zero = []
cluster_block base_port host size c i (suc k) =
    server base_port host c (c * size + i + 1) ∷ cluster_block base_port host size c (i + 1) k

unfoldable pub all_blocks : ℕ → Bytes → ℕ → ℕ → ℕ → List Server
unfolding cluster_block
all_blocks base_port host size c zero = []
all_blocks base_port host size c (suc k) =
    cluster_block base_port host size c 0 size ++ all_blocks base_port host size (c + 1) k

unfoldable pub new : ℕ → ℕ → ℕ → ℕ → Bytes → ℤ → Topology
unfolding all_blocks
new num_clusters cluster_size total_items base_port host initial_balance = record {
  num_clusters = num_clusters;
  cluster_size = cluster_size;
  total_items = total_items;
  base_port = base_port;
  host = host;
  initial_balance = initial_balance;
  servers = all_blocks base_port host cluster_size 0 num_clusters;
}

-- `Default`: 3 clusters of 12 servers, 3000 items, 10 in every account.
unfoldable pub default : Topology
unfolding new
default = new 3 12 3000 9000 (49 ∷ 50 ∷ 55 ∷ 46 ∷ 48 ∷ 46 ∷ 48 ∷ 46 ∷ 49 ∷ []) (pos 10)

unfoldable pub total_servers : Topology → ℕ
total_servers t = t.num_clusters * t.cluster_size

-- `F`.
unfoldable pub f : Topology → ℕ
f t = (t.cluster_size - 1) / 3

unfoldable pub quorum : Topology → ℕ
unfolding f
quorum t = 2 * f t + 1

unfoldable pub collector_quorum : Topology → ℕ
unfolding f
collector_quorum t = t.cluster_size - f t

unfoldable pub client_quorum : Topology → ℕ
unfolding f
client_quorum t = f t + 1

unfoldable pub items_per_cluster : Topology → ℕ
items_per_cluster t = t.total_items / t.num_clusters

-- The two tests of `ClusterOf` on the index.
unfoldable pub clamp_index : ℕ → ℤ → ℕ
clamp_index num (negsuc _) = 0
clamp_index num (pos i) = if leb num i then num - 1 else i

unfoldable pub cluster_of : Topology → ℤ → ℕ
unfolding clamp_index quot
cluster_of t item = clamp_index t.num_clusters (quot (item -64 pos 1) (items_per_cluster t)) + 1

-- The offset is below the cluster's size also for a negative view.
unfoldable pub primary_offset : ℕ → ℤ → ℕ
unfolding rem
primary_offset size view = pos_part (rem (rem view size +ℤ pos size) size)

-- `base + offset + 1` with the base of a cluster id below 1 under every server id.
unfoldable pub primary_of : Topology → ℕ → ℤ → ℕ
unfolding primary_offset
primary_of t cluster view =
    cluster * t.cluster_size + primary_offset t.cluster_size view + 1 - t.cluster_size

unfoldable pub in_cluster : ℕ → List Server → List Server
in_cluster cluster [] = []
in_cluster cluster (s ∷ ss) =
    let rest = in_cluster cluster ss in if s.cluster == cluster then s ∷ rest else rest

unfoldable pub servers_in_cluster : Topology → ℕ → List Server
unfolding in_cluster
servers_in_cluster t cluster = in_cluster cluster t.servers

unfoldable pub find_server : ℕ → List Server → Option Server
find_server id [] = none
find_server id (s ∷ ss) = if s.id == id then some s else find_server id ss

unfoldable pub server_by_id : Topology → ℕ → Option Server
unfolding find_server
server_by_id t id = find_server id t.servers

unfoldable pub same_cluster : Topology → ℤ → ℤ → Bool
same_cluster t x y = cluster_of t x == cluster_of t y
