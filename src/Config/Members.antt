-- ===== src/Config/Members.antt =====
-- The membership of the clusters that `New` lays out, internal/config/topology.go.
use mathlib.Core.List.{append-nil}
use native.Mathlib.Nat.{mod-lt, mod-mod, add-mod_right, mul-add-mod_self_right, mod-eq_of_lt}
use byz_bank.Prelude.{
  ℕ, zero, suc, ◌+◌, ◌-◌, ◌*◌, ◌%◌, ◌≤◌, ◌<◌, ◌≡◌, refl, ◌≢◌, List, [], ◌∷◌, ◌++◌, none, some,
  arith, All, ℕ_discrete, ◌∙◌,
}
use byz_bank.Prelude.Int.{ℤ, pos, negsuc, ◌+ℤ◌, ◌-ℤ◌, int_laws, rem}
use byz_bank.Prelude.Text.{Bytes}
use byz_bank.Config.{
  Topology, Server, server, cluster_block, all_blocks, new, find_server, server_by_id, in_cluster,
  servers_in_cluster, primary_offset, primary_of,
}

find_server-append_none :
    (id : ℕ) (xs ys : List Server)
    → find_server id xs ≡ none
    → find_server id (xs ++ ys) ≡ find_server id ys
unfolding find_server
find_server-append_none id [] ys h = refl
find_server-append_none id (s ∷ xs) ys h = ground (arith, find_server-append_none id xs ys)

find_server-append_some :
    (id : ℕ) (s : Server) (xs ys : List Server)
    → find_server id xs ≡ some s
    → find_server id (xs ++ ys) ≡ some s
unfolding find_server
find_server-append_some id s [] ys h = cc
find_server-append_some id s (x ∷ xs) ys h = ground (arith, find_server-append_some id s xs ys)

pub mul_mono : (c d size : ℕ) → c < d → (c + 1) * size ≤ d * size
mul_mono c d size h = grind arith

in_cluster-append :
    (c : ℕ) (xs ys : List Server) → in_cluster c (xs ++ ys) ≡ in_cluster c xs ++ in_cluster c ys
unfolding in_cluster
in_cluster-append c [] ys = refl
in_cluster-append c (s ∷ xs) ys = ground (arith, in_cluster-append c xs ys)

module _ (base_port : ℕ) (host : Bytes) (size : ℕ) where
  find_server-block :
      (c i k id : ℕ)
      → c * size + i < id
      → id ≤ c * size + i + k
      → find_server id (cluster_block base_port host size c i k) ≡ some (server base_port host c id)
  unfolding find_server cluster_block
  find_server-block c i zero id lo hi = absurd (omega arith)
  find_server-block c i (suc k) id lo hi = ground (arith, find_server-block c (i + 1) k id)

  find_server-block_above :
      (c i k id : ℕ)
      → c * size + i + k < id
      → find_server id (cluster_block base_port host size c i k) ≡ none
  unfolding find_server cluster_block
  find_server-block_above c i zero id lo = refl
  find_server-block_above c i (suc k) id lo = ground (arith, find_server-block_above c (i + 1) k id)

  further_block : (c d o : ℕ) → c < d → c * size + 0 + size < d * size + o + 1
  further_block c d o h = grind (arith, mul_mono c d size h)

  find_server-blocks :
      (c k d o : ℕ)
      → c ≤ d
      → d < c + k
      → o < size
      → find_server (d * size + o + 1) (all_blocks base_port host size c k)
        ≡ some (server base_port host d (d * size + o + 1))
  unfolding all_blocks
  find_server-blocks c zero d o lo hi small = absurd (omega arith)
  find_server-blocks c (suc k) d o lo hi small = elim (ℕ_discrete c d) [
    | yes here ↦
        find_server-append_some (d * size + o + 1) _ (cluster_block base_port host size c 0 size) _
          (rw here (find_server-block d 0 size (d * size + o + 1) (omega arith) (omega arith)))
    | no further ↦
        find_server-append_none (d * size + o + 1) (cluster_block base_port host size c 0 size) _
          (find_server-block_above c 0 size (d * size + o + 1) (further_block c d o (omega arith)))
        ∙ find_server-blocks (c + 1) k d o (omega arith) (omega arith) small
  ]

  in_cluster-block :
      (c i k : ℕ)
      → in_cluster (suc c) (cluster_block base_port host size c i k)
        ≡ cluster_block base_port host size c i k
  unfolding in_cluster cluster_block
  in_cluster-block c i zero = refl
  in_cluster-block c i (suc k) = ground (arith, in_cluster-block c (i + 1) k)

  in_cluster-block_ne :
      (c d i k : ℕ) → c ≢ d → in_cluster (suc d) (cluster_block base_port host size c i k) ≡ []
  unfolding in_cluster cluster_block
  in_cluster-block_ne c d i zero ne = refl
  in_cluster-block_ne c d i (suc k) ne = ground (arith, in_cluster-block_ne c d (i + 1) k ne)

  in_cluster-blocks_below :
      (c d k : ℕ) → d < c → in_cluster (suc d) (all_blocks base_port host size c k) ≡ []
  unfolding in_cluster all_blocks
  in_cluster-blocks_below c d zero lt = refl
  in_cluster-blocks_below c d (suc k) lt =
      rw
        (
          in_cluster-append (suc d) (cluster_block base_port host size c 0 size) _,
          in_cluster-block_ne c d 0 size (omega arith),
        )
        (in_cluster-blocks_below (c + 1) d k (omega arith))

  in_cluster-blocks :
      (c d k : ℕ)
      → c ≤ d
      → d < c + k
      → in_cluster (suc d) (all_blocks base_port host size c k)
        ≡ cluster_block base_port host size d 0 size
  unfolding in_cluster all_blocks
  in_cluster-blocks c d zero lo hi = absurd (omega arith)
  in_cluster-blocks c d (suc k) lo hi = elim (ℕ_discrete c d) [
    | yes here ↦
        rw
          (
            in_cluster-append (suc d) (cluster_block base_port host size c 0 size) _,
            here,
            in_cluster-block d 0 size,
            in_cluster-blocks_below (d + 1) d k (omega arith),
          )
          (append-nil _)
    | no further ↦
        rw
          (
            in_cluster-append (suc d) (cluster_block base_port host size c 0 size) _,
            in_cluster-block_ne c d 0 size further,
          )
          (in_cluster-blocks (c + 1) d k (omega arith) (omega arith))
  ]

  block-range :
      (c i k : ℕ)
      → i + k ≤ size
      → All
          (λ s. (c * size < s.id) × (s.id ≤ (c + 1) * size))
          (cluster_block base_port host size c i k)
  unfolding cluster_block
  block-range c i zero h = tt
  block-range c i (suc k) h = ((omega arith, omega arith), block-range c (i + 1) k (omega arith))

pos_sum : (a b : ℕ) → pos a +ℤ pos b ≡ pos (a + b)
pos_sum a b = omega int_laws

neg_sum : (r s : ℕ) → r ≤ s → pos 0 -ℤ pos r +ℤ pos s ≡ pos (s - r)
neg_sum r s h = omega int_laws

mod_le : (n s : ℕ) → 0 < s → n % s ≤ s
mod_le n s h = let lt = mod-lt n h in omega arith

primary_offset-pos : (size n : ℕ) → primary_offset size (pos n) ≡ n % size
unfolding primary_offset rem
primary_offset-pos size n = rw (pos_sum (n % size) size, add-mod_right, mod-mod)

primary_offset-lt : (size : ℕ) (view : ℤ) → 0 < size → primary_offset size view < size
unfolding primary_offset rem
primary_offset-lt size (pos n) h = rw (pos_sum (n % size) size) (mod-lt (n % size + size) h)
primary_offset-lt size (negsuc n) h =
    rw (neg_sum (suc n % size) size (mod_le (suc n) size h)) (mod-lt (size - suc n % size) h)

module _ (num size items base_port : ℕ) (host : Bytes) (balance : ℤ) where
  abbrev topology : Topology
  topology = new num size items base_port host balance

  primary_of-suc :
      (c : ℕ) (view : ℤ)
      → primary_of topology (suc c) view ≡ c * size + primary_offset size view + 1
  unfolding primary_of new
  primary_of-suc c view = omega arith

  -- In every view, also a negative one, the primary of a cluster is a server of that cluster.
  pub server_by_id-primary_of :
      (c : ℕ) (view : ℤ)
      → 0 < size
      → c < num
      → server_by_id topology (primary_of topology (suc c) view)
        ≡ some (server base_port host c (primary_of topology (suc c) view))
  unfolding server_by_id new
  server_by_id-primary_of c view some_server known = rw (primary_of-suc c view) (
      find_server-blocks base_port host size 0 num c (primary_offset size view) (omega arith)
        (omega arith) (primary_offset-lt size view some_server))

  -- The servers of a cluster are its block of `size` consecutive ids.
  pub servers_in_cluster-new :
      (c : ℕ)
      → c < num
      → servers_in_cluster topology (suc c) ≡ cluster_block base_port host size c 0 size
  unfolding servers_in_cluster new
  servers_in_cluster-new c known =
      in_cluster-blocks base_port host size 0 c num (omega arith) (omega arith)

  pub servers_in_cluster-range :
      (c : ℕ)
      → c < num
      → All (λ s. (c * size < s.id) × (s.id ≤ (c + 1) * size)) (servers_in_cluster topology (suc c))
  servers_in_cluster-range c known =
      rw (servers_in_cluster-new c known) (block-range base_port host size c 0 size (omega arith))

-- Every server of a cluster leads it in some view of any `size` consecutive ones, and the view
-- `size` later has the same primary.
pub primary_of-rotates :
    (t : Topology) (c v o : ℕ)
    → o < t.cluster_size
    → (primary_of t (suc c) (pos (v * t.cluster_size + o)) ≡ c * t.cluster_size + o + 1)
      × (primary_of t (suc c) (pos (v + t.cluster_size)) ≡ primary_of t (suc c) (pos v))
unfolding primary_of
primary_of-rotates t c v o h = (
  rw
      (
        primary_offset-pos t.cluster_size (v * t.cluster_size + o),
        mul-add-mod_self_right v t.cluster_size o,
        mod-eq_of_lt h,
      )
      (omega arith),
  rw (
    primary_offset-pos t.cluster_size (v + t.cluster_size),
    primary_offset-pos t.cluster_size v,
    add-mod_right,
  ),
)
