-- ===== src/Testcase/Oracle.antt =====
-- The comparison of a run with an oracle file, internal/testcase/oracle.go. The calls that fetch
-- balances and entries from servers, and the printing, are left out.
use byz_bank.Prelude.{
  ℕ, ◌+◌, Bool, true, false, not, ◌&&◌, List, [], ◌∷◌, Option, none, some, if◌then◌else◌, length,
}
use byz_bank.Prelude.Int.{ℤ, int_key}
use byz_bank.Prelude.Keys.{◌==◌, GoMap, get, put, nat_key}
use byz_bank.Prelude.Text.{Bytes, bytes_key}
use byz_bank.Prelude.Distinct.{contains}
use byz_bank.Config.{Server, Topology, servers_in_cluster}
use byz_bank.Testcase.{TestSet}

-- `OracleDump`, and `expectedSet` with the committed entries of each cluster.
pub record OracleDump : Type 0 where
  pub set : ℤ
  pub balances : GoMap Bytes ℤ
  pub datastore_per_cluster : GoMap Bytes (List Bytes)

abbrev pub or_zero : Option ℕ → ℕ
or_zero none = 0
or_zero (some n) = n

abbrev pub or_empty : Option (List Bytes) → List Bytes
or_empty none = []
or_empty (some l) = l

-- `for _, s := range a { ca[s]++ }`
unfoldable pub tally : List Bytes → GoMap Bytes ℕ → GoMap Bytes ℕ
tally [] m = m
tally (s ∷ ss) m = tally ss (put s (or_zero (get s m) + 1) m)

unfoldable pub all_match : GoMap Bytes ℕ → GoMap Bytes ℕ → Bool
all_match [] cb = true
all_match ((k, va) ∷ ca) cb = (or_zero (get k cb) == va) && all_match ca cb

unfoldable pub multiset_equal : List Bytes → List Bytes → Bool
unfolding tally all_match
multiset_equal a b =
    let ca = tally a [] in
    let cb = tally b [] in if not (length ca == length cb) then false else all_match ca cb

unfoldable pub find_expected_set : ℤ → List OracleDump → Option OracleDump
find_expected_set number [] = none
find_expected_set number (s ∷ sets) =
    if s.set == number then some s else find_expected_set number sets

-- The loop over a dump's balances: an item that the oracle lacks is a warning only.
unfoldable pub balances_match : GoMap Bytes ℤ → GoMap Bytes ℤ → Bool
balances_match [] expected = true
balances_match ((item, val) ∷ balances) expected =
    let here : Bool = elim (get item expected) [ none ↦ true | some exp ↦ val == exp ] in
    here && balances_match balances expected

-- The loop over the keys of the three clusters.
unfoldable pub stores_match : List Bytes → OracleDump → OracleDump → Bool
unfolding multiset_equal
stores_match [] d s = true
stores_match (c ∷ cs) d s =
    multiset_equal (or_empty (get c d.datastore_per_cluster))
      (or_empty (get c s.datastore_per_cluster))
    && stores_match cs d s

abbrev pub cluster_keys : List Bytes
cluster_keys = (67 ∷ 49 ∷ []) ∷ (67 ∷ 50 ∷ []) ∷ (67 ∷ 51 ∷ []) ∷ []

-- `VerifyDumps` once the file is loaded: `none` is its error, and `some` whether `rc` is 0.
unfoldable pub verify_dumps : List OracleDump → List OracleDump → Bool → Option Bool
unfolding find_expected_set balances_match stores_match
verify_dumps expected [] pass = some pass
verify_dumps expected (d ∷ ds) pass = elim (find_expected_set d.set expected) [
  | none ↦ none
  | some s ↦
      verify_dumps expected ds
        (pass && balances_match d.balances s.balances && stores_match cluster_keys d s)
]

-- `liveInCluster`
unfoldable pub first_live : List ℕ → List Server → Option ℕ
first_live live [] = none
first_live live (srv ∷ srvs) = if contains srv.id live then some srv.id else first_live live srvs

unfoldable pub live_in_cluster : TestSet → ℕ → Topology → Option ℕ
unfolding first_live
live_in_cluster set cluster topo = first_live set.live (servers_in_cluster topo cluster)
