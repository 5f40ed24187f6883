-- ===== src/Testcase/Sets.antt =====
-- `ParseFile` of internal/testcase/parse.go on the rows that the CSV reader gives, the contact server of
-- a set, and the faults that `ApplySetConfig` of internal/testcase/runner.go sets.
use byz_bank.Prelude.{
  ℕ, zero, suc, ◌+◌, Bool, false, not, ◌&&◌, ◌||◌, List, [], ◌∷◌, ◌++◌, Option, none, some,
  if◌then◌else◌, ltb, length,
}
use mathlib.Core.List.{reverse}
use byz_bank.Prelude.Keys.{◌==◌, nat_key}
use byz_bank.Prelude.Text.{Bytes, bytes_key, atoi}
use byz_bank.Prelude.Distinct.{contains}
use byz_bank.Config.{Server, Topology}
use byz_bank.Pbft.State.{FaultConfig}
use byz_bank.Testcase.{TestSet}
use byz_bank.Testcase.Parse.{◌>>=◌, parse_transaction, parse_server_list}

-- `strings.TrimSpace` of ASCII text.
abbrev pub is_space : ℕ → Bool
is_space c = (c == 9) || (c == 10) || (c == 11) || (c == 12) || (c == 13) || (c == 32)

unfoldable pub trim_left : Bytes → Bytes
trim_left [] = []
trim_left (c ∷ cs) = if is_space c then trim_left cs else c ∷ cs

unfoldable pub trim : Bytes → Bytes
unfolding trim_left
trim s = reverse (trim_left (reverse (trim_left s)))

-- The servers of the n-th field, if the row has that many.
unfoldable pub servers_at : ℕ → List Bytes → List ℕ
servers_at n [] = []
servers_at zero (field ∷ fields) = parse_server_list field
servers_at (suc n) (field ∷ fields) = servers_at n fields

abbrev pub flush : Option TestSet → List TestSet → List TestSet
flush none sets = sets
flush (some cur) sets = sets ++ (cur ∷ [])

-- The sets so far and the set that is being read.
abbrev pub Progress : Type 0
Progress = List TestSet × Option TestSet

-- A row that names a set begins it.
unfoldable pub begin_set : Bytes → List Bytes → Progress → Option Progress
begin_set first rest (sets, cur) = if trim first == [] then some (sets, cur) else do
  number ← atoi (trim first)
  some (
    flush cur sets,
    some (record {
      number = number;
      txns = [];
      live = servers_at 0 rest;
      contact = servers_at 1 rest;
      byzantine = servers_at 2 rest;
    }),
  )

unfoldable pub add_transaction : Bytes → Progress → Option Progress
add_transaction field (sets, none) = none
add_transaction field (sets, some cur) = do
  txn ← parse_transaction field
  some (sets, some (record cur { txns = cur.txns ++ (txn ∷ []) }))

-- The loop over the rows; `none` is an error.
unfoldable pub read_rows : List (List Bytes) → Progress → Option Progress
read_rows [] p = some p
read_rows ([] ∷ rows) p = read_rows rows p
read_rows ((first ∷ []) ∷ rows) p = read_rows rows p
read_rows ((first ∷ field ∷ rest) ∷ rows) p = do
  begun ← begin_set first rest p
  added ← add_transaction field begun
  read_rows rows added

-- A first row whose first field is no number is a header.
unfoldable pub drop_header : List (List Bytes) → List (List Bytes)
drop_header ((first ∷ rest) ∷ rows) = elim (atoi (trim first)) [
  | none ↦ rows
  | some _ ↦ (first ∷ rest) ∷ rows
]
drop_header rows = rows

unfoldable pub parse_file : List (List Bytes) → Option (List TestSet)
parse_file rows =
    if ltb (length rows) 2
    then none
    else do (sets, cur) ← read_rows (drop_header rows) ([], none); some (flush cur sets)

abbrev pub get_elem? : {A : Type 0} → List A → ℕ → Option A
get_elem? [] i = none
get_elem? (x ∷ xs) zero = some x
get_elem? (x ∷ xs) (suc i) = get_elem? xs i

-- `ContactFor`; the cluster id 0 stands for every id below 1.
unfoldable pub contact_for : TestSet → ℕ → Option ℕ
contact_for set zero = none
contact_for set (suc i) = get_elem? set.contact i

-- `honestLive[cluster]`
unfoldable pub honest_live : TestSet → ℕ → List Server → ℕ
honest_live set cluster [] = 0
honest_live set cluster (srv ∷ srvs) =
    let rest = honest_live set cluster srvs in
    if contains srv.id set.live && not (contains srv.id set.byzantine) && (srv.cluster == cluster)
    then rest + 1
    else rest

-- The fault settings that the server is sent.
unfoldable pub fault_for : Topology → TestSet → Server → FaultConfig
fault_for topo set srv = record {
  alive = contains srv.id set.live;
  byzantine_leader = false;
  byzantine_backup = contains srv.id set.live && contains srv.id set.byzantine;
  cluster_honest_live = honest_live set srv.cluster topo.servers;
}
