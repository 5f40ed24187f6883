-- ===== src/Pbft/Validate.antt =====
-- The checks on a request before it is proposed or prepared, internal/pbft/engine.go. Where the code
-- polls until a deadline, `polls` lists the stores that it finds at the polls after the first: other
-- goroutines change the store between them.
use byz_bank.Prelude.{Bool, true, false, not, ◌&&◌, ◌||◌, List, [], ◌∷◌, if◌then◌else◌}
use byz_bank.Prelude.Int.{ℤ, ltb_ℤ, leb_ℤ, int_key}
use byz_bank.Prelude.Keys.{◌==◌, GoMap, nat_key}
use byz_bank.Prelude.Text.{Bytes, bytes_key}
use byz_bank.Config.{cluster_of, same_cluster}
use byz_bank.Store.Bbolt.{Bolt}
use byz_bank.Store.{Store, get_balance, get_client_ts, is_locked, wal_exists}
use byz_bank.Pbft.Crypto.{Crypto}
use byz_bank.Pbft.Messages.{
  Op, Request, txn_id, client_req, or_intra, intra, coord_prepare, part_prepare_commit,
  part_prepare_abort, coord_commit, coord_abort, part_commit, part_abort,
}
use byz_bank.Pbft.State.{Engine, SeqState}
use byz_bank.Pbft.Locks.{
  is_commit_phase_op, locks_held_for_commit_op, can_acquire_for_op, locks_ready_for_seq,
}

module _ (db : Bolt) where
  -- A polling loop: whether the test passed, and the store at which the loop ended.
  unfoldable pub await : (Store db → Bool) → List (Store db) → Store db → Bool × Store db
  await test [] s = (test s, s)
  await test (s' ∷ polls) s = let later = await test polls s' in if test s then (true, s) else later

  unfoldable pub matches_cluster : Op → Request → Engine db → Bool
  matches_cluster intra r e = same_cluster e.topo r.x r.y
  matches_cluster coord_prepare r e = cluster_of e.topo r.x == e.cluster
  matches_cluster coord_commit r e = cluster_of e.topo r.x == e.cluster
  matches_cluster coord_abort r e = cluster_of e.topo r.x == e.cluster
  matches_cluster part_prepare_commit r e = cluster_of e.topo r.y == e.cluster
  matches_cluster part_prepare_abort r e = cluster_of e.topo r.y == e.cluster
  matches_cluster part_commit r e = cluster_of e.topo r.y == e.cluster
  matches_cluster part_abort r e = cluster_of e.topo r.y == e.cluster
  matches_cluster _ r e = false

  unfoldable pub op_matches_cluster : Request → Engine db → Bool
  unfolding matches_cluster
  op_matches_cluster r e = matches_cluster (or_intra r.op) r e

  -- `awaitStartable`, on a request whose operation is set.
  unfoldable pub startable : Op → List (Store db) → Request → Store db → Bool × Store db
  startable intra polls r s =
      if leb_ℤ r.ts (get_client_ts db s r.client_id)
      then (false, s)
      else let (free, s') = await (can_acquire_for_op db r) polls s in
        (free && leb_ℤ r.amt (get_balance db s' r.x), s')
  startable coord_prepare polls r s =
      let (free, s') = await (can_acquire_for_op db r) polls s in
      (free && leb_ℤ r.amt (get_balance db s' r.x), s')
  startable part_prepare_commit polls r s = await (can_acquire_for_op db r) polls s
  startable _ polls r s = (true, s)

  unfoldable pub await_startable : List (Store db) → Request → Store db → Bool × Store db
  unfolding await startable
  await_startable polls r s = startable r.op polls r s

  -- `insufficientBalance`
  unfoldable pub short_of : Op → Request → Store db → Bool
  short_of intra r s = ltb_ℤ (get_balance db s r.x) r.amt
  short_of coord_prepare r s = ltb_ℤ (get_balance db s r.x) r.amt
  short_of _ r s = false

  unfoldable pub insufficient_balance : Request → Store db → Bool
  unfolding short_of
  insufficient_balance r s = short_of (or_intra r.op) r s

  -- The first test of `validateRequest`: an intra-shard request whose timestamp was executed.
  unfoldable pub is_stale : Op → Request → Store db → Bool
  is_stale intra r s = leb_ℤ r.ts (get_client_ts db s r.client_id)
  is_stale _ r s = false

  abbrev pub is_part_prepare_abort : Op → Bool
  is_part_prepare_abort part_prepare_abort = true
  is_part_prepare_abort _ = false

  unfoldable pub validate_request : List (Store db) → Request → ℤ → Store db → Bool × Store db
  unfolding await insufficient_balance is_stale
  validate_request polls r seq s =
      let op = or_intra r.op in
      if is_stale op r s
      then (false, s)
      else if insufficient_balance r s
      then (false, s)
      else if is_part_prepare_abort op || is_commit_phase_op op
      then (locks_held_for_commit_op db r s, s)
      else await (locks_ready_for_seq db seq r) polls s

module _ (db : Bolt) (c : Crypto) where
  -- The loop of `clientTxnInFlight` over the log.
  unfoldable pub in_flight : Bytes → GoMap ℤ SeqState → Bool
  in_flight key [] = false
  in_flight key ((seq, st) ∷ log) =
      (st.pre_prepare
        && not st.discarded
        && not st.executed
        && (txn_id c (client_req st.req) == key))
      || in_flight key log

  unfoldable pub client_txn_in_flight : Request → Engine db → Bool
  unfolding in_flight
  client_txn_in_flight r e = in_flight (txn_id c (client_req r)) e.log

  unfoldable pub quick_check : Op → Request → Engine db → Bool
  quick_check intra r e =
      not (leb_ℤ r.ts (get_client_ts db e.store r.client_id))
      && not (client_txn_in_flight r e)
      && can_acquire_for_op db r e.store
      && leb_ℤ r.amt (get_balance db e.store r.x)
  quick_check coord_prepare r e =
      not (client_txn_in_flight r e)
      && can_acquire_for_op db r e.store
      && leb_ℤ r.amt (get_balance db e.store r.x)
  quick_check part_prepare_commit r e = can_acquire_for_op db r e.store
  quick_check part_prepare_abort r e = true
  quick_check coord_commit r e = is_locked db e.store r.x && wal_exists db e.store (txn_id c r)
  quick_check coord_abort r e = is_locked db e.store r.x
  quick_check part_commit r e = is_locked db e.store r.y && wal_exists db e.store (txn_id c r)
  quick_check part_abort r e = true
  quick_check _ r e = false

  unfoldable pub validate_for_start_quick : Request → Engine db → Bool
  unfolding quick_check
  validate_for_start_quick r e = quick_check (or_intra r.op) r e
