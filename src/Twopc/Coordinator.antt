-- ===== src/Twopc/Coordinator.antt =====
-- internal/twopc/coordinator.go: the coordinator's side of the two-phase commit.
use byz_bank.Prelude.{ℕ, Bool, true, false, not, ◌||◌, List, [], ◌∷◌, leb, if◌then◌else◌}
use byz_bank.Prelude.Int.{ℤ, ltb_ℤ, leb_ℤ}
use byz_bank.Prelude.Keys.{◌==◌, put, nat_key}
use byz_bank.Prelude.Text.{Bytes, bytes_key}
use byz_bank.Config.{cluster_of, same_cluster, quorum, client_quorum}
use byz_bank.Store.Bbolt.{Bolt}
use byz_bank.Store.Types.{Outcome, committed, aborted}
use byz_bank.Store.{Store, get_balance, get_client_ts, wal_exists}
use byz_bank.Pbft.Crypto.{Crypto}
use byz_bank.Pbft.Messages.{
  Op, Request, CertificateMsg, commit_phase, client_req, txn_id, coord_prepare, coord_commit,
  coord_abort,
}
use byz_bank.Pbft.Certificate.{verify_cluster_cert}
use byz_bank.Pbft.Validate.{client_txn_in_flight}
use byz_bank.Pbft.Start.{start_client_consensus, start_internal_consensus, reject_insufficient}
use byz_bank.Twopc.Messages.{
  prepare, commit, CoordinatorCommitMsg, ParticipantReplyMsg, ParticipantAckMsg,
}
use byz_bank.Twopc.Collect.{has_reply, record_reply, record_ack, count_acks}
use byz_bank.Twopc.Node.{
  Node, is_primary, with_engine, send_to_cluster, is_started, wait_item_unlocked,
}

-- The readings of `crossBusy` by the polls of `acquireCrossSlot`: whether one found it free.
unfoldable pub acquire_cross_slot : List Bool → Bool
acquire_cross_slot [] = false
acquire_cross_slot (busy ∷ readings) = not busy || acquire_cross_slot readings

-- The operation that a participant's outcome leads to.
abbrev pub final_op : Outcome → Op
final_op committed = coord_commit
final_op aborted = coord_abort

module _ (db : Bolt) (c : Crypto) where
  abbrev pub release_cross_slot : Node db → Node db
  release_cross_slot n = record n { cross_busy = false }

  -- `Reset`
  unfoldable pub reset : Node db → Node db
  reset n = record n { commit_started = []; cross_busy = false; certs = []; acks = [] }

  -- `HandleClientRequest` with the slot taken. `commitStarted` is read again, `stores` are those met
  -- while it waits for x.
  unfoldable pub begin_prepare : List (Store db) → Request → Node db → Node db
  begin_prepare stores r n =
      let (free, s) = wait_item_unlocked db stores r.x n.engine.store in
      let waited : Node db = with_engine db (λ e. record e { store = s }) n in
      if not free
      then release_cross_slot waited
      else if is_started db (txn_id c r) waited
      then release_cross_slot waited
      else if ltb_ℤ (get_balance db s r.x) r.amt
      then with_engine db (reject_insufficient db c r) (release_cross_slot waited)
      else with_engine db
          (start_client_consensus db c stores stores (record r { op = coord_prepare })) waited

  -- `HandleClientRequest`, whose result the engine does not use. `readings` are those of the polls of
  -- `acquireCrossSlot` after the first.
  unfoldable pub handle_client_request : List Bool → List (Store db) → Request → Node db → Node db
  unfolding begin_prepare acquire_cross_slot
  handle_client_request readings stores r n =
      if same_cluster n.engine.topo r.x r.y
      then n
      else if not (cluster_of n.engine.topo r.x == n.engine.cluster) || not (is_primary db n)
      then n
      else if leb_ℤ r.ts (get_client_ts db n.engine.store r.client_id)
      then n
      else if is_started db (txn_id c r) n
      then n
      else if client_txn_in_flight db c r n.engine
      then n
      else if not (acquire_cross_slot (n.cross_busy ∷ readings))
      then n
      else begin_prepare stores r (record n { cross_busy = true })

  unfoldable pub send_prepare_msg : Request → ℤ → CertificateMsg → Node db → Node db
  send_prepare_msg r seq cert n =
      send_to_cluster db (cluster_of n.engine.topo r.y)
        (prepare (record { req = client_req r; commit_cert = cert; coord_seq = seq })) n

  unfoldable pub on_coord_prepare_executed : Request → ℤ → CertificateMsg → Node db → Node db
  unfolding send_prepare_msg
  on_coord_prepare_executed r seq cert n =
      if not (is_primary db n)
      then release_cross_slot n
      else send_prepare_msg r seq cert (release_cross_slot n)

  -- A round of `watchPreparePhase` before its deadline, which ends in a resend.
  unfoldable pub watch_prepare_round : Request → ℤ → CertificateMsg → Node db → Node db
  unfolding send_prepare_msg
  watch_prepare_round r seq cert n =
      if has_reply r n.certs || is_started db (txn_id c r) n
      then n
      else send_prepare_msg r seq cert n

  -- Its loop after the deadline: the abort is started as long as the WAL has the transaction.
  unfoldable pub abort_round : List (Store db) → Request → Node db → Node db
  abort_round stores r n =
      if not (wal_exists db n.engine.store (txn_id c r))
      then n
      else with_engine db
          (start_internal_consensus db c stores stores (record r { op = coord_abort })) n

  abbrev pub mark_started : Bytes → Node db → Node db
  mark_started key n = record n { commit_started = put key true n.commit_started }

  -- Its deadline, with the first round of that loop.
  unfoldable pub watch_prepare_expired : List (Store db) → Request → Node db → Node db
  unfolding abort_round
  watch_prepare_expired stores r n =
      if is_started db (txn_id c r) n || has_reply r n.certs
      then n
      else abort_round stores r (mark_started (txn_id c r) n)

  abbrev pub restart_abort : List (Store db) → Outcome → Request → Node db → Node db
  restart_abort stores committed r n =
      with_engine db (start_internal_consensus db c stores stores (record r { op = coord_abort })) n
  restart_abort stores aborted r n = n

  unfoldable pub maybe_start_final_commit :
      List (Store db) → ParticipantReplyMsg → Node db → Node db
  maybe_start_final_commit stores reply n =
      if n.commit_phase_disabled
      then n
      else if is_started db (txn_id c reply.req) n
      then restart_abort stores reply.outcome reply.req n
      else with_engine db
          (start_internal_consensus db c stores stores
            (record (reply.req) { op = final_op reply.outcome }))
          (mark_started (txn_id c reply.req) n)

  unfoldable pub handle_participant_reply :
      List (Store db) → ParticipantReplyMsg → Node db → Node db
  unfolding maybe_start_final_commit
  handle_participant_reply stores reply n =
      if not (
        verify_cluster_cert c n.engine.ring n.engine.topo (cluster_of n.engine.topo reply.req.y)
          reply.commit_cert commit_phase (quorum n.engine.topo))
      then n
      else let recorded : Node db = record n { certs = record_reply reply n.certs } in
        if not (is_primary db recorded)
        then recorded
        else maybe_start_final_commit stores reply recorded

  unfoldable pub broadcast_commit : CoordinatorCommitMsg → Node db → Node db
  broadcast_commit msg n = send_to_cluster db (cluster_of n.engine.topo msg.req.y) (commit msg) n

  unfoldable pub on_coord_commit_executed :
      Request → ℤ → CertificateMsg → Outcome → Node db → Node db
  unfolding broadcast_commit
  on_coord_commit_executed r seq cert outcome n =
      if not (is_primary db n)
      then n
      else broadcast_commit
          (record { req = client_req r; outcome = outcome; commit_cert = cert; coord_seq = seq }) n

  -- A round of `startAckRetry` before its deadline.
  unfoldable pub ack_retry_round : CoordinatorCommitMsg → Node db → Node db
  unfolding broadcast_commit
  ack_retry_round msg n =
      if leb (client_quorum n.engine.topo) (count_acks c msg.req n.acks)
      then n
      else broadcast_commit msg n

  unfoldable pub handle_participant_ack : ℕ → ParticipantAckMsg → Node db → Node db
  handle_participant_ack from msg n = record n { acks = record_ack c msg.req from n.acks }
