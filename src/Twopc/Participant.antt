-- ===== src/Twopc/Participant.antt =====
-- internal/twopc/participant.go: the participant's side of the two-phase commit.
use byz_bank.Prelude.{
  Bool, true, false, not, ◌&&◌, List, [], ◌∷◌, Option, none, some, if◌then◌else◌,
}
use byz_bank.Prelude.Int.{ℤ, pos}
use byz_bank.Prelude.Keys.{◌==◌}
use byz_bank.Prelude.Text.{bytes_key}
use byz_bank.Config.{cluster_of, quorum}
use byz_bank.Store.Bbolt.{Bolt}
use byz_bank.Store.Types
use byz_bank.Store.Types.{Outcome, committed, aborted, Phase, DatastoreEntry}
use byz_bank.Store.{Store, wal_exists, datastore_entries}
use byz_bank.Pbft.Crypto.{Crypto}
use byz_bank.Pbft.Messages.{
  Request, CertificateMsg, commit_phase, client_req, txn_id, unset, part_prepare_commit,
  part_prepare_abort, part_commit, part_abort,
}
use byz_bank.Pbft.Certificate.{verify_cluster_cert}
use byz_bank.Pbft.Start.{start_internal_consensus}
use byz_bank.Twopc.Messages.{prepared, ack, CoordinatorPrepareMsg, CoordinatorCommitMsg}
use byz_bank.Twopc.Node.{Node, is_primary, with_engine, send_to_cluster, wait_item_unlocked}

abbrev pub is_prepare : Phase → Bool
is_prepare Types.prepare = true
is_prepare Types.commit = false

-- The request that `prepareOutcome` makes of an entry: the client and the timestamp are those asked
-- for.
abbrev pub entry_request : DatastoreEntry → Request → Request
entry_request ent r = record {
  client_id = r.client_id;
  ts = r.ts;
  x = ent.x;
  y = ent.y;
  amt = ent.amt;
  op = unset;
}

module _ (c : Crypto) where
  -- The loop of `prepareOutcome`.
  unfoldable pub first_outcome : Request → List DatastoreEntry → Option Outcome
  first_outcome r [] = none
  first_outcome r (ent ∷ entries) =
      if is_prepare ent.phase && (txn_id c (entry_request ent r) == txn_id c r)
      then some ent.outcome
      else first_outcome r entries

  abbrev pub outcome_among : Request → Option (List DatastoreEntry) → Option Outcome
  outcome_among r none = none
  outcome_among r (some entries) = first_outcome r entries

abbrev pub is_abort : Option Outcome → Bool
is_abort (some aborted) = true
is_abort _ = false

module _ (db : Bolt) (c : Crypto) where
  unfoldable pub prepare_outcome : Request → Store db → Option Outcome
  unfolding first_outcome
  prepare_outcome r s = outcome_among c r (datastore_entries db s)

  unfoldable pub prepare_was_abort : Request → Store db → Bool
  prepare_was_abort r s = is_abort (prepare_outcome r s)

  unfoldable pub resend_prepare_reply : Request → CertificateMsg → Outcome → Node db → Node db
  resend_prepare_reply r cert outcome n =
      send_to_cluster db (cluster_of n.engine.topo r.x)
        (prepared
          (record { req = client_req r; outcome = outcome; commit_cert = cert; part_seq = pos 0 }))
        n

  -- `HandlePrepare` once the request is found new. The wait for the client's instances only passes
  -- time; `stores` are those met while it waits for y.
  unfoldable pub start_prepare : List (Store db) → Request → Node db → Node db
  start_prepare stores r n =
      let (free, s) = wait_item_unlocked db stores r.y n.engine.store in
      let waited : Node db = with_engine db (λ e. record e { store = s }) n in
      with_engine db
        (start_internal_consensus db c stores stores
          (record r { op = if free then part_prepare_commit else part_prepare_abort }))
        waited

  unfoldable pub handle_prepare : List (Store db) → CoordinatorPrepareMsg → Node db → Node db
  unfolding start_prepare
  handle_prepare stores msg n =
      if not (is_primary db n)
      then n
      else if not (
          verify_cluster_cert c n.engine.ring n.engine.topo (cluster_of n.engine.topo msg.req.x)
            msg.commit_cert commit_phase (quorum n.engine.topo))
      then n
      else if wal_exists db n.engine.store (txn_id c msg.req)
      then resend_prepare_reply msg.req msg.commit_cert committed n
      else elim (prepare_outcome msg.req n.engine.store) [
        | some outcome ↦ resend_prepare_reply msg.req msg.commit_cert outcome n
        | none ↦ start_prepare stores msg.req n
      ]

  unfoldable pub send_ack : Request → ℤ → Node db → Node db
  send_ack r part_seq n =
      send_to_cluster db (cluster_of n.engine.topo r.x)
        (ack (record { req = client_req r; part_seq = part_seq })) n

  abbrev pub decide : List (Store db) → Outcome → Request → Node db → Node db
  decide stores aborted r n =
      if prepare_was_abort r n.engine.store
      then send_ack r (pos 0) n
      else with_engine db
          (start_internal_consensus db c stores stores (record r { op = part_abort })) n
  decide stores committed r n =
      with_engine db (start_internal_consensus db c stores stores (record r { op = part_commit })) n

  unfoldable pub handle_commit : List (Store db) → CoordinatorCommitMsg → Node db → Node db
  handle_commit stores msg n =
      if not (is_primary db n)
      then n
      else if not (
          verify_cluster_cert c n.engine.ring n.engine.topo (cluster_of n.engine.topo msg.req.x)
            msg.commit_cert commit_phase (quorum n.engine.topo))
      then n
      else decide stores msg.outcome msg.req n

  unfoldable pub on_part_prepare_executed :
      Request → ℤ → CertificateMsg → Outcome → Node db → Node db
  on_part_prepare_executed r seq cert outcome n =
      if not (is_primary db n) then n else resend_prepare_reply r cert outcome n

  -- Every replica acks.
  unfoldable pub on_part_commit_executed :
      Request → ℤ → CertificateMsg → Outcome → Node db → Node db
  on_part_commit_executed r seq cert outcome n = send_ack r seq n
