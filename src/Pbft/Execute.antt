-- ===== src/Pbft/Execute.antt =====
-- The execution of committed slots in order, internal/pbft/engine.go.
pub mod Loop
pub mod Bank
pub mod Refinement
pub mod Replicas
pub mod Prepare
pub mod Finish
pub mod Atomic
mod Tests
use byz_bank.Prelude.{
  ℕ, zero, suc, ◌≡◌, Bool, true, false, ◌||◌, List, [], ◌∷◌, ◌++◌, Option, none, some,
  if◌then◌else◌, length,
}
use byz_bank.Prelude.Int.{ℤ, pos, ◌+64◌, int_key}
use byz_bank.Prelude.Keys.{GoMap, get, put}
use byz_bank.Prelude.Text.{Bytes, bytes_key}
use byz_bank.Store.Bbolt.{Bolt}
use byz_bank.Store.Types.{
  DatastoreEntry, TxnKind, Phase, Outcome, prepare, commit, committed, aborted, WalPreimage,
}
use byz_bank.Store.Types
use byz_bank.Store.{
  Store, Result, ok, err, settle, apply_transfer, apply_debit_only, apply_credit_only, get_balance,
  append_datastore, set_client_ts, release_lock, is_locked, wal_write, wal_exists, wal_undo,
  wal_delete,
}
use byz_bank.Pbft.Crypto.{Crypto}
use byz_bank.Pbft.Messages.{
  Op, Request, Reply, Verdict, CertificateMsg, txn_id, or_intra, unset, intra, coord_prepare,
  part_prepare_commit, part_prepare_abort, coord_commit, coord_abort, part_commit, part_abort,
}
use byz_bank.Pbft.Messages
use byz_bank.Pbft.State.{
  Engine, SeqState, Event, client_reply, coord_prepare_executed, part_prepare_executed,
  coord_commit_executed, part_commit_executed, emit,
}
use byz_bank.Pbft.Locks.{release_locks_for_op}

-- The entry that an operation appends; `AppendDatastore` numbers it.
abbrev pub entry_of : TxnKind → Phase → Request → ℤ → Outcome → DatastoreEntry
entry_of kind phase r view outcome = record {
  seq = pos 0;
  kind = kind;
  phase = phase;
  x = r.x;
  y = r.y;
  amt = r.amt;
  ballot_or_view_seq = view;
  outcome = outcome;
}

abbrev pub reply_of : Request → ℤ → Verdict → Reply
reply_of r seq result = record {
  client_id = r.client_id;
  ts = r.ts;
  seq = seq;
  x = r.x;
  y = r.y;
  amt = r.amt;
  result = result;
}

-- The request that `sendClientReply` makes of a reply, to file it under its transaction.
abbrev pub request_of : Reply → Request
request_of p = record {
  client_id = p.client_id;
  ts = p.ts;
  x = p.x;
  y = p.y;
  amt = p.amt;
  op = unset;
}

-- What one round of the loop finds at the slot of `execSeq`.
pub data Round : Type 0 where
  stop : Round
  skip : Round
  run : SeqState → CertificateMsg → Round

abbrev pub slot_round : SeqState → Option CertificateMsg → Round
slot_round st none = if st.discarded then skip else stop
slot_round st (some cert) = if st.discarded then skip else if st.executed then stop else run st cert

abbrev pub round_of : Option SeqState → Round
round_of none = stop
round_of (some st) = slot_round st st.commit_cert

module _ (db : Bolt) (c : Crypto) where
  unfoldable pub send_client_reply : Reply → Engine db → Engine db
  send_client_reply p e =
      emit db (client_reply p)
        (record e { recent_replies = put (txn_id c (request_of p)) p e.recent_replies })

  -- The calls of a hook, made if 2PC is on.
  abbrev pub call_hook : Event → Engine db → Engine db
  call_hook ev e = if e.two_pc then emit db ev e else e

  unfoldable pub with_store : (Store db → Store db) → Engine db → Engine db
  with_store f e = record e { store = f e.store }

  unfoldable pub execute_intra : Request → ℤ → Engine db → Engine db
  unfolding with_store
  execute_intra r seq e = elim (apply_transfer db r.x r.y r.amt e.store) [
    | err _ ↦ with_store (release_locks_for_op db r) e
    | ok s ↦
        let noted = append_datastore db (entry_of Types.intra commit r e.view committed) s in
        let stamped = set_client_ts db r.client_id r.ts noted in
        send_client_reply (reply_of r seq Messages.committed)
          (record e { store = release_locks_for_op db r stamped })
  ]

  unfoldable pub execute_coord_prepare : Request → ℤ → CertificateMsg → Engine db → Engine db
  unfolding with_store
  execute_coord_prepare r seq cert e = elim (apply_debit_only db r.x r.amt e.store) [
    | err _ ↦ with_store (release_lock db r.x) e
    | ok s ↦
        let logged = wal_write db (txn_id c r) ((r.x, get_balance db e.store r.x) ∷ []) s in
        let noted = append_datastore db (entry_of Types.cross prepare r e.view committed) logged in
        call_hook (coord_prepare_executed r seq cert) (record e { store = noted })
  ]

  -- The credit of the participant's prepare, which a WAL entry shows to be made already.
  unfoldable pub credit_once : Request → Store db → Result (Store db)
  credit_once r s =
      if wal_exists db s (txn_id c r) then ok s else elim (apply_credit_only db r.y r.amt s) [
        | err x ↦ err x
        | ok s' ↦ ok (wal_write db (txn_id c r) ((r.y, get_balance db s r.y) ∷ []) s')
      ]

  unfoldable pub part_prepare_store : Request → Outcome → Store db → Result (Store db)
  unfolding credit_once
  part_prepare_store r committed s = credit_once r s
  part_prepare_store r aborted s = ok s

  unfoldable pub execute_part_prepare :
      Request → ℤ → CertificateMsg → Outcome → Engine db → Engine db
  unfolding with_store part_prepare_store
  execute_part_prepare r seq cert outcome e = elim (part_prepare_store r outcome e.store) [
    | err _ ↦ with_store (release_lock db r.y) e
    | ok s ↦
        let noted = append_datastore db (entry_of Types.cross prepare r e.view outcome) s in
        call_hook (part_prepare_executed r seq cert outcome) (record e { store = noted })
  ]

  unfoldable pub execute_coord_commit : Request → ℤ → CertificateMsg → Engine db → Engine db
  execute_coord_commit r seq cert e =
      let noted = append_datastore db (entry_of Types.cross commit r e.view committed) e.store in
      let unlocked = release_lock db r.x (wal_delete db (txn_id c r) noted) in
      let stamped = set_client_ts db r.client_id r.ts unlocked in
      call_hook (coord_commit_executed r seq cert committed)
        (send_client_reply (reply_of r seq Messages.committed) (record e { store = stamped }))

  -- The undo of both aborts: the WAL entry's balances are put back, and the entry goes.
  unfoldable pub undo_if_logged : Request → Store db → Store db
  undo_if_logged r s =
      if wal_exists db s (txn_id c r)
      then wal_delete db (txn_id c r) (settle s (wal_undo db (txn_id c r) s))
      else s

  unfoldable pub unlock_if_locked : ℤ → Store db → Store db
  unlock_if_locked item s = if is_locked db s item then release_lock db item s else s

  unfoldable pub execute_coord_abort : Request → ℤ → CertificateMsg → Engine db → Engine db
  unfolding undo_if_logged unlock_if_locked
  execute_coord_abort r seq cert e =
      let undone = undo_if_logged r e.store in
      let noted = append_datastore db (entry_of Types.cross commit r e.view aborted) undone in
      let stamped = set_client_ts db r.client_id r.ts (unlock_if_locked r.x noted) in
      call_hook (coord_commit_executed r seq cert aborted)
        (send_client_reply (reply_of r seq Messages.aborted) (record e { store = stamped }))

  unfoldable pub execute_part_commit : Request → ℤ → CertificateMsg → Engine db → Engine db
  unfolding unlock_if_locked
  execute_part_commit r seq cert e =
      let noted = append_datastore db (entry_of Types.cross commit r e.view committed) e.store in
      let unlocked = unlock_if_locked r.y (wal_delete db (txn_id c r) noted) in
      call_hook (part_commit_executed r seq cert committed) (record e { store = unlocked })

  unfoldable pub execute_part_abort : Request → ℤ → CertificateMsg → Engine db → Engine db
  unfolding undo_if_logged unlock_if_locked
  execute_part_abort r seq cert e =
      let undone = undo_if_logged r e.store in
      let noted = append_datastore db (entry_of Types.cross commit r e.view aborted) undone in
      call_hook (part_commit_executed r seq cert aborted)
        (record e { store = unlock_if_locked r.y noted })

  -- The `switch` of `tryExecute`, after an unset operation is read as an intra-shard one.
  unfoldable pub execute_op : Op → Request → ℤ → CertificateMsg → Engine db → Engine db
  execute_op intra r seq cert e = execute_intra r seq e
  execute_op coord_prepare r seq cert e = execute_coord_prepare r seq cert e
  execute_op part_prepare_commit r seq cert e = execute_part_prepare r seq cert committed e
  execute_op part_prepare_abort r seq cert e = execute_part_prepare r seq cert aborted e
  execute_op coord_commit r seq cert e = execute_coord_commit r seq cert e
  execute_op coord_abort r seq cert e = execute_coord_abort r seq cert e
  execute_op part_commit r seq cert e = execute_part_commit r seq cert e
  execute_op part_abort r seq cert e = execute_part_abort r seq cert e
  execute_op _ r seq cert e = with_store (release_locks_for_op db r) e

  abbrev pub advance : Engine db → Engine db
  advance e = record e { exec_seq = e.exec_seq +64 pos 1 }

  -- The slot is marked before it runs.
  unfoldable pub run_slot : SeqState → CertificateMsg → Engine db → Engine db
  unfolding execute_op
  run_slot st cert e =
      let marked = record e { log = put e.exec_seq (record st { executed = true }) e.log } in
      execute_op (or_intra st.req.op) st.req e.exec_seq cert (advance marked)

  unfoldable pub try_execute_loop : ℕ → Engine db → Engine db
  try_execute_loop zero e = e
  try_execute_loop (suc fuel) e = elim (round_of (get e.exec_seq e.log)) [
    | stop ↦ e
    | skip ↦ try_execute_loop fuel (advance e)
    | run st cert ↦ try_execute_loop fuel (run_slot st cert e)
  ]

  -- Each round but the last moves past a slot of the log, so these rounds are enough.
  unfoldable pub try_execute : Engine db → Engine db
  unfolding try_execute_loop
  try_execute e = try_execute_loop (suc (length e.log)) e
