-- ===== src/Pbft/Discard.antt =====
-- The slots that are given up, internal/pbft/engine.go: `watchPrepareQuorum`, `reclaimSeq` and
-- `onDiscardSeq`, and what the engine tells of its log.
use byz_bank.Prelude.{
  ℕ, ◌+◌, Bool, true, false, not, ◌&&◌, ◌||◌, [], ◌∷◌, none, leb, if◌then◌else◌, length,
}
use byz_bank.Prelude.Int.{ℤ, ◌+64◌, pos, int_key}
use byz_bank.Prelude.Keys.{◌==◌, GoMap, get, nat_key}
use byz_bank.Store.Bbolt.{Bolt}
use byz_bank.Pbft.Crypto.{Crypto}
use byz_bank.Pbft.Messages.{Request, DiscardSeqMsg}
use byz_bank.Pbft.State.{Engine, SeqState, broadcast_discard_seq, primary, emit, set_slot}
use byz_bank.Pbft.Locks.{release_locks_for_op}
use byz_bank.Pbft.Execute.{try_execute, with_store}
use byz_bank.Pbft.Phases.{with_slot, is_none}
use byz_bank.Pbft.Start.{drop_cross_prepare, is_client_op, is_coord_prepare}

unfoldable pub discard_slot : SeqState → SeqState
discard_slot st = record st {
  discarded = true;
  pre_prepare = false;
  prepares = [];
  commits = [];
  prepare_cert = none;
  commit_cert = none;
}

-- A slot that has a live instance, as the loops over the log test it.
abbrev pub is_live : SeqState → Bool
is_live st = not st.discarded && not st.executed && st.pre_prepare

unfoldable pub has_live_client_op : GoMap ℤ SeqState → Bool
has_live_client_op [] = false
has_live_client_op ((seq, st) ∷ log) =
    (is_live st && is_client_op st.req.op) || has_live_client_op log

unfoldable pub count_live_prepares : GoMap ℤ SeqState → ℕ
count_live_prepares [] = 0
count_live_prepares ((seq, st) ∷ log) =
    let rest = count_live_prepares log in
    if is_live st && is_coord_prepare st.req.op then rest + 1 else rest

module _ (db : Bolt) where
  unfoldable pub has_pending_client_pbft : Engine db → Bool
  unfolding has_live_client_op
  has_pending_client_pbft e = has_live_client_op e.log || not (length e.client_ingress == 0)

  unfoldable pub coord_prepare_in_flight : Engine db → ℕ
  unfolding count_live_prepares
  coord_prepare_in_flight e = count_live_prepares e.log

  unfoldable pub skip_exec_seq_if_stuck : ℤ → Engine db → Engine db
  skip_exec_seq_if_stuck seq e =
      if e.exec_seq == seq then record e { exec_seq = e.exec_seq +64 pos 1 } else e

  -- The number goes back if it was the last one given.
  unfoldable pub take_back_seq : ℤ → Engine db → Engine db
  take_back_seq seq e = if e.next_seq == (seq +64 pos 1) then record e { next_seq = seq } else e

module _ (db : Bolt) (c : Crypto) where
  unfoldable pub on_discard_seq : DiscardSeqMsg → Engine db → Engine db
  unfolding discard_slot skip_exec_seq_if_stuck
  on_discard_seq msg e =
      if not (msg.view == e.view)
      then e
      else with_slot db c (get msg.seq e.log) e λ st.
        if st.executed || not (is_none db c st.commit_cert)
        then e
        else try_execute db c (
            skip_exec_seq_if_stuck db msg.seq (
              with_store db c (release_locks_for_op db st.req)
                (set_slot db msg.seq (discard_slot st) e)))

  -- `reclaimSeq` once it is settled that the slot `st` is given up.
  unfoldable pub reclaim_slot : ℤ → Request → SeqState → Engine db → Engine db
  unfolding on_discard_seq take_back_seq
  reclaim_slot seq r st e =
      let msg : DiscardSeqMsg = record { seq = seq; view = e.view } in
      on_discard_seq msg (
        emit db (broadcast_discard_seq msg) (
          take_back_seq db seq (
            drop_cross_prepare db r (
              skip_exec_seq_if_stuck db seq (
                with_store db c (release_locks_for_op db r)
                  (set_slot db seq (discard_slot st) e))))))

  unfoldable pub reclaim_seq : ℤ → Request → Engine db → Engine db
  unfolding reclaim_slot
  reclaim_seq seq r e =
      if not (primary db e == e.self)
      then e
      else with_slot db c (get seq e.log) e λ st.
        if st.executed || not (is_none db c st.commit_cert) || not (is_none db c st.prepare_cert)
        then e
        else if leb e.prepare_collect (length st.prepares)
        then e
        else reclaim_slot seq r st e

  -- The end of `watchPrepareQuorum`, at its deadline.
  unfoldable pub watch_expired : ℤ → Request → Engine db → Engine db
  watch_expired seq r e = with_slot db c (get seq e.log) e λ st.
      if st.executed
        || not (is_none db c st.commit_cert)
        || not (is_none db c st.prepare_cert)
        || st.discarded
      then e
      else reclaim_seq seq r e
