-- ===== src/Pbft/Phases/Equivocation.antt =====
-- What a replica's votes in internal/pbft/engine.go say of the request that it voted for.
use byz_bank.Prelude.{◌≡◌, sym, ap, ◌∙◌, true, false, []}
use byz_bank.Prelude.Int.{int_key}
use byz_bank.Prelude.Keys.{◌==◌, get, put, nat_key}
use byz_bank.Store.Bbolt.{Bolt}
use byz_bank.Store.{Store}
use byz_bank.Pbft.Crypto.{Crypto, ring_sign}
use byz_bank.Pbft.Messages.{PrePrepareMsg, Request, prepare_phase, phase_signing_bytes}
use byz_bank.Pbft.State.{Engine, sent_prepare, primary, emit, ensure_seq}
use byz_bank.Pbft.Locks.{is_commit_phase_op, ensure_locks_for_op}
use byz_bank.Pbft.Validate.{validate_request, op_matches_cluster}
use byz_bank.Pbft.Phases.{
  on_pre_prepare, process_pre_prepare, vote, send_prepare, fill_slot, gap_clear, taken,
}

module _ (db : Bolt) (c : Crypto) where
  -- What a backup finds of a pre-prepare in the current view whose request it accepts: the slot is
  -- free, the slots below are clear, the request belongs to its cluster, passes validation at once,
  -- is no operation of the commit phase, and gets its locks.
  pub record IsAcceptable (msg : PrePrepareMsg) (e : Engine db) (s : Store db) : Type 0 where
    pub backup : (primary db e == e.self) ≡ false
    pub honest : e.fault.byzantine_backup ≡ false
    pub same_view : (msg.view == e.view) ≡ true
    pub matches : op_matches_cluster db msg.req e ≡ true
    pub clear : gap_clear msg.seq e.exec_seq e.log ≡ true
    pub free : taken db c (get msg.seq e.log) ≡ false
    pub valid : validate_request db [] msg.req msg.seq e.store ≡ (true, e.store)
    pub prepares : is_commit_phase_op msg.req.op ≡ false
    pub locked : ensure_locks_for_op db msg.seq msg.req e.store ≡ (true, s)

  abbrev slotted : PrePrepareMsg → Engine db → Engine db
  slotted msg e = record e {
    log = put msg.seq (fill_slot msg.digest msg.req (ensure_seq msg.seq e.log)) e.log;
    view_change_timer = false;
  }

  accepted :
      (msg : PrePrepareMsg) (e : Engine db) (s : Store db)
      → IsAcceptable msg e s
      → on_pre_prepare db c [] msg e ≡ process_pre_prepare db c [] msg (slotted msg e)
  unfolding on_pre_prepare
  accepted msg e s a = rw (a.same_view, a.matches, a.clear, a.free)

  voted :
      (msg : PrePrepareMsg) (e : Engine db) (s : Store db)
      → (primary db e == e.self) ≡ false
      → e.fault.byzantine_backup ≡ false
      → validate_request db [] msg.req msg.seq e.store ≡ (true, e.store)
      → is_commit_phase_op msg.req.op ≡ false
      → ensure_locks_for_op db msg.seq msg.req e.store ≡ (true, s)
      → process_pre_prepare db c [] msg e
        ≡ emit db
            (sent_prepare
              (primary db e)
              (record { seq = msg.seq; view = msg.view; digest = msg.digest })
              (ring_sign c e.ring (phase_signing_bytes prepare_phase msg.seq msg.view msg.digest)))
            (record e { store = s })
  unfolding process_pre_prepare vote send_prepare primary
  voted msg e s backup honest valid prepares locked =
      rw (honest, process_pre_prepare, valid, prepares, locked, backup)

  -- A backup that accepts two pre-prepares of one seq, view and digest whose requests differ, in
  -- runs from the same state, sends the same signed vote for both: no check ties the digest that it
  -- signs to the request.
  pub same_vote :
      (msg : PrePrepareMsg) (r' : Request) (e : Engine db) (s s' : Store db)
      → IsAcceptable msg e s
      → IsAcceptable (record msg { req = r' }) e s'
      → (on_pre_prepare db c [] msg e).out
        ≡ (on_pre_prepare db c [] (record msg { req = r' }) e).out
  unfolding primary
  same_vote msg r' e s s' a b =
      let m = record msg { req = r' } in
      ap (λ n. n.out)
        (accepted msg e s a
          ∙ voted msg (slotted msg e) s a.backup a.honest a.valid a.prepares a.locked)
      ∙ sym (
          ap (λ n. n.out)
            (accepted m e s' b
              ∙ voted m (slotted m e) s' b.backup b.honest b.valid b.prepares b.locked))
