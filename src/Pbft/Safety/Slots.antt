-- ===== src/Pbft/Safety/Slots.antt =====
-- The prepare votes, the pre-prepare and the discarding of a slot, internal/pbft/engine.go, keep every
-- slot sound.
use byz_bank.Prelude.{
  ℕ, ◌≡◌, refl, true, false, not, ◌||◌, ◌&&◌, List, Option, none, some, inl, inr, Bool-cases, arith,
}
use byz_bank.Prelude.Int.{ℤ, pos, ◌+64◌, int_key}
use byz_bank.Prelude.Keys.{◌==◌, get, put, has, nat_key}
use byz_bank.Prelude.Text.{Bytes, bytes_key}
use byz_bank.Store.Bbolt.{Bolt}
use byz_bank.Store.{Store}
use byz_bank.Pbft.Crypto.{Crypto, KeyRing, ring_verify, ring_sign}
use byz_bank.Pbft.Messages.{
  CertificateMsg, PhaseMsg, PrePrepareMsg, DiscardSeqMsg, commit_phase, prepare_phase,
  phase_signing_bytes,
}
use byz_bank.Pbft.State.{Engine, SeqState, primary, set_slot, ensure_seq, emit}
use byz_bank.Pbft.Phases.{is_none, certify_prepare, prepares_counted, on_prepare, send_prepare}
use byz_bank.Pbft.Safety.{IsSafe-kept, IsSafe-put, IsSafe-if, Sound-empty}
use byz_bank.Pbft.Safety.Execution.{try_execute-IsSafe}
use byz_bank.Pbft.Safety.Handlers.{Safe, Sound, Safe-slot, accepted, Sound-prepared}
use byz_bank.Pbft.Safety.Commits.{on_prepare_cert-IsSafe}
use byz_bank.Pbft.Phases.{
  vote, process_pre_prepare, on_pre_prepare, fill_slot, refresh_slot, gap_clear, taken,
}
use byz_bank.Pbft.Validate.{validate_request, insufficient_balance, op_matches_cluster}
use byz_bank.Pbft.Locks.{
  release_locks_for_op, is_commit_phase_op, locks_held_for_commit_op, ensure_locks_for_op,
}
use byz_bank.Pbft.Execute.{send_client_reply, reply_of, with_store}
use byz_bank.Pbft.Discard.{on_discard_seq, discard_slot, skip_exec_seq_if_stuck}
use byz_bank.Pbft.Messages
use byz_bank.Pbft.Messages.{Reply}
use byz_bank.Pbft.State.{sent_prepare, slot_or_empty}

module _ (db : Bolt) (c : Crypto) (ring : KeyRing) (q : ℕ) (v : ℤ) where
  certify_prepare-IsSafe :
      (o made : Option CertificateMsg) (seq : ℤ) (st : SeqState) (e : Engine db)
      → Safe db c ring q v e
      → Sound db c ring q v seq st
      → st.pre_prepare ≡ true
      → Safe db c ring q v (certify_prepare db c o made seq st e)
  certify_prepare-IsSafe (some _) made seq st e h sound live =
      IsSafe-put db c ring q v e seq st h sound
  certify_prepare-IsSafe none none seq st e h sound live = IsSafe-put db c ring q v e seq st h sound
  certify_prepare-IsSafe none (some cert) seq st e h sound live =
      on_prepare_cert-IsSafe db c ring q v cert _ (
        IsSafe-kept db c ring q v (set_slot db seq (record st { prepare_cert = some cert }) e) _
          (refl, refl, refl, refl)
          (IsSafe-put db c ring q v e seq _ h
            (Sound-prepared db c ring q v seq st st.prepares (some cert) sound live)))

  pub on_prepare-IsSafe :
      (id : ℕ) (msg : PhaseMsg) (sig : Bytes) (e : Engine db)
      → Safe db c ring q v e
      → Safe db c ring q v (on_prepare db c id msg sig e)
  unfolding on_prepare prepares_counted
  on_prepare-IsSafe id msg sig e h =
      IsSafe-if db c ring q v (not (primary db e == e.self)) e _ (λ _. h)
        λ _.
          IsSafe-if db c ring q v (not (msg.view == e.view)) e _ (λ _. h)
            λ _. Safe-slot db c ring q v (get msg.seq e.log) e _ h λ st found.
              IsSafe-if db c ring q v _ e _ (λ _. h)
                λ guard.
                  IsSafe-if db c ring q v
                    (not (
                      ring_verify c e.ring id
                        (phase_signing_bytes prepare_phase msg.seq msg.view msg.digest) sig))
                    e _ (λ _. h)
                    λ _.
                      IsSafe-if db c ring q v (has id st.prepares) e _ (λ _. h)
                        λ _.
                          let (live, _) =
                            accepted db c ring q v st.pre_prepare (st.digest == msg.digest) guard in
                          let m = put id sig st.prepares in
                          certify_prepare-IsSafe st.prepare_cert _ msg.seq
                            (record st { prepares = m }) e h
                            (Sound-prepared db c ring q v msg.seq st m st.prepare_cert
                              (h.slots msg.seq st found) live)
                            live

  send_prepare-IsSafe :
      (seq view : ℤ) (digest : Bytes) (e : Engine db)
      → Safe db c ring q v e
      → Safe db c ring q v (send_prepare db c seq view digest e)
  unfolding send_prepare
  send_prepare-IsSafe seq view digest e h =
      let msg : PhaseMsg = record { seq = seq; view = view; digest = digest } in
      let sig = ring_sign c e.ring (phase_signing_bytes prepare_phase seq view digest) in
      IsSafe-if db c ring q v (e.fault.byzantine_backup && not (primary db e == e.self)) e _
        (λ _. h)
        λ _.
          IsSafe-if db c ring q v (primary db e == e.self) (on_prepare db c e.self msg sig e)
            (emit db (sent_prepare (primary db e) msg sig) e)
            (λ _. on_prepare-IsSafe e.self msg sig e h)
            (λ _. IsSafe-kept db c ring q v e _ (refl, refl, refl, refl) h)

  vote-IsSafe :
      (msg : PrePrepareMsg) (e : Engine db)
      → Safe db c ring q v e
      → Safe db c ring q v (vote db c msg e)
  unfolding vote
  vote-IsSafe msg e h =
      let locks = ensure_locks_for_op db msg.seq msg.req e.store in
      let locked : Engine db = record e { store = locks.1 } in
      let safe = IsSafe-kept db c ring q v e locked (refl, refl, refl, refl) h in
      IsSafe-if db c ring q v (is_commit_phase_op msg.req.op) _ _
        (λ _.
          IsSafe-if db c ring q v (locks_held_for_commit_op db msg.req e.store) _ e
            (λ _. send_prepare-IsSafe msg.seq msg.view msg.digest e h) (λ _. h))
        (λ _.
          IsSafe-if db c ring q v locks.0 _ locked
            (λ _. send_prepare-IsSafe msg.seq msg.view msg.digest locked safe) (λ _. safe))

  rejected :
      (p : Reply) (e : Engine db)
      → Safe db c ring q v e
      → Safe db c ring q v (send_client_reply db c p e)
  unfolding send_client_reply
  rejected p e h = IsSafe-kept db c ring q v e _ (refl, refl, refl, refl) h

  pub process_pre_prepare-IsSafe :
      (polls : List (Store db)) (msg : PrePrepareMsg) (e : Engine db)
      → Safe db c ring q v e
      → Safe db c ring q v (process_pre_prepare db c polls msg e)
  unfolding process_pre_prepare
  process_pre_prepare-IsSafe polls msg e h =
      let checked = validate_request db polls msg.req msg.seq e.store in
      let e' : Engine db = record e { store = checked.1 } in
      let safe = IsSafe-kept db c ring q v e e' (refl, refl, refl, refl) h in
      IsSafe-if db c ring q v (e.fault.byzantine_backup && not (primary db e == e.self)) e _
        (λ _. h)
        λ _.
          IsSafe-if db c ring q v checked.0 _ _ (λ _. vote-IsSafe msg e' safe)
            (λ _.
              IsSafe-if db c ring q v
                ((primary db e == e.self) && insufficient_balance db msg.req checked.1)
                (send_client_reply db c (reply_of msg.req msg.seq Messages.insufficient) e') e'
                (λ _. rejected (reply_of msg.req msg.seq Messages.insufficient) e' safe)
                (λ _. safe))

  pub Sound-filled :
      (seq : ℤ) (digest : Bytes) (msg : PrePrepareMsg) (st : SeqState)
      → Sound db c ring q v seq st
      → (st.pre_prepare && not st.discarded) ≡ false
      → Sound db c ring q v seq (fill_slot msg.digest msg.req st)
  unfolding fill_slot refresh_slot
  Sound-filled seq digest msg st h free = elim (Bool-cases st.discarded) [
    | inl again ↦ Sound-empty db c ring q v seq _ (rw again) (rw again) (rw again)
    | inr kept ↦
        let closed : st.pre_prepare ≡ false = ground (free, kept, arith) in
        let (a, b, d) = h.idle closed in
        Sound-empty db c ring q v seq _ (rw kept a) (rw kept b) (rw kept d)
  ]

  pub Sound-ensured :
      (seq : ℤ) (o : Option SeqState)
      → ((st : SeqState) → o ≡ some st → Sound db c ring q v seq st)
      → Sound db c ring q v seq (slot_or_empty o)
  Sound-ensured seq none h = Sound-empty db c ring q v seq _ refl refl refl
  Sound-ensured seq (some st) h = h st refl

  pub free_slot :
      (o : Option SeqState)
      → taken db c o ≡ false
      → ((slot_or_empty o).pre_prepare && not (slot_or_empty o).discarded) ≡ false
  free_slot none free = refl
  free_slot (some st) free = free

  pub on_pre_prepare-IsSafe :
      (polls : List (Store db)) (msg : PrePrepareMsg) (e : Engine db)
      → Safe db c ring q v e
      → Safe db c ring q v (on_pre_prepare db c polls msg e)
  unfolding on_pre_prepare ensure_seq
  on_pre_prepare-IsSafe polls msg e h =
      IsSafe-if db c ring q v (not (msg.view == e.view)) e _ (λ _. h)
        λ _.
          IsSafe-if db c ring q v (not (op_matches_cluster db msg.req e)) e _ (λ _. h)
            λ _.
              IsSafe-if db c ring q v (not (gap_clear msg.seq e.exec_seq e.log)) e _ (λ _. h)
                λ _.
                  IsSafe-if db c ring q v (taken db c (get msg.seq e.log)) e _ (λ _. h)
                    λ free.
                      let o = get msg.seq e.log in
                      let sound =
                        Sound-filled msg.seq msg.digest msg (slot_or_empty o)
                          (Sound-ensured msg.seq o (h.slots msg.seq)) (free_slot o free) in
                      process_pre_prepare-IsSafe polls msg _ (
                        IsSafe-kept db c ring q v
                          (set_slot db msg.seq (fill_slot msg.digest msg.req (slot_or_empty o)) e) _
                          (refl, refl, refl, refl) (IsSafe-put db c ring q v e msg.seq _ h sound))

  pub on_discard_seq-IsSafe :
      (msg : DiscardSeqMsg) (e : Engine db)
      → Safe db c ring q v e
      → Safe db c ring q v (on_discard_seq db c msg e)
  unfolding on_discard_seq skip_exec_seq_if_stuck discard_slot with_store
  on_discard_seq-IsSafe msg e h =
      IsSafe-if db c ring q v (not (msg.view == e.view)) e _ (λ _. h)
        λ _. Safe-slot db c ring q v (get msg.seq e.log) e _ h λ st found.
          IsSafe-if db c ring q v (st.executed || not (is_none db c st.commit_cert)) e _ (λ _. h)
            λ _.
              let gone = discard_slot st in
              let marked = set_slot db msg.seq gone e in
              let safe =
                IsSafe-put db c ring q v e msg.seq gone h
                  (Sound-empty db c ring q v msg.seq gone refl refl refl) in
              let unlocked = with_store db c (release_locks_for_op db st.req) marked in
              let safe' = IsSafe-kept db c ring q v marked unlocked (refl, refl, refl, refl) safe in
              try_execute-IsSafe db c ring q v _ (
                IsSafe-if db c ring q v (e.exec_seq == msg.seq) _ _
                  (λ _.
                    IsSafe-kept db c ring q v unlocked
                      (record unlocked { exec_seq = unlocked.exec_seq +64 pos 1 })
                      (refl, refl, refl, refl) safe')
                  (λ _. safe'))
