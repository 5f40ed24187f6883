-- ===== src/Pbft/Safety/Proposals.antt =====
-- The primary's own proposals, `startConsensus` and `primaryIngressLoop` of internal/pbft/engine.go, keep
-- every slot sound where the next sequence number is free.
use byz_bank.Prelude.{ℕ, ◌≡◌, refl, Bool, true, false, not, ◌&&◌, List, [], ◌∷◌, ltb, arith}
use byz_bank.Prelude.Int.{ℤ, pos, ◌+64◌, int_key}
use byz_bank.Prelude.Keys.{◌==◌, get, nat_key}
use byz_bank.Prelude.Text.{Bytes}
use byz_bank.Store.Bbolt.{Bolt}
use byz_bank.Store.{Store}
use byz_bank.Pbft.Crypto.{Crypto, KeyRing}
use byz_bank.Pbft.Messages.{Request, PrePrepareMsg, or_intra, digest_of}
use byz_bank.Pbft.State.{
  Engine, primary, emit, set_slot, ensure_seq, slot_or_empty, watched_prepare_quorum,
}
use byz_bank.Pbft.Locks.{
  is_commit_phase_op, locks_held_for_commit_op, acquire_locks_for_op, release_locks_for_op,
}
use byz_bank.Pbft.Validate.{await_startable, validate_for_start_quick}
use byz_bank.Pbft.Execute.{send_client_reply}
use byz_bank.Pbft.Phases.{fill_slot, process_pre_prepare, taken}
use byz_bank.Pbft.Start.{
  drop_cross_prepare, maybe_reject_insufficient, broadcast_pre_prepare_msg, pre_prepare_slot,
  propose, propose_checked, start_op, start_consensus, round_on, ingress_round, cluster_honest_live,
}
use byz_bank.Pbft.Safety.{IsKept, IsSafe-kept, IsSafe-if, IsSafe-put}
use byz_bank.Pbft.Safety.Handlers.{Safe}
use byz_bank.Pbft.Safety.Slots.{Sound-filled, Sound-ensured, free_slot, process_pre_prepare-IsSafe}

module _ (db : Bolt) (c : Crypto) (ring : KeyRing) (q : ℕ) (v : ℤ) where
  drop-IsKept : (r : Request) (e : Engine db) → IsKept db c ring q v e (drop_cross_prepare db r e)
  unfolding drop_cross_prepare
  drop-IsKept r e = ground arith

  dropped :
      (r : Request) (e : Engine db)
      → Safe db c ring q v e
      → Safe db c ring q v (drop_cross_prepare db r e)
  dropped r e h = IsSafe-kept db c ring q v e _ (drop-IsKept r e) h

  reject-IsKept :
      (r : Request) (b : Bool) (e : Engine db)
      → IsKept db c ring q v e (maybe_reject_insufficient db c r b e)
  unfolding maybe_reject_insufficient send_client_reply
  reject-IsKept r b e = ground arith

  broadcast-IsKept :
      (msg : PrePrepareMsg) (e : Engine db)
      → IsKept db c ring q v e (broadcast_pre_prepare_msg db c msg e)
  unfolding broadcast_pre_prepare_msg
  broadcast-IsKept msg e = ground arith

  pre_prepare_slot-IsSafe :
      (polls : List (Store db)) (b : Bool) (seq : ℤ) (digest : Bytes) (r : Request) (e : Engine db)
      → taken db c (get seq e.log) ≡ false
      → Safe db c ring q v e
      → Safe db c ring q v (pre_prepare_slot db c polls b seq digest r e)
  unfolding pre_prepare_slot ensure_seq
  pre_prepare_slot-IsSafe polls b seq digest r e free h =
      let msg : PrePrepareMsg = record { seq = seq; view = e.view; digest = digest; req = r } in
      let o = get seq e.log in
      let st = fill_slot digest r (slot_or_empty o) in
      let sound =
        Sound-filled db c ring q v seq digest msg (slot_or_empty o)
          (Sound-ensured db c ring q v seq o (h.slots seq)) (free_slot db c ring q v o free) in
      let filled : Engine db = record (set_slot db seq st e) { view_change_timer = false } in
      let safe =
        IsSafe-kept db c ring q v (set_slot db seq st e) filled (refl, refl, refl, refl)
          (IsSafe-put db c ring q v e seq st h sound) in
      let sent = broadcast_pre_prepare_msg db c msg filled in
      let voted = process_pre_prepare db c polls msg sent in
      let safe' =
        process_pre_prepare-IsSafe db c ring q v polls msg sent
          (IsSafe-kept db c ring q v filled sent (broadcast-IsKept msg filled) safe) in
      IsSafe-if db c ring q v (b && not (is_commit_phase_op r.op))
        (emit db (watched_prepare_quorum seq r) voted) voted
        (λ _.
          IsSafe-kept db c ring q v voted (emit db (watched_prepare_quorum seq r) voted)
            (refl, refl, refl, refl) safe')
        (λ _. safe')

  propose-IsSafe :
      (polls : List (Store db)) (b : Bool) (r : Request) (e : Engine db)
      → taken db c (get e.next_seq e.log) ≡ false
      → Safe db c ring q v e
      → Safe db c ring q v (propose db c polls b r e)
  unfolding propose
  propose-IsSafe polls b r e free h =
      let seq = e.next_seq in
      let assigned : Engine db = record e { next_seq = seq +64 pos 1 } in
      let safe = IsSafe-kept db c ring q v e assigned (refl, refl, refl, refl) h in
      let locks = acquire_locks_for_op db seq r e.store in
      let failed : Engine db = record assigned { store = release_locks_for_op db r locks.1 } in
      let locked : Engine db = record assigned { store = locks.1 } in
      IsSafe-if db c ring q v (is_commit_phase_op r.op) _ _
        (λ _.
          IsSafe-if db c ring q v (not (locks_held_for_commit_op db r e.store)) assigned _
            (λ _. safe)
            (λ _. pre_prepare_slot-IsSafe polls b seq (digest_of c r) r assigned free safe))
        (λ _.
          IsSafe-if db c ring q v (not locks.0) _ _
            (λ _.
              dropped r failed
                (IsSafe-kept db c ring q v assigned failed (refl, refl, refl, refl) safe))
            (λ _.
              pre_prepare_slot-IsSafe polls b seq (digest_of c r) r locked free
                (IsSafe-kept db c ring q v assigned locked (refl, refl, refl, refl) safe)))

  propose_checked-IsSafe :
      (polls : List (Store db)) (r : Request) (e : Engine db)
      → taken db c (get e.next_seq e.log) ≡ false
      → Safe db c ring q v e
      → Safe db c ring q v (propose_checked db c polls r e)
  unfolding propose_checked
  propose_checked-IsSafe polls r e free h =
      IsSafe-if db c ring q v (validate_for_start_quick db c r e) _ _
        (λ _. propose-IsSafe polls true r e free h)
        (λ _. dropped r _ (
          IsSafe-kept db c ring q v e (maybe_reject_insufficient db c r true e)
            (reject-IsKept r true e) h))

  start_op-IsSafe :
      (waits polls : List (Store db)) (r : Request) (e : Engine db)
      → taken db c (get e.next_seq e.log) ≡ false
      → Safe db c ring q v e
      → Safe db c ring q v (start_op db c waits polls r e)
  unfolding start_op
  start_op-IsSafe waits polls r e free h =
      let awaited = await_startable db waits r e.store in
      let waited : Engine db = record e { store = awaited.1 } in
      let safe = IsSafe-kept db c ring q v e waited (refl, refl, refl, refl) h in
      IsSafe-if db c ring q v (primary db e == e.self) _ _
        (λ _.
          IsSafe-if db c ring q v (is_commit_phase_op r.op) _ _
            (λ _. propose_checked-IsSafe polls r e free h)
            (λ _.
              IsSafe-if db c ring q v (ltb (cluster_honest_live db e) e.prepare_collect) _ _
                (λ _. dropped r e h)
                (λ _.
                  IsSafe-if db c ring q v (not awaited.0) _ _ (λ _. dropped r waited safe)
                    (λ _. propose_checked-IsSafe polls r waited free safe))))
        (λ _.
          IsSafe-if db c ring q v (validate_for_start_quick db c r e) _ e
            (λ _. propose-IsSafe polls false r e free h) (λ _. h))

  round_on-IsSafe :
      (client internal : List Request) (waits polls : List (Store db)) (e : Engine db)
      → taken db c (get e.next_seq e.log) ≡ false
      → Safe db c ring q v e
      → Safe db c ring q v (round_on db c client internal waits polls e)
  unfolding start_consensus
  round_on-IsSafe (r ∷ rest) internal waits polls e free h =
      start_op-IsSafe waits polls (record r { op = or_intra r.op })
        (record e { client_ingress = rest }) free
        (IsSafe-kept db c ring q v e _ (refl, refl, refl, refl) h)
  round_on-IsSafe [] (r ∷ rest) waits polls e free h =
      start_op-IsSafe waits polls (record r { op = or_intra r.op })
        (record e { internal_ingress = rest }) free
        (IsSafe-kept db c ring q v e _ (refl, refl, refl, refl) h)
  round_on-IsSafe [] [] waits polls e free h = h

  pub ingress_round-IsSafe :
      (waits polls : List (Store db)) (e : Engine db)
      → taken db c (get e.next_seq e.log) ≡ false
      → Safe db c ring q v e
      → Safe db c ring q v (ingress_round db c waits polls e)
  unfolding ingress_round
  ingress_round-IsSafe waits polls e free h =
      round_on-IsSafe e.client_ingress e.internal_ingress waits polls e free h
