-- ===== src/Pbft/Control.antt =====
-- What a server asks of its engine beside the messages, internal/pbft/engine.go, debug.go and fault.go: status,
-- faults, the reset before a test set, and the draining of the execution.
use byz_bank.Prelude.{
  ℕ, ◌+◌, ◌<◌, ◌^◌, ◌≡◌, refl, Bool, true, false, not, ◌||◌, List, [], ◌∷◌, ◌++◌, Option, none,
  some, if◌then◌else◌, inl, inr, Bool-cases, length, leb,
}
use byz_bank.Prelude.Int.{ℤ, pos, int_key}
use byz_bank.Prelude.Keys.{◌==◌, get, beq_refl}
use byz_bank.Prelude.Text.{bytes_key}
use byz_bank.Store.Bbolt.{Bolt}
use byz_bank.Pbft.Crypto.{Crypto}
use byz_bank.Pbft.Messages.{Request, Reply, CertificateMsg, txn_id}
use byz_bank.Pbft.State.{Engine, FaultConfig, SeqState}
use byz_bank.Pbft.Execute.{stop, round_of, try_execute, try_execute_loop}
use byz_bank.Pbft.Execute.Loop.{try_execute-stops}

-- The letters of `StatusCode`.
pub data Status : Type 0 where
  status_x status_e status_c status_p status_pp : Status

abbrev pub is_set_cert : Option CertificateMsg → Bool
is_set_cert none = false
is_set_cert (some cert) = true

unfoldable pub slot_status : ℕ → SeqState → Status
slot_status commit_quorum st =
    if not st.pre_prepare
    then status_x
    else if st.executed
    then status_e
    else if is_set_cert st.commit_cert
    then status_c
    else if is_set_cert st.prepare_cert || leb commit_quorum (length st.prepares)
    then status_p
    else status_pp

module _ (db : Bolt) (c : Crypto) where
  unfoldable pub status_code : ℤ → Engine db → Status
  unfolding slot_status
  status_code seq e = elim (get seq e.log) [
    | none ↦ status_x
    | some st ↦ slot_status e.commit_quorum st
  ]

  -- `LookupReply`
  unfoldable pub lookup_reply : Request → Engine db → Option Reply
  lookup_reply r e = get (txn_id c r) e.recent_replies

  -- `SetFault`: a server that is down is not Byzantine.
  unfoldable pub set_fault : FaultConfig → Engine db → Engine db
  set_fault fc e = record e {
    fault =
        if fc.alive then fc else record fc { byzantine_leader = false; byzantine_backup = false };
  }

  -- `ResetConsensus`; the queues and the store stay.
  unfoldable pub reset_consensus : Engine db → Engine db
  reset_consensus e = record e {
    view = pos 0;
    exec_seq = pos 1;
    next_seq = pos 1;
    log = [];
    view_change_timer = false;
    in_view_change = false;
    view_change_target = pos 0;
    view_change_sent = [];
    view_change_log = [];
    view_change_received = [];
    new_view_issued = [];
    new_view_log = [];
    pending_clients = [];
    recent_replies = [];
  }

  -- What the other goroutines do to the engine around one `tryExecute` of `DrainExecute`, which holds no
  -- lock between its steps: before it, up to the reading of `execSeq` after it, and during the pause.
  pub record Meanwhile : Type 0 where
    pub before : Engine db → Engine db
    pub after : Engine db → Engine db
    pub pause : Engine db → Engine db

  abbrev pub quiet : Meanwhile
  quiet = record { before = λ e. e; after = λ e. e; pause = λ e. e }

  -- `DrainExecute`, with what happens around each of its rounds until the context is cancelled; the
  -- flag tells whether it returned because `execSeq` stayed.
  unfoldable pub drain_execute : List Meanwhile → Engine db → Engine db × Bool
  drain_execute [] e = (e, false)
  drain_execute (m ∷ ms) e =
      let e' = m.after (try_execute db c (m.before e)) in
      let rest = drain_execute ms (m.pause e') in
      if e'.exec_seq == e.exec_seq then (e', true) else rest

  try_execute-stopped :
      (e : Engine db) → round_of (get e.exec_seq e.log) ≡ stop → try_execute db c e ≡ e
  unfolding try_execute try_execute_loop
  try_execute-stopped e halt = rw (halt, try_execute_loop) refl

  drain_quiet :
      (ms : List Meanwhile) (n : ℕ) (e : Engine db)
      → e.exec_seq ≡ pos n
      → n + length e.log + 1 < 2 ^ 63
      → drain_execute (quiet ∷ quiet ∷ ms) e ≡ (try_execute db c e, true)
  unfolding drain_execute
  drain_quiet ms n e at range =
      let e' = try_execute db c e in
      let halt = try_execute-stops db c n e at range in
      let still = try_execute-stopped e' halt in
      elim (Bool-cases (e'.exec_seq == e.exec_seq)) [
        | inl same ↦ rw same refl
        | inr moved ↦ rw (moved, still, beq_refl e'.exec_seq) refl
      ]

  -- The engine after these rounds, if `DrainExecute` does not return before.
  unfoldable pub after_rounds : List Meanwhile → Engine db → Engine db
  after_rounds [] e = e
  after_rounds (m ∷ ms) e = after_rounds ms (m.pause (m.after (try_execute db c (m.before e))))

  -- Whatever other goroutines do in the first rounds, once they leave the engine alone `DrainExecute` returns
  -- by itself, after two rounds more at most and with the effect of one `tryExecute` on what they left,
  -- unless it has returned by itself before. Where they leave it, `execSeq` is not negative and stays a
  -- 64-bit number over as many slots as the log has.
  pub drain_execute-try_execute :
      (busy ms : List Meanwhile) (n : ℕ) (e : Engine db)
      → (after_rounds busy e).exec_seq ≡ pos n
      → n + length ((after_rounds busy e).log) + 1 < 2 ^ 63
      → drain_execute (busy ++ (quiet ∷ quiet ∷ ms)) e ≡ (
          if (drain_execute busy e).1
          then drain_execute busy e
          else (try_execute db c (after_rounds busy e), true))
  unfolding drain_execute after_rounds
  drain_execute-try_execute [] ms n e at range = drain_quiet ms n e at range
  drain_execute-try_execute (m ∷ busy) ms n e at range =
      let e' = m.after (try_execute db c (m.before e)) in
      let rest = drain_execute-try_execute busy ms n (m.pause e') at range in
      elim (Bool-cases (e'.exec_seq == e.exec_seq)) [
        | inl same ↦ rw same refl
        | inr moved ↦ rw moved rest
      ]
