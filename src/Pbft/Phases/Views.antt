-- ===== src/Pbft/Phases/Views.antt =====
-- The handlers of the phases of internal/pbft/engine.go, and the execution, leave the view alone.
use byz_bank.Prelude.{
  ℕ, zero, suc, ◌≡◌, refl, ◌∙◌, List, Option, none, some, inl, inr, Bool-cases, Option-cases, arith,
  length,
}
use byz_bank.Prelude.Int.{ℤ, int_key}
use byz_bank.Prelude.Keys.{◌==◌, nat_key, get, put}
use byz_bank.Prelude.Text.{Bytes}
use byz_bank.Store.Bbolt.{Bolt}
use byz_bank.Store.{Store}
use byz_bank.Pbft.Crypto.{Crypto, ring_sign}
use byz_bank.Pbft.Messages.{
  phase_signing_bytes, prepare_phase, Op, Request, CertificateMsg, PrePrepareMsg, PhaseMsg,
  or_intra, intra, coord_prepare, part_prepare_commit, part_prepare_abort, coord_commit,
  coord_abort, part_commit, part_abort,
}
use byz_bank.Pbft.State.{Engine, SeqState, set_slot, primary}
use byz_bank.Pbft.Execute.{
  execute_op, run_slot, advance, try_execute_loop, try_execute, execute_intra,
  execute_coord_prepare, execute_part_prepare, execute_coord_commit, execute_coord_abort,
  execute_part_commit, execute_part_abort, send_client_reply,
}
use byz_bank.Pbft.Execute.Loop.{round_cases}
use byz_bank.Pbft.Locks.{ensure_locks_for_op}
use byz_bank.Pbft.Validate.{validate_request}
use byz_bank.Pbft.Phases.{
  on_commit_cert, certify_commit, commits_counted, on_commit, send_commit, on_prepare_cert,
  certify_prepare, prepares_counted, on_prepare, send_prepare, vote, process_pre_prepare,
}

module _ (db : Bolt) (c : Crypto) where
  execute_op-view :
      (op : Op) (r : Request) (seq : ℤ) (cert : CertificateMsg) (e : Engine db)
      → (execute_op db c op r seq cert e).view ≡ e.view
  unfolding execute_op execute_intra execute_coord_prepare execute_part_prepare execute_coord_commit
      execute_coord_abort execute_part_commit execute_part_abort send_client_reply
  execute_op-view intra r seq cert e = ground arith
  execute_op-view coord_prepare r seq cert e = ground arith
  execute_op-view coord_commit r seq cert e = ground arith
  execute_op-view coord_abort r seq cert e = ground arith
  execute_op-view part_prepare_commit r seq cert e = ground arith
  execute_op-view part_prepare_abort r seq cert e = ground arith
  execute_op-view part_commit r seq cert e = ground arith
  execute_op-view part_abort r seq cert e = ground arith
  execute_op-view _ r seq cert e = refl

  loop-view : (fuel : ℕ) (e : Engine db) → (try_execute_loop db c fuel e).view ≡ e.view
  unfolding try_execute_loop run_slot
  loop-view zero e = refl
  loop-view (suc fuel) e = elim (round_cases (get e.exec_seq e.log)) [
    | inl halt ↦ rw (halt, try_execute_loop) refl
    | inr (st, there, inl pass) ↦ rw (pass, try_execute_loop) (loop-view fuel (advance db c e))
    | inr (st, there, inr (cert, go)) ↦
        rw (go, try_execute_loop)
          (loop-view fuel (run_slot db c st cert e)
            ∙ execute_op-view (or_intra st.req.op) st.req e.exec_seq cert _)
  ]

  pub try_execute-view : (e : Engine db) → (try_execute db c e).view ≡ e.view
  unfolding try_execute
  try_execute-view e = loop-view (suc (length e.log)) e

  pub on_commit_cert-view :
      (cert : CertificateMsg) (e : Engine db) → (on_commit_cert db c cert e).view ≡ e.view
  unfolding on_commit_cert
  on_commit_cert-view cert e = elim (Option-cases (get cert.seq e.log)) [
    | inl gone ↦ ground arith
    | inr (st, there) ↦
        ground
          (arith, try_execute-view (set_slot db cert.seq (record st { commit_cert = some cert }) e))
  ]

  certify_commit-view :
      (old made : Option CertificateMsg) (seq : ℤ) (st : SeqState) (e : Engine db)
      → (certify_commit db c old made seq st e).view ≡ e.view
  certify_commit-view (some _) made seq st e = refl
  certify_commit-view none none seq st e = refl
  certify_commit-view none (some made) seq st e = on_commit_cert-view made _

  commits_counted-view :
      (seq : ℤ) (st : SeqState) (e : Engine db) → (commits_counted db c seq st e).view ≡ e.view
  unfolding commits_counted
  commits_counted-view seq st e = certify_commit-view st.commit_cert _ seq st e

  pub on_commit-view :
      (from : ℕ) (msg : PhaseMsg) (sig : Bytes) (e : Engine db)
      → (on_commit db c from msg sig e).view ≡ e.view
  unfolding on_commit
  on_commit-view from msg sig e = elim (Option-cases (get msg.seq e.log)) [
    | inl gone ↦ ground arith
    | inr (st, there) ↦
        ground
          (arith, commits_counted-view msg.seq (record st { commits = put from sig st.commits }) e)
  ]

  send_commit-view :
      (seq view : ℤ) (digest : Bytes) (e : Engine db)
      → (send_commit db c seq view digest e).view ≡ e.view
  unfolding send_commit
  send_commit-view seq view digest e = elim (Bool-cases (primary db e == e.self)) [
    | inl leads ↦ rw leads (on_commit-view e.self _ _ e)
    | inr follows ↦ rw follows refl
  ]

  pub on_prepare_cert-view :
      (cert : CertificateMsg) (e : Engine db) → (on_prepare_cert db c cert e).view ≡ e.view
  unfolding on_prepare_cert
  on_prepare_cert-view cert e = elim (Option-cases (get cert.seq e.log)) [
    | inl gone ↦ ground arith
    | inr (st, there) ↦ ground (
      arith,
      send_commit-view cert.seq cert.view cert.digest
          (set_slot db cert.seq (record st { prepare_cert = some cert }) e),
    )
  ]

  certify_prepare-view :
      (old made : Option CertificateMsg) (seq : ℤ) (st : SeqState) (e : Engine db)
      → (certify_prepare db c old made seq st e).view ≡ e.view
  certify_prepare-view (some _) made seq st e = refl
  certify_prepare-view none none seq st e = refl
  certify_prepare-view none (some made) seq st e = on_prepare_cert-view made _

  prepares_counted-view :
      (seq : ℤ) (st : SeqState) (e : Engine db) → (prepares_counted db c seq st e).view ≡ e.view
  unfolding prepares_counted
  prepares_counted-view seq st e = certify_prepare-view st.prepare_cert _ seq st e

  pub on_prepare-view :
      (from : ℕ) (msg : PhaseMsg) (sig : Bytes) (e : Engine db)
      → (on_prepare db c from msg sig e).view ≡ e.view
  unfolding on_prepare
  on_prepare-view from msg sig e = elim (Option-cases (get msg.seq e.log)) [
    | inl gone ↦ ground arith
    | inr (st, there) ↦
        ground (
          arith,
          prepares_counted-view msg.seq (record st { prepares = put from sig st.prepares }) e,
        )
  ]

  send_prepare-view :
      (seq view : ℤ) (digest : Bytes) (e : Engine db)
      → (send_prepare db c seq view digest e).view ≡ e.view
  unfolding send_prepare
  send_prepare-view seq view digest e =
      let msg : PhaseMsg = record { seq = seq; view = view; digest = digest } in
      ground (
        arith,
        on_prepare-view e.self msg
            (ring_sign c e.ring (phase_signing_bytes prepare_phase seq view digest)) e,
      )

  vote-view : (msg : PrePrepareMsg) (e : Engine db) → (vote db c msg e).view ≡ e.view
  unfolding vote
  vote-view msg e =
      let s = (ensure_locks_for_op db msg.seq msg.req e.store).1 in
      ground (
        arith,
        send_prepare-view msg.seq msg.view msg.digest e,
        send_prepare-view msg.seq msg.view msg.digest (record e { store = s }),
      )

  pub process_pre_prepare-view :
      (polls : List (Store db)) (msg : PrePrepareMsg) (e : Engine db)
      → (process_pre_prepare db c polls msg e).view ≡ e.view
  unfolding process_pre_prepare send_client_reply
  process_pre_prepare-view polls msg e =
      let s = (validate_request db polls msg.req msg.seq e.store).1 in
      ground (arith, vote-view msg (record e { store = s }))
