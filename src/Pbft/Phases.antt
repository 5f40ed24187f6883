-- ===== src/Pbft/Phases.antt =====
-- The three phases of linear PBFT, internal/pbft/engine.go: the pre-prepare at a replica, the votes
-- at the primary, which collects them, and the certificates that it broadcasts.
pub mod Votes
pub mod Views
pub mod Equivocation
mod Tests
use byz_bank.Prelude.{
  ℕ, zero, suc, ◌+◌, ◌-◌, ◌≡◌, Bool, true, false, not, ◌&&◌, ◌||◌, List, [], ◌∷◌, ◌++◌, Option,
  none, some, if◌then◌else◌, leb, length,
}
use byz_bank.Prelude.Int.{ℤ, pos, pos_part, ltb_ℤ, int_key}
use byz_bank.Prelude.Keys.{◌==◌, GoMap, get, put, has, nat_key}
use byz_bank.Prelude.Text.{Bytes, bytes_key}
use byz_bank.Store.Bbolt.{Bolt}
use byz_bank.Store.{Store}
use byz_bank.Pbft.Crypto.{Crypto, ring_sign, ring_verify}
use byz_bank.Pbft.Messages
use byz_bank.Pbft.Messages.{
  Request, PrePrepareMsg, PhaseMsg, CertificateMsg, SignedPhase, prepare_phase, commit_phase,
  phase_signing_bytes,
}
use byz_bank.Pbft.Certificate.{build_cert, verify_cert}
use byz_bank.Pbft.State.{
  Engine, SeqState, Event, sent_prepare, sent_commit, broadcast_prepare_cert, broadcast_commit_cert,
  primary, emit, set_slot, ensure_seq,
}
use byz_bank.Pbft.Locks.{is_commit_phase_op, locks_held_for_commit_op, ensure_locks_for_op}
use byz_bank.Pbft.Validate.{validate_request, insufficient_balance, op_matches_cluster}
use byz_bank.Pbft.Execute.{try_execute, send_client_reply, reply_of}

-- `gapClearLocked`: every slot below `seq` that is not executed is discarded or pre-prepared. The
-- loop is at `i`, with `k` rounds left.
unfoldable pub gap_clear_from : ℕ → ℕ → ℤ → GoMap ℤ SeqState → Bool
gap_clear_from i zero exec_seq log = true
gap_clear_from i (suc k) exec_seq log =
    let clear : Bool = elim (get (pos i) log) [
      | none ↦ false
      | some st ↦ st.discarded || st.pre_prepare
    ] in
    (ltb_ℤ (pos i) exec_seq || clear) && gap_clear_from (i + 1) k exec_seq log

unfoldable pub gap_clear : ℤ → ℤ → GoMap ℤ SeqState → Bool
unfolding gap_clear_from
gap_clear seq exec_seq log = gap_clear_from 1 (pos_part seq - 1) exec_seq log

-- A discarded slot starts afresh.
unfoldable pub refresh_slot : SeqState → SeqState
refresh_slot st =
    if st.discarded
    then record st {
      discarded = false;
      prepares = [];
      commits = [];
      prepare_cert = none;
      commit_cert = none;
      executed = false;
    }
    else st

unfoldable pub fill_slot : Bytes → Request → SeqState → SeqState
unfolding refresh_slot
fill_slot digest r st = record (refresh_slot st) { digest = digest; req = r; pre_prepare = true }

module _ (db : Bolt) (c : Crypto) where
  -- `st, ok := e.log[seq]` with a return where the slot is missing.
  abbrev pub with_slot : Option SeqState → Engine db → (SeqState → Engine db) → Engine db
  with_slot none e k = e
  with_slot (some st) e k = k st

  unfoldable pub on_commit_cert : CertificateMsg → Engine db → Engine db
  on_commit_cert cert e =
      if not (cert.view == e.view)
      then e
      else if not (verify_cert c e.ring cert commit_phase e.commit_quorum)
      then e
      else with_slot (get cert.seq e.log) e λ st.
        if not st.pre_prepare || not (st.digest == cert.digest)
        then e
        else try_execute db c (set_slot db cert.seq (record st { commit_cert = some cert }) e)

  -- What the votes lead to: the certificate that the slot has, then the one that they make.
  abbrev pub certify_commit :
      Option CertificateMsg → Option CertificateMsg → ℤ → SeqState → Engine db → Engine db
  certify_commit (some _) made seq st e = set_slot db seq st e
  certify_commit none none seq st e = set_slot db seq st e
  certify_commit none (some made) seq st e = on_commit_cert made (
      emit db (broadcast_commit_cert made)
        (set_slot db seq (record st { commit_cert = some made }) e))

  -- The end of `onCommit`, with the slot that has the new vote.
  unfoldable pub commits_counted : ℤ → SeqState → Engine db → Engine db
  commits_counted seq st e =
      let cert : Option CertificateMsg =
        if leb e.commit_quorum (length st.commits)
        then build_cert st.commits e.commit_quorum seq e.view st.digest
        else none in
      certify_commit st.commit_cert cert seq st e

  abbrev pub is_none : {A : Type 0} → Option A → Bool
  is_none none = true
  is_none (some _) = false

  unfoldable pub on_commit : ℕ → PhaseMsg → Bytes → Engine db → Engine db
  unfolding commits_counted
  on_commit from msg sig e =
      if not (primary db e == e.self)
      then e
      else if not (msg.view == e.view)
      then e
      else with_slot (get msg.seq e.log) e λ st.
        if is_none st.prepare_cert || not (st.digest == msg.digest)
        then e
        else if not (
            ring_verify c e.ring from (phase_signing_bytes commit_phase msg.seq msg.view msg.digest)
              sig)
        then e
        else if has from st.commits
        then e
        else commits_counted msg.seq (record st { commits = put from sig st.commits }) e

  unfoldable pub send_commit : ℤ → ℤ → Bytes → Engine db → Engine db
  send_commit seq view digest e =
      let msg : PhaseMsg = record { seq = seq; view = view; digest = digest } in
      let sig = ring_sign c e.ring (phase_signing_bytes commit_phase seq view digest) in
      if primary db e == e.self
      then on_commit e.self msg sig e
      else emit db (sent_commit (primary db e) msg sig) e

  unfoldable pub on_prepare_cert : CertificateMsg → Engine db → Engine db
  on_prepare_cert cert e =
      if not (cert.view == e.view)
      then e
      else if not (verify_cert c e.ring cert prepare_phase e.prepare_collect)
      then e
      else with_slot (get cert.seq e.log) e λ st.
        if not st.pre_prepare || not (st.digest == cert.digest)
        then e
        else send_commit cert.seq cert.view cert.digest
            (set_slot db cert.seq (record st { prepare_cert = some cert }) e)

  -- What the votes lead to: the certificate that the slot has, then the one that they make.
  abbrev pub certify_prepare :
      Option CertificateMsg → Option CertificateMsg → ℤ → SeqState → Engine db → Engine db
  certify_prepare (some _) made seq st e = set_slot db seq st e
  certify_prepare none none seq st e = set_slot db seq st e
  certify_prepare none (some made) seq st e = on_prepare_cert made (
      emit db (broadcast_prepare_cert made)
        (set_slot db seq (record st { prepare_cert = some made }) e))

  -- The end of `onPrepare`, with the slot that has the new vote.
  unfoldable pub prepares_counted : ℤ → SeqState → Engine db → Engine db
  prepares_counted seq st e =
      let cert : Option CertificateMsg =
        if leb e.prepare_collect (length st.prepares)
        then build_cert st.prepares e.prepare_collect seq e.view st.digest
        else none in
      certify_prepare st.prepare_cert cert seq st e

  unfoldable pub on_prepare : ℕ → PhaseMsg → Bytes → Engine db → Engine db
  unfolding prepares_counted
  on_prepare from msg sig e =
      if not (primary db e == e.self)
      then e
      else if not (msg.view == e.view)
      then e
      else with_slot (get msg.seq e.log) e λ st.
        if not st.pre_prepare || not (st.digest == msg.digest)
        then e
        else if not (
            ring_verify c e.ring from
              (phase_signing_bytes prepare_phase msg.seq msg.view msg.digest) sig)
        then e
        else if has from st.prepares
        then e
        else prepares_counted msg.seq (record st { prepares = put from sig st.prepares }) e

  unfoldable pub send_prepare : ℤ → ℤ → Bytes → Engine db → Engine db
  send_prepare seq view digest e =
      let msg : PhaseMsg = record { seq = seq; view = view; digest = digest } in
      let sig = ring_sign c e.ring (phase_signing_bytes prepare_phase seq view digest) in
      if e.fault.byzantine_backup && not (primary db e == e.self)
      then e
      else if primary db e == e.self
      then on_prepare e.self msg sig e
      else emit db (sent_prepare (primary db e) msg sig) e

  -- `processPrePrepare` once the request is found valid: the locks, then the vote.
  unfoldable pub vote : PrePrepareMsg → Engine db → Engine db
  vote msg e =
      if is_commit_phase_op msg.req.op
      then (if locks_held_for_commit_op db msg.req e.store
          then send_prepare msg.seq msg.view msg.digest e
          else e)
      else let (got, s) = ensure_locks_for_op db msg.seq msg.req e.store in
        let e' : Engine db = record e { store = s } in
        if got then send_prepare msg.seq msg.view msg.digest e' else e'

  unfoldable pub process_pre_prepare : List (Store db) → PrePrepareMsg → Engine db → Engine db
  unfolding vote
  process_pre_prepare polls msg e =
      if e.fault.byzantine_backup && not (primary db e == e.self)
      then e
      else let (valid, s) = validate_request db polls msg.req msg.seq e.store in
        let e' : Engine db = record e { store = s } in
        if valid
        then vote msg e'
        else if (primary db e == e.self) && insufficient_balance db msg.req s
        then send_client_reply db c (reply_of msg.req msg.seq Messages.insufficient) e'
        else e'

  abbrev pub taken : Option SeqState → Bool
  taken none = false
  taken (some st) = st.pre_prepare && not st.discarded

  unfoldable pub on_pre_prepare : List (Store db) → PrePrepareMsg → Engine db → Engine db
  on_pre_prepare polls msg e =
      if not (msg.view == e.view)
      then e
      else if not (op_matches_cluster db msg.req e)
      then e
      else if not (gap_clear msg.seq e.exec_seq e.log)
      then e
      else if taken (get msg.seq e.log)
      then e
      else process_pre_prepare polls msg (record e {
        log = put msg.seq (fill_slot msg.digest msg.req (ensure_seq msg.seq e.log)) e.log;
        view_change_timer = false;
      })
