-- ===== src/Pbft/Start.antt =====
-- How a request enters the protocol, internal/pbft/engine.go and viewchange.go: the client's request,
-- the primary's ingress queues, and the proposal.
use byz_bank.Prelude.{
  ℕ, Bool, true, false, not, ◌&&◌, ◌||◌, List, [], ◌∷◌, ◌++◌, ltb, if◌then◌else◌,
}
use byz_bank.Prelude.Int.{ℤ, pos, ltb_ℤ, leb_ℤ, ◌+64◌, int_key}
use byz_bank.Prelude.Keys.{◌==◌, put, nat_key}
use byz_bank.Prelude.Text.{Bytes, bytes_key}
use byz_bank.Config.{same_cluster}
use byz_bank.Store.Bbolt.{Bolt}
use byz_bank.Store.{Store, get_balance, get_client_ts}
use byz_bank.Pbft.Crypto.{Crypto}
use byz_bank.Pbft.Messages
use byz_bank.Pbft.Messages.{
  Op, Request, PrePrepareMsg, or_intra, unset, intra, coord_prepare, digest_of,
}
use byz_bank.Pbft.State.{
  Engine, broadcast_pre_prepare, handled_client_request, cross_prepare_dropped,
  watched_prepare_quorum, primary, emit, ensure_seq,
}
use byz_bank.Pbft.Locks.{
  is_commit_phase_op, locks_held_for_commit_op, acquire_locks_for_op, release_locks_for_op,
}
use byz_bank.Pbft.Validate.{await_startable, validate_for_start_quick, insufficient_balance}
use byz_bank.Pbft.Execute.{send_client_reply, reply_of, call_hook}
use byz_bank.Pbft.Phases.{fill_slot, process_pre_prepare}

abbrev pub is_coord_prepare : Op → Bool
is_coord_prepare coord_prepare = true
is_coord_prepare _ = false

-- `op == "" || op == OpIntra`
abbrev pub is_client_op : Op → Bool
is_client_op unset = true
is_client_op intra = true
is_client_op _ = false

module _ (db : Bolt) where
  unfoldable pub cluster_honest_live : Engine db → ℕ
  cluster_honest_live e =
      if e.fault.cluster_honest_live == 0 then e.topo.cluster_size else e.fault.cluster_honest_live

  unfoldable pub drop_cross_prepare : Request → Engine db → Engine db
  drop_cross_prepare r e =
      if is_coord_prepare r.op && e.two_pc then emit db (cross_prepare_dropped r) e else e

  unfoldable pub is_primary_ingress : Engine db → Bool
  is_primary_ingress e = (primary db e == e.self) && e.fault.alive && not e.fault.byzantine_leader

  -- `scheduleViewChangeTimerLocked`
  abbrev pub schedule_view_change_timer : Engine db → Engine db
  schedule_view_change_timer e = record e { view_change_timer = true }

module _ (db : Bolt) (c : Crypto) where
  unfoldable pub on_backup_client_request : Request → Engine db → Engine db
  on_backup_client_request r e =
      if not e.fault.alive
      then e
      else if not (is_client_op r.op)
      then e
      else if not (same_cluster e.topo r.x r.y)
      then e
      else if leb_ℤ r.ts (get_client_ts db e.store r.client_id)
      then e
      else if ltb_ℤ (get_balance db e.store r.x) r.amt
      then e
      else schedule_view_change_timer db
          (record e { pending_clients = put (digest_of c r) r e.pending_clients })

  unfoldable pub reject_insufficient : Request → Engine db → Engine db
  reject_insufficient r e =
      if not (primary db e == e.self)
      then e
      else send_client_reply db c (reply_of r (pos 0) Messages.insufficient) e

  unfoldable pub maybe_reject_insufficient : Request → Bool → Engine db → Engine db
  maybe_reject_insufficient r is_primary e =
      if not is_primary || not (insufficient_balance db r e.store)
      then e
      else send_client_reply db c (reply_of r (pos 0) Messages.insufficient) e

  unfoldable pub broadcast_pre_prepare_msg : PrePrepareMsg → Engine db → Engine db
  broadcast_pre_prepare_msg msg e =
      if e.fault.byzantine_leader then e else emit db (broadcast_pre_prepare msg) e

  -- `startConsensus` from `ensureSeqLocked` on: the slot, the broadcast, and the primary's own vote.
  unfoldable pub pre_prepare_slot :
      List (Store db) → Bool → ℤ → Bytes → Request → Engine db → Engine db
  unfolding broadcast_pre_prepare_msg
  pre_prepare_slot polls is_primary seq digest r e =
      let msg : PrePrepareMsg = record { seq = seq; view = e.view; digest = digest; req = r } in
      let filled : Engine db = record e {
        log = put seq (fill_slot digest r (ensure_seq seq e.log)) e.log;
        view_change_timer = false;
      } in
      let voted : Engine db =
        process_pre_prepare db c polls msg (broadcast_pre_prepare_msg msg filled) in
      if is_primary && not (is_commit_phase_op r.op)
      then emit db (watched_prepare_quorum seq r) voted
      else voted

  -- `startConsensus` from `assignSeq` on. The sequence number is spent before the locks are asked
  -- for.
  unfoldable pub propose : List (Store db) → Bool → Request → Engine db → Engine db
  unfolding pre_prepare_slot
  propose polls is_primary r e =
      let seq = e.next_seq in
      let assigned : Engine db = record e { next_seq = seq +64 pos 1 } in
      if is_commit_phase_op r.op
      then (if not (locks_held_for_commit_op db r e.store)
          then assigned
          else pre_prepare_slot polls is_primary seq (digest_of c r) r assigned)
      else let (got, s) = acquire_locks_for_op db seq r e.store in
        if not got
        then drop_cross_prepare db r (record assigned { store = release_locks_for_op db r s })
        else pre_prepare_slot polls is_primary seq (digest_of c r) r (record assigned { store = s })

  -- The check under `proposalMu`, and what follows when it fails.
  unfoldable pub propose_checked : List (Store db) → Request → Engine db → Engine db
  unfolding propose maybe_reject_insufficient
  propose_checked polls r e =
      if validate_for_start_quick db c r e
      then propose polls true r e
      else drop_cross_prepare db r (maybe_reject_insufficient r true e)

  -- `startConsensus` on a request whose operation is set. `waits` are the stores met while it awaits
  -- a start, `polls` those met while the primary validates its own pre-prepare.
  unfoldable pub start_op : List (Store db) → List (Store db) → Request → Engine db → Engine db
  unfolding propose_checked
  start_op waits polls r e =
      let (startable, s) = await_startable db waits r e.store in
      let waited : Engine db = record e { store = s } in
      if primary db e == e.self
      then (if is_commit_phase_op r.op
          then propose_checked polls r e
          else if ltb (cluster_honest_live db e) e.prepare_collect
          then drop_cross_prepare db r e
          else if not startable
          then drop_cross_prepare db r waited
          else propose_checked polls r waited)
      else if validate_for_start_quick db c r e
      then propose polls false r e
      else e

  unfoldable pub start_consensus :
      List (Store db) → List (Store db) → Request → Engine db → Engine db
  unfolding start_op
  start_consensus waits polls r e = start_op waits polls (record r { op = or_intra r.op }) e

  -- `StartClientConsensus` and `StartConsensus`: the primary queues the request. A replica that is
  -- not the honest primary goes on at once.
  unfoldable pub start_client_consensus :
      List (Store db) → List (Store db) → Request → Engine db → Engine db
  start_client_consensus waits polls r e =
      if is_primary_ingress db e
      then record e { client_ingress = e.client_ingress ++ (r ∷ []) }
      else start_consensus waits polls r e

  unfoldable pub start_internal_consensus :
      List (Store db) → List (Store db) → Request → Engine db → Engine db
  start_internal_consensus waits polls r e =
      if is_primary_ingress db e
      then record e { internal_ingress = e.internal_ingress ++ (r ∷ []) }
      else start_consensus waits polls r e

  -- A round of `primaryIngressLoop` on what the two channels hold: it prefers a client's request, and
  -- with both channels empty it blocks.
  abbrev pub round_on :
      List Request → List Request → List (Store db) → List (Store db) → Engine db → Engine db
  round_on (r ∷ rest) internal waits polls e =
      start_consensus waits polls r (record e { client_ingress = rest })
  round_on [] (r ∷ rest) waits polls e =
      start_consensus waits polls r (record e { internal_ingress = rest })
  round_on [] [] waits polls e = e

  unfoldable pub ingress_round : List (Store db) → List (Store db) → Engine db → Engine db
  ingress_round waits polls e = round_on e.client_ingress e.internal_ingress waits polls e

  unfoldable pub on_client_request :
      List (Store db) → List (Store db) → Request → Engine db → Engine db
  on_client_request waits polls r e =
      if not (primary db e == e.self)
      then on_backup_client_request r e
      else if e.fault.byzantine_leader
      then on_backup_client_request r e
      else if is_client_op r.op && not (same_cluster e.topo r.x r.y)
      then call_hook db c (handled_client_request r) e
      else start_client_consensus waits polls r e
