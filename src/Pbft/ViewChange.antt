-- ===== src/Pbft/ViewChange.antt =====
-- The view change, internal/pbft/viewchange.go: the votes for a new view, and how a
-- replica takes over the NEW-VIEW message of the next primary.
pub mod Calls
pub mod Takeover
pub mod Views
mod Tests
use byz_bank.Prelude.{
  ℕ, ◌+◌, Bool, true, false, not, ◌&&◌, List, [], ◌∷◌, ◌++◌, Option, none, some, if◌then◌else◌, leb,
  length,
}
use byz_bank.Prelude.Int.{ℤ, pos, ltb_ℤ, leb_ℤ, ◌+64◌, int_key}
use byz_bank.Prelude.Keys.{◌==◌, GoMap, get, put, has, nat_key}
use byz_bank.Prelude.Text.{bytes_key}
use byz_bank.Config.{f, primary_of, same_cluster}
use byz_bank.Store.Bbolt.{Bolt}
use byz_bank.Store.{Store}
use byz_bank.Pbft.Crypto.{Crypto}
use byz_bank.Pbft.Messages.{PrePrepareMsg, ViewChangeMsg, NewViewMsg}
use byz_bank.Pbft.State.{
  Engine, broadcast_view_change, broadcast_new_view, primary, emit, ensure_seq,
}
use byz_bank.Pbft.Locks.{can_acquire_for_op, acquire_locks_for_op, release_locks_for_op}
use byz_bank.Pbft.Phases.{gap_clear, process_pre_prepare}
use byz_bank.Pbft.NewView.{build_view_change, build_new_view, reports_or_empty}

unfoldable pub pre_prepare_max : ℤ → List PrePrepareMsg → ℤ
pre_prepare_max top [] = top
pre_prepare_max top (pp ∷ pps) = pre_prepare_max (if ltb_ℤ top pp.seq then pp.seq else top) pps

module _ (db : Bolt) (c : Crypto) where
  -- The primary takes the locks of a slot that it takes over.
  unfoldable pub lock_and_process : List (Store db) → PrePrepareMsg → Engine db → Engine db
  lock_and_process polls msg e =
      if not (can_acquire_for_op db msg.req e.store)
      then e
      else let (got, s) = acquire_locks_for_op db msg.seq msg.req e.store in
        if not got
        then record e { store = release_locks_for_op db msg.req s }
        else process_pre_prepare db c polls msg (record e { store = s })

  unfoldable pub accept_new_view_pre_prepare :
      List (Store db) → PrePrepareMsg → Engine db → Engine db
  unfolding lock_and_process
  accept_new_view_pre_prepare polls msg e =
      if not (same_cluster e.topo msg.req.x msg.req.y)
      then e
      else if not (gap_clear msg.seq e.exec_seq e.log)
      then e
      else let st = ensure_seq msg.seq e.log in
        if st.pre_prepare && (st.digest == msg.digest)
        then e
        else let taken_over : Engine db = record e {
          log =
              put msg.seq (record st { digest = msg.digest; req = msg.req; pre_prepare = true })
                e.log;
          view_change_timer = false;
        } in
          if primary db e == e.self
          then lock_and_process polls msg taken_over
          else process_pre_prepare db c polls msg taken_over

  unfoldable pub accept_all : List (Store db) → List PrePrepareMsg → Engine db → Engine db
  unfolding accept_new_view_pre_prepare
  accept_all polls [] e = e
  accept_all polls (pp ∷ pps) e = accept_all polls pps (accept_new_view_pre_prepare polls pp e)

  -- `onNewView` up to its loop.
  unfoldable pub install_view : NewViewMsg → Engine db → Engine db
  unfolding pre_prepare_max
  install_view msg e =
      let top = pre_prepare_max (pos 0) msg.pre_prepares in
      record e {
        new_view_log = e.new_view_log ++ (msg ∷ []);
        view = msg.new_view;
        in_view_change = false;
        view_change_target = pos 0;
        view_change_timer = false;
        pending_clients = [];
        next_seq = if leb_ℤ e.next_seq top then top +64 pos 1 else e.next_seq;
      }

  unfoldable pub on_new_view : List (Store db) → NewViewMsg → Engine db → Engine db
  unfolding install_view accept_all
  on_new_view polls msg e =
      if not e.fault.alive
      then e
      else if leb_ℤ msg.new_view e.view
      then e
      else accept_all polls msg.pre_prepares (install_view msg e)

  abbrev pub is_set : Option Bool → Bool
  is_set none = false
  is_set (some b) = b

  unfoldable pub try_issue_new_view : List (Store db) → ℤ → Engine db → Engine db
  try_issue_new_view polls new_view e =
      if not (primary_of e.topo e.cluster new_view == e.self)
      then e
      else if e.fault.byzantine_leader
      then e
      else if is_set (get new_view e.new_view_issued)
      then e
      else let msg = build_new_view db c new_view e in
        emit db (broadcast_new_view msg) (
          on_new_view polls msg
            (record e { new_view_issued = put new_view true e.new_view_issued }))

  -- `onViewChange` from the vote on, with `reports` the votes for its view so far and `trigger` the
  -- call of `triggerViewChange`.
  unfoldable pub count_view_change :
      (Engine db → Engine db)
      → List (Store db)
      → GoMap ℕ ViewChangeMsg
      → ViewChangeMsg
      → Engine db
      → Engine db
  count_view_change trigger polls reports msg e =
      let counted : Engine db = record e {
        view_change_log = put msg.new_view reports e.view_change_log;
      } in
      let amplified =
        if (length reports == f e.topo + 1) && not (is_set (get msg.new_view e.view_change_sent))
        then trigger counted
        else counted in
      if leb e.commit_quorum (length reports)
      then try_issue_new_view polls msg.new_view amplified
      else amplified

  unfoldable pub on_view_change_with :
      (Engine db → Engine db) → List (Store db) → ℕ → ViewChangeMsg → Engine db → Engine db
  on_view_change_with trigger polls from msg e =
      if not e.fault.alive
      then e
      else if leb_ℤ msg.new_view e.view
      then e
      else let reports = reports_or_empty db c (get msg.new_view e.view_change_log) in
        let received = e.view_change_received ++ (msg ∷ []) in
        if has from reports
        then record e {
          view_change_received = received;
          view_change_log = put msg.new_view reports e.view_change_log;
        }
        else count_view_change trigger polls (put from msg reports) msg
            (record e { view_change_received = received })

  -- `triggerViewChange`, with `own_vote` its call of `onViewChange`.
  unfoldable pub trigger_with : (ViewChangeMsg → Engine db → Engine db) → Engine db → Engine db
  trigger_with own_vote e =
      let new_view = e.view +64 pos 1 in
      if is_set (get new_view e.view_change_sent)
      then e
      else let msg = build_view_change db c e in
        emit db (broadcast_view_change msg) (
          own_vote msg (record e {
            view_change_sent = put new_view true e.view_change_sent;
            in_view_change = true;
            view_change_target = new_view;
          }))

  -- The two call each other. `triggerViewChange` marks its view as sent before it votes, so its own
  -- vote triggers nothing: here that inner call does nothing.
  unfoldable pub trigger_view_change : List (Store db) → Engine db → Engine db
  trigger_view_change polls e =
      trigger_with (λ msg e'. on_view_change_with (λ e''. e'') polls e'.self msg e') e

  unfoldable pub on_view_change : List (Store db) → ℕ → ViewChangeMsg → Engine db → Engine db
  on_view_change polls from msg e = on_view_change_with (trigger_view_change polls) polls from msg e
