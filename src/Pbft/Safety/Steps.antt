-- ===== src/Pbft/Safety/Steps.antt =====
-- A replica of internal/pbft over any sequence of inbound messages.
use byz_bank.Prelude.{ℕ, ◌≡◌, refl, Bool, true, false, not, ◌&&◌, List, [], ◌∷◌, ◌++◌, arith}
use byz_bank.Prelude.Int.{ℤ, pos, int_key}
use byz_bank.Prelude.Keys.{◌==◌, get, nat_key}
use byz_bank.Store.Bbolt.{Bolt}
use byz_bank.Store.{Store}
use byz_bank.Config.{Topology, Server, same_cluster, quorum}
use byz_bank.Pbft.Crypto.{Crypto, KeyRing}
use byz_bank.Pbft.Messages.{Request}
use byz_bank.Pbft.State.{emit, handled_client_request, Engine, primary, engine_for}
use byz_bank.Pbft.Start.{
  ingress_round, on_client_request, on_backup_client_request, start_consensus,
  start_client_consensus, is_primary_ingress, is_client_op,
}
use byz_bank.Pbft.Handle.{
  Inbound, got_request, got_pre_prepare, got_prepare, got_prepare_cert, got_commit, got_commit_cert,
  got_discard, got_view_change, got_new_view, dispatch, handle,
}
use byz_bank.Pbft.Safety.{IsKept, IsSafe-kept, IsSafe-if}
use byz_bank.Pbft.Safety.Handlers.{Safe, on_commit_cert-IsSafe}
use byz_bank.Pbft.Safety.Commits.{on_commit-IsSafe, on_prepare_cert-IsSafe}
use byz_bank.Pbft.Phases.{taken}
use byz_bank.Pbft.Safety.Proposals.{ingress_round-IsSafe}
use byz_bank.Pbft.Safety.Slots.{on_prepare-IsSafe, on_pre_prepare-IsSafe, on_discard_seq-IsSafe}

-- The messages that do not belong to the view change.
abbrev pub IsInView : Inbound → Type 0
IsInView (got_view_change _ _) = ⊥
IsInView (got_new_view _) = ⊥
IsInView _ = Unit {0}

not_down : (b : Bool) → not b ≡ false → b ≡ true
not_down true h = refl
not_down false h = cc

leader : (a b d : Bool) → not a ≡ false → b ≡ true → d ≡ false → (a && b && not d) ≡ false → ⊥
leader true true false h k l m = cc
leader true true true h k l m = cc
leader true false d h k l m = cc
leader false b d h k l m = cc

module _ (db : Bolt) (c : Crypto) where
  -- A run of a replica in one view: it handles messages and proposes what its ingress queues hold, and between
  -- that other goroutines of the replica change its store.
  pub data Steps : Engine db → Engine db → Type 0 where
    done : (e : Engine db) → Steps e e
    handled :
        (polls : List (Store db)) (msg : Inbound) (e e' : Engine db)
        → IsInView msg
        → Steps (handle db c polls msg e) e'
        → Steps e e'
    -- A round of the primary's ingress loop, at a sequence number whose slot is free.
    proposed :
        (waits polls : List (Store db)) (e e' : Engine db)
        → taken db c (get e.next_seq e.log) ≡ false
        → Steps (ingress_round db c waits polls e) e'
        → Steps e e'
    store_changed :
        (s : Store db) (e e' : Engine db) → Steps (record e { store = s }) e' → Steps e e'

  module _ (ring : KeyRing) (q : ℕ) (v : ℤ) where
    on_backup_client_request-IsKept :
        (r : Request) (e : Engine db) → IsKept db c ring q v e (on_backup_client_request db c r e)
    unfolding on_backup_client_request
    on_backup_client_request-IsKept r e = ground arith

    on_client_request-IsSafe :
        (polls : List (Store db)) (r : Request) (e : Engine db)
        → e.fault.alive ≡ true
        → Safe db c ring q v e
        → Safe db c ring q v (on_client_request db c polls polls r e)
    unfolding on_client_request start_client_consensus is_primary_ingress
    on_client_request-IsSafe polls r e alive h =
        let backup =
          IsSafe-kept db c ring q v e (on_backup_client_request db c r e)
            (on_backup_client_request-IsKept r e) h in
        IsSafe-if db c ring q v (not (primary db e == e.self)) _ _ (λ _. backup)
          λ leads.
            IsSafe-if db c ring q v e.fault.byzantine_leader _ _ (λ _. backup)
              λ honest.
                IsSafe-if db c ring q v (is_client_op r.op && not (same_cluster e.topo r.x r.y)) _ _
                  (λ _.
                    IsSafe-if db c ring q v e.two_pc (emit db (handled_client_request r) e) e
                      (λ _.
                        IsSafe-kept db c ring q v e (emit db (handled_client_request r) e)
                          (refl, refl, refl, refl) h)
                      (λ _. h))
                  (λ _.
                    IsSafe-if db c ring q v
                      ((primary db e == e.self) && e.fault.alive && not e.fault.byzantine_leader)
                      (record e { client_ingress = e.client_ingress ++ (r ∷ []) })
                      (start_consensus db c polls polls r e)
                      (λ _.
                        IsSafe-kept db c ring q v e
                          (record e { client_ingress = e.client_ingress ++ (r ∷ []) })
                          (refl, refl, refl, refl) h)
                      (λ refused. absurd (leader _ _ _ leads alive honest refused)))

    dispatch-IsSafe :
        (polls : List (Store db)) (msg : Inbound) (e : Engine db)
        → IsInView msg
        → e.fault.alive ≡ true
        → Safe db c ring q v e
        → Safe db c ring q v (dispatch db c polls msg e)
    unfolding dispatch
    dispatch-IsSafe polls (got_request r) e within alive h =
        on_client_request-IsSafe polls r e alive h
    dispatch-IsSafe polls (got_pre_prepare msg) e within alive h =
        on_pre_prepare-IsSafe db c ring q v polls msg e h
    dispatch-IsSafe polls (got_prepare id msg sig) e within alive h =
        on_prepare-IsSafe db c ring q v id msg sig e h
    dispatch-IsSafe polls (got_prepare_cert cert) e within alive h =
        on_prepare_cert-IsSafe db c ring q v cert e h
    dispatch-IsSafe polls (got_commit id msg sig) e within alive h =
        on_commit-IsSafe db c ring q v id msg sig e h
    dispatch-IsSafe polls (got_commit_cert cert) e within alive h =
        on_commit_cert-IsSafe db c ring q v cert e h
    dispatch-IsSafe polls (got_discard msg) e within alive h =
        on_discard_seq-IsSafe db c ring q v msg e h
    dispatch-IsSafe polls (got_view_change id msg) e within alive h = elim within [ ]
    dispatch-IsSafe polls (got_new_view msg) e within alive h = elim within [ ]

    handle-IsSafe :
        (polls : List (Store db)) (msg : Inbound) (e : Engine db)
        → IsInView msg
        → Safe db c ring q v e
        → Safe db c ring q v (handle db c polls msg e)
    unfolding handle
    handle-IsSafe polls msg e within h =
        IsSafe-if db c ring q v (not e.fault.alive) e (dispatch db c polls msg e) (λ _. h)
          (λ up. dispatch-IsSafe polls msg e within (not_down e.fault.alive up) h)

    -- In every run of one view, whatever messages but those of the view change come, in whatever order and from whomever, and
    -- whatever the replica proposes at sequence numbers whose slots are free: a replica that
    -- starts with sound slots only has sound slots only. A commit certificate in its log passed
    -- `verifyCert` for the commit quorum and has the slot's sequence number and digest and the
    -- view, and its commit votes are good signatures of different servers over that slot.
    pub Steps-IsSafe :
        (e e' : Engine db) → Steps e e' → Safe db c ring q v e → Safe db c ring q v e'
    Steps-IsSafe e e' (done _) h = h
    Steps-IsSafe e e' (handled polls msg _ _ within rest) h =
        Steps-IsSafe (handle db c polls msg e) e' rest (handle-IsSafe polls msg e within h)
    Steps-IsSafe e e' (proposed waits polls _ _ free rest) h =
        Steps-IsSafe (ingress_round db c waits polls e) e' rest
          (ingress_round-IsSafe db c ring q v waits polls e free h)
    Steps-IsSafe e e' (store_changed s _ _ rest) h =
        Steps-IsSafe (record e { store = s }) e' rest
          (IsSafe-kept db c ring q v e (record e { store = s }) (refl, refl, refl, refl) h)

  -- `NewEngine` makes a replica with sound slots only.
  pub engine_for-IsSafe :
      (srv : Server) (topo : Topology) (ring : KeyRing) (s : Store db) (two_pc : Bool)
      → Safe db c ring (quorum topo) (pos 0) (engine_for db srv topo ring s two_pc)
  unfolding get
  engine_for-IsSafe srv topo ring s two_pc = record {
    ring_is = refl;
    quorum_is = refl;
    view_is = refl;
    slots = λ seq st found. absurd (cc found);
  }
