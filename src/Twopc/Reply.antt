-- ===== src/Twopc/Reply.antt =====
-- One reply of a participant at the coordinator of internal/twopc: what `HandleParticipantReply` does on each branch.
use byz_bank.Prelude.{◌≡◌, refl, ◌∙◌, Bool, true, false, List, [], ◌∷◌, ◌++◌, if◌then◌else◌}
use byz_bank.Prelude.Keys.{get-put_self}
use byz_bank.Prelude.Text.{bytes_key}
use byz_bank.Config.{cluster_of, quorum}
use byz_bank.Store.Bbolt.{Bolt}
use byz_bank.Store.Types.{Outcome, committed, aborted}
use byz_bank.Store.{Store}
use byz_bank.Pbft.Crypto.{Crypto}
use byz_bank.Pbft.Messages.{Request, commit_phase, txn_id, coord_abort}
use byz_bank.Pbft.Certificate.{verify_cluster_cert}
use byz_bank.Pbft.Start.{is_primary_ingress, start_internal_consensus}
use byz_bank.Pbft.Execute.Atomic.{tagged}
use byz_bank.Twopc.Collect.{record_reply, same_outcome}
use byz_bank.Pbft.State.{primary}
use byz_bank.Twopc.Messages.{ParticipantReplyMsg}
use byz_bank.Twopc.Node.{Node, is_primary, is_started, with_engine}
use byz_bank.Twopc.Coordinator.{
  handle_participant_reply, maybe_start_final_commit, mark_started, restart_abort, final_op,
}

module _ (db : Bolt) (c : Crypto) (stores : List (Store db)) where
  -- The honest primary of the coordinator's cluster, with the commit phase on.
  pub record IsDeciding (n : Node db) : Type 0 where
    pub leads : is_primary db n ≡ true
    pub ingress : is_primary_ingress db n.engine ≡ true
    pub enabled : n.commit_phase_disabled ≡ false

  -- The check of a reply's certificate.
  abbrev pub checks : ParticipantReplyMsg → Node db → Bool
  checks reply n =
      verify_cluster_cert c n.engine.ring n.engine.topo (cluster_of n.engine.topo reply.req.y)
        reply.commit_cert commit_phase (quorum n.engine.topo)

  abbrev pub recorded : ParticipantReplyMsg → Node db → Node db
  recorded reply n = record n { certs = record_reply reply n.certs }

  pub recorded-IsDeciding :
      (reply : ParticipantReplyMsg) (n : Node db) → IsDeciding n → IsDeciding (recorded reply n)
  unfolding is_primary
  recorded-IsDeciding reply n d = record {
    leads = d.leads;
    ingress = d.ingress;
    enabled = d.enabled;
  }

  pub marked-IsDeciding :
      (reply : ParticipantReplyMsg) (n : Node db)
      → IsDeciding n
      → IsDeciding (mark_started db c (txn_id c reply.req) (recorded reply n))
  unfolding is_primary
  marked-IsDeciding reply n d = record { leads = d.leads; ingress = d.ingress; enabled = d.enabled }

  handled :
      (reply : ParticipantReplyMsg) (n : Node db)
      → IsDeciding n
      → checks reply n ≡ true
      → handle_participant_reply db c stores reply n
        ≡ maybe_start_final_commit db c stores reply (recorded reply n)
  unfolding handle_participant_reply
  handled reply n d good = rw (good, (recorded-IsDeciding reply n d).leads)

  abbrev pub queued : Request → Node db → Node db
  queued r n = record n {
    engine = record (n.engine) { internal_ingress = n.engine.internal_ingress ++ (r ∷ []) };
  }

  pub queued-IsDeciding : (r : Request) (n : Node db) → IsDeciding n → IsDeciding (queued r n)
  unfolding is_primary is_primary_ingress primary
  queued-IsDeciding r n d = record { leads = d.leads; ingress = d.ingress; enabled = d.enabled }

  started-queued :
      (r : Request) (n : Node db)
      → IsDeciding n
      → with_engine db (start_internal_consensus db c stores stores r) n ≡ queued r n
  unfolding with_engine start_internal_consensus
  started-queued r n d = rw (d.ingress)

  restarted :
      (reply : ParticipantReplyMsg) (n : Node db)
      → IsDeciding n
      → (o : Outcome)
      → restart_abort db c stores o reply.req (recorded reply n) ≡ (
          if same_outcome o committed
          then queued (tagged coord_abort reply.req) (recorded reply n)
          else recorded reply n)
  restarted reply n d committed =
      started-queued (tagged coord_abort reply.req) _ (recorded-IsDeciding reply n d)
  restarted reply n d aborted = refl

  pub marked :
      (reply : ParticipantReplyMsg) (n : Node db)
      → is_started db
          (txn_id c reply.req)
          (mark_started db c (txn_id c reply.req) (recorded reply n))
        ≡ true
  unfolding is_started
  marked reply n = rw (get-put_self (txn_id c reply.req) true n.commit_started)

  enabled_step :
      (reply : ParticipantReplyMsg) (n : Node db) (b : Bool)
      → n.commit_phase_disabled ≡ false
      → is_started db (txn_id c reply.req) n ≡ b
      → maybe_start_final_commit db c stores reply n ≡ (
          if b
          then restart_abort db c stores reply.outcome reply.req n
          else with_engine db
              (start_internal_consensus db c stores stores
                (tagged (final_op reply.outcome) reply.req))
              (mark_started db c (txn_id c reply.req) n))
  unfolding maybe_start_final_commit is_started with_engine
  enabled_step reply n b on h = rw (on, h)

  pub first_step :
      (reply : ParticipantReplyMsg) (n : Node db)
      → IsDeciding n
      → checks reply n ≡ true
      → is_started db (txn_id c reply.req) n ≡ false
      → handle_participant_reply db c stores reply n
        ≡ queued
            (tagged (final_op reply.outcome) reply.req)
            (mark_started db c (txn_id c reply.req) (recorded reply n))
  unfolding is_started
  first_step reply n d good new =
      handled reply n d good
      ∙ enabled_step reply (recorded reply n) false d.enabled new
      ∙ (started-queued (tagged (final_op reply.outcome) reply.req) _ (marked-IsDeciding reply n d))

  pub later_step :
      (reply : ParticipantReplyMsg) (n : Node db)
      → IsDeciding n
      → checks reply n ≡ true
      → is_started db (txn_id c reply.req) n ≡ true
      → handle_participant_reply db c stores reply n ≡ (
          if same_outcome reply.outcome committed
          then queued (tagged coord_abort reply.req) (recorded reply n)
          else recorded reply n)
  unfolding is_started
  later_step reply n d good started =
      handled reply n d good
      ∙ enabled_step reply (recorded reply n) true d.enabled started
      ∙ restarted reply n d reply.outcome
