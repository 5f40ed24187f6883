-- ===== src/Twopc/Tests.antt =====
-- Runs of internal/twopc: the payment of 4 from item 1 of the first cluster to item 60 of the second.
use byz_bank.Prelude.{ℕ, ◌≡◌, refl, ap, ◌∙◌, true, false, ◌⊎◌, List, [], ◌∷◌, ◌++◌, All, arith}
use byz_bank.Prelude.Int.{pos, ◌+ℤ◌, ◌-ℤ◌}
use byz_bank.Prelude.Keys.{get, beq_refl, nat_key}
use byz_bank.Prelude.Text.{bytes_key}
use byz_bank.Config.{new, primary_of, quorum, same_cluster, cluster_of}
use byz_bank.Store.Types.{committed, aborted}
use byz_bank.Store.{wal_exists, wal_write}
use byz_bank.Store.Frame.{wal_exists_lem, wal_entry-wal_write}
use byz_bank.Store.Sample.{sample_bolt, fresh_store}
use byz_bank.Pbft.Messages.{txn_id, commit_phase, coord_commit, coord_abort}
use byz_bank.Pbft.Signing.{txn_id-IsKey}
use byz_bank.Pbft.Certificate.{verify_cluster_cert}
use byz_bank.Pbft.State.{Engine, primary}
use byz_bank.Pbft.Start.{is_primary_ingress}
use byz_bank.Pbft.Execute.Atomic.{tagged}
use byz_bank.Pbft.Sample.{
  any_text, two_clusters, ring_of_eight, engine_of, payment, cert, second_cert, cert-first,
  second_cert-second, item_1, item_60,
}
use byz_bank.Twopc.Messages.{Envelope, prepared, CoordinatorPrepareMsg, ParticipantReplyMsg}
use byz_bank.Twopc.Node.{Node, is_primary, is_started}
use byz_bank.Twopc.Coordinator.{handle_participant_reply}
use byz_bank.Twopc.Participant.{handle_prepare}
use byz_bank.Twopc.Bridge.{handle_2pc}
use byz_bank.Twopc.Authority.{IsAuthorized, handle_2pc-IsAuthorized}
use byz_bank.Twopc.Reply.{IsDeciding, checks}
use byz_bank.Twopc.Decision.{
  handle_replies, aborts, first_reply_step, first_reply, later_reply, repeated_reply,
}
use byz_bank.Twopc.Replies.{resent_replies-ignored}

abbrev node_of : Engine sample_bolt → Node sample_bolt
node_of e = record {
  engine = e;
  commit_started = [];
  commit_phase_disabled = false;
  cross_busy = false;
  certs = [];
  acks = [];
  reachable = λ _. true;
  sent = [];
}

abbrev payer : Node sample_bolt
payer = node_of (engine_of 1 1)

abbrev payee : Node sample_bolt
payee = node_of (engine_of 5 2)

abbrev reply : ParticipantReplyMsg
reply = record { req = payment; outcome = committed; commit_cert = second_cert; part_seq = pos 1 }

abbrev refusal : ParticipantReplyMsg
refusal = record reply { outcome = aborted }

abbrev announcement : CoordinatorPrepareMsg
announcement = record { req = payment; commit_cert = cert; coord_seq = pos 1 }

payer-IsDeciding : IsDeciding sample_bolt any_text [] payer
unfolding is_primary is_primary_ingress primary primary_of ◌+ℤ◌ ◌-ℤ◌
payer-IsDeciding = record { leads = refl; ingress = refl; enabled = refl }

reply-checks : checks sample_bolt any_text [] reply payer ≡ true
reply-checks = rw item_60 second_cert-second

not_started : is_started sample_bolt (txn_id any_text payment) payer ≡ false
unfolding is_started get
not_started = refl

first_reply_example :
    (k : ℕ) × ((handle_replies sample_bolt any_text []
        (reply ∷ reply ∷ refusal ∷ [])
        payer).engine.internal_ingress
      ≡ [] ++ (tagged coord_commit payment ∷ aborts k payment))
first_reply_example =
    first_reply sample_bolt any_text [] reply (reply ∷ refusal ∷ []) payer payer-IsDeciding
      reply-checks not_started (refl, (refl, tt))

abbrev answered : Node sample_bolt
answered = handle_participant_reply sample_bolt any_text [] reply payer

once :
    (answered.engine.internal_ingress ≡ [] ++ (tagged coord_commit payment ∷ []))
    × (is_started sample_bolt (txn_id any_text payment) answered ≡ true)
    × IsDeciding sample_bolt any_text [] answered
once =
    first_reply_step sample_bolt any_text [] reply payer payer-IsDeciding reply-checks not_started

later_reply_example :
    let n = handle_participant_reply sample_bolt any_text [] reply payer in
    let n' = handle_participant_reply sample_bolt any_text [] reply n in
    ((n'.engine.internal_ingress ≡ n.engine.internal_ingress)
      ⊎ (n'.engine.internal_ingress
          ≡ n.engine.internal_ingress ++ (tagged coord_abort payment ∷ [])))
    × (is_started sample_bolt (txn_id any_text payment) n' ≡ true)
later_reply_example = later_reply sample_bolt any_text [] reply answered once.2 once.1

repeated_reply_example :
    (handle_participant_reply sample_bolt any_text [] reply
      (handle_participant_reply sample_bolt any_text [] reply payer)).engine.internal_ingress
    ≡ [] ++ (tagged coord_commit payment ∷ tagged coord_abort payment ∷ [])
repeated_reply_example =
    repeated_reply sample_bolt any_text [] reply payer payer-IsDeciding reply-checks not_started
      refl

reply_changes : ¬ (handle_2pc sample_bolt any_text [] 5 (prepared reply) payer ≡ payer)
unfolding handle_2pc
reply_changes h = cc (ap (λ n. n.engine.internal_ingress) h, once.0)

handle_2pc-IsAuthorized_example :
    IsAuthorized sample_bolt any_text payer
      (handle_2pc sample_bolt any_text [] 5 (prepared reply) payer)
      (prepared reply)
handle_2pc-IsAuthorized_example =
    handle_2pc-IsAuthorized sample_bolt any_text [] 5 (prepared reply) payer reply_changes

abbrev logged_payee : Node sample_bolt
logged_payee = node_of (record (engine_of 5 2) {
  store = wal_write sample_bolt (txn_id any_text payment) ((pos 60, pos 10) ∷ []) fresh_store;
})

logged : wal_exists sample_bolt logged_payee.engine.store (txn_id any_text payment) ≡ true
logged =
    wal_exists_lem sample_bolt logged_payee.engine.store (txn_id any_text payment)
    ∙ rw (
      wal_entry-wal_write sample_bolt fresh_store (txn_id any_text payment)
          (txn_id any_text payment) ((pos 60, pos 10) ∷ []) (txn_id-IsKey any_text payment),
      beq_refl (txn_id any_text payment),
    )

payee-checks :
    verify_cluster_cert any_text ring_of_eight two_clusters
      (cluster_of two_clusters (pos 1))
      cert
      commit_phase
      (quorum two_clusters)
    ≡ true
payee-checks = rw item_1 cert-first

payee-leads : is_primary sample_bolt logged_payee ≡ true
unfolding is_primary primary primary_of ◌+ℤ◌ ◌-ℤ◌
payee-leads = refl

cross_shard : same_cluster (new 2 4 100 9000 [] (pos 10)) (pos 1) (pos 60) ≡ false
unfolding same_cluster new
cross_shard = rw (item_1, item_60)

resent_replies-ignored_example :
    (replies : List (ℕ × Envelope)) × ((handle_prepare sample_bolt any_text [] announcement
        logged_payee).sent
      ≡ [] ++ replies)
    × All (λ p. handle_2pc sample_bolt any_text [] 5 p.1 payer ≡ payer) replies
unfolding new
resent_replies-ignored_example =
    resent_replies-ignored 2 4 100 9000 [] (pos 10) sample_bolt any_text logged_payee payer [] [] 5
      announcement refl refl (omega arith) cross_shard payee-leads payee-checks logged
