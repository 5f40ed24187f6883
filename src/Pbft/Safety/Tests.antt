-- ===== src/Pbft/Safety/Tests.antt =====
-- A run of a replica of internal/pbft: a pre-prepare and then a commit certificate reach a backup.
use byz_bank.Prelude.{ℕ, ◌≡◌, refl, sym, true, false, [], ◌∷◌, subst, none, some, arith}
use byz_bank.Prelude.Int.{pos, int_key}
use byz_bank.Prelude.Distinct.{contains}
use byz_bank.Prelude.Keys.{get, put}
use byz_bank.Config.{quorum, server, f, servers_in_cluster}
use byz_bank.Pbft.Certificate.{server_ids, verify_cert}
use byz_bank.Store.Sample.{sample_bolt, fresh_store}
use byz_bank.Pbft.Messages.{PrePrepareMsg, CertificateMsg, commit_phase, part_prepare_abort}
use byz_bank.Pbft.State.{Engine, SeqState, engine_for, set_slot}
use byz_bank.Pbft.Handle.{handle, got_pre_prepare, got_commit_cert}
use byz_bank.Pbft.Safety.{IsSafe, IsSoundSlot, IsFor, IsSafe-put}
use byz_bank.Pbft.Safety.Agreement.{committed_agreement}
use byz_bank.Pbft.Safety.Steps.{Steps, done, handled, Steps-IsSafe, engine_for-IsSafe}
use byz_bank.Pbft.Sample.{
  any_text, one_text, two_clusters, ring_of_eight, payment, second_cert, cert, other_cert,
  cert_verifies, other_cert_verifies, one_digest, one_digest-IsSingle, engine_of,
}
use byz_bank.Pbft.Certificate.Sound.{verify_cluster_cert_iff}

abbrev backup : Engine sample_bolt
backup = engine_for sample_bolt (server 9000 [] 1 6) two_clusters ring_of_eight fresh_store true

abbrev proposal : PrePrepareMsg
proposal = record {
  seq = pos 1;
  view = pos 0;
  digest = 1 ∷ [];
  req = record payment { op = part_prepare_abort };
}

abbrev proposed : Engine sample_bolt
proposed = handle sample_bolt any_text [] (got_pre_prepare proposal) backup

abbrev committed : Engine sample_bolt
committed = handle sample_bolt any_text [] (got_commit_cert second_cert) proposed

run_of_two : Steps sample_bolt any_text backup committed
run_of_two =
    handled [] (got_pre_prepare proposal) backup committed tt
      (handled [] (got_commit_cert second_cert) proposed committed tt (done committed))

Steps-IsSafe_example :
    IsSafe sample_bolt any_text ring_of_eight (quorum two_clusters) (pos 0) committed
Steps-IsSafe_example =
    Steps-IsSafe sample_bolt any_text ring_of_eight (quorum two_clusters) (pos 0) backup committed
      run_of_two
      (engine_for-IsSafe sample_bolt any_text (server 9000 [] 1 6) two_clusters ring_of_eight
        fresh_store true)

abbrev certified_slot : CertificateMsg → SeqState
certified_slot made = record {
  digest = 1 ∷ [];
  req = payment;
  pre_prepare = true;
  discarded = false;
  prepares = [];
  prepare_cert = none;
  commits = [];
  commit_cert = some made;
  executed = true;
}

abbrev first_replica : Engine sample_bolt
first_replica = set_slot sample_bolt (pos 1) (certified_slot cert) (engine_of 1 1)

abbrev second_replica : Engine sample_bolt
second_replica = set_slot sample_bolt (pos 1) (certified_slot other_cert) (engine_of 2 1)

other_cert_good : verify_cert one_text ring_of_eight other_cert commit_phase 3 ≡ true
other_cert_good =
    ((verify_cluster_cert_iff one_text ring_of_eight two_clusters 1 other_cert commit_phase 3).0
      other_cert_verifies).0

certified_slot-IsSoundSlot :
    (made : CertificateMsg)
    → verify_cert one_text ring_of_eight made commit_phase 3 ≡ true
    → made.digest ≡ 1 ∷ []
    → made.seq ≡ pos 1
    → made.view ≡ pos 0
    → IsSoundSlot sample_bolt one_text ring_of_eight 3 (pos 0) (pos 1) (certified_slot made)
certified_slot-IsSoundSlot made ok d s w = record {
  certified = λ made' has.
      let same : made ≡ made' = cc has in
      subst
        (λ m. IsFor sample_bolt one_text ring_of_eight 3 (pos 0) (pos 1) (certified_slot made) m)
        same (ok, sym d, s, w);
  voted = record { distinct = tt; signed = tt };
  idle = λ shut. absurd (cc shut);
}

engine_of-IsSafe : (k : ℕ) → IsSafe sample_bolt one_text ring_of_eight 3 (pos 0) (engine_of k 1)
unfolding get
engine_of-IsSafe k = record {
  ring_is = refl;
  quorum_is = refl;
  view_is = refl;
  slots = λ seq st found. absurd (cc found);
}

replica-IsSafe :
    (k : ℕ) (st : SeqState)
    → IsSoundSlot sample_bolt one_text ring_of_eight 3 (pos 0) (pos 1) st
    → IsSafe sample_bolt one_text ring_of_eight 3
        (pos 0)
        (set_slot sample_bolt (pos 1) st (engine_of k 1))
replica-IsSafe k st sound =
    IsSafe-put sample_bolt one_text ring_of_eight 3 (pos 0) (engine_of k 1) (pos 1) st
      (engine_of-IsSafe k) sound

committed_agreement_example : (certified_slot cert).digest ≡ (certified_slot other_cert).digest
unfolding servers_in_cluster server_ids f quorum get put contains
committed_agreement_example =
    committed_agreement sample_bolt one_text ring_of_eight ring_of_eight two_clusters 1 (pos 0)
      (pos 1) [] one_digest first_replica first_replica second_replica second_replica
      (certified_slot cert) (certified_slot other_cert) cert other_cert refl refl refl (omega arith)
      one_digest-IsSingle (λ _ _. refl, (λ _ _. refl, (λ _ _. refl, tt)))
      (λ _ _. refl, (λ _ _. refl, (λ _ _. refl, tt)))
      (replica-IsSafe 1 _ (certified_slot-IsSoundSlot cert cert_verifies refl refl refl))
      (replica-IsSafe 2 _ (certified_slot-IsSoundSlot other_cert other_cert_good refl refl refl))
      (done first_replica) (done second_replica) refl refl refl refl (refl, (refl, (refl, tt)))
      (refl, (refl, (refl, tt)))
