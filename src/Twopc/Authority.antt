-- ===== src/Twopc/Authority.antt =====
-- What the handlers of internal/twopc ask of a message from another cluster before they act on it.
use byz_bank.Prelude.{ℕ, ◌≤◌, ◌≡◌, refl, Bool, true, false, not, List, if◌then◌else◌, length}
use byz_bank.Prelude.Distinct.{IsDistinct, Subset}
use byz_bank.Config.{Topology, servers_in_cluster, cluster_of, quorum}
use byz_bank.Store.Bbolt.{Bolt}
use byz_bank.Store.{Store}
use byz_bank.Pbft.Crypto.{Crypto, KeyRing}
use byz_bank.Pbft.Messages.{CertificateMsg, commit_phase, phase_signing_bytes}
use byz_bank.Pbft.Certificate.{verify_cluster_cert, server_ids}
use byz_bank.Pbft.Certificate.Sound.{signers, AllSigned, verify_cert_iff, verify_cluster_cert_iff}
use byz_bank.Twopc.Messages.{Envelope, prepare, prepared, commit, ack}
use byz_bank.Twopc.Node.{Node}
use byz_bank.Twopc.Coordinator.{handle_participant_reply, handle_participant_ack}
use byz_bank.Twopc.Participant.{handle_prepare, handle_commit}
use byz_bank.Twopc.Bridge.{handle_2pc}

passed : {A : Type 0} (b : Bool) (r n : A) → ¬ ((if not b then n else r) ≡ n) → b ≡ true
passed true r n h = refl
passed false r n h = absurd (h refl)

both_passed :
    {A : Type 0} (a b : Bool) (r n : A)
    → ¬ ((if not a then n else if not b then n else r) ≡ n)
    → b ≡ true
both_passed true b r n h = passed b r n h
both_passed false b r n h = absurd (h refl)

module _ (c : Crypto) where
  -- A quorum of members of one cluster signed the certificate's seq, view and digest in the commit
  -- phase, each once.
  pub record IsCertified (ring : KeyRing) (topo : Topology) (cluster : ℕ) (cert : CertificateMsg)
      : Type 0 where
    pub enough : quorum topo ≤ length cert.sigs
    pub signed :
        AllSigned c ring (phase_signing_bytes commit_phase cert.seq cert.view cert.digest) cert.sigs
    pub distinct : IsDistinct (signers cert.sigs)
    pub members : Subset (signers cert.sigs) (server_ids (servers_in_cluster topo cluster))

  certified :
      (ring : KeyRing) (topo : Topology) (cluster : ℕ) (cert : CertificateMsg)
      → verify_cluster_cert c ring topo cluster cert commit_phase (quorum topo) ≡ true
      → IsCertified ring topo cluster cert
  certified ring topo cluster cert h =
      let (v, m) =
        (verify_cluster_cert_iff c ring topo cluster cert commit_phase (quorum topo)).0 h in
      let (e, s, d) = (verify_cert_iff c ring cert commit_phase (quorum topo)).0 v in
      record { enough = e; signed = s; distinct = d; members = m }

module _ (db : Bolt) (c : Crypto) where
  -- What must hold of an envelope that changes a replica. The payer's cluster must have certified the
  -- coordinator's messages, the payee's a reply. An ack carries no certificate, and adds to the acks only.
  abbrev pub IsAuthorized : Node db → Node db → Envelope → Type 0
  IsAuthorized n n' (prepare m) =
      IsCertified c n.engine.ring n.engine.topo (cluster_of n.engine.topo m.req.x) m.commit_cert
  IsAuthorized n n' (prepared m) =
      IsCertified c n.engine.ring n.engine.topo (cluster_of n.engine.topo m.req.y) m.commit_cert
  IsAuthorized n n' (commit m) =
      IsCertified c n.engine.ring n.engine.topo (cluster_of n.engine.topo m.req.x) m.commit_cert
  IsAuthorized n n' (ack m) = n' ≡ record n { acks = n'.acks }

  -- An envelope that changes a replica carries a certificate that a quorum of the sending side's
  -- cluster signed, unless it is an ack, which needs none and changes the collected acks only.
  pub handle_2pc-IsAuthorized :
      (stores : List (Store db)) (from : ℕ) (env : Envelope) (n : Node db)
      → ¬ (handle_2pc db c stores from env n ≡ n)
      → IsAuthorized n (handle_2pc db c stores from env n) env
  unfolding handle_2pc handle_prepare handle_commit handle_participant_reply handle_participant_ack
  handle_2pc-IsAuthorized stores from (prepare m) n h =
      certified c n.engine.ring n.engine.topo _ m.commit_cert (both_passed _ _ _ n h)
  handle_2pc-IsAuthorized stores from (prepared m) n h =
      certified c n.engine.ring n.engine.topo _ m.commit_cert (passed _ _ n h)
  handle_2pc-IsAuthorized stores from (commit m) n h =
      certified c n.engine.ring n.engine.topo _ m.commit_cert (both_passed _ _ _ n h)
  handle_2pc-IsAuthorized stores from (ack m) n h = refl
