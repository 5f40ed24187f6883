-- ===== src/Pbft/Safety/Agreement.antt =====
-- Two replicas of one cluster, internal/pbft, over runs in one view.
use byz_bank.Prelude.{ℕ, ◌+◌, ◌*◌, ◌≤◌, ◌≡◌, sym, ◌∙◌, true, List, [], ◌∷◌, some, length}
use byz_bank.Prelude.Int.{ℤ, int_key}
use byz_bank.Prelude.Keys.{get}
use byz_bank.Prelude.Distinct.{Subset}
use byz_bank.Prelude.Text.{Bytes}
use byz_bank.Config.{Topology, servers_in_cluster, quorum, f}
use byz_bank.Store.Bbolt.{Bolt}
use byz_bank.Pbft.Crypto.{Crypto, KeyRing, ring_verify, public_key}
use byz_bank.Pbft.Messages.{CertificateMsg, SignedPhase, SigEntry, commit_phase}
use byz_bank.Pbft.Certificate.{verify_cert, server_ids}
use byz_bank.Pbft.Certificate.Sound.{signers, AllSigned, verify_cert_iff, verify_cluster_cert_iff}
use byz_bank.Pbft.Certificate.Agreement.{Votes, IsSingle, IsUnforged, cert_agreement}
use byz_bank.Pbft.State.{Engine, SeqState}
use byz_bank.Pbft.Safety.{IsSafe}
use byz_bank.Pbft.Safety.Steps.{Steps, Steps-IsSafe}

module _ (db : Bolt) (c : Crypto) (ring ring' : KeyRing) where
  -- Only the public keys of a ring count for a check.
  ring_verify-peers :
      (id : ℕ) (b sig : Bytes)
      → ring'.peers ≡ ring.peers
      → ring_verify c ring' id b sig ≡ ring_verify c ring id b sig
  unfolding ring_verify public_key
  ring_verify-peers id b sig h = rw h

  AllSigned-peers :
      (b : Bytes) (es : List SigEntry)
      → ring'.peers ≡ ring.peers
      → AllSigned c ring' b es
      → AllSigned c ring b es
  AllSigned-peers b [] h s = tt
  AllSigned-peers b (e ∷ es) h (s, rest) =
      (sym (ring_verify-peers e.server_id b e.sig h) ∙ s, AllSigned-peers b es h rest)

  verify_cert-peers :
      (cert : CertificateMsg) (phase : SignedPhase) (q : ℕ)
      → ring'.peers ≡ ring.peers
      → verify_cert c ring' cert phase q ≡ true
      → verify_cert c ring cert phase q ≡ true
  verify_cert-peers cert phase q h ok =
      let (enough, signed, distinct) = (verify_cert_iff c ring' cert phase q).0 ok in
      (verify_cert_iff c ring cert phase q).1
        (enough, AllSigned-peers _ cert.sigs h signed, distinct)

  -- Two replicas with the same public keys, each over any run of one view from sound slots, without
  -- messages of the view change, have the same digest in a slot in which both have a commit
  -- certificate. It is asked that the signers of the
  -- two certificates belong to the cluster, which `verifyCert` does not check, that the cluster has
  -- 3f+1 servers, of which at most f are faulty, that a server that is not faulty votes for one digest
  -- in a phase of a sequence number and view, and that the good signatures in its name in the two
  -- certificates are of votes that it cast.
  pub committed_agreement :
      (topo : Topology) (cluster : ℕ) (v seq : ℤ) (faulty : List ℕ) (voted : Votes)
      (a a' b b' : Engine db) (st st' : SeqState) (cert cert' : CertificateMsg)
      → ring'.peers ≡ ring.peers
      → length (server_ids (servers_in_cluster topo cluster)) ≡ topo.cluster_size
      → topo.cluster_size ≡ 3 * f topo + 1
      → length faulty ≤ f topo
      → IsSingle voted faulty
      → IsUnforged c ring voted faulty commit_phase cert
      → IsUnforged c ring voted faulty commit_phase cert'
      → IsSafe db c ring (quorum topo) v a
      → IsSafe db c ring' (quorum topo) v b
      → Steps db c a a'
      → Steps db c b b'
      → get seq a'.log ≡ some st
      → get seq b'.log ≡ some st'
      → st.commit_cert ≡ some cert
      → st'.commit_cert ≡ some cert'
      → Subset (signers cert.sigs) (server_ids (servers_in_cluster topo cluster))
      → Subset (signers cert'.sigs) (server_ids (servers_in_cluster topo cluster))
      → st.digest ≡ st'.digest
  committed_agreement topo cluster v seq faulty voted a a' b b' st st' cert cert' same_keys size
        shape few single ua ub sa sb ra rb fa fb ca cb ma mb =
      let safe = Steps-IsSafe db c ring (quorum topo) v a a' ra sa in
      let safe' = Steps-IsSafe db c ring' (quorum topo) v b b' rb sb in
      let (ok, d, s, w) = (safe.slots seq st fa).certified cert ca in
      let (ok', d', s', w') = (safe'.slots seq st' fb).certified cert' cb in
      let good =
        (verify_cluster_cert_iff c ring topo cluster cert commit_phase (quorum topo)).1 (ok, ma) in
      let good' =
        (verify_cluster_cert_iff c ring topo cluster cert' commit_phase (quorum topo)).1
          (verify_cert-peers cert' commit_phase (quorum topo) same_keys ok', mb) in
      d
      ∙ cert_agreement c ring topo cluster cert cert' commit_phase faulty voted size shape few
          single ua ub good good' (s ∙ sym s') (w ∙ sym w')
      ∙ sym d'
