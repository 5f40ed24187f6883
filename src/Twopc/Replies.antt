-- ===== src/Twopc/Replies.antt =====
-- The reply that internal/twopc/participant.go sends again when it meets a prepare once more, at the
-- coordinator's replicas.
use byz_bank.Prelude.{
  ℕ, suc, ◌+◌, ◌-◌, ◌*◌, ◌≤◌, ◌<◌, ◌≡◌, refl, ◌≢◌, Bool, true, false, List, [], ◌∷◌, ◌++◌, inl, inr,
  Bool-cases, ltb, if◌then◌else◌, length, arith, All,
}
use byz_bank.Prelude.Int.{ℤ, pos}
use byz_bank.Prelude.Keys.{◌==◌, nat_key}
use byz_bank.Prelude.Text.{Bytes}
use byz_bank.Prelude.Distinct.{contains}
use byz_bank.Config.{Topology, Server, new, cluster_of, same_cluster, servers_in_cluster, quorum}
use byz_bank.Config.Members.{mul_mono, servers_in_cluster-range}
use byz_bank.Config.Shards.{cluster_of-bounds}
use byz_bank.Store.Bbolt.{Bolt}
use byz_bank.Store.{Store, wal_exists}
use byz_bank.Store.Types.{committed}
use byz_bank.Pbft.Crypto.{Crypto, KeyRing}
use byz_bank.Pbft.Messages.{SigEntry, CertificateMsg, SignedPhase, commit_phase, client_req, txn_id}
use byz_bank.Pbft.Certificate.{verify_cluster_cert, verify_member_entries, server_ids}
use byz_bank.Twopc.Messages.{Envelope, CoordinatorPrepareMsg, ParticipantReplyMsg}
use byz_bank.Twopc.Node.{Node, is_primary, send_to_cluster, recipients}
use byz_bank.Twopc.Coordinator.{handle_participant_reply}
use byz_bank.Twopc.Participant.{handle_prepare, resend_prepare_reply}
use byz_bank.Twopc.Bridge.{handle_2pc}

member_range :
    (lo hi k : ℕ) (ss : List Server)
    → All (λ s. (lo < s.id) × (s.id ≤ hi)) ss
    → contains k (server_ids ss) ≡ true
    → (lo < k) × (k ≤ hi)
unfolding contains server_ids
member_range lo hi k [] h m = cc
member_range lo hi k (s ∷ ss) (b, h) m = ground (arith, member_range lo hi k ss h)

block_apart :
    (a b size k : ℕ)
    → a ≢ b
    → a * size < k
    → k ≤ (a + 1) * size
    → b * size < k
    → k ≤ (b + 1) * size
    → ⊥
block_apart a b size k ne la ha lb hb = elim (Bool-cases (ltb a b)) [
  | inl e ↦ omega (arith, mul_mono a b size (ground arith), la, ha, lb, hb)
  | inr e ↦ omega (arith, mul_mono b a size (ground arith), la, ha, lb, hb)
]

refused :
    (c : Crypto) (ring ring' : KeyRing) (q : ℕ) (allowed allowed' : List ℕ) (bytes : Bytes)
    (es : List SigEntry)
    → (if ltb (length es) (2 * q + 1)
        then false
        else verify_member_entries c ring allowed bytes [] es)
      ≡ true
    → ((k : ℕ) → contains k allowed ≡ true → contains k allowed' ≡ false)
    → (if ltb (length es) (2 * q + 1)
        then false
        else verify_member_entries c ring' allowed' bytes [] es)
      ≡ false
unfolding verify_member_entries
refused c ring ring' q allowed allowed' bytes [] ok apart = ground arith
refused c ring ring' q allowed allowed' bytes (ent ∷ es) ok apart =
    ground (arith, apart ent.server_id)

module _ (num size items base_port : ℕ) (host : Bytes) (balance : ℤ) (c : Crypto) where
  abbrev topology : Topology
  topology = new num size items base_port host balance

  clusters_apart :
      (a b k : ℕ)
      → a < num
      → b < num
      → a ≢ b
      → contains k (server_ids (servers_in_cluster topology (suc a))) ≡ true
      → contains k (server_ids (servers_in_cluster topology (suc b))) ≡ false
  clusters_apart a b k ka kb ne m =
      elim (Bool-cases (contains k (server_ids (servers_in_cluster topology (suc b))))) [
        | inr e ↦ e
        | inl e ↦
            let (la, ha) =
              member_range _ _ k _
                (servers_in_cluster-range num size items base_port host balance a ka) m in
            let (lb, hb) =
              member_range _ _ k _
                (servers_in_cluster-range num size items base_port host balance b kb) e in
            absurd (block_apart a b size k ne la ha lb hb)
      ]

  -- On a topology made by `New`, a certificate that passes the quorum check for one cluster is refused
  -- for every other, under any key ring.
  pub cert_of_one_cluster :
      (ring ring' : KeyRing) (a b : ℕ) (cert : CertificateMsg) (phase : SignedPhase)
      → a < num
      → b < num
      → a ≢ b
      → verify_cluster_cert c ring topology (suc a) cert phase (quorum topology) ≡ true
      → verify_cluster_cert c ring' topology (suc b) cert phase (quorum topology) ≡ false
  unfolding verify_cluster_cert quorum
  cert_of_one_cluster ring ring' a b cert phase ka kb ne ok =
      refused c ring ring' _ _ _ _ cert.sigs ok (λ k. clusters_apart a b k ka kb ne)

  -- The predecessor of a cluster's number.
  index_of : (item : ℤ) → 0 < num → (a : ℕ) × (cluster_of topology item ≡ suc a) × (a < num)
  unfolding new
  index_of item some_cluster =
      let (lo, hi) = cluster_of-bounds topology item some_cluster in
      (cluster_of topology item - 1, omega arith, omega arith)

  -- The two clusters of a cross-shard transfer: what passes for x's is refused for y's.
  refused_for_payee :
      (ring ring' : KeyRing) (x y : ℤ) (cert : CertificateMsg)
      → 0 < num
      → same_cluster topology x y ≡ false
      → verify_cluster_cert c ring topology
          (cluster_of topology x)
          cert
          commit_phase
          (quorum topology)
        ≡ true
      → verify_cluster_cert c ring' topology
          (cluster_of topology y)
          cert
          commit_phase
          (quorum topology)
        ≡ false
  unfolding same_cluster
  refused_for_payee ring ring' x y cert some_cluster cross ok =
      let (a, ea, la) = index_of x some_cluster in
      let (b, eb, lb) = index_of y some_cluster in
      rw eb (cert_of_one_cluster ring ring' a b cert commit_phase la lb (ground arith) (rw⁻¹ ea ok))

module _ (num size items base_port : ℕ) (host : Bytes) (balance : ℤ) (db : Bolt) (c : Crypto) where
  abbrev checked : Node db → ParticipantReplyMsg → Bool
  checked n' reply =
      verify_cluster_cert c n'.engine.ring n'.engine.topo (cluster_of n'.engine.topo reply.req.y)
        reply.commit_cert commit_phase (quorum n'.engine.topo)

  recipients-All :
      (P : Envelope → Type 0) (self : ℕ) (reachable : ℕ → Bool) (env : Envelope) (ss : List Server)
      → P env
      → All (λ p. P p.1) (recipients db self reachable env ss)
  unfolding recipients
  recipients-All P self reachable env [] h = tt
  recipients-All P self reachable env (s ∷ ss) h =
      let rest = recipients-All P self reachable env ss h in
      elim (Bool-cases (s.id == self)) [
        | inl e ↦ rw e rest
        | inr e ↦ elim (Bool-cases (reachable s.id)) [
          | inl r ↦ rw (e, r) (h, rest)
          | inr r ↦ rw (e, r) tt
        ]
      ]

  dropped :
      (n' : Node db) (stores' : List (Store db)) (reply : ParticipantReplyMsg)
      → n'.engine.topo ≡ new num size items base_port host balance
      → verify_cluster_cert c n'.engine.ring
          (new num size items base_port host balance)
          (cluster_of (new num size items base_port host balance) reply.req.y)
          reply.commit_cert
          commit_phase
          (quorum (new num size items base_port host balance))
        ≡ false
      → handle_participant_reply db c stores' reply n' ≡ n'
  unfolding handle_participant_reply
  dropped n' stores' reply t' bad = let bad' : checked n' reply ≡ false = rw t' bad in rw bad'

  -- A participant whose WAL has the transaction answers a repeated prepare with the coordinator's own
  -- certificate. Every reply that it then sends is dropped by every replica that gets it, on a
  -- topology made by `New` and for a cross-shard transfer.
  pub resent_replies-ignored :
      (n n' : Node db) (stores stores' : List (Store db)) (from : ℕ) (msg : CoordinatorPrepareMsg)
      → n.engine.topo ≡ new num size items base_port host balance
      → n'.engine.topo ≡ new num size items base_port host balance
      → 0 < num
      → same_cluster (new num size items base_port host balance) msg.req.x msg.req.y ≡ false
      → is_primary db n ≡ true
      → verify_cluster_cert c n.engine.ring n.engine.topo
          (cluster_of n.engine.topo msg.req.x)
          msg.commit_cert
          commit_phase
          (quorum n.engine.topo)
        ≡ true
      → wal_exists db n.engine.store (txn_id c msg.req) ≡ true
      → (replies : List (ℕ × Envelope)) × ((handle_prepare db c stores msg n).sent
          ≡ n.sent ++ replies)
        × All (λ p. handle_2pc db c stores' from p.1 n' ≡ n') replies
  unfolding handle_prepare resend_prepare_reply send_to_cluster handle_2pc client_req
  resent_replies-ignored n n' stores stores' from msg t t' some_cluster cross leads ok logged =
      let bad =
        refused_for_payee num size items base_port host balance c n.engine.ring n'.engine.ring
          msg.req.x msg.req.y msg.commit_cert some_cluster cross (rw⁻¹ t ok) in
      rw (leads, ok, logged)
        (
          _,
          refl,
          recipients-All (λ env. handle_2pc db c stores' from env n' ≡ n') n.engine.self n.reachable
              _ _
              (dropped n' stores'
                (record {
                  req = client_req msg.req;
                  outcome = committed;
                  commit_cert = msg.commit_cert;
                  part_seq = pos 0;
                })
                t' bad),
        )
