-- ===== src/Twopc/Redelivery.antt =====
-- A prepare of internal/twopc that reaches the participant again, and the acks that the coordinator
-- counts.
use byz_bank.Prelude.{
  ℕ, ◌+◌, ◌≡◌, refl, sym, ◌∙◌, Bool, true, List, [], ◌∷◌, inl, inr, Bool-cases, if◌then◌else◌,
  length, arith,
}
use byz_bank.Prelude.Int.{ℤ}
use byz_bank.Prelude.Keys.{◌==◌, GoMap, get, put, has, get-put, beq_refl, nat_key}
use byz_bank.Prelude.Text.{Bytes, bytes_key}
use byz_bank.Config.{cluster_of, quorum}
use byz_bank.Store.Bbolt.{Bolt}
use byz_bank.Store.Frame.{wal_exists_lem}
use byz_bank.Store.{Store, wal_exists}
use byz_bank.Pbft.Crypto.{Crypto}
use byz_bank.Pbft.Messages.{
  Request, CertificateMsg, commit_phase, txn_id, digest_of, client_req, part_prepare_commit,
}
use byz_bank.Pbft.Certificate.{verify_cluster_cert}
use byz_bank.Pbft.State.{Engine}
use byz_bank.Pbft.Execute.{execute_op}
use byz_bank.Pbft.Execute.Prepare.{part_prepare_lem}
use byz_bank.Pbft.Execute.Atomic.{tagged}
use byz_bank.Twopc.Messages.{CoordinatorPrepareMsg}
use byz_bank.Twopc.Node.{Node, is_primary, send_to_cluster}
use byz_bank.Twopc.Participant.{handle_prepare, resend_prepare_reply}
use byz_bank.Twopc.Collect.{record_ack, count_acks, acks_or_empty}

module _ (db : Bolt) (c : Crypto) where
  -- An executed prepare leaves its transaction in the WAL.
  pub prepared-wal_exists :
      (r : Request) (seq : ℤ) (cert : CertificateMsg) (e : Engine db)
      → wal_exists db
          (execute_op db c part_prepare_commit (tagged part_prepare_commit r) seq cert e).store
          (txn_id c r)
        ≡ true
  unfolding execute_op txn_id client_req digest_of
  prepared-wal_exists r seq cert e =
      let r' = tagged part_prepare_commit r in
      let (_, w, _, _, _, _) = part_prepare_lem db c r' seq cert e r.y (txn_id c r) in
      elim (Bool-cases (wal_exists db e.store (txn_id c r))) [
        | inl old ↦
            wal_exists_lem db _ (txn_id c r)
            ∙ rw (w, old) (sym (wal_exists_lem db e.store (txn_id c r)) ∙ old)
        | inr new ↦ wal_exists_lem db _ (txn_id c r) ∙ rw (w, new, beq_refl (txn_id c r))
      ]

  abbrev checked : CoordinatorPrepareMsg → Node db → Bool
  checked msg n =
      verify_cluster_cert c n.engine.ring n.engine.topo (cluster_of n.engine.topo msg.req.x)
        msg.commit_cert commit_phase (quorum n.engine.topo)

  -- A replica that has executed the prepare of a transaction does not run it again: its engine, with
  -- its store and its queues, stays as it is when the coordinator's prepare comes once more.
  redelivered_prepare :
      (stores : List (Store db)) (msg : CoordinatorPrepareMsg) (n : Node db) (seq : ℤ)
      (cert : CertificateMsg) (e : Engine db)
      → n.engine
        ≡ execute_op db c part_prepare_commit (tagged part_prepare_commit msg.req) seq cert e
      → (handle_prepare db c stores msg n).engine ≡ n.engine
  unfolding handle_prepare resend_prepare_reply send_to_cluster
  redelivered_prepare stores msg n seq cert e h =
      let logged : wal_exists db n.engine.store (txn_id c msg.req) ≡ true =
        rw h (prepared-wal_exists msg.req seq cert e) in
      elim (Bool-cases (is_primary db n)) [
        | inr other ↦ rw other
        | inl leads ↦ elim (Bool-cases (checked msg n)) [
          | inr bad ↦ rw (leads, bad)
          | inl ok ↦ rw (leads, ok, logged)
        ]
      ]

length-put :
    {V : Type 0} (k : ℕ) (v : V) (m : GoMap ℕ V)
    → length (put k v m) ≡ (if has k m then length m else length m + 1)
unfolding put has
length-put k v [] = refl
length-put k v ((j, w) ∷ m) = ground (arith, length-put k v m)

-- Acks are counted by transaction and by server: a new server's adds one to its transaction's count,
-- a repeated one nothing, and the count of a transaction with another id stays.
pub count_acks-record_ack :
    (c : Crypto) (r r' : Request) (from : ℕ) (acks : GoMap Bytes (GoMap ℕ (Unit {0})))
    → count_acks c r' (record_ack c r from acks) ≡ (
        if txn_id c r == txn_id c r'
        then (if has from (acks_or_empty (get (txn_id c r') acks))
            then count_acks c r' acks
            else count_acks c r' acks + 1)
        else count_acks c r' acks)
unfolding count_acks record_ack
count_acks-record_ack c r r' from acks =
    rw
      (get-put (txn_id c r) (txn_id c r') (put from tt (acks_or_empty (get (txn_id c r) acks)))
        acks)
      (elim (Bool-cases (txn_id c r == txn_id c r')) [
        | inl same ↦
            rw (same, sym (((bytes_key.beq_iff (txn_id c r) (txn_id c r')).0 same)))
              (length-put from tt (acks_or_empty (get (txn_id c r) acks)))
        | inr other ↦ rw other
      ])
