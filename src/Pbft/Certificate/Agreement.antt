-- ===== src/Pbft/Certificate/Agreement.antt =====
-- Why a certificate settles a sequence number: the certificates of one cluster overlap.
use byz_bank.Prelude.{
  ℕ, ◌+◌, ◌*◌, ◌≤◌, ◌≡◌, refl, true, false, List, [], ◌∷◌, arith, length, Bool-cases, inl, inr,
  subst,
}
use byz_bank.Prelude.Int.{ℤ}
use byz_bank.Prelude.Keys.{◌==◌, nat_key}
use byz_bank.Prelude.Distinct.{
  contains, common, length-common-le, member_outside, common-IsDistinct, contains-common_iff,
}
use byz_bank.Prelude.Text.{Bytes}
use byz_bank.Config.{Topology, f, quorum, servers_in_cluster}
use byz_bank.Pbft.Crypto.{Crypto, KeyRing, ring_verify}
use byz_bank.Pbft.Messages.{SigEntry, CertificateMsg, SignedPhase, phase_signing_bytes}
use byz_bank.Pbft.Certificate.{verify_cluster_cert, server_ids}
use byz_bank.Pbft.Certificate.Sound.{signers, AllSigned, verify_cert_iff, verify_cluster_cert_iff}

length-signers : (es : List SigEntry) → length (signers es) ≡ length es
length-signers [] = refl
length-signers (e ∷ es) = omega (arith, length-signers es)

-- The votes that servers cast: server, phase, sequence number, view, digest.
abbrev pub Votes : Type 1
Votes = ℕ → SignedPhase → ℤ → ℤ → Bytes → Type 0

-- A server that is not faulty votes for one digest in a phase of a sequence number and view.
abbrev pub IsSingle : Votes → List ℕ → Type 0
IsSingle voted faulty =
    (k : ℕ) (phase : SignedPhase) (seq view : ℤ) (d e : Bytes)
    → contains k faulty ≡ false
    → voted k phase seq view d
    → voted k phase seq view e
    → d ≡ e

module _ (c : Crypto) (ring : KeyRing) where
  -- An entry with a good signature of a server that is not faulty goes back to a vote of that server:
  -- nobody else made it.
  abbrev pub IsBacked : (ℕ → Type 0) → List ℕ → Bytes → List SigEntry → Type 0
  IsBacked voted faulty bytes [] = Unit
  IsBacked voted faulty bytes (e ∷ es) =
      (contains e.server_id faulty ≡ false
        → ring_verify c ring e.server_id bytes e.sig ≡ true
        → voted e.server_id)
      × IsBacked voted faulty bytes es

  -- The same of the entries of a certificate of this phase.
  abbrev pub IsUnforged : Votes → List ℕ → SignedPhase → CertificateMsg → Type 0
  IsUnforged voted faulty phase cert =
      IsBacked (λ k. voted k phase cert.seq cert.view cert.digest) faulty
        (phase_signing_bytes phase cert.seq cert.view cert.digest) cert.sigs

  -- A signer of accepted entries that is not faulty has voted.
  voted_by :
      (voted : ℕ → Type 0) (faulty : List ℕ) (bytes : Bytes) (k : ℕ) (es : List SigEntry)
      → IsBacked voted faulty bytes es
      → AllSigned c ring bytes es
      → contains k faulty ≡ false
      → contains k (signers es) ≡ true
      → voted k
  unfolding contains
  voted_by voted faulty bytes k [] backed all sound h = cc h
  voted_by voted faulty bytes k (e ∷ es) (first, backed) (good, all) sound h =
      elim (Bool-cases (e.server_id == k)) [
        | inl here ↦
            let same : e.server_id ≡ k = (nat_key.beq_iff e.server_id k).0 here in
            subst voted same (first (rw same sound) good)
        | inr further ↦ voted_by voted faulty bytes k es backed all sound (rw further at h)
      ]

  -- Two certificates that `VerifyClusterCert` accepts for one cluster have at least
  -- 2 quorum - n common signers.
  pub common-signers :
      (topo : Topology) (cluster : ℕ) (a b : CertificateMsg) (p q : SignedPhase) (size : ℕ)
      → verify_cluster_cert c ring topo cluster a p size ≡ true
      → verify_cluster_cert c ring topo cluster b q size ≡ true
      → size + size
        ≤ length (server_ids (servers_in_cluster topo cluster))
          + length (common (signers a.sigs) (signers b.sigs))
  common-signers topo cluster a b p q size ha hb =
      let (va, sa) = (verify_cluster_cert_iff c ring topo cluster a p size).0 ha in
      let (vb, sb) = (verify_cluster_cert_iff c ring topo cluster b q size).0 hb in
      let (la, _, da) = (verify_cert_iff c ring a p size).0 va in
      let (lb, _, db) = (verify_cert_iff c ring b q size).0 vb in
      omega (
        arith,
        length-signers a.sigs,
        length-signers b.sigs,
        length-common-le (signers a.sigs) (signers b.sigs) _ da db sa sb,
      )

  -- In a cluster of 3f+1 servers of which at most f are faulty, two accepted certificates of one
  -- phase, view and sequence number are for the same digest, if a server that is not faulty votes for
  -- one digest in a phase of a sequence number and view, and the good signatures in its name in the
  -- two certificates are of votes that it cast.
  pub cert_agreement :
      (topo : Topology) (cluster : ℕ) (a b : CertificateMsg) (phase : SignedPhase) (faulty : List ℕ)
      (voted : Votes)
      → length (server_ids (servers_in_cluster topo cluster)) ≡ topo.cluster_size
      → topo.cluster_size ≡ 3 * f topo + 1
      → length faulty ≤ f topo
      → IsSingle voted faulty
      → IsUnforged voted faulty phase a
      → IsUnforged voted faulty phase b
      → verify_cluster_cert c ring topo cluster a phase (quorum topo) ≡ true
      → verify_cluster_cert c ring topo cluster b phase (quorum topo) ≡ true
      → a.seq ≡ b.seq
      → a.view ≡ b.view
      → a.digest ≡ b.digest
  unfolding quorum
  cert_agreement topo cluster a b phase faulty voted members size few single ua ub ha hb es ev =
      let (va, _) = (verify_cluster_cert_iff c ring topo cluster a phase (quorum topo)).0 ha in
      let (vb, _) = (verify_cluster_cert_iff c ring topo cluster b phase (quorum topo)).0 hb in
      let (_, sa, da) = (verify_cert_iff c ring a phase (quorum topo)).0 va in
      let (_, sb, _) = (verify_cert_iff c ring b phase (quorum topo)).0 vb in
      let overlap = common-signers topo cluster a b phase phase (quorum topo) ha hb in
      let (k, both, sound) =
        member_outside (common (signers a.sigs) (signers b.sigs)) faulty
          (common-IsDistinct (signers a.sigs) (signers b.sigs) da) (omega arith) in
      let (ka, kb) = contains-common_iff k (signers a.sigs) (signers b.sigs) both in
      let xa = voted_by _ faulty _ k a.sigs ua sa sound ka in
      let xb = voted_by _ faulty _ k b.sigs ub sb sound kb in
      single k phase a.seq a.view a.digest b.digest sound xa (rw (es, ev) xb)
