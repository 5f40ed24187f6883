-- ===== src/Pbft/Certificate/Sound.antt =====
-- What it means that a certificate is accepted, for `verifyCert` of internal/pbft/engine.go and
-- `VerifyClusterCert` of internal/twopc/cert.go.
use byz_bank.Prelude.{ℕ, ◌≤◌, ◌≡◌, refl, ◌↔◌, true, false, List, [], ◌∷◌, arith, length, All}
use byz_bank.Prelude.Keys.{nat_key}
use byz_bank.Prelude.Distinct.{contains, IsDistinct, Subset}
use byz_bank.Prelude.Text.{Bytes}
use byz_bank.Config.{Topology, servers_in_cluster}
use byz_bank.Pbft.Crypto.{Crypto, KeyRing, ring_verify}
use byz_bank.Pbft.Messages.{SigEntry, CertificateMsg, SignedPhase, phase_signing_bytes}
use byz_bank.Pbft.Certificate.{
  verify_entries, verify_cert, verify_member_entries, verify_cluster_cert, server_ids,
}

-- The ids of the signers of a certificate.
abbrev pub signers : List SigEntry → List ℕ
signers [] = []
signers (e ∷ es) = e.server_id ∷ signers es

abbrev pub Unseen : List ℕ → List ℕ → Type 0
Unseen [] seen = Unit {0}
Unseen (x ∷ xs) seen = (contains x seen ≡ false) × Unseen xs seen

Unseen-cons :
    (k : ℕ) (xs seen : List ℕ) → (contains k xs ≡ false) × Unseen xs seen ↔ Unseen xs (k ∷ seen)
unfolding contains
Unseen-cons k [] seen = (λ _. tt, λ _. (refl, tt))
Unseen-cons k (x ∷ xs) seen = ground (arith, Unseen-cons k xs seen)

Unseen-nil : (xs : List ℕ) → Unseen xs []
unfolding contains
Unseen-nil [] = tt
Unseen-nil (x ∷ xs) = (refl, Unseen-nil xs)

module _ (c : Crypto) (ring : KeyRing) where
  -- Every entry is a signature of its signer over the bytes.
  abbrev pub AllSigned : Bytes → List SigEntry → Type 0
  AllSigned bytes es = All (λ e. ring_verify c ring e.server_id bytes e.sig ≡ true) es

  verify_entries_iff :
      (bytes : Bytes) (seen : List ℕ) (es : List SigEntry)
      → (verify_entries c ring bytes seen es ≡ true)
        ↔ (AllSigned bytes es × IsDistinct (signers es) × Unseen (signers es) seen)
  unfolding verify_entries
  verify_entries_iff bytes seen [] = (λ _. (tt, tt, tt), λ _. refl)
  verify_entries_iff bytes seen (e ∷ es) = ground (
    arith,
    verify_entries_iff bytes (e.server_id ∷ seen) es,
    Unseen-cons e.server_id (signers es) seen,
  )

  -- `verifyCert` accepts exactly the certificates of at least `quorum` signatures that are all valid
  -- and come from different servers that the ring knows.
  pub verify_cert_iff :
      (cert : CertificateMsg) (phase : SignedPhase) (quorum : ℕ)
      → (verify_cert c ring cert phase quorum ≡ true) ↔ (
          (quorum ≤ length cert.sigs)
          × AllSigned (phase_signing_bytes phase cert.seq cert.view cert.digest) cert.sigs
          × IsDistinct (signers cert.sigs))
  unfolding verify_cert
  verify_cert_iff cert phase quorum = ground (
    arith,
    verify_entries_iff (phase_signing_bytes phase cert.seq cert.view cert.digest) [] cert.sigs,
    Unseen-nil (signers cert.sigs),
  )

  verify_member_entries_eq :
      (allowed : List ℕ) (bytes : Bytes) (seen : List ℕ) (es : List SigEntry)
      → (verify_member_entries c ring allowed bytes seen es ≡ true)
        ↔ ((verify_entries c ring bytes seen es ≡ true) × Subset (signers es) allowed)
  unfolding verify_member_entries verify_entries
  verify_member_entries_eq allowed bytes seen [] = (λ _. (refl, tt), λ _. refl)
  verify_member_entries_eq allowed bytes seen (e ∷ es) =
      ground (arith, verify_member_entries_eq allowed bytes (e.server_id ∷ seen) es)

  -- `VerifyClusterCert` accepts what `verifyCert` accepts, of signers of the cluster alone.
  pub verify_cluster_cert_iff :
      (topo : Topology) (cluster : ℕ) (cert : CertificateMsg) (phase : SignedPhase) (quorum : ℕ)
      → (verify_cluster_cert c ring topo cluster cert phase quorum ≡ true) ↔ (
          (verify_cert c ring cert phase quorum ≡ true)
          × Subset (signers cert.sigs) (server_ids (servers_in_cluster topo cluster)))
  unfolding verify_cluster_cert verify_cert
  verify_cluster_cert_iff topo cluster cert phase quorum = ground (
    arith,
    verify_member_entries_eq (server_ids (servers_in_cluster topo cluster))
        (phase_signing_bytes phase cert.seq cert.view cert.digest) [] cert.sigs,
  )
