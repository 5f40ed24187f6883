-- ===== src/Pbft/Certificate/Tests.antt =====
-- Runs of the certificate checks of internal/pbft/engine.go and internal/twopc/cert.go.
use byz_bank.Prelude.{ℕ, ◌≤◌, ◌≡◌, refl, ◌↔◌, true, [], ◌∷◌, some, length, arith}
use byz_bank.Prelude.Int.{pos}
use byz_bank.Prelude.Keys.{GoMap, get, nat_key}
use byz_bank.Prelude.Distinct.{contains, IsDistinct}
use byz_bank.Prelude.Text.{Bytes}
use byz_bank.Config.{servers_in_cluster, quorum, f}
use byz_bank.Pbft.Crypto.{public_key}
use byz_bank.Pbft.Messages.{CertificateMsg, commit_phase, phase_signing_bytes}
use byz_bank.Pbft.Signing.{phase_signing_bytes-injective}
use byz_bank.Pbft.Certificate.{build_cert, verify_cert, server_ids}
use byz_bank.Pbft.Certificate.Sound.{signers, AllSigned, verify_cert_iff}
use byz_bank.Pbft.Certificate.Build.{IsCollected, IsSorted, verify_cert-build_cert}
use byz_bank.Pbft.Certificate.Agreement.{cert_agreement}
use byz_bank.Pbft.Sample.{
  one_digest, one_digest-IsSingle, other_cert, other_cert-first, cert-first, any_text, two_clusters,
  signed_text, one_text, ring_of_eight, cert, good_signature,
}

verify_cert_iff_example : (verify_cert one_text ring_of_eight cert commit_phase 3 ≡ true) ↔ (
    (3 ≤ length cert.sigs)
    × AllSigned one_text ring_of_eight
        (phase_signing_bytes commit_phase cert.seq cert.view cert.digest)
        cert.sigs
    × IsDistinct (signers cert.sigs))
verify_cert_iff_example = verify_cert_iff one_text ring_of_eight cert commit_phase 3

cert_agreement_example : cert.digest ≡ other_cert.digest
unfolding servers_in_cluster server_ids f quorum
cert_agreement_example =
    cert_agreement any_text ring_of_eight two_clusters 1 cert other_cert commit_phase [] one_digest
      refl refl (omega arith) one_digest-IsSingle (λ _ _. refl, (λ _ _. refl, (λ _ _. refl, tt)))
      (λ _ _. refl, (λ _ _. refl, (λ _ _. refl, tt))) cert-first other_cert-first refl refl

abbrev votes : GoMap ℕ Bytes
votes = (3, []) ∷ (1, []) ∷ (2, []) ∷ []

votes-IsCollected : IsCollected one_text ring_of_eight signed_text votes
unfolding contains public_key get
votes-IsCollected = record {
  distinct = (refl, (refl, (refl, tt)));
  signed = (good_signature 3 [] refl, (good_signature 1 [] refl, (good_signature 2 [] refl, tt)));
}

verify_cert-build_cert_example :
    (made : CertificateMsg) × (build_cert votes 3 (pos 1) (pos 0) (1 ∷ []) ≡ some made)
    × (verify_cert one_text ring_of_eight made commit_phase 3 ≡ true)
    × IsSorted made.sigs
verify_cert-build_cert_example =
    verify_cert-build_cert one_text ring_of_eight votes commit_phase 3 (pos 1) (pos 0) (1 ∷ [])
      votes-IsCollected (omega arith)

phase_signing_bytes-injective_example :
    (commit_phase ≡ commit_phase) × (pos 1 ≡ pos 1) × (pos 0 ≡ pos 0) × (cert.digest ≡ cert.digest)
phase_signing_bytes-injective_example =
    phase_signing_bytes-injective commit_phase commit_phase (pos 1) (pos 1) (pos 0) (pos 0) (1 ∷ [])
      (1 ∷ []) refl
