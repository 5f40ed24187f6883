-- ===== src/Pbft/Certificate.antt =====
-- Quorum certificates: `buildCertLocked` and `verifyCert` of internal/pbft/engine.go, and
-- `VerifyClusterCert` of internal/twopc/cert.go.
pub mod Sound
pub mod Build
pub mod Agreement
mod Tests
use byz_bank.Prelude.{
  ℕ, zero, suc, Bool, true, false, not, ◌&&◌, List, [], ◌∷◌, Option, none, some, ltb, if◌then◌else◌,
  length,
}
use byz_bank.Prelude.Int.{ℤ}
use byz_bank.Prelude.Keys.{GoMap}
use byz_bank.Prelude.Distinct.{contains}
use byz_bank.Prelude.Text.{Bytes}
use byz_bank.Config.{Topology, Server, servers_in_cluster}
use byz_bank.Pbft.Crypto.{Crypto, KeyRing, ring_verify}
use byz_bank.Pbft.Messages.{SigEntry, CertificateMsg, SignedPhase, phase_signing_bytes}

-- The entries that `buildCertLocked` collects from the map.
unfoldable pub sig_entries : GoMap ℕ Bytes → List SigEntry
sig_entries [] = []
sig_entries ((id, sig) ∷ m) = record { server_id = id; sig = sig } ∷ sig_entries m

-- The inner loop of its sort: the entry at place i is exchanged with each later one that has a
-- smaller id. The result is the entry that ends at place i, and those behind it.
unfoldable pub exchange : SigEntry → List SigEntry → SigEntry × List SigEntry
exchange a [] = (a, [])
exchange a (b ∷ bs) =
    let swap = ltb b.server_id a.server_id in
    let (m, rest) = exchange (if swap then b else a) bs in (m, (if swap then a else b) ∷ rest)

-- The outer loop, with the number of places that are left.
unfoldable pub sort_entries : ℕ → List SigEntry → List SigEntry
unfolding exchange
sort_entries zero es = es
sort_entries (suc n) [] = []
sort_entries (suc n) (a ∷ es) = let (m, rest) = exchange a es in m ∷ sort_entries n rest

unfoldable pub build_cert : GoMap ℕ Bytes → ℕ → ℤ → ℤ → Bytes → Option CertificateMsg
unfolding sig_entries sort_entries
build_cert src quorum seq view digest =
    let entries = sig_entries src in
    let sorted = sort_entries (length entries) entries in
    if ltb (length sorted) quorum
    then none
    else some (record { seq = seq; view = view; digest = digest; sigs = sorted })

-- The ids of the servers of a list.
unfoldable pub server_ids : List Server → List ℕ
server_ids [] = []
server_ids (s ∷ ss) = s.id ∷ server_ids ss

module _ (c : Crypto) (ring : KeyRing) where
  -- The loop of `verifyCert`; `seen` are the ids that it has met.
  unfoldable pub verify_entries : Bytes → List ℕ → List SigEntry → Bool
  verify_entries bytes seen [] = true
  verify_entries bytes seen (ent ∷ rest) =
      not (contains ent.server_id seen)
      && ring_verify c ring ent.server_id bytes ent.sig
      && verify_entries bytes (ent.server_id ∷ seen) rest

  unfoldable pub verify_cert : CertificateMsg → SignedPhase → ℕ → Bool
  unfolding verify_entries
  verify_cert cert phase quorum =
      if ltb (length cert.sigs) quorum
      then false
      else verify_entries (phase_signing_bytes phase cert.seq cert.view cert.digest) [] cert.sigs

  -- The loop of `VerifyClusterCert`, which first asks whether the signer is a member.
  unfoldable pub verify_member_entries : List ℕ → Bytes → List ℕ → List SigEntry → Bool
  verify_member_entries allowed bytes seen [] = true
  verify_member_entries allowed bytes seen (ent ∷ rest) =
      contains ent.server_id allowed
      && not (contains ent.server_id seen)
      && ring_verify c ring ent.server_id bytes ent.sig
      && verify_member_entries allowed bytes (ent.server_id ∷ seen) rest

  unfoldable pub verify_cluster_cert : Topology → ℕ → CertificateMsg → SignedPhase → ℕ → Bool
  unfolding verify_member_entries
  verify_cluster_cert topo cluster cert phase quorum =
      if ltb (length cert.sigs) quorum
      then false
      else verify_member_entries (server_ids (servers_in_cluster topo cluster))
          (phase_signing_bytes phase cert.seq cert.view cert.digest) [] cert.sigs
