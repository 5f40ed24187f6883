-- ===== src/Pbft/Sample.antt =====
-- Values for the tests: two clusters of four servers, a crypto parameter under which the signatures
-- over one message are good, and requests and engines.
use byz_bank.Prelude.{
  ℕ, zero, suc, length, ap, ◌≡◌, refl, sym, ◌∙◌, true, false, [], ◌∷◌, none, some, arith,
  Option-cases, inl, inr,
}
use byz_bank.Prelude.Int.{pos, ◌+ℤ◌, ◌-ℤ◌}
use byz_bank.Prelude.Text.{Bytes, data_eq, data_eq_iff}
use byz_bank.Config.{
  Topology, server, cluster_of, items_per_cluster, quorum, servers_in_cluster, primary_of,
}
use byz_bank.Config.Shards.{cluster_of_iff}
use byz_bank.Prelude.Distinct.{contains}
use byz_bank.Pbft.Certificate.{verify_cert, verify_cluster_cert, server_ids}
use byz_bank.Pbft.Certificate.Agreement.{Votes, IsSingle}
use byz_bank.Pbft.Certificate.Sound.{verify_cert_iff, verify_cluster_cert_iff}
use byz_bank.Store.Sample.{sample_bolt, fresh_store}
use byz_bank.Pbft.Crypto.{Crypto, KeyRing, ring_verify, verify_by, public_key}
use byz_bank.Pbft.Messages.{Request, CertificateMsg, commit_phase, phase_signing_bytes, unset}
use byz_bank.Pbft.State.{Engine, primary}
use byz_bank.Prelude.Keys.{◌==◌, get, nat_key}

abbrev pub two_clusters : Topology
two_clusters = record {
  num_clusters = 2;
  cluster_size = 4;
  total_items = 100;
  base_port = 9000;
  host = [];
  initial_balance = pos 10;
  servers =
      server 9000 [] 0 1
      ∷ server 9000 [] 0 2
      ∷ server 9000 [] 0 3
      ∷ server 9000 [] 0 4
      ∷ server 9000 [] 1 5
      ∷ server 9000 [] 1 6
      ∷ server 9000 [] 1 7
      ∷ server 9000 [] 1 8
      ∷ [];
}

abbrev pub signed_text : Bytes
signed_text = phase_signing_bytes commit_phase (pos 1) (pos 0) (1 ∷ [])

-- The first bytes of a text, filled up with zeros.
abbrev pub sized : ℕ → Bytes → Bytes
sized zero b = []
sized (suc k) [] = 0 ∷ sized k []
sized (suc k) (x ∷ b) = x ∷ sized k b

pub length-sized : (k : ℕ) (b : Bytes) → length (sized k b) ≡ k
length-sized zero b = refl
length-sized (suc k) [] = ap suc (length-sized k [])
length-sized (suc k) (x ∷ b) = ap suc (length-sized k b)

abbrev pub one_text : Crypto
one_text = record {
  sha256 = λ b. sized 32 b;
  length-sha256 = λ b. length-sized 32 b;
  sign = λ key b. key;
  verify = λ key b sig. data_eq b signed_text;
}

abbrev pub ring_of_eight : KeyRing
ring_of_eight = record {
  self = 1;
  private_key = [];
  peers = (1, []) ∷ (2, []) ∷ (3, []) ∷ (4, []) ∷ (5, []) ∷ (6, []) ∷ (7, []) ∷ (8, []) ∷ [];
}

abbrev pub cert : CertificateMsg
cert = record {
  seq = pos 1;
  view = pos 0;
  digest = 1 ∷ [];
  sigs =
      record { server_id = 1; sig = [] }
      ∷ record { server_id = 2; sig = [] }
      ∷ record { server_id = 3; sig = [] }
      ∷ [];
}

abbrev pub payment : Request
payment = record { client_id = 65 ∷ []; ts = pos 1; x = pos 1; y = pos 60; amt = pos 4; op = unset }

abbrev pub engine_of : ℕ → ℕ → Engine sample_bolt
engine_of self cluster = record {
  self = self;
  cluster = cluster;
  topo = two_clusters;
  ring = ring_of_eight;
  store = fresh_store;
  two_pc = true;
  fault = record {
    alive = true;
    byzantine_leader = false;
    byzantine_backup = false;
    cluster_honest_live = 0;
  };
  prepare_collect = 3;
  commit_quorum = 3;
  view = pos 0;
  next_seq = pos 1;
  exec_seq = pos 1;
  log = [];
  pending_clients = [];
  view_change_timer = false;
  in_view_change = false;
  view_change_target = pos 0;
  view_change_sent = [];
  view_change_log = [];
  view_change_received = [];
  new_view_issued = [];
  new_view_log = [];
  recent_replies = [];
  client_ingress = [];
  internal_ingress = [];
  out = [];
}

-- A signature of a known server over the text is good, and one over another text is not.
pub good_signature :
    (k : ℕ) (sig : Bytes)
    → public_key ring_of_eight k ≡ some []
    → ring_verify one_text ring_of_eight k signed_text sig ≡ true
unfolding ring_verify
good_signature k sig h = rw h ((data_eq_iff signed_text signed_text).1 refl)

-- A parameter under which every signature of a known server is good.
abbrev pub any_text : Crypto
any_text = record {
  sha256 = λ b. sized 32 b;
  length-sha256 = λ b. length-sized 32 b;
  sign = λ key b. key;
  verify = λ key b sig. true;
}

abbrev pub second_cert : CertificateMsg
second_cert = record cert {
  sigs =
      record { server_id = 5; sig = [] }
      ∷ record { server_id = 6; sig = [] }
      ∷ record { server_id = 7; sig = [] }
      ∷ [];
}

pub item_1 : cluster_of two_clusters (pos 1) ≡ 1
unfolding items_per_cluster
item_1 =
    (cluster_of_iff two_clusters 0 0 (omega arith) (omega arith) (omega arith)).1
      (omega arith, omega arith)

pub item_60 : cluster_of two_clusters (pos 60) ≡ 2
unfolding items_per_cluster
item_60 =
    (cluster_of_iff two_clusters 59 1 (omega arith) (omega arith) (omega arith)).1
      (omega arith, omega arith)

pub cert-first :
    verify_cluster_cert any_text ring_of_eight two_clusters 1 cert commit_phase
      (quorum two_clusters)
    ≡ true
unfolding verify_cluster_cert contains servers_in_cluster server_ids quorum ring_verify public_key
    get
cert-first = refl

pub second_cert-second :
    verify_cluster_cert any_text ring_of_eight two_clusters 2 second_cert commit_phase
      (quorum two_clusters)
    ≡ true
unfolding verify_cluster_cert contains servers_in_cluster server_ids quorum ring_verify public_key
    get
second_cert-second = refl

pub leads-first : (primary sample_bolt (engine_of 1 1) == 1) ≡ true
unfolding primary primary_of ◌+ℤ◌ ◌-ℤ◌
leads-first = refl

pub leads-second : (primary sample_bolt (engine_of 5 2) == 5) ≡ true
unfolding primary primary_of ◌+ℤ◌ ◌-ℤ◌
leads-second = refl

pub cert_verifies : verify_cert one_text ring_of_eight cert commit_phase 3 ≡ true
unfolding contains public_key get
cert_verifies = (verify_cert_iff one_text ring_of_eight cert commit_phase 3).1 (
  omega arith,
  (good_signature 1 [] refl, (good_signature 2 [] refl, (good_signature 3 [] refl, tt))),
  (refl, (refl, (refl, tt))),
)

pub cluster_cert_verifies :
    verify_cluster_cert one_text ring_of_eight two_clusters 1 cert commit_phase 3 ≡ true
unfolding contains servers_in_cluster server_ids
cluster_cert_verifies =
    (verify_cluster_cert_iff one_text ring_of_eight two_clusters 1 cert commit_phase 3).1
      (cert_verifies, (refl, (refl, (refl, tt))))

no_key :
    (k : ℕ) (b sig : Bytes)
    → ring_verify one_text ring_of_eight k b sig ≡ true
    → public_key ring_of_eight k ≡ none
    → ⊥
unfolding ring_verify
no_key k b sig h e =
    let same : verify_by one_text (public_key ring_of_eight k) b sig ≡ false = rw e in cc (h, same)

some_key :
    (k : ℕ) (b sig key : Bytes)
    → ring_verify one_text ring_of_eight k b sig ≡ true
    → public_key ring_of_eight k ≡ some key
    → data_eq b signed_text ≡ true
unfolding ring_verify
some_key k b sig key h e =
    let same : verify_by one_text (public_key ring_of_eight k) b sig ≡ data_eq b signed_text =
      rw e in
    sym same ∙ h

-- Under the sample parameter every good signature is over the one text.
pub signed_only :
    (k : ℕ) (b sig : Bytes) → ring_verify one_text ring_of_eight k b sig ≡ true → b ≡ signed_text
unfolding ring_verify
signed_only k b sig h = elim (Option-cases (public_key ring_of_eight k)) [
  | inl e ↦ absurd (no_key k b sig h e)
  | inr (key, e) ↦ (data_eq_iff b signed_text).0 (some_key k b sig key h e)
]

-- Every vote is for the digest of the sample certificate.
abbrev pub one_digest : Votes
one_digest k phase seq view d = d ≡ cert.digest

pub one_digest-IsSingle : IsSingle one_digest []
one_digest-IsSingle k phase seq view d e sound h h' = h ∙ sym h'

abbrev pub other_cert : CertificateMsg
other_cert = record cert {
  sigs =
      record { server_id = 4; sig = [] }
      ∷ record { server_id = 2; sig = [] }
      ∷ record { server_id = 3; sig = [] }
      ∷ [];
}

pub other_cert_verifies :
    verify_cluster_cert one_text ring_of_eight two_clusters 1 other_cert commit_phase 3 ≡ true
unfolding contains servers_in_cluster server_ids public_key get
other_cert_verifies =
    (verify_cluster_cert_iff one_text ring_of_eight two_clusters 1 other_cert commit_phase 3).1 (
      (verify_cert_iff one_text ring_of_eight other_cert commit_phase 3).1 (
        omega arith,
        (good_signature 4 [] refl, (good_signature 2 [] refl, (good_signature 3 [] refl, tt))),
        (refl, (refl, (refl, tt))),
      ),
      (refl, (refl, (refl, tt))),
    )

pub other_cert-first :
    verify_cluster_cert any_text ring_of_eight two_clusters 1 other_cert commit_phase
      (quorum two_clusters)
    ≡ true
unfolding verify_cluster_cert contains servers_in_cluster server_ids quorum ring_verify public_key
    get
other_cert-first = refl
