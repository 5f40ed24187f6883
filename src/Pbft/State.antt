-- ===== src/Pbft/State.antt =====
-- The state of one replica's engine, `Engine` and `seqState` of internal/pbft/engine.go, and what it
-- sends. A function of the engine takes the state and returns the next one; the messages, replies
-- and calls of the cross-shard hooks that it makes are appended to `out`, in order.
use byz_bank.Prelude.{ℕ, Bool, true, false, List, [], ◌∷◌, ◌++◌, Option, none, some}
use byz_bank.Prelude.Int.{ℤ, pos, int_key}
use byz_bank.Prelude.Keys.{GoMap, get, put}
use byz_bank.Prelude.Text.{Bytes}
use byz_bank.Config.{Server, Topology, server_by_id, primary_of, quorum}
use byz_bank.Store.Bbolt.{Bolt}
use byz_bank.Store.Types.{Outcome}
use byz_bank.Store.{Store}
use byz_bank.Pbft.Crypto.{KeyRing}
use byz_bank.Pbft.Messages.{
  Request, Reply, PrePrepareMsg, PhaseMsg, CertificateMsg, DiscardSeqMsg, ViewChangeMsg, NewViewMsg,
  unset,
}

-- `FaultConfig` of internal/pbft/fault.go.
pub record FaultConfig : Type 0 where
  pub alive : Bool
  pub byzantine_leader : Bool
  pub byzantine_backup : Bool
  pub cluster_honest_live : ℕ

pub record SeqState : Type 0 where
  pub digest : Bytes
  pub req : Request
  pub pre_prepare : Bool
  pub discarded : Bool
  pub prepares : GoMap ℕ Bytes
  pub prepare_cert : Option CertificateMsg
  pub commits : GoMap ℕ Bytes
  pub commit_cert : Option CertificateMsg
  pub executed : Bool

pub data Event : Type 0 where
  broadcast_pre_prepare : PrePrepareMsg → Event
  -- the receiver, the message and its signature
  sent_prepare sent_commit : ℕ → PhaseMsg → Bytes → Event
  broadcast_prepare_cert broadcast_commit_cert : CertificateMsg → Event
  broadcast_discard_seq : DiscardSeqMsg → Event
  broadcast_view_change : ViewChangeMsg → Event
  broadcast_new_view : NewViewMsg → Event
  client_reply : Reply → Event
  watched_prepare_quorum : ℤ → Request → Event
  -- the calls of `CrossShardHooks`
  handled_client_request cross_prepare_dropped : Request → Event
  coord_prepare_executed : Request → ℤ → CertificateMsg → Event
  part_prepare_executed coord_commit_executed part_commit_executed :
      Request → ℤ → CertificateMsg → Outcome → Event

abbrev pub empty_request : Request
empty_request = record { client_id = []; ts = pos 0; x = pos 0; y = pos 0; amt = pos 0; op = unset }

-- The slot that `ensureSeqLocked` makes.
abbrev pub empty_seq_state : SeqState
empty_seq_state = record {
  digest = [];
  req = empty_request;
  pre_prepare = false;
  discarded = false;
  prepares = [];
  prepare_cert = none;
  commits = [];
  commit_cert = none;
  executed = false;
}

module _ (db : Bolt) where
  pub record Engine : Type 0 where
    pub self : ℕ
    pub cluster : ℕ
    pub topo : Topology
    pub ring : KeyRing
    pub store : Store db
    -- whether `crossShard` is set
    pub two_pc : Bool
    pub fault : FaultConfig
    pub prepare_collect : ℕ
    pub commit_quorum : ℕ
    pub view : ℤ
    pub next_seq : ℤ
    pub exec_seq : ℤ
    pub log : GoMap ℤ SeqState
    pub pending_clients : GoMap Bytes Request
    pub view_change_timer : Bool
    pub in_view_change : Bool
    pub view_change_target : ℤ
    pub view_change_sent : GoMap ℤ Bool
    pub view_change_log : GoMap ℤ (GoMap ℕ ViewChangeMsg)
    pub view_change_received : List ViewChangeMsg
    pub new_view_issued : GoMap ℤ Bool
    pub new_view_log : List NewViewMsg
    pub recent_replies : GoMap Bytes Reply
    -- the two channels of the primary's ingress loop
    pub client_ingress : List Request
    pub internal_ingress : List Request
    pub out : List Event

  -- The engine that `NewEngine` makes of a server of the topology, with the hooks and the default
  -- fault configuration.
  abbrev pub engine_for : Server → Topology → KeyRing → Store db → Bool → Engine
  engine_for srv topo ring store two_pc = record {
    self = srv.id;
    cluster = srv.cluster;
    topo = topo;
    ring = ring;
    store = store;
    two_pc = two_pc;
    fault = record {
      alive = true;
      byzantine_leader = false;
      byzantine_backup = false;
      cluster_honest_live = 0;
    };
    prepare_collect = quorum topo;
    commit_quorum = quorum topo;
    view = pos 0;
    next_seq = pos 1;
    exec_seq = pos 1;
    log = [];
    pending_clients = [];
    view_change_timer = false;
    in_view_change = false;
    view_change_target = pos 0;
    view_change_sent = [];
    view_change_log = [];
    view_change_received = [];
    new_view_issued = [];
    new_view_log = [];
    recent_replies = [];
    client_ingress = [];
    internal_ingress = [];
    out = [];
  }

  -- `NewEngine`: a server that the topology does not have is an error.
  unfoldable pub new_engine : ℕ → Topology → KeyRing → Store db → Bool → Option Engine
  new_engine self topo ring store two_pc = elim (server_by_id topo self) [
    | none ↦ none
    | some srv ↦ some (engine_for srv topo ring store two_pc)
  ]

  -- `sender.Primary()`: the sender's view is kept equal to the engine's.
  unfoldable pub primary : Engine → ℕ
  primary e = primary_of e.topo e.cluster e.view

  abbrev pub emit : Event → Engine → Engine
  emit ev e = record e { out = e.out ++ (ev ∷ []) }

  abbrev pub set_slot : ℤ → SeqState → Engine → Engine
  set_slot seq st e = record e { log = put seq st e.log }

abbrev pub slot_or_empty : Option SeqState → SeqState
slot_or_empty none = empty_seq_state
slot_or_empty (some st) = st

-- `ensureSeqLocked`: the slot, which is made if it is missing.
unfoldable pub ensure_seq : ℤ → GoMap ℤ SeqState → SeqState
ensure_seq seq log = slot_or_empty (get seq log)
