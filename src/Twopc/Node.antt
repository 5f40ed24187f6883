-- ===== src/Twopc/Node.antt =====
-- One replica with its engine and its two-phase commit helpers, `Coordinator` and `Participant` of
-- internal/twopc, which share the engine and its store. `sent` lists the envelopes that went out.
use byz_bank.Prelude.{ℕ, Bool, false, not, List, [], ◌∷◌, ◌++◌, Option, none, some, if◌then◌else◌}
use byz_bank.Prelude.Int.{ℤ}
use byz_bank.Prelude.Keys.{◌==◌, GoMap, get, nat_key}
use byz_bank.Prelude.Text.{Bytes, bytes_key}
use byz_bank.Config.{Server, servers_in_cluster}
use byz_bank.Store.Bbolt.{Bolt}
use byz_bank.Store.{Store, is_locked}
use byz_bank.Pbft.State.{Engine, primary}
use byz_bank.Pbft.Validate.{await}
use byz_bank.Twopc.Messages.{Envelope, ParticipantReplyMsg}

module _ (db : Bolt) where
  pub record Node : Type 0 where
    pub engine : Engine db
    -- the coordinator's
    pub commit_started : GoMap Bytes Bool
    pub commit_phase_disabled : Bool
    pub cross_busy : Bool
    pub certs : List ParticipantReplyMsg
    pub acks : GoMap Bytes (GoMap ℕ (Unit {0}))
    -- whether `Send` to a server returns no error
    pub reachable : ℕ → Bool
    pub sent : List (ℕ × Envelope)

  -- `NewCoordinator` and `NewParticipant` over one engine.
  unfoldable pub new_node : Engine db → Bool → (ℕ → Bool) → Node
  new_node e commit_phase_disabled reachable = record {
    engine = e;
    commit_started = [];
    commit_phase_disabled = commit_phase_disabled;
    cross_busy = false;
    certs = [];
    acks = [];
    reachable = reachable;
    sent = [];
  }

  -- Both helpers ask the topology for the primary of their cluster in the engine's view.
  unfoldable pub is_primary : Node → Bool
  is_primary n = n.engine.self == primary db n.engine

  unfoldable pub with_engine : (Engine db → Engine db) → Node → Node
  with_engine f n = record n { engine = f n.engine }

  -- The loop of `SendToCluster`: the server itself is passed over, and an error ends it.
  unfoldable pub recipients : ℕ → (ℕ → Bool) → Envelope → List Server → List (ℕ × Envelope)
  recipients self reachable env [] = []
  recipients self reachable env (srv ∷ servers) =
      let rest = recipients self reachable env servers in
      if srv.id == self then rest else if reachable srv.id then (srv.id, env) ∷ rest else []

  unfoldable pub send_to_cluster : ℕ → Envelope → Node → Node
  unfolding recipients
  send_to_cluster cluster env n = record n {
    sent =
        n.sent
        ++ recipients n.engine.self n.reachable env (servers_in_cluster n.engine.topo cluster);
  }

  -- `c.commitStarted[key]`
  abbrev pub is_set : Option Bool → Bool
  is_set none = false
  is_set (some b) = b

  unfoldable pub is_started : Bytes → Node → Bool
  is_started key n = is_set (get key n.commit_started)

  -- `waitItemUnlocked`
  unfoldable pub wait_item_unlocked : List (Store db) → ℤ → Store db → Bool × Store db
  wait_item_unlocked polls item s = await db (λ s'. not (is_locked db s' item)) polls s
