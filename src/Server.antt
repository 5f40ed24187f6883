-- ===== src/Server.antt =====
-- internal/server/replica.go: the dispatch of inbound envelopes by type, and the reset before a test set.
pub mod Reset
mod Tests
use byz_bank.Prelude.{ℕ, Bool, true, false, not, List, [], ◌∷◌, ◌++◌, if◌then◌else◌}
use byz_bank.Prelude.Keys.{◌==◌, nat_key}
use byz_bank.Prelude.Text.{Bytes}
use byz_bank.Config.{Server}
use byz_bank.Store.Bbolt.{Bolt}
use byz_bank.Store.{clear_locks_and_wal}
use byz_bank.Pbft.Crypto.{Crypto}
use byz_bank.Pbft.State.{Engine}
use byz_bank.Pbft.Control.{reset_consensus}
use byz_bank.Twopc.Node.{Node}
use byz_bank.Twopc.Coordinator
use byz_bank.Transport.{MessageType, ping, pong, is_2pc, is_pbft}

-- What `dispatch` does with an envelope.
pub data Route : Type 0 where
  to_pbft answer_ping note_pong to_2pc drop_unknown : Route

unfoldable pub route : MessageType → Route
unfolding is_pbft is_2pc
route type = if is_pbft type then to_pbft else elim type [
  | ping ↦ answer_ping
  | pong ↦ note_pong
  | other ↦ if is_2pc other then to_2pc else drop_unknown
]

-- `BroadcastCluster`: the peers that the envelope is sent to, up to the first that fails, and whether there
-- is no error.
unfoldable pub broadcast_peers : ℕ → (ℕ → Bool) → List Server → List ℕ × Bool
broadcast_peers self reachable [] = ([], true)
broadcast_peers self reachable (srv ∷ servers) =
    let (rest, done) = broadcast_peers self reachable servers in
    if srv.id == self
    then (rest, done)
    else if not (reachable srv.id)
    then (srv.id ∷ [], false)
    else (srv.id ∷ rest, done)

module _ (db : Bolt) (c : Crypto) where
  -- `ResetConsensus` of a replica, with an engine, a store and both helpers.
  unfoldable pub reset_replica : Node db → Node db
  unfolding Coordinator.reset
  reset_replica n =
      let e = reset_consensus db c n.engine in
      Coordinator.reset db c
        (record n { engine = record e { store = clear_locks_and_wal db e.store } })
