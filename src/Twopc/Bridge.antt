-- ===== src/Twopc/Bridge.antt =====
-- internal/twopc/bridge.go and `handle2PC` of internal/server/replica.go: the calls of the engine's
-- hooks and the envelopes from other clusters, as they reach the two helpers. A replica has both.
use byz_bank.Prelude.{ℕ, Bool, List}
use byz_bank.Store.Bbolt.{Bolt}
use byz_bank.Store.{Store}
use byz_bank.Pbft.Crypto.{Crypto}
use byz_bank.Pbft.State.{
  Event, handled_client_request, cross_prepare_dropped, coord_prepare_executed,
  part_prepare_executed, coord_commit_executed, part_commit_executed,
}
use byz_bank.Twopc.Messages.{Envelope, prepare, prepared, commit, ack}
use byz_bank.Twopc.Node.{Node}
use byz_bank.Twopc.Coordinator.{
  handle_client_request, release_cross_slot, on_coord_prepare_executed, on_coord_commit_executed,
  handle_participant_reply, handle_participant_ack,
}
use byz_bank.Twopc.Participant.{
  on_part_prepare_executed, on_part_commit_executed, handle_prepare, handle_commit,
}

module _ (db : Bolt) (c : Crypto) where
  unfoldable pub call_bridge : List Bool → List (Store db) → Event → Node db → Node db
  call_bridge readings stores (handled_client_request r) n =
      handle_client_request db c readings stores r n
  call_bridge readings stores (cross_prepare_dropped r) n = release_cross_slot db c n
  call_bridge readings stores (coord_prepare_executed r seq cert) n =
      on_coord_prepare_executed db c r seq cert n
  call_bridge readings stores (part_prepare_executed r seq cert outcome) n =
      on_part_prepare_executed db c r seq cert outcome n
  call_bridge readings stores (coord_commit_executed r seq cert outcome) n =
      on_coord_commit_executed db c r seq cert outcome n
  call_bridge readings stores (part_commit_executed r seq cert outcome) n =
      on_part_commit_executed db c r seq cert outcome n
  call_bridge readings stores _ n = n

  unfoldable pub handle_2pc : List (Store db) → ℕ → Envelope → Node db → Node db
  handle_2pc stores from (prepare msg) n = handle_prepare db c stores msg n
  handle_2pc stores from (prepared reply) n = handle_participant_reply db c stores reply n
  handle_2pc stores from (commit msg) n = handle_commit db c stores msg n
  handle_2pc stores from (ack msg) n = handle_participant_ack db c from msg n
