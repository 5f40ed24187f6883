-- ===== src/Lib.antt =====
-- A model of ByzBank: a bank sharded over clusters of replicas. Each cluster orders its operations by
-- linear PBFT, and a transfer between two clusters runs two-phase commit on top, every phase of it
-- one instance of PBFT in either cluster. Paths are from the repository's root.
--
-- The parts, and the files that model them:
-- * Config (ByzBank/internal/config/topology.go): servers, clusters, the shard map, primaries and
--   quorums. Config/Quorum, Config/Shards and Config/Members hold the theorems.
-- * Store (ByzBank/internal/store/store.go and types.go): one replica's balances, locks, datastore,
--   write-ahead log and client timestamps. Store/Bbolt is the database as a parameter, a bucket of
--   keys in byte order with the laws that bbolt documents, for the keys that `Put` takes. Store/Codec has the keys and the numbers
--   as bytes. Store/Balances, Store/Ledger and Store/Frame say what each operation changes, and
--   Store/Abstract does so for a bank of functions, without buckets and bytes. Store/Order,
--   Store/Unique, Store/Rows and Store/Log are about the order of the datastore. Store/Snapshot is
--   snapshot.go.
-- * Pbft (ByzBank/internal/pbft): one replica's engine as explicit state passing. Pbft/Crypto is
--   the key ring of ByzBank/internal/crypto/keys.go over sha256 and ed25519 as a parameter;
--   Pbft/Messages and Pbft/Signing are messages.go; Pbft/Certificate is buildCertLocked,
--   verifyCert and VerifyClusterCert; Pbft/State, Locks, Validate, Start, Phases, Discard and
--   Execute are engine.go, one function for each handler under its name in lower case, and
--   Pbft/Handle is their dispatch. Pbft/NewView is what the two messages of the view change hold and
--   Pbft/ViewChange how they are handled, both viewchange.go. What a handler sends, and its calls of
--   the cross-shard hooks, are appended to `out`. Pbft/Safety has the invariant of the log and the runs
--   of a replica in one view. Pbft/Execute/Bank says what each operation means for the bank.
--   Pbft/Control has the calls of the server (engine.go and debug.go), Pbft/Client is client.go, and
--   Pbft/Digests says which requests share a digest text.
-- * Twopc (ByzBank/internal/twopc): the coordinator and the participant of a replica over its engine.
--   Twopc/Collect has the collectors, Twopc/Node the state, Twopc/Coordinator and Twopc/Participant
--   the handlers, and Twopc/Bridge the calls of the hooks and the dispatch of envelopes.
-- * Transport (ByzBank/internal/transport/types.go and hub.go): envelopes, their signatures and the queue
--   of the hub. Server (ByzBank/internal/server/replica.go): the dispatch of envelopes by type and the
--   reset of a replica.
-- * Smallbank (ByzBank/internal/smallbank): the layout of customers on items (schema.go), the
--   transactions (Smallbank/Txns, txns.go), the picker of customers (Smallbank/Picker, skew.go),
--   how the driver collects results (Smallbank/Results, driver.go) and the conservation check of
--   invariant.go.
-- * Testcase (ByzBank/internal/testcase): the parser of test files (Testcase/Parse and Testcase/Sets,
--   parse.go), the fault settings of runner.go and the comparison with an oracle (oracle.go).
-- * The helpers of Prelude: tests, lists, 64-bit arithmetic over ℤ, association lists for Go's
--   maps, and texts.
--
-- Numbers: a Go int64 is a ℤ with the wrap-around of `+64` and `-64` written out; server and cluster
-- ids, sizes and quorums are ℕ, and 0 stands for every id below 1.
--
-- Concurrency: a method that runs under a mutex is one step. A loop that polls takes the stores, or the
-- readings, that it meets as a list, since other goroutines change them; a goroutine that retries is
-- one function per round and one for its deadline. The ingress channels are lists without a bound,
-- where Go blocks the sender at 512. `DrainExecute` takes what other goroutines do around each of its
-- rounds. `tryExecute` is one step, though it runs operations outside the mutex: that two goroutines
-- are in it at once is not modelled.
--
-- Fuel: `try_execute` has one round more than the log has slots, and Pbft/Execute/Loop shows that this
-- is enough. The printing of a number n has fuel n + 1.
--
-- The view change: `triggerViewChange` and `onViewChange` call each other. The model leaves out the call
-- that a replica's vote for its own view would make, since that vote is marked as sent before; and the
-- maps that Go ranges over are met in the order of the list.
--
-- Not modelled: the connections of the transport, the HTTP server, the network client, the runner of
-- test sets, and of the benchmark the driver's workload loop and the metrics; errors of the disk and
-- of JSON coding, which stands for its value. Send errors are kept only as the set of servers that can
-- be reached. An outcome is one of two values where Go has an open string, so that a message with a
-- third text is not modelled, and a missing digest is the same as an empty one.
pub mod Prelude
pub mod Config
pub mod Store
pub mod Pbft
pub mod Twopc
pub mod Smallbank
pub mod Testcase
pub mod Transport
pub mod Server
