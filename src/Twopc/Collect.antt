-- ===== src/Twopc/Collect.antt =====
-- internal/twopc/collector.go and ack_collector.go: the participant's replies and acks, as the
-- coordinator keeps them.
use byz_bank.Prelude.{
  ℕ, Bool, true, false, ◌&&◌, ◌||◌, List, [], ◌∷◌, ◌++◌, Option, none, some, if◌then◌else◌, length,
}
use byz_bank.Prelude.Int.{int_key}
use byz_bank.Prelude.Keys.{◌==◌, GoMap, get, put, nat_key}
use byz_bank.Prelude.Text.{Bytes, bytes_key}
use byz_bank.Store.Types.{Outcome, committed, aborted}
use byz_bank.Pbft.Crypto.{Crypto}
use byz_bank.Pbft.Messages.{Request, txn_id}
use byz_bank.Twopc.Messages.{ParticipantReplyMsg}

unfoldable pub same_client_txn : Request → Request → Bool
same_client_txn a b =
    (a.client_id == b.client_id)
    && (a.ts == b.ts)
    && (a.x == b.x)
    && (a.y == b.y)
    && (a.amt == b.amt)

abbrev pub same_outcome : Outcome → Outcome → Bool
same_outcome committed committed = true
same_outcome aborted aborted = true
same_outcome _ _ = false

-- `PreparedCollector.Has`
unfoldable pub has_reply : Request → List ParticipantReplyMsg → Bool
has_reply r [] = false
has_reply r (m ∷ certs) = same_client_txn m.req r || has_reply r certs

-- `PreparedCollector.Record`
unfoldable pub record_reply :
    ParticipantReplyMsg → List ParticipantReplyMsg → List ParticipantReplyMsg
record_reply m certs = certs ++ (m ∷ [])

-- `PreparedCollector.Matching`
unfoldable pub matching : Request → Outcome → List ParticipantReplyMsg → List ParticipantReplyMsg
matching r outcome [] = []
matching r outcome (m ∷ certs) =
    let rest = matching r outcome certs in
    if same_client_txn m.req r && same_outcome m.outcome outcome then m ∷ rest else rest

-- The acks of a transaction, a set of servers, that are empty where the map has none.
abbrev pub acks_or_empty : Option (GoMap ℕ (Unit {0})) → GoMap ℕ (Unit {0})
acks_or_empty none = []
acks_or_empty (some m) = m

module _ (c : Crypto) where
  -- `AckCollector.Record`
  unfoldable pub record_ack :
      Request → ℕ → GoMap Bytes (GoMap ℕ (Unit {0})) → GoMap Bytes (GoMap ℕ (Unit {0}))
  record_ack r from acks =
      put (txn_id c r) (put from tt (acks_or_empty (get (txn_id c r) acks))) acks

  -- `AckCollector.Count`
  unfoldable pub count_acks : Request → GoMap Bytes (GoMap ℕ (Unit {0})) → ℕ
  count_acks r acks = length (acks_or_empty (get (txn_id c r) acks))
