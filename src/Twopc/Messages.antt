-- ===== src/Twopc/Messages.antt =====
-- internal/twopc/messages.go: what the coordinator's and the participant's cluster tell each other.
use byz_bank.Prelude.Int.{ℤ}
use byz_bank.Store.Types.{Outcome}
use byz_bank.Pbft.Messages.{Request, CertificateMsg}

pub record CoordinatorPrepareMsg : Type 0 where
  pub req : Request
  pub commit_cert : CertificateMsg
  pub coord_seq : ℤ

pub record ParticipantReplyMsg : Type 0 where
  pub req : Request
  pub outcome : Outcome
  pub commit_cert : CertificateMsg
  pub part_seq : ℤ

pub record CoordinatorCommitMsg : Type 0 where
  pub req : Request
  pub outcome : Outcome
  pub commit_cert : CertificateMsg
  pub coord_seq : ℤ

pub record ParticipantAckMsg : Type 0 where
  pub req : Request
  pub part_seq : ℤ

-- An envelope, by its type. `prepared` stands for both reply types, which the outcome tells apart and
-- which the receiver handles alike.
pub data Envelope : Type 0 where
  prepare : CoordinatorPrepareMsg → Envelope
  prepared : ParticipantReplyMsg → Envelope
  commit : CoordinatorCommitMsg → Envelope
  ack : ParticipantAckMsg → Envelope
