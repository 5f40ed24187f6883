-- ===== src/Pbft/Handle.antt =====
-- The dispatch of inbound envelopes, `Handle` of internal/pbft/engine.go.
use byz_bank.Prelude.{ℕ, not, List, if◌then◌else◌}
use byz_bank.Prelude.Text.{Bytes}
use byz_bank.Store.Bbolt.{Bolt}
use byz_bank.Store.{Store}
use byz_bank.Pbft.Crypto.{Crypto}
use byz_bank.Pbft.Messages.{
  Request, PrePrepareMsg, PhaseMsg, CertificateMsg, DiscardSeqMsg, ViewChangeMsg, NewViewMsg,
}
use byz_bank.Pbft.ViewChange.{on_view_change, on_new_view}
use byz_bank.Pbft.State.{Engine}
use byz_bank.Pbft.Phases.{on_pre_prepare, on_prepare, on_prepare_cert, on_commit, on_commit_cert}
use byz_bank.Pbft.Start.{on_client_request}
use byz_bank.Pbft.Discard.{on_discard_seq}

-- The envelopes, by type. A vote carries its sender and its signature.
pub data Inbound : Type 0 where
  got_request : Request → Inbound
  got_pre_prepare : PrePrepareMsg → Inbound
  got_prepare got_commit : ℕ → PhaseMsg → Bytes → Inbound
  got_prepare_cert got_commit_cert : CertificateMsg → Inbound
  got_discard : DiscardSeqMsg → Inbound
  got_view_change : ℕ → ViewChangeMsg → Inbound
  got_new_view : NewViewMsg → Inbound

module _ (db : Bolt) (c : Crypto) where
  unfoldable pub dispatch : List (Store db) → Inbound → Engine db → Engine db
  dispatch polls (got_request r) e = on_client_request db c polls polls r e
  dispatch polls (got_pre_prepare msg) e = on_pre_prepare db c polls msg e
  dispatch polls (got_prepare id msg sig) e = on_prepare db c id msg sig e
  dispatch polls (got_prepare_cert cert) e = on_prepare_cert db c cert e
  dispatch polls (got_commit id msg sig) e = on_commit db c id msg sig e
  dispatch polls (got_commit_cert cert) e = on_commit_cert db c cert e
  dispatch polls (got_discard msg) e = on_discard_seq db c msg e
  dispatch polls (got_view_change id msg) e = on_view_change db c polls id msg e
  dispatch polls (got_new_view msg) e = on_new_view db c polls msg e

  unfoldable pub handle : List (Store db) → Inbound → Engine db → Engine db
  unfolding dispatch
  handle polls msg e = if not e.fault.alive then e else dispatch polls msg e
