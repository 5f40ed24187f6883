-- ===== src/Pbft/ViewChange/Tests.antt =====
-- Runs of the view change of internal/pbft/viewchange.go at server 2, a backup of the first cluster.
use byz_bank.Prelude.{◌≡◌, ◌≢◌, refl, true, false, [], ◌∷◌, some, arith}
use byz_bank.Prelude.Int.{pos, ◌+ℤ◌, ◌-ℤ◌, int_key}
use byz_bank.Prelude.Keys.{nat_key, ◌==◌, get}
use byz_bank.Config.{primary_of, cluster_of, same_cluster, items_per_cluster}
use byz_bank.Config.Shards.{cluster_of_iff}
use byz_bank.Store.Sample.{sample_bolt, fresh_store}
use byz_bank.Pbft.Messages.{ViewChangeMsg, Request, PrePrepareMsg, NewViewMsg}
use byz_bank.Pbft.State.{primary, Engine, SeqState, empty_seq_state}
use byz_bank.Pbft.Phases.{gap_clear}
use byz_bank.Pbft.ViewChange.{
  accept_new_view_pre_prepare, install_view, on_new_view, on_view_change_with, trigger_with,
  trigger_view_change,
}
use byz_bank.Pbft.ViewChange.Calls.{trigger_view_change_lem}
use byz_bank.Pbft.ViewChange.Takeover.{on_new_view-known, accept-stale}
use byz_bank.Pbft.Sample.{one_text, two_clusters, payment, engine_of, cert, item_1}

trigger_view_change_lem_example :
    trigger_with sample_bolt one_text
      (λ msg e'.
        on_view_change_with sample_bolt one_text
          (λ _. engine_of 3 1)
          (fresh_store ∷ [])
          e'.self
          msg
          e')
      (engine_of 2 1)
    ≡ trigger_view_change sample_bolt one_text (fresh_store ∷ []) (engine_of 2 1)
trigger_view_change_lem_example =
    trigger_view_change_lem sample_bolt one_text (λ _. engine_of 3 1) (fresh_store ∷ [])
      (engine_of 2 1)

-- A payment within the first cluster, and the slot that holds another one under a certificate.
abbrev local_payment : Request
local_payment = record payment { y = pos 2 }

abbrev certified : SeqState
certified = record empty_seq_state {
  digest = 1 ∷ [];
  req = local_payment;
  pre_prepare = true;
  commit_cert = some cert;
}

abbrev backup : Engine sample_bolt
backup = record (engine_of 2 1) { log = (pos 1, certified) ∷ [] }

abbrev again : PrePrepareMsg
again = record { seq = pos 1; view = pos 1; digest = 1 ∷ []; req = local_payment }

abbrev replaced : PrePrepareMsg
replaced = record again { digest = 2 ∷ [] }

abbrev first_view : NewViewMsg
first_view = record { new_view = pos 1; pre_prepares = again ∷ []; view_changes = [] }

on_new_view-known_example :
    on_new_view sample_bolt one_text [] first_view backup
    ≡ install_view sample_bolt one_text first_view backup
unfolding get
on_new_view-known_example =
    on_new_view-known sample_bolt one_text [] first_view backup refl refl
      ((certified, refl, refl, refl), tt)

within : same_cluster two_clusters (pos 1) (pos 2) ≡ true
unfolding same_cluster items_per_cluster
within =
    let item_2 : cluster_of two_clusters (pos 2) ≡ 1 =
      (cluster_of_iff two_clusters 1 0 (omega arith) (omega arith) (omega arith)).1
        (omega arith, omega arith) in
    rw (item_1, item_2) refl

follows : (primary sample_bolt backup == backup.self) ≡ false
unfolding primary primary_of ◌+ℤ◌ ◌-ℤ◌
follows = refl

clear : gap_clear (pos 1) backup.exec_seq backup.log ≡ true
unfolding gap_clear
clear = refl

accept-stale_example :
    (st' : SeqState) × (get
        (pos 1)
        (accept_new_view_pre_prepare sample_bolt one_text [] replaced backup).log
      ≡ some st')
    × (st'.req ≡ local_payment)
    × (st'.executed ≡ certified.executed)
    × (st'.commit_cert ≡ some cert)
    × (st'.digest ≢ cert.digest)
unfolding get
accept-stale_example =
    accept-stale sample_bolt one_text [] replaced backup certified cert follows within clear refl
      refl refl (λ e. cc)

abbrev vote : ViewChangeMsg
vote = record {
  new_view = pos 1;
  latest_stable = pos 0;
  prepared = [];
  pending_reqs = payment ∷ [];
}
