-- ===== src/Pbft/NewView/Tests.antt =====
-- A NEW-VIEW message of internal/pbft/viewchange.go for the first view: server 3 of the first cluster reports
-- slot 1, and has a request that waits.
use byz_bank.Prelude.{refl, [], ◌∷◌, arith, suc, length, inl, In}
use byz_bank.Prelude.Int.{pos, ◌≤ℤ◌, ◌<ℤ◌, int_key}
use byz_bank.Prelude.Keys.{get, put, delete}
use byz_bank.Prelude.Text.{data_eq}
use byz_bank.Store.Sample.{sample_bolt}
use byz_bank.Pbft.Messages.{digest_of, digest_text, piped, PreparedEntry, ViewChangeMsg}
use byz_bank.Pbft.State.{Engine}
use byz_bank.Pbft.NewView.{
  build_new_view, stable_max, seq_max, gather_prepared, keep_all, keep_prepared, keep_pending,
  gather_pending, drop_reproposed,
}
use byz_bank.Pbft.NewView.Reports.{IsReported}
use byz_bank.Pbft.NewView.Slots.{DistinctSeqs}
use byz_bank.Pbft.NewView.Proposals.{
  HasRoom, votes_for, open_requests, last_seq, build_new_view-DistinctSeqs,
  build_new_view-IsReported,
}
use byz_bank.Pbft.Sample.{one_text, payment, engine_of}

abbrev slot_1 : PreparedEntry
slot_1 = record { seq = pos 1; view = pos 0; digest = 1 ∷ []; req = payment }

abbrev report : ViewChangeMsg
report = record {
  new_view = pos 1;
  latest_stable = pos 0;
  prepared = slot_1 ∷ [];
  pending_reqs = payment ∷ [];
}

abbrev leader : Engine sample_bolt
leader = record (engine_of 2 1) { view_change_log = (pos 1, (3, report) ∷ []) ∷ [] }

room :
    HasRoom
      (last_seq sample_bolt one_text (pos 1) leader)
      (suc (length (open_requests sample_bolt one_text (pos 1) leader)))
unfolding get seq_max stable_max gather_prepared keep_all keep_prepared keep_pending gather_pending
    drop_reproposed put delete data_eq digest_of digest_text piped
room = (omega arith, omega arith)

own_room : HasRoom leader.next_seq (length (open_requests sample_bolt one_text (pos 1) leader))
unfolding get stable_max gather_prepared keep_all keep_prepared keep_pending gather_pending
    drop_reproposed put delete data_eq digest_of digest_text piped
own_room = (omega arith, omega arith)

voted : In report (votes_for sample_bolt one_text (pos 1) leader)
unfolding get
voted = inl refl

build_new_view-DistinctSeqs_example :
    DistinctSeqs (build_new_view sample_bolt one_text (pos 1) leader).pre_prepares
build_new_view-DistinctSeqs_example =
    build_new_view-DistinctSeqs sample_bolt one_text (pos 1) leader room own_room

above : stable_max (pos 0) (votes_for sample_bolt one_text (pos 1) leader) <ℤ pos 1
unfolding get stable_max
above = omega arith

build_new_view-IsReported_example :
    (best : PreparedEntry) × IsReported (votes_for sample_bolt one_text (pos 1) leader) (pos 1) best
    × (pos 0 ≤ℤ best.view)
    × In
        (record { seq = pos 1; view = pos 1; digest = best.digest; req = best.req })
        (build_new_view sample_bolt one_text (pos 1) leader).pre_prepares
build_new_view-IsReported_example =
    build_new_view-IsReported sample_bolt one_text (pos 1) leader report slot_1 voted (inl refl)
      above
