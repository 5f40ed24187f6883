-- ===== src/Store/Tests.antt =====
-- Runs of internal/store/store.go over the sample bucket: a fresh store with 10 in every account.
use byz_bank.Prelude.{◌≡◌, refl, false, List, [], ◌∷◌, arith}
use byz_bank.Prelude.Int.{ℤ, pos, ◌+ℤ◌, ◌-ℤ◌, IsInt64, int_key, int_laws}
use byz_bank.Store.Sample.{sample_bolt, fresh_store, fresh_balance}
use byz_bank.Store.Snapshot.{import_snapshot, export_snapshot}
use byz_bank.Store.Snapshot.RoundTrip.{IsPortable, import_snapshot-export_snapshot}
use byz_bank.Store.Snapshot.Portable.{
  open_store-IsPortable, set_balance_tx-IsPortable, set_client_ts-IsPortable,
}
use byz_bank.Store.Snapshot.Log.{import_snapshot-append_all}
use byz_bank.Store.Log.{append_all}
use byz_bank.Store.Rows.{number_from}
use byz_bank.Store.Types.{DatastoreEntry, cross, intra, prepare, commit, committed, aborted}
use byz_bank.Prelude.{some}
use byz_bank.Store.{
  datastore_entries, Store, open_store, set_balance_tx, set_client_ts, get_client_ts, wal_exists,
  get_balance, settle, apply_transfer, is_locked,
}
use byz_bank.Store.Ledger.{total, total-apply_transfer}

abbrev accounts : List ℤ
accounts = pos 1 ∷ pos 2 ∷ pos 3 ∷ []

four_less : IsInt64 (get_balance sample_bolt fresh_store (pos 1) -ℤ pos 4)
four_less =
    let e : pos 10 -ℤ pos 4 ≡ pos 6 = omega int_laws in
    rw (fresh_balance (pos 1), e) (omega arith, omega arith)

four_more : (z : ℤ) → IsInt64 (get_balance sample_bolt fresh_store z +ℤ pos 4)
four_more z =
    let e : pos 10 +ℤ pos 4 ≡ pos 14 = omega int_laws in
    rw (fresh_balance z, e) (omega arith, omega arith)

total-apply_transfer_example :
    total sample_bolt
      (settle fresh_store (apply_transfer sample_bolt (pos 1) (pos 2) (pos 4) fresh_store))
      accounts
    ≡ total sample_bolt fresh_store accounts
total-apply_transfer_example =
    total-apply_transfer sample_bolt (pos 1) (pos 2) (pos 4) fresh_store accounts (λ e. cc) refl
      refl four_less (four_more (pos 2))

-- A replica in which one balance and one timestamp were set, and one that is new.
abbrev used : Store sample_bolt
used =
    set_client_ts sample_bolt (65 ∷ []) (pos 3)
      (set_balance_tx sample_bolt (open_store sample_bolt (pos 10) (pos 100)) (pos 5) (pos 7))

used-IsPortable : IsPortable sample_bolt used
used-IsPortable = set_client_ts-IsPortable sample_bolt _ (65 ∷ []) (pos 3) (
    set_balance_tx-IsPortable sample_bolt _ (pos 5) (pos 7) (omega arith, omega arith)
      (open_store-IsPortable sample_bolt (pos 10) (pos 100)))

same_initial : (open_store sample_bolt (pos 10) (pos 100)).initial_balance ≡ used.initial_balance
unfolding set_client_ts set_balance_tx
same_initial = refl

import_snapshot-export_snapshot_example :
    let taken =
      import_snapshot sample_bolt
        (export_snapshot sample_bolt used)
        (open_store sample_bolt (pos 10) (pos 100)) in
    (get_balance sample_bolt taken (pos 5) ≡ get_balance sample_bolt used (pos 5))
    × (get_client_ts sample_bolt taken (65 ∷ []) ≡ get_client_ts sample_bolt used (65 ∷ []))
    × (is_locked sample_bolt taken (pos 5) ≡ false)
    × (wal_exists sample_bolt taken (66 ∷ []) ≡ false)
import_snapshot-export_snapshot_example =
    import_snapshot-export_snapshot sample_bolt used (open_store sample_bolt (pos 10) (pos 100))
      (pos 5) (65 ∷ []) (66 ∷ []) used-IsPortable same_initial

abbrev appended : List DatastoreEntry
appended =
    record {
      seq = pos 0;
      kind = cross;
      phase = prepare;
      x = pos 1;
      y = pos 70;
      amt = pos 2;
      ballot_or_view_seq = pos 1;
      outcome = committed;
    }
    ∷ record {
      seq = pos 0;
      kind = cross;
      phase = commit;
      x = pos 1;
      y = pos 70;
      amt = pos 2;
      ballot_or_view_seq = pos 1;
      outcome = aborted;
    }
    ∷ record {
      seq = pos 0;
      kind = intra;
      phase = commit;
      x = pos 1;
      y = pos 2;
      amt = pos 3;
      ballot_or_view_seq = pos 2;
      outcome = committed;
    }
    ∷ []

import_snapshot-append_all_example :
    let log = append_all sample_bolt appended (open_store sample_bolt (pos 10) (pos 100)) in
    (datastore_entries sample_bolt log ≡ some (number_from 0 appended))
    × (datastore_entries sample_bolt
          (import_snapshot sample_bolt (export_snapshot sample_bolt log) used)
        ≡ some (number_from 0 appended))
import_snapshot-append_all_example =
    import_snapshot-append_all sample_bolt (pos 10) (pos 100) appended used (omega arith)
