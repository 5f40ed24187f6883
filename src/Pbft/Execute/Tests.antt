-- ===== src/Pbft/Execute/Tests.antt =====
-- Runs of the execution of internal/pbft/engine.go: a payment of 4 from item 1 to item 60, which
-- belongs to the other cluster.
use byz_bank.Prelude.{
  ℕ, ◌≡◌, refl, ap, sym, ◌∙◌, true, false, [], ◌∷◌, none, some, if◌then◌else◌, arith,
}
use byz_bank.Prelude.Int.{ℤ, pos, ◌+ℤ◌, ◌-ℤ◌, ltb_ℤ, IsInt64, int_key, int_laws}
use byz_bank.Prelude.Keys.{◌==◌, get, put}
use byz_bank.Prelude.Text.{Bytes, bytes_key}
use byz_bank.Store.{get_balance, is_locked, wal_exists}
use byz_bank.Store.Frame.{wal_entry}
use byz_bank.Store.Ledger.{total}
use byz_bank.Store.Sample.{sample_bolt, fresh_store, fresh_balance, fresh_wal_exists}
use byz_bank.Pbft.Messages.{
  CertificateMsg, coord_prepare, txn_id, coord_commit, coord_abort, part_commit, part_abort,
}
use byz_bank.Pbft.State.{Engine, SeqState, empty_seq_state}
use byz_bank.Pbft.Execute.{try_execute, round_of, stop, execute_op, run_slot}
use byz_bank.Pbft.Execute.Bank.{bank_op}
use byz_bank.Pbft.Execute.Refinement.{execute_op-refines}
use byz_bank.Pbft.Execute.Replicas.{requests_of, executed_requests, try_execute-agrees}
use byz_bank.Store.Abstract.{bank_of}
use byz_bank.Pbft.Execute.Loop.{run_slot-frame, next_pos, try_execute-stops}
use byz_bank.Pbft.Execute.Atomic.{coord_end, part_end, coord_aborted, part_aborted, total-committed}
use byz_bank.Pbft.Sample.{one_text, cert, other_cert, payment, engine_of}

abbrev payer : Engine sample_bolt
payer = engine_of 1 1

abbrev payee : Engine sample_bolt
payee = engine_of 5 2

abbrev key : Bytes
key = txn_id one_text payment

covered : ltb_ℤ (get_balance sample_bolt payer.store payment.x) payment.amt ≡ false
covered = rw (fresh_balance (pos 1))

unlogged : wal_exists sample_bolt fresh_store key ≡ false
unlogged = fresh_wal_exists key

ten_fits : (z : ℤ) → IsInt64 (get_balance sample_bolt fresh_store z)
ten_fits z = rw (fresh_balance z) (omega arith, omega arith)

paid_fits : IsInt64 (get_balance sample_bolt payer.store payment.x -ℤ payment.amt)
paid_fits =
    let e : pos 10 -ℤ pos 4 ≡ pos 6 = omega int_laws in
    rw (fresh_balance (pos 1), e) (omega arith, omega arith)

got_fits : IsInt64 (get_balance sample_bolt payee.store payment.y +ℤ payment.amt)
got_fits =
    let e : pos 10 +ℤ pos 4 ≡ pos 14 = omega int_laws in
    rw (fresh_balance (pos 60), e) (omega arith, omega arith)

abbrev waiting : Engine sample_bolt
waiting = record payer { log = (pos 1, record empty_seq_state { discarded = true }) ∷ [] }

try_execute-stops_example :
    let e' = try_execute sample_bolt one_text waiting in round_of (get e'.exec_seq e'.log) ≡ stop
try_execute-stops_example = try_execute-stops sample_bolt one_text 1 waiting refl (omega arith)

coord_aborted_example :
    let a' = coord_end sample_bolt one_text payment (pos 1) (pos 2) cert cert coord_abort payer in
    (get_balance sample_bolt a'.store (pos 1) ≡ get_balance sample_bolt payer.store (pos 1))
    × (wal_entry sample_bolt a'.store key
        ≡ (if txn_id one_text payment == key then none else wal_entry sample_bolt payer.store key))
    × (is_locked sample_bolt a'.store (pos 1)
        ≡ (if pos 1 == pos 1 then false else is_locked sample_bolt payer.store (pos 1)))
coord_aborted_example =
    coord_aborted sample_bolt one_text payment (pos 1) (pos 2) cert cert payer (pos 1) key covered
      (ten_fits (pos 1))

part_aborted_example :
    let b' = part_end sample_bolt one_text payment (pos 1) (pos 2) cert cert part_abort payee in
    (get_balance sample_bolt b'.store (pos 60) ≡ get_balance sample_bolt payee.store (pos 60))
    × (wal_entry sample_bolt b'.store key
        ≡ (if txn_id one_text payment == key then none else wal_entry sample_bolt payee.store key))
    × (is_locked sample_bolt b'.store (pos 60)
        ≡ (if pos 60 == pos 60 then false else is_locked sample_bolt payee.store (pos 60)))
part_aborted_example =
    part_aborted sample_bolt one_text payment (pos 1) (pos 2) cert cert payee (pos 60) key unlogged
      (ten_fits (pos 60))

total-committed_example :
    total sample_bolt
        (coord_end sample_bolt one_text payment (pos 1) (pos 2) cert cert coord_commit payer).store
        (pos 1 ∷ pos 2 ∷ [])
      +ℤ total sample_bolt
          (part_end sample_bolt one_text payment
            (pos 4)
            (pos 6)
            other_cert
            other_cert
            part_commit
            payee).store
          (pos 60 ∷ pos 61 ∷ [])
    ≡ total sample_bolt payer.store (pos 1 ∷ pos 2 ∷ [])
      +ℤ total sample_bolt payee.store (pos 60 ∷ pos 61 ∷ [])
total-committed_example =
    total-committed sample_bolt one_text payment (pos 1) (pos 2) (pos 4) (pos 6) cert cert
      other_cert other_cert payer payee (pos 1 ∷ pos 2 ∷ []) (pos 60 ∷ pos 61 ∷ []) covered unlogged
      refl refl paid_fits got_fits

execute_op-refines_example :
    bank_of sample_bolt
      (execute_op sample_bolt one_text coord_prepare payment (pos 1) cert payer).store
    ≡ bank_op one_text coord_prepare payment (bank_of sample_bolt payer.store)
execute_op-refines_example =
    execute_op-refines sample_bolt one_text coord_prepare payment (pos 1) cert payer

-- A replica whose log is one committed slot.
abbrev replica : Engine sample_bolt → CertificateMsg → Engine sample_bolt
replica e cert = record e {
  log = (pos 1, record empty_seq_state { req = payment; commit_cert = some cert }) ∷ [];
}

one_slot :
    (self view : ℕ) (q : CertificateMsg)
    → executed_requests sample_bolt one_text
        (replica (record (engine_of self 1) { view = pos view }) q)
      ≡ payment ∷ []
unfolding executed_requests requests_of get put
one_slot self view q =
    let e : Engine sample_bolt = replica (record (engine_of self 1) { view = pos view }) q in
    let st : SeqState = record empty_seq_state { req = payment; commit_cert = some q } in
    let (log, at) = run_slot-frame sample_bolt one_text st q e in
    let next = next_pos sample_bolt one_text 1 (omega arith) in
    let done : round_of (
          get (run_slot sample_bolt one_text st q e).exec_seq
            (run_slot sample_bolt one_text st q e).log)
        ≡ stop =
      rw (log, at, next) refl in
    ap (◌∷◌ payment) (rw done refl)

try_execute-agrees_example :
    bank_of sample_bolt (try_execute sample_bolt one_text (replica (engine_of 1 1) cert)).store
    ≡ bank_of sample_bolt
        (try_execute sample_bolt one_text
          (replica (record (engine_of 2 1) { view = pos 4 }) other_cert)).store
try_execute-agrees_example =
    try_execute-agrees sample_bolt sample_bolt one_text (replica (engine_of 1 1) cert)
      (replica (record (engine_of 2 1) { view = pos 4 }) other_cert)
      (one_slot 1 0 cert ∙ sym (one_slot 2 4 other_cert)) refl
