-- ===== src/Pbft/Safety/Execution.antt =====
-- `tryExecute` of internal/pbft/engine.go keeps every slot sound: it only marks slots as executed.
use byz_bank.Prelude.{ℕ, zero, suc, refl, true, inl, inr, length, arith}
use byz_bank.Prelude.Int.{ℤ, int_key}
use byz_bank.Prelude.Keys.{get}
use byz_bank.Store.Bbolt.{Bolt}
use byz_bank.Pbft.Crypto.{Crypto, KeyRing}
use byz_bank.Pbft.Messages.{
  Op, Request, CertificateMsg, or_intra, intra, coord_prepare, part_prepare_commit,
  part_prepare_abort, coord_commit, coord_abort, part_commit, part_abort,
}
use byz_bank.Pbft.State.{Engine, SeqState, set_slot}
use byz_bank.Pbft.Execute.{
  advance, run_slot, execute_op, try_execute_loop, try_execute, execute_intra,
  execute_coord_prepare, execute_part_prepare, execute_coord_commit, execute_coord_abort,
  execute_part_commit, execute_part_abort, send_client_reply,
}
use byz_bank.Pbft.Execute.Loop.{round_cases}
use byz_bank.Pbft.Safety.{IsSoundSlot, IsSafe, IsKept, IsSafe-kept, IsSafe-put}

module _ (db : Bolt) (c : Crypto) (ring : KeyRing) (q : ℕ) (v : ℤ) where
  execute_op-IsKept :
      (op : Op) (r : Request) (seq : ℤ) (cert : CertificateMsg) (e : Engine db)
      → IsKept db c ring q v e (execute_op db c op r seq cert e)
  unfolding execute_op execute_intra execute_coord_prepare execute_part_prepare execute_coord_commit
      execute_coord_abort execute_part_commit execute_part_abort send_client_reply
  execute_op-IsKept intra r seq cert e = ground arith
  execute_op-IsKept coord_prepare r seq cert e = ground arith
  execute_op-IsKept coord_commit r seq cert e = ground arith
  execute_op-IsKept coord_abort r seq cert e = ground arith
  execute_op-IsKept part_prepare_commit r seq cert e = ground arith
  execute_op-IsKept part_prepare_abort r seq cert e = ground arith
  execute_op-IsKept part_commit r seq cert e = ground arith
  execute_op-IsKept part_abort r seq cert e = ground arith
  execute_op-IsKept _ r seq cert e = (refl, refl, refl, refl)

  run_slot-IsSafe :
      (st : SeqState) (cert : CertificateMsg) (e : Engine db)
      → IsSafe db c ring q v e
      → IsSoundSlot db c ring q v e.exec_seq st
      → IsSafe db c ring q v (run_slot db c st cert e)
  unfolding run_slot
  run_slot-IsSafe st cert e h sound =
      let marked : SeqState = record st { executed = true } in
      let safe =
        IsSafe-put db c ring q v e e.exec_seq marked h
          (record { certified = sound.certified; voted = sound.voted; idle = sound.idle }) in
      let next = advance db c (set_slot db e.exec_seq marked e) in
      let after = IsSafe-kept db c ring q v _ next (refl, refl, refl, refl) safe in
      IsSafe-kept db c ring q v next _
        (execute_op-IsKept (or_intra st.req.op) st.req e.exec_seq cert next) after

  try_execute_loop-IsSafe :
      (fuel : ℕ) (e : Engine db)
      → IsSafe db c ring q v e
      → IsSafe db c ring q v (try_execute_loop db c fuel e)
  unfolding try_execute_loop
  try_execute_loop-IsSafe zero e h = h
  try_execute_loop-IsSafe (suc fuel) e h = elim (round_cases (get e.exec_seq e.log)) [
    | inl done ↦ rw (done, try_execute_loop) h
    | inr (st, found, inl skipped) ↦
        rw (skipped, try_execute_loop)
          (try_execute_loop-IsSafe fuel (advance db c e)
            (IsSafe-kept db c ring q v e _ (refl, refl, refl, refl) h))
    | inr (st, found, inr (cert, ready)) ↦
        rw (ready, try_execute_loop)
          (try_execute_loop-IsSafe fuel (run_slot db c st cert e)
            (run_slot-IsSafe st cert e h (h.slots e.exec_seq st found)))
  ]

  pub try_execute-IsSafe :
      (e : Engine db) → IsSafe db c ring q v e → IsSafe db c ring q v (try_execute db c e)
  unfolding try_execute
  try_execute-IsSafe e h = try_execute_loop-IsSafe (suc (length e.log)) e h
