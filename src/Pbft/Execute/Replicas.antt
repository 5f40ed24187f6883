-- ===== src/Pbft/Execute/Replicas.antt =====
-- Two replicas that execute the same requests have the same bank: the loop of `tryExecute`,
-- internal/pbft/engine.go, as a state machine.
use byz_bank.Prelude.{true, ℕ, zero, suc, ◌≡◌, refl, sym, ap, ◌∙◌, List, [], ◌∷◌, length, inl, inr}
use byz_bank.Prelude.Int.{int_key}
use byz_bank.Prelude.Keys.{get, put}
use byz_bank.Store.Bbolt.{Bolt}
use byz_bank.Store.Abstract.{Bank, bank_of}
use byz_bank.Pbft.Crypto.{Crypto}
use byz_bank.Pbft.Messages.{CertificateMsg, Request, or_intra}
use byz_bank.Pbft.State.{Engine, SeqState}
use byz_bank.Pbft.Execute.{
  stop, skip, run, round_of, advance, run_slot, try_execute_loop, try_execute,
}
use byz_bank.Pbft.Execute.Bank.{bank_op}
use byz_bank.Pbft.Execute.Loop.{round_cases}
use byz_bank.Pbft.Execute.Refinement.{execute_op-refines}

module _ (c : Crypto) where
  unfoldable pub run_bank : List Request → Bank → Bank
  run_bank [] b = b
  run_bank (r ∷ rs) b = run_bank rs (bank_op c (or_intra r.op) r b)

module _ (db : Bolt) (c : Crypto) where
  -- The requests of the slots that the loop runs.
  unfoldable pub requests_of : ℕ → Engine db → List Request
  requests_of zero e = []
  requests_of (suc fuel) e = elim (round_of (get e.exec_seq e.log)) [
    | stop ↦ []
    | skip ↦ requests_of fuel (advance db c e)
    | run st cert ↦ st.req ∷ requests_of fuel (run_slot db c st cert e)
  ]

  unfoldable pub executed_requests : Engine db → List Request
  unfolding requests_of
  executed_requests e = requests_of (suc (length e.log)) e

  run_slot-refines :
      (st : SeqState) (cert : CertificateMsg) (e : Engine db)
      → bank_of db (run_slot db c st cert e).store
        ≡ bank_op c (or_intra st.req.op) st.req (bank_of db e.store)
  unfolding run_slot
  run_slot-refines st cert e =
      execute_op-refines db c (or_intra st.req.op) st.req e.exec_seq cert
        (advance db c (record e { log = put e.exec_seq (record st { executed = true }) e.log }))

  loop-refines :
      (fuel : ℕ) (e : Engine db)
      → bank_of db (try_execute_loop db c fuel e).store
        ≡ run_bank c (requests_of fuel e) (bank_of db e.store)
  unfolding try_execute_loop requests_of run_bank
  loop-refines zero e = refl
  loop-refines (suc fuel) e = elim (round_cases (get e.exec_seq e.log)) [
    | inl halt ↦ rw (halt, try_execute_loop, requests_of) refl
    | inr (st, there, inl pass) ↦
        rw (pass, try_execute_loop, requests_of) (loop-refines fuel (advance db c e))
    | inr (st, there, inr (cert, go)) ↦
        rw (go, try_execute_loop, requests_of)
          (loop-refines fuel (run_slot db c st cert e)
            ∙ ap (run_bank c (requests_of fuel (run_slot db c st cert e)))
                (run_slot-refines st cert e))
  ]

-- Two replicas, each with its own database, sequence numbers and certificates, whose banks are equal and
-- whose rounds of `tryExecute` run the same requests in the same order, have equal banks after it.
pub try_execute-agrees :
    (db1 db2 : Bolt) (c : Crypto) (e1 : Engine db1) (e2 : Engine db2)
    → executed_requests db1 c e1 ≡ executed_requests db2 c e2
    → bank_of db1 e1.store ≡ bank_of db2 e2.store
    → bank_of db1 (try_execute db1 c e1).store ≡ bank_of db2 (try_execute db2 c e2).store
unfolding try_execute executed_requests
try_execute-agrees db1 db2 c e1 e2 same start =
    loop-refines db1 c (suc (length e1.log)) e1
    ∙ ap (λ rs. run_bank c rs (bank_of db1 e1.store)) same
    ∙ ap (run_bank c (executed_requests db2 c e2)) start
    ∙ sym (loop-refines db2 c (suc (length e2.log)) e2)
