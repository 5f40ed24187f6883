-- ===== src/Pbft/Execute/Loop.antt =====
-- The loop of `tryExecute`, internal/pbft/engine.go, ends with nothing left to execute.
use byz_bank.Prelude.{
  ℕ, zero, suc, ◌+◌, ◌≤◌, ◌<◌, ◌^◌, ◌≡◌, refl, ◌∙◌, Bool, true, false, [], ◌∷◌, Option, none, some,
  if◌then◌else◌, arith, length, ◌⊎◌, inl, inr,
}
use byz_bank.Prelude.Int.{ℤ, pos, ◌+64◌, ◌+ℤ◌, +64-eq, int_key, int_laws, ltb_ℤ, ==_ℤ_iff}
use byz_bank.Prelude.Keys.{GoMap, get, put}
use byz_bank.Store.Bbolt.{Bolt}
use byz_bank.Pbft.Crypto.{Crypto}
use byz_bank.Pbft.Messages.{
  Op, Request, CertificateMsg, or_intra, intra, coord_prepare, part_prepare_commit,
  part_prepare_abort, coord_commit, coord_abort, part_commit, part_abort,
}
use byz_bank.Pbft.State.{Engine, SeqState}
use byz_bank.Pbft.Execute.{
  stop, skip, run, round_of, advance, run_slot, execute_op, try_execute_loop, try_execute,
  execute_intra, execute_coord_prepare, execute_part_prepare, execute_coord_commit,
  execute_coord_abort, execute_part_commit, execute_part_abort, send_client_reply,
}

-- The number of slots at `n` or above.
from : ℤ → GoMap ℤ SeqState → ℕ
from n [] = 0
from n ((k, st) ∷ m) = (if ltb_ℤ k n then 0 else 1) + from n m

from-le : (n : ℤ) (m : GoMap ℤ SeqState) → from n m ≤ length m
unfolding from
from-le n [] = omega arith
from-le n ((k, st) ∷ m) = ground (arith, from-le n m)

from-suc-le : (n : ℕ) (m : GoMap ℤ SeqState) → from (pos (suc n)) m ≤ from (pos n) m
unfolding from
from-suc-le n [] = omega arith
from-suc-le n ((k, st) ∷ m) = ground (arith, from-suc-le n m)

-- Moving past a slot leaves fewer.
from-suc :
    (n : ℕ) (m : GoMap ℤ SeqState) (st : SeqState)
    → get (pos n) m ≡ some st
    → from (pos (suc n)) m < from (pos n) m
unfolding from get
from-suc n [] st h = cc
from-suc n ((k, s) ∷ m) st h = ground (arith, from-suc n m st, from-suc-le n m, ==_ℤ_iff k (pos n))

from-put :
    (n k : ℤ) (old st : SeqState) (m : GoMap ℤ SeqState)
    → get k m ≡ some old
    → (from n (put k st m) ≡ from n m) × (length (put k st m) ≡ length m)
unfolding from get put
from-put n k old st [] h = cc
from-put n k old st ((j, s) ∷ m) h = ground (arith, from-put n k old st m, ==_ℤ_iff j k)

slot_cases :
    (st : SeqState) (o : Option CertificateMsg) (discarded executed : Bool)
    → st.commit_cert ≡ o
    → st.discarded ≡ discarded
    → st.executed ≡ executed
    → (round_of (some st) ≡ stop)
      ⊎ (round_of (some st) ≡ skip)
      ⊎ ((cert : CertificateMsg) × (round_of (some st) ≡ run st cert))
slot_cases st none true executed a b c = inr (inl (ground arith))
slot_cases st none false executed a b c = inl (ground arith)
slot_cases st (some cert) true executed a b c = inr (inl (ground arith))
slot_cases st (some cert) false true a b c = inl (ground arith)
slot_cases st (some cert) false false a b c = inr (inr (cert, ground arith))

pub round_cases :
    (o : Option SeqState)
    → (round_of o ≡ stop)
      ⊎ ((st : SeqState) × (o ≡ some st)
          × ((round_of o ≡ skip) ⊎ ((cert : CertificateMsg) × (round_of o ≡ run st cert))))
round_cases none = inl refl
round_cases (some st) =
    elim (slot_cases st st.commit_cert st.discarded st.executed refl refl refl) [
      | inl done ↦ inl done
      | inr rest ↦ inr (st, refl, rest)
    ]

module _ (db : Bolt) (c : Crypto) where
  -- Executing an operation changes neither the log nor the counter.
  abbrev SameLog : Engine db → Engine db → Type 0
  SameLog e e' = (e'.log ≡ e.log) × (e'.exec_seq ≡ e.exec_seq)

  execute_op-SameLog :
      (op : Op) (r : Request) (seq : ℤ) (cert : CertificateMsg) (e : Engine db)
      → SameLog e (execute_op db c op r seq cert e)
  unfolding execute_op execute_intra execute_coord_prepare execute_part_prepare execute_coord_commit
      execute_coord_abort execute_part_commit execute_part_abort send_client_reply
  execute_op-SameLog intra r seq cert e = ground arith
  execute_op-SameLog coord_prepare r seq cert e = ground arith
  execute_op-SameLog coord_commit r seq cert e = ground arith
  execute_op-SameLog coord_abort r seq cert e = ground arith
  execute_op-SameLog part_prepare_commit r seq cert e = ground arith
  execute_op-SameLog part_prepare_abort r seq cert e = ground arith
  execute_op-SameLog part_commit r seq cert e = ground arith
  execute_op-SameLog part_abort r seq cert e = ground arith
  execute_op-SameLog _ r seq cert e = (refl, refl)

  pub run_slot-frame :
      (st : SeqState) (cert : CertificateMsg) (e : Engine db)
      → ((run_slot db c st cert e).log ≡ put e.exec_seq (record st { executed = true }) e.log)
        × ((run_slot db c st cert e).exec_seq ≡ e.exec_seq +64 pos 1)
  unfolding run_slot
  run_slot-frame st cert e = execute_op-SameLog (or_intra st.req.op) st.req e.exec_seq cert _

  pub next_pos : (n : ℕ) → suc n < 2 ^ 63 → pos n +64 pos 1 ≡ pos (suc n)
  next_pos n h =
      let e : pos n +ℤ pos 1 ≡ pos (suc n) = omega int_laws in
      +64-eq (pos n) (pos 1) (rw e (omega arith, omega arith)) ∙ e

  try_execute_loop-stops :
      (fuel n : ℕ) (e : Engine db)
      → e.exec_seq ≡ pos n
      → from (pos n) e.log < fuel
      → n + fuel < 2 ^ 63
      → let e' = try_execute_loop db c fuel e in round_of (get e'.exec_seq e'.log) ≡ stop
  unfolding try_execute_loop
  try_execute_loop-stops zero n e at enough range = elim enough [ ]
  try_execute_loop-stops (suc fuel) n e at enough range =
      elim (round_cases (get e.exec_seq e.log)) [
        | inl done ↦ rw (done, try_execute_loop) done
        | inr (st, found, inl skipped) ↦
            rw (skipped, try_execute_loop)
              (try_execute_loop-stops fuel (suc n) (advance db c e)
                (rw at (next_pos n (omega arith)))
                (let less = from-suc n e.log st (rw at at found) in omega arith) (omega arith))
        | inr (st, found, inr (cert, ready)) ↦
            let (same, moved) = run_slot-frame st cert e in
            let (kept, _) =
              from-put (pos (suc n)) e.exec_seq st (record st { executed = true }) e.log found in
            rw (ready, try_execute_loop)
              (try_execute_loop-stops fuel (suc n) (run_slot db c st cert e)
                (moved ∙ rw at (next_pos n (omega arith)))
                (rw (same, kept) (let less = from-suc n e.log st (rw at at found) in omega arith))
                (omega arith))
      ]

  -- `tryExecute` returns, and then the slot at `execSeq` is missing, or is not discarded and has no
  -- commit certificate or was executed before: no committed slot that is next in order is left
  -- waiting. `execSeq` is not negative, and stays a 64-bit number over as many slots as the log has.
  pub try_execute-stops :
      (n : ℕ) (e : Engine db)
      → e.exec_seq ≡ pos n
      → n + length e.log + 1 < 2 ^ 63
      → let e' = try_execute db c e in round_of (get e'.exec_seq e'.log) ≡ stop
  unfolding try_execute
  try_execute-stops n e at range =
      try_execute_loop-stops (suc (length e.log)) n e at
        (let bound = from-le (pos n) e.log in omega arith) (omega arith)
