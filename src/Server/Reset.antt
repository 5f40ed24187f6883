-- ===== src/Server/Reset.antt =====
-- What the reset of internal/server/replica.go leaves of a replica.
use byz_bank.Prelude.{◌≡◌, refl, ap, ap₂, ◌∙◌, fun_ext, Bool, false, Option, none}
use byz_bank.Prelude.Int.{ℤ, ◌-64◌, ltb_ℤ, int_key}
use byz_bank.Prelude.Text.{Bytes, bytes_key}
use byz_bank.Store.Bbolt.{Bolt}
use byz_bank.Store.Types.{WalPreimage}
use byz_bank.Store.{Store, get_balance, get_client_ts, is_locked, clear_locks_and_wal}
use byz_bank.Store.Abstract.{Bank, bank_of, set_balance}
use byz_bank.Store.Codec.{item_key}
use byz_bank.Pbft.Crypto.{Crypto}
use byz_bank.Pbft.Messages.{Request, CertificateMsg, coord_prepare}
use byz_bank.Pbft.Control.{reset_consensus}
use byz_bank.Pbft.Execute.{execute_op}
use byz_bank.Pbft.Execute.Bank.{bank_op}
use byz_bank.Pbft.Execute.Refinement.{execute_op-refines}
use byz_bank.Twopc.Node.{Node}
use byz_bank.Twopc.Coordinator
use byz_bank.Server.{reset_replica}

-- No item is locked, and no transaction is logged.
abbrev pub cleared : Bank → Bank
cleared b = record b { locked = λ item. false; preimage = λ txn_id. none }

module _ (db : Bolt) (c : Crypto) where
  bank-clear_locks_and_wal :
      (s : Store db) → bank_of db (clear_locks_and_wal db s) ≡ cleared (bank_of db s)
  unfolding bank_of clear_locks_and_wal get_balance get_client_ts is_locked
  bank-clear_locks_and_wal s =
      ap₂
        (λ (f : ℤ → Bool) (g : Bytes → Option WalPreimage). record (bank_of db s) {
          locked = f;
          preimage = g;
        })
        (fun_ext λ i. rw (db.get-fresh {V = Bytes} (item_key i)) refl)
        (fun_ext λ k. db.get-fresh {V = WalPreimage} k)

  -- A reset frees all locks and forgets the WAL, and keeps balances and timestamps as they are.
  bank-reset_replica :
      (n : Node db)
      → bank_of db (reset_replica db c n).engine.store ≡ cleared (bank_of db n.engine.store)
  unfolding reset_replica Coordinator.reset reset_consensus
  bank-reset_replica n = bank-clear_locks_and_wal n.engine.store

  -- A reset of a coordinator between the prepare of a covered transfer and its decision keeps the debit of x
  -- and forgets the preimage, so that no later abort gives the amount back.
  pub reset_replica-prepared :
      (n : Node db) (r : Request) (seq : ℤ) (cert : CertificateMsg)
      → ltb_ℤ (get_balance db n.engine.store r.x) r.amt ≡ false
      → bank_of db
          (reset_replica db c
            (record n { engine = execute_op db c coord_prepare r seq cert n.engine })).engine.store
        ≡ cleared (
            set_balance r.x
              (get_balance db n.engine.store r.x -64 r.amt)
              (bank_of db n.engine.store))
  unfolding bank_op bank_of
  reset_replica-prepared n r seq cert covered =
      bank-reset_replica (record n { engine = execute_op db c coord_prepare r seq cert n.engine })
      ∙ ap cleared (execute_op-refines db c coord_prepare r seq cert n.engine)
      ∙ rw covered refl
