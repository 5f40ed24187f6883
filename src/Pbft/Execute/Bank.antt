-- ===== src/Pbft/Execute/Bank.antt =====
-- What executing an operation means for the bank: the intended effect of each case of `tryExecute`,
-- internal/pbft/engine.go, on the balances, locks, WAL and timestamps.
use byz_bank.Prelude.{List, [], ◌∷◌, Option, none, some, if◌then◌else◌}
use byz_bank.Prelude.Int.{ℤ, ltb_ℤ, ◌+64◌, ◌-64◌, int_key}
use byz_bank.Prelude.Text.{Bytes, bytes_key}
use byz_bank.Store.Abstract.{Bank, set_balance, unlock, log_preimage, stamp, restore}
use byz_bank.Store.{is_present}
use byz_bank.Pbft.Crypto.{Crypto}
use byz_bank.Pbft.Messages.{
  Op, Request, txn_id, unset, intra, coord_prepare, part_prepare_commit, part_prepare_abort,
  coord_commit, coord_abort, part_commit, part_abort, other,
}
use byz_bank.Pbft.Locks.{lock_items_for_op}

unfoldable pub unlock_all : List ℤ → Bank → Bank
unlock_all [] b = b
unlock_all (i ∷ is) b = unlock_all is (unlock i b)

-- The balances of x and y are read before either is written.
abbrev pub pay : ℤ → ℤ → ℤ → Bank → Bank
pay x y amt b = set_balance y (b.balance y +64 amt) (set_balance x (b.balance x -64 amt) b)

abbrev pub undo : Bytes → Option (List (ℤ × ℤ)) → Bank → Bank
undo id none b = b
undo id (some pre) b = log_preimage id none (restore pre b)

abbrev pub unlock_held : ℤ → Bank → Bank
unlock_held item b = if b.locked item then unlock item b else b

module _ (c : Crypto) where
  -- The operations on the bank.
  unfoldable pub bank_op : Op → Request → Bank → Bank
  bank_op intra r b =
      if ltb_ℤ (b.balance r.x) r.amt
      then unlock_all (lock_items_for_op r) b
      else unlock_all (lock_items_for_op r) (stamp r.client_id r.ts (pay r.x r.y r.amt b))
  bank_op coord_prepare r b =
      if ltb_ℤ (b.balance r.x) r.amt
      then unlock r.x b
      else log_preimage (txn_id c r) (some ((r.x, b.balance r.x) ∷ []))
          (set_balance r.x (b.balance r.x -64 r.amt) b)
  bank_op part_prepare_commit r b =
      if is_present (b.preimage (txn_id c r))
      then b
      else log_preimage (txn_id c r) (some ((r.y, b.balance r.y) ∷ []))
          (set_balance r.y (b.balance r.y +64 r.amt) b)
  bank_op part_prepare_abort r b = b
  bank_op coord_commit r b = stamp r.client_id r.ts (unlock r.x (log_preimage (txn_id c r) none b))
  bank_op coord_abort r b =
      stamp r.client_id r.ts (unlock_held r.x (undo (txn_id c r) (b.preimage (txn_id c r)) b))
  bank_op part_commit r b = unlock_held r.y (log_preimage (txn_id c r) none b)
  bank_op part_abort r b = unlock_held r.y (undo (txn_id c r) (b.preimage (txn_id c r)) b)
  bank_op unset r b = unlock_all (lock_items_for_op r) b
  bank_op (other tag) r b = unlock_all (lock_items_for_op r) b
