-- ===== src/Store.antt =====
-- internal/store/store.go: one replica's persistent state and its operations, over the buckets of
-- bbolt, which are a parameter. Each operation runs under the store's mutex in one transaction, so
-- it is one step, and an error rolls it back. Failures of the disk are not modelled, and the JSON
-- text of a WAL preimage or a datastore entry stands for its value.
pub mod Bbolt
pub mod Types
pub mod Codec
pub mod Balances
pub mod Ledger
pub mod Frame
pub mod Ascending
pub mod Sample
pub mod Snapshot
pub mod Order
pub mod Unique
pub mod Rows
pub mod Log
pub mod Abstract
mod Tests
use byz_bank.Prelude.{
  ℕ, ◌+◌, ◌%◌, ◌^◌, Bool, true, false, List, [], ◌∷◌, Option, none, some, if◌then◌else◌, length,
}
use byz_bank.Prelude.Int.{ℤ, pos, of_word, ltb_ℤ, ◌+64◌, ◌-64◌, int_key}
use byz_bank.Prelude.Keys.{◌==◌, GoMap}
use byz_bank.Prelude.Text.{Bytes, bytes_key}
use Bbolt.{Bolt, is_key}
use Types.{DatastoreEntry, WalPreimage, Cell, last_seq, entry}
use Codec.{item_key, seq_key, int64_to_bytes, bytes_to_int64, bytes_value}

pub data Error : Type 0 where
  insufficient : ℤ → ℤ → ℤ → Error
  wal_not_found : Bytes → Error

pub data Result (A : Type 0) : Type 0 where
  ok : A → Result A
  err : Error → Result A

-- The state after a transaction, which an error rolls back.
abbrev pub settle : {A : Type 0} → A → Result A → A
settle s (ok s') = s'
settle s (err _) = s

-- The key "seq" inside the datastore bucket.
abbrev pub meta_datastore_seq : Bytes
meta_datastore_seq = b's' ∷ b'e' ∷ b'q' ∷ []

abbrev pub is_present : {V : Type 0} → Option V → Bool
is_present none = false
is_present (some _) = true

-- A stored number, or what stands for a missing one.
abbrev pub stored_or : ℤ → Option Bytes → ℤ
stored_or default none = default
stored_or default (some v) = bytes_to_int64 v

-- The number after the last one; no entry stands under the key "seq".
unfoldable pub next_seq : Option Cell → ℕ
next_seq none = 0
next_seq (some (last_seq b)) = (bytes_value 0 b + 1) % 2 ^ 64
next_seq (some (entry e)) = 0

-- The callback of `Datastore`; `none` where a value is no entry, which `json.Unmarshal` refuses.
unfoldable pub collect_entries : GoMap Bytes Cell → Option (List DatastoreEntry)
collect_entries [] = some []
collect_entries ((k, c) ∷ m) =
    let rest = collect_entries m in
    if k == meta_datastore_seq then rest else elim c [
      | last_seq b ↦ none
      | entry e ↦ elim rest [ none ↦ none | some es ↦ some (e ∷ es) ]
    ]

-- `Outstanding2PC`: the WAL's transactions and the number of locks.
pub record Outstanding : Type 0 where
  pub wal_count : ℕ
  pub lock_count : ℕ
  pub wal_txn_ids : List Bytes

unfoldable pub keys_of : {V : Type 0} → GoMap Bytes V → List Bytes
keys_of [] = []
keys_of ((k, v) ∷ m) = k ∷ keys_of m

module _ (db : Bolt) where
  pub record Store : Type 0 where
    pub initial_balance : ℤ
    pub total_items : ℤ
    pub balances : db.Bucket Bytes
    pub datastore : db.Bucket Cell
    pub locks : db.Bucket Bytes
    pub wal : db.Bucket WalPreimage
    pub client_ts : db.Bucket Bytes

  -- `Open` of a database that is not there yet.
  unfoldable pub open_store : ℤ → ℤ → Store
  open_store initial_balance total_items = record {
    initial_balance = if initial_balance == pos 0 then pos 10 else initial_balance;
    total_items = if total_items == pos 0 then pos 3000 else total_items;
    balances = db.fresh;
    datastore = db.fresh;
    locks = db.fresh;
    wal = db.fresh;
    client_ts = db.fresh;
  }

  unfoldable pub balance_in_tx : Store → ℤ → ℤ
  balance_in_tx s item = stored_or s.initial_balance (db.get (item_key item) s.balances)

  unfoldable pub get_balance : Store → ℤ → ℤ
  unfolding balance_in_tx
  get_balance s item = balance_in_tx s item

  unfoldable pub set_balance_tx : Store → ℤ → ℤ → Store
  set_balance_tx s item bal = record s {
    balances = db.put (item_key item) (int64_to_bytes bal) s.balances;
  }

  -- `ApplyTransfer`: both balances are read before either is written.
  unfoldable pub apply_transfer : ℤ → ℤ → ℤ → Store → Result Store
  apply_transfer x y amt s =
      let x_bal = balance_in_tx s x in
      let y_bal = balance_in_tx s y in
      if ltb_ℤ x_bal amt
      then err (insufficient x x_bal amt)
      else ok (set_balance_tx (set_balance_tx s x (x_bal -64 amt)) y (y_bal +64 amt))

  unfoldable pub apply_debit_only : ℤ → ℤ → Store → Result Store
  apply_debit_only x amt s =
      let bal = balance_in_tx s x in
      if ltb_ℤ bal amt then err (insufficient x bal amt) else ok (set_balance_tx s x (bal -64 amt))

  unfoldable pub apply_credit_only : ℤ → ℤ → Store → Result Store
  apply_credit_only y amt s = ok (set_balance_tx s y (balance_in_tx s y +64 amt))

  unfoldable pub is_locked : Store → ℤ → Bool
  is_locked s item = is_present (db.get (item_key item) s.locks)

  -- The owner of the lock, or 0.
  unfoldable pub lock_seq : Store → ℤ → ℤ
  lock_seq s item = stored_or (pos 0) (db.get (item_key item) s.locks)

  unfoldable pub acquire_lock : ℤ → ℤ → Store → Bool × Store
  unfolding is_locked
  acquire_lock item seq s =
      if is_locked s item
      then (false, s)
      else (true, record s { locks = db.put (item_key item) (int64_to_bytes seq) s.locks })

  unfoldable pub acquire_lock_for_seq : ℤ → ℤ → Store → Bool × Store
  unfolding is_locked
  acquire_lock_for_seq item seq s =
      if is_locked s item then (lock_seq s item == seq, s) else acquire_lock item seq s

  unfoldable pub release_lock : ℤ → Store → Store
  release_lock item s = record s { locks = db.delete (item_key item) s.locks }

  unfoldable pub append_datastore : DatastoreEntry → Store → Store
  unfolding next_seq
  append_datastore e s =
      let next = next_seq (db.get meta_datastore_seq s.datastore) in
      let filed = db.put (seq_key next) (entry (record e { seq = of_word next })) s.datastore in
      record s { datastore = db.put meta_datastore_seq (last_seq (seq_key next)) filed }

  unfoldable pub datastore_entries : Store → Option (List DatastoreEntry)
  unfolding collect_entries
  datastore_entries s = collect_entries (db.for_each s.datastore)

  unfoldable pub wal_write : Bytes → WalPreimage → Store → Store
  wal_write txn_id preimage s = record s { wal = db.put txn_id preimage s.wal }

  -- The loop of `WALUndo` over the preimage.
  unfoldable pub restore_balances : WalPreimage → Store → Store
  restore_balances [] s = s
  restore_balances ((item, old) ∷ pre) s = restore_balances pre (set_balance_tx s item old)

  unfoldable pub wal_undo : Bytes → Store → Result Store
  wal_undo txn_id s = elim (db.get txn_id s.wal) [
    | none ↦ err (wal_not_found txn_id)
    | some pre ↦ ok (restore_balances pre s)
  ]

  unfoldable pub wal_delete : Bytes → Store → Store
  wal_delete txn_id s = record s { wal = db.delete txn_id s.wal }

  unfoldable pub wal_exists : Store → Bytes → Bool
  wal_exists s txn_id = is_present (db.get txn_id s.wal)

  unfoldable pub outstanding_2pc : Store → Outstanding
  unfolding keys_of
  outstanding_2pc s = record {
    wal_count = length (db.for_each s.wal);
    lock_count = length (db.for_each s.locks);
    wal_txn_ids = keys_of (db.for_each s.wal);
  }

  -- Where bbolt refuses the key the transaction changes nothing, and the engine ignores the error.
  unfoldable pub set_client_ts : Bytes → ℤ → Store → Store
  unfolding is_key
  set_client_ts client_id ts s = record s {
    client_ts =
        if is_key client_id then db.put client_id (int64_to_bytes ts) s.client_ts else s.client_ts;
  }

  unfoldable pub get_client_ts : Store → Bytes → ℤ
  get_client_ts s client_id = stored_or (pos 0) (db.get client_id s.client_ts)

  unfoldable pub clear_locks_and_wal : Store → Store
  clear_locks_and_wal s = record s { locks = db.fresh; wal = db.fresh }
