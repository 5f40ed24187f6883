-- ===== src/Store/Frame.antt =====
-- What each operation of internal/store/store.go leaves alone, and what it does to the locks and the
-- WAL. The rulesets read an observation through a chain of operations.
use byz_bank.Prelude.{◌≡◌, refl, true, false, [], ◌∷◌, Option, none, some, if◌then◌else◌, arith}
use byz_bank.Prelude.Int.{ℤ, wrap64, int_key, ==_ℤ_iff}
use byz_bank.Prelude.Keys.{◌==◌}
use byz_bank.Prelude.Text.{Bytes, bytes_key}
use byz_bank.Store.Bbolt.{Bolt, IsKey}
use byz_bank.Store.Types.{DatastoreEntry, WalPreimage}
use byz_bank.Store.Codec.{item_key, int64_to_bytes, bytes_to_int64-int64_to_bytes}
use byz_bank.Store.Balances.{item_key-IsKey, item_key-eq}
use byz_bank.Store.{
  Store, ok, is_present, get_balance, set_balance_tx, is_locked, lock_seq, acquire_lock,
  release_lock, append_datastore, wal_write, wal_delete, wal_exists, wal_undo, restore_balances,
  set_client_ts,
}

module _ (db : Bolt) where
  -- The WAL entry of a transaction.
  abbrev pub wal_entry : Store db → Bytes → Option WalPreimage
  wal_entry s txn_id = db.get txn_id s.wal

  pub get_balance-append_datastore :
      (s : Store db) (e : DatastoreEntry) (z : ℤ)
      → get_balance db (append_datastore db e s) z ≡ get_balance db s z
  unfolding get_balance append_datastore
  get_balance-append_datastore s e z = refl

  pub get_balance-release_lock :
      (s : Store db) (i z : ℤ) → get_balance db (release_lock db i s) z ≡ get_balance db s z
  unfolding get_balance release_lock
  get_balance-release_lock s i z = refl

  pub get_balance-wal_write :
      (s : Store db) (k : Bytes) (pre : WalPreimage) (z : ℤ)
      → get_balance db (wal_write db k pre s) z ≡ get_balance db s z
  unfolding get_balance wal_write
  get_balance-wal_write s k pre z = refl

  pub get_balance-wal_delete :
      (s : Store db) (k : Bytes) (z : ℤ) → get_balance db (wal_delete db k s) z ≡ get_balance db s z
  unfolding get_balance wal_delete
  get_balance-wal_delete s k z = refl

  pub get_balance-set_client_ts :
      (s : Store db) (k : Bytes) (ts z : ℤ)
      → get_balance db (set_client_ts db k ts s) z ≡ get_balance db s z
  unfolding get_balance set_client_ts
  get_balance-set_client_ts s k ts z = refl

  pub is_locked-append_datastore :
      (s : Store db) (e : DatastoreEntry) (z : ℤ)
      → is_locked db (append_datastore db e s) z ≡ is_locked db s z
  unfolding is_locked append_datastore
  is_locked-append_datastore s e z = refl

  pub is_locked-wal_write :
      (s : Store db) (k : Bytes) (pre : WalPreimage) (z : ℤ)
      → is_locked db (wal_write db k pre s) z ≡ is_locked db s z
  unfolding is_locked wal_write
  is_locked-wal_write s k pre z = refl

  pub is_locked-wal_delete :
      (s : Store db) (k : Bytes) (z : ℤ) → is_locked db (wal_delete db k s) z ≡ is_locked db s z
  unfolding is_locked wal_delete
  is_locked-wal_delete s k z = refl

  pub is_locked-set_client_ts :
      (s : Store db) (k : Bytes) (ts z : ℤ)
      → is_locked db (set_client_ts db k ts s) z ≡ is_locked db s z
  unfolding is_locked set_client_ts
  is_locked-set_client_ts s k ts z = refl

  pub is_locked-set_balance :
      (s : Store db) (i b z : ℤ) → is_locked db (set_balance_tx db s i b) z ≡ is_locked db s z
  unfolding is_locked set_balance_tx
  is_locked-set_balance s i b z = refl

  -- A released lock is free, and no other lock changes.
  pub is_locked-release_lock :
      (s : Store db) (i z : ℤ)
      → is_locked db (release_lock db i s) z ≡ (if i == z then false else is_locked db s z)
  unfolding is_locked release_lock
  is_locked-release_lock s i z =
      rw (db.get-delete (item_key i) (item_key z) s.locks, item_key-eq i z) (ground arith)

  -- A free lock is taken and a held one refused, whoever holds it; no other lock changes.
  pub acquire_lock_lem :
      (s : Store db) (i seq z : ℤ)
      → ((acquire_lock db i seq s).0 ≡ (if is_locked db s i then false else true))
        × (is_locked db (acquire_lock db i seq s).1 z ≡ (if i == z then true else is_locked db s z))
        × (lock_seq db (acquire_lock db i seq s).1 z ≡ (
            if is_locked db s i
            then lock_seq db s z
            else if i == z
            then wrap64 seq
            else lock_seq db s z))
  unfolding acquire_lock is_locked lock_seq
  acquire_lock_lem s i seq z = ground (
    arith,
    db.get-put (item_key i) (item_key z) (int64_to_bytes seq) s.locks (item_key-IsKey i),
    item_key-eq i z,
    ==_ℤ_iff i z,
    bytes_to_int64-int64_to_bytes seq,
  )

  pub wal_entry-wal_write :
      (s : Store db) (k j : Bytes) (pre : WalPreimage)
      → IsKey k
      → wal_entry (wal_write db k pre s) j ≡ (if k == j then some pre else wal_entry s j)
  unfolding wal_write
  wal_entry-wal_write s k j pre key = db.get-put k j pre s.wal key

  pub wal_entry-wal_delete :
      (s : Store db) (k j : Bytes)
      → wal_entry (wal_delete db k s) j ≡ (if k == j then none else wal_entry s j)
  unfolding wal_delete
  wal_entry-wal_delete s k j = db.get-delete k j s.wal

  pub wal_entry-append_datastore :
      (s : Store db) (d : DatastoreEntry) (k : Bytes)
      → wal_entry (append_datastore db d s) k ≡ wal_entry s k
  unfolding append_datastore
  wal_entry-append_datastore s d k = refl

  pub wal_entry-set_balance :
      (s : Store db) (i b : ℤ) (k : Bytes) → wal_entry (set_balance_tx db s i b) k ≡ wal_entry s k
  unfolding set_balance_tx
  wal_entry-set_balance s i b k = refl

  pub wal_entry-release_lock :
      (s : Store db) (i : ℤ) (k : Bytes) → wal_entry (release_lock db i s) k ≡ wal_entry s k
  unfolding release_lock
  wal_entry-release_lock s i k = refl

  pub wal_entry-set_client_ts :
      (s : Store db) (id : Bytes) (ts : ℤ) (k : Bytes)
      → wal_entry (set_client_ts db id ts s) k ≡ wal_entry s k
  unfolding set_client_ts
  wal_entry-set_client_ts s id ts k = refl

  pub wal_exists_lem : (s : Store db) (k : Bytes) → wal_exists db s k ≡ is_present (wal_entry s k)
  unfolding wal_exists
  wal_exists_lem s k = refl

  -- `WALUndo` of a one-item preimage puts that balance back, and touches nothing else.
  pub wal_undo_single :
      (s : Store db) (k : Bytes) (i old : ℤ)
      → wal_entry s k ≡ some ((i, old) ∷ [])
      → wal_undo db k s ≡ ok (set_balance_tx db s i old)
  unfolding wal_undo restore_balances
  wal_undo_single s k i old h = rw (h, wal_undo)

pub ruleset balance_frame = (
  get_balance-append_datastore, get_balance-release_lock, get_balance-wal_write,
  get_balance-wal_delete, get_balance-set_client_ts,
)

pub ruleset lock_frame = (
  is_locked-append_datastore, is_locked-wal_write, is_locked-wal_delete, is_locked-set_client_ts,
  is_locked-set_balance, is_locked-release_lock,
)

pub ruleset wal_frame = (
  wal_entry-append_datastore, wal_entry-wal_delete, wal_entry-set_balance, wal_entry-release_lock,
  wal_entry-set_client_ts,
)
