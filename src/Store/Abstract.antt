-- ===== src/Store/Abstract.antt =====
-- A replica's state as its clients see it: functions for balances, locks, WAL and timestamps, without
-- buckets, keys and bytes, and without the datastore. Each operation of internal/store/store.go is one
-- on this state.
use byz_bank.Prelude.{
  ◌≡◌, inl, inr, Bool-cases, refl, ap, ◌∙◌, fun_ext, Bool, true, false, [], ◌∷◌, Option, none, some,
  if◌then◌else◌, arith,
}
use byz_bank.Prelude.Int.{ℤ, pos, wrap64, int_key}
use byz_bank.Prelude.Keys.{◌==◌, Key}
use byz_bank.Prelude.Text.{Bytes, bytes_key}
use byz_bank.Store.Bbolt.{Bolt, IsKey, is_key, is_key-IsKey}
use byz_bank.Store.Types.{DatastoreEntry, WalPreimage}
use byz_bank.Store.Codec.{int64_to_bytes, bytes_to_int64-int64_to_bytes}
use byz_bank.Store.Balances.{get_balance-set}
use byz_bank.Store.Frame.{is_locked-release_lock}
use byz_bank.Store.{
  Store, get_balance, set_balance_tx, is_locked, release_lock, append_datastore, wal_write,
  wal_delete, restore_balances, set_client_ts, get_client_ts, stored_or,
}

pub record Bank : Type 0 where
  pub balance : ℤ → ℤ
  pub locked : ℤ → Bool
  pub preimage : Bytes → Option WalPreimage
  pub last_ts : Bytes → ℤ

-- A function that is changed at one place.
abbrev pub update : {K V : Type 0} ⦃e : Key K⦄ → K → V → (K → V) → K → V
update k v f j = if k == j then v else f j

abbrev pub set_balance : ℤ → ℤ → Bank → Bank
set_balance item bal b = record b { balance = update item bal b.balance }

abbrev pub unlock : ℤ → Bank → Bank
unlock item b = record b { locked = update item false b.locked }

abbrev pub log_preimage : Bytes → Option WalPreimage → Bank → Bank
log_preimage txn_id pre b = record b { preimage = update txn_id pre b.preimage }

-- A client whose id the database refuses as a key has no timestamp.
abbrev pub stamp : Bytes → ℤ → Bank → Bank
stamp client_id ts b = record b {
  last_ts = if is_key client_id then update client_id (wrap64 ts) b.last_ts else b.last_ts;
}

-- The balances of a preimage are put back, each as its 64 bits.
unfoldable pub restore : WalPreimage → Bank → Bank
restore [] b = b
restore ((item, old) ∷ pre) b = restore pre (set_balance item (wrap64 old) b)

module _ (db : Bolt) where
  unfoldable pub bank_of : Store db → Bank
  bank_of s = record {
    balance = get_balance db s;
    locked = is_locked db s;
    preimage = λ txn_id. db.get txn_id s.wal;
    last_ts = get_client_ts db s;
  }

  pub bank-set_balance_tx :
      (item bal : ℤ) (s : Store db)
      → bank_of (set_balance_tx db s item bal) ≡ set_balance item (wrap64 bal) (bank_of s)
  unfolding bank_of set_balance_tx is_locked get_client_ts
  bank-set_balance_tx item bal s =
      ap (λ (f : ℤ → ℤ). record (bank_of s) { balance = f })
        (fun_ext λ z. get_balance-set db s item z bal)

  pub bank-append_datastore :
      (e : DatastoreEntry) (s : Store db) → bank_of (append_datastore db e s) ≡ bank_of s
  unfolding bank_of append_datastore is_locked get_client_ts get_balance
  bank-append_datastore e s = refl

  pub bank-release_lock :
      (item : ℤ) (s : Store db) → bank_of (release_lock db item s) ≡ unlock item (bank_of s)
  unfolding bank_of release_lock get_client_ts get_balance
  bank-release_lock item s =
      ap (λ (f : ℤ → Bool). record (bank_of s) { locked = f })
        (fun_ext λ z. is_locked-release_lock db s item z)

  pub bank-wal_write :
      (txn_id : Bytes) (pre : WalPreimage) (s : Store db)
      → IsKey txn_id
      → bank_of (wal_write db txn_id pre s) ≡ log_preimage txn_id (some pre) (bank_of s)
  unfolding bank_of wal_write is_locked get_client_ts get_balance
  bank-wal_write txn_id pre s key =
      ap (λ (f : Bytes → Option WalPreimage). record (bank_of s) { preimage = f })
        (fun_ext λ j. db.get-put txn_id j pre s.wal key)

  pub bank-wal_delete :
      (txn_id : Bytes) (s : Store db)
      → bank_of (wal_delete db txn_id s) ≡ log_preimage txn_id none (bank_of s)
  unfolding bank_of wal_delete is_locked get_client_ts get_balance
  bank-wal_delete txn_id s =
      ap (λ (f : Bytes → Option WalPreimage). record (bank_of s) { preimage = f })
        (fun_ext λ j. db.get-delete txn_id j s.wal)

  stamped :
      (client_id j : Bytes) (ts : ℤ) (s : Store db)
      → is_key client_id ≡ true
      → stored_or (pos 0) (db.get j (db.put client_id (int64_to_bytes ts) s.client_ts))
        ≡ update client_id (wrap64 ts) (get_client_ts db s) j
  unfolding get_client_ts
  stamped client_id j ts s key = ground (
    arith,
    db.get-put client_id j (int64_to_bytes ts) s.client_ts (is_key-IsKey client_id key),
    bytes_to_int64-int64_to_bytes ts,
  )

  pub bank-set_client_ts :
      (client_id : Bytes) (ts : ℤ) (s : Store db)
      → bank_of (set_client_ts db client_id ts s) ≡ stamp client_id ts (bank_of s)
  unfolding bank_of set_client_ts is_locked get_balance get_client_ts
  bank-set_client_ts client_id ts s = elim (Bool-cases (is_key client_id)) [
    | inl taken ↦ rw taken (
        ap (λ (f : Bytes → ℤ). record (bank_of s) { last_ts = f })
          (fun_ext λ j. stamped client_id j ts s taken))
    | inr refused ↦ rw refused refl
  ]

  pub bank-restore_balances :
      (pre : WalPreimage) (s : Store db)
      → bank_of (restore_balances db pre s) ≡ restore pre (bank_of s)
  unfolding restore_balances restore
  bank-restore_balances [] s = refl
  bank-restore_balances ((item, old) ∷ pre) s =
      bank-restore_balances pre (set_balance_tx db s item old)
      ∙ ap (restore pre) (bank-set_balance_tx item old s)
