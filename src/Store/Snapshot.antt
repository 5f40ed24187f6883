-- ===== src/Store/Snapshot.antt =====
-- internal/store/snapshot.go: a portable copy of a replica's committed state. The JSON text of a snapshot
-- stands for its value, and errors of the disk are left out.
pub mod RoundTrip
pub mod Portable
pub mod Log
use byz_bank.Prelude.{ℕ, ◌+◌, ◌-◌, ◌^◌, List, [], ◌∷◌, ◌++◌, Option, none, some, if◌then◌else◌, ltb}
use byz_bank.Prelude.Int.{ℤ, pos, negsuc, to_word}
use byz_bank.Prelude.Keys.{◌==◌, GoMap, put}
use byz_bank.Prelude.Text.{Bytes, bytes_key, itoa, atoi, parse_int}
use byz_bank.Store.Bbolt.{Bolt}
use byz_bank.Store.Types.{DatastoreEntry, Cell, last_seq, entry}
use byz_bank.Store.Codec.{item_key, seq_key, int64_to_bytes, bytes_to_int64, bytes_value}
use byz_bank.Store.{Store, meta_datastore_seq}

pub record Snapshot : Type 0 where
  pub balances : GoMap Bytes ℤ
  pub client_ts : GoMap Bytes ℤ
  pub datastore : List DatastoreEntry
  pub datastore_seq : ℕ

-- The callback on a balance: a key that is no number is passed over.
unfoldable pub export_balances : GoMap Bytes Bytes → GoMap Bytes ℤ → GoMap Bytes ℤ
export_balances [] out = out
export_balances ((k, v) ∷ m) out =
    let out' : GoMap Bytes ℤ = elim (atoi k) [
      | none ↦ out
      | some item ↦ put (itoa item) (bytes_to_int64 v) out
    ] in
    export_balances m out'

unfoldable pub export_client_ts : GoMap Bytes Bytes → GoMap Bytes ℤ → GoMap Bytes ℤ
export_client_ts [] out = out
export_client_ts ((k, v) ∷ m) out = export_client_ts m (put k (bytes_to_int64 v) out)

-- The callback on the datastore: a value that is no entry is passed over.
unfoldable pub export_entries : GoMap Bytes Cell → List DatastoreEntry
export_entries [] = []
export_entries ((k, c) ∷ m) =
    let rest = export_entries m in
    if k == meta_datastore_seq then rest else elim c [ last_seq b ↦ rest | entry e ↦ e ∷ rest ]

-- `binary.BigEndian.Uint64` of what stands under the key "seq", where no entry stands.
abbrev pub stored_seq : Option Cell → ℕ
stored_seq none = 0
stored_seq (some (last_seq b)) = bytes_value 0 b
stored_seq (some (entry e)) = 0

-- `mustAtoi`: 0 for what is no number, and the nearest value for one that 64 bits do not hold.
abbrev pub clamp64 : ℤ → ℤ
clamp64 (pos n) = if ltb n (2 ^ 63) then pos n else pos (2 ^ 63 - 1)
clamp64 (negsuc n) = if ltb n (2 ^ 63) then negsuc n else negsuc (2 ^ 63 - 1)

unfoldable pub must_atoi : Bytes → ℤ
must_atoi s = elim (parse_int s) [ none ↦ pos 0 | some z ↦ clamp64 z ]

module _ (db : Bolt) where
  unfoldable pub export_snapshot : Store db → Snapshot
  unfolding export_balances export_client_ts export_entries
  export_snapshot s = record {
    balances = export_balances (db.for_each s.balances) [];
    client_ts = export_client_ts (db.for_each s.client_ts) [];
    datastore = export_entries (db.for_each s.datastore);
    datastore_seq = stored_seq (db.get meta_datastore_seq s.datastore);
  }

  unfoldable pub import_balances : GoMap Bytes ℤ → db.Bucket Bytes → db.Bucket Bytes
  import_balances [] b = b
  import_balances ((item, v) ∷ m) b =
      import_balances m (db.put (item_key (must_atoi item)) (int64_to_bytes v) b)

  unfoldable pub import_entries : List DatastoreEntry → db.Bucket Cell → db.Bucket Cell
  import_entries [] b = b
  import_entries (e ∷ es) b = import_entries es (db.put (seq_key (to_word e.seq)) (entry e) b)

  unfoldable pub import_client_ts : GoMap Bytes ℤ → db.Bucket Bytes → db.Bucket Bytes
  import_client_ts [] b = b
  import_client_ts ((id, ts) ∷ m) b = import_client_ts m (db.put id (int64_to_bytes ts) b)

  -- The import of a snapshot whose keys `Put` takes, as those of every store are. The buckets are deleted and made again; the configuration of the store stays.
  unfoldable pub import_snapshot : Snapshot → Store db → Store db
  unfolding import_balances import_entries import_client_ts
  import_snapshot snap s = record s {
    balances = import_balances snap.balances db.fresh;
    datastore =
        import_entries snap.datastore
          (db.put meta_datastore_seq (last_seq (seq_key snap.datastore_seq)) db.fresh);
    locks = db.fresh;
    wal = db.fresh;
    client_ts = import_client_ts snap.client_ts db.fresh;
  }
