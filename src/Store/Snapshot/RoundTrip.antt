-- ===== src/Store/Snapshot/RoundTrip.antt =====
-- A snapshot that is exported and imported gives back the committed state, internal/store/snapshot.go.
use byz_bank.Prelude.{
  ◌≡◌, refl, sym, ap, ◌∙◌, Bool, true, false, [], ◌∷◌, Option, none, some, arith, All,
  if◌then◌else◌,
}
use byz_bank.Prelude.Int.{ℤ, pos, negsuc, IsInt64, wrap64, wrap64-wrap64}
use byz_bank.Prelude.Keys.{◌==◌, GoMap, get, put, get-put}
use byz_bank.Prelude.MapKeys.{DistinctKeys, put-DistinctKeys, none_of_has, All-get}
use byz_bank.Prelude.Text.{Bytes, bytes_key, itoa, atoi, atoi-itoa, parse_int-itoa}
use byz_bank.Store.Bbolt.{Bolt, IsKey}
use byz_bank.Store.Ascending.{IsAscending-DistinctKeys}
use byz_bank.Store.Codec.{item_key, int64_to_bytes, bytes_to_int64, bytes_to_int64-int64_to_bytes}
use byz_bank.Store.Types.{WalPreimage}
use byz_bank.Store.{Store, stored_or, get_balance, get_client_ts, is_locked, wal_exists}
use byz_bank.Store.Snapshot.{
  export_balances, export_client_ts, export_snapshot, import_snapshot, clamp64, must_atoi,
  import_balances, import_client_ts,
}

-- A stored number, and the key of an item.
abbrev pub IsNumber : Bytes → Type 0
IsNumber v = (z : ℤ) × (v ≡ int64_to_bytes z)

abbrev pub IsItemKey : Bytes → Type 0
IsItemKey k = (item : ℤ) × IsInt64 item × (k ≡ itoa item)

-- What a lookup gives of exported numbers.
abbrev exported : Option Bytes → Option ℤ → Option ℤ
exported none other = other
exported (some v) other = some (bytes_to_int64 v)

get-export_client_ts :
    (k : Bytes) (m : GoMap Bytes Bytes) (out : GoMap Bytes ℤ)
    → DistinctKeys m
    → get k (export_client_ts m out) ≡ exported (get k m) (get k out)
unfolding export_client_ts get
get-export_client_ts k [] out d = refl
get-export_client_ts k ((j, v) ∷ m) out (n, d) =
    get-export_client_ts k m (put j (bytes_to_int64 v) out) d ∙ here (j == k) refl
  where
    here :
        (b : Bool)
        → (j == k) ≡ b
        → exported (get k m) (get k (put j (bytes_to_int64 v) out))
          ≡ exported (if j == k then some v else get k m) (get k out)
    here true e =
        let same : j ≡ k = (bytes_key.beq_iff j k).0 e in
        rw (e, get-put j k (bytes_to_int64 v) out, e, none_of_has k m (rw same at n)) refl
    here false e = rw (e, get-put j k (bytes_to_int64 v) out, e) refl

export_client_ts-DistinctKeys :
    (m : GoMap Bytes Bytes) (out : GoMap Bytes ℤ)
    → DistinctKeys out
    → DistinctKeys (export_client_ts m out)
unfolding export_client_ts
export_client_ts-DistinctKeys [] out d = d
export_client_ts-DistinctKeys ((j, v) ∷ m) out d =
    export_client_ts-DistinctKeys m _ (put-DistinctKeys j _ out d)

-- On keys of items the balances are exported as the timestamps are.
export_balances-eq :
    (m : GoMap Bytes Bytes) (out : GoMap Bytes ℤ)
    → All (λ e. IsItemKey e.0) m
    → export_balances m out ≡ export_client_ts m out
unfolding export_balances export_client_ts
export_balances-eq [] out h = refl
export_balances-eq ((k, v) ∷ m) out ((item, fits, is), h) =
    let reads : atoi k ≡ some item = ap atoi is ∙ atoi-itoa item fits in
    rw (reads, ← is) (export_balances-eq m (put k (bytes_to_int64 v) out) h)

clamp64-eq : (z : ℤ) → IsInt64 z → clamp64 z ≡ z
clamp64-eq (pos n) h = ground arith
clamp64-eq (negsuc n) h = ground arith

must_atoi-itoa : (z : ℤ) → IsInt64 z → must_atoi (itoa z) ≡ z
unfolding must_atoi
must_atoi-itoa z h = rw (parse_int-itoa z, must_atoi) (clamp64-eq z h)

abbrev imported : Option ℤ → Option Bytes → Option Bytes
imported none other = other
imported (some z) other = some (int64_to_bytes z)

abbrev back : Option Bytes → Option Bytes
back o = imported (exported o none) none

-- A number that was exported and imported reads as it did.
stored_or-back :
    (default : ℤ) (o : Option Bytes)
    → ((v : Bytes) → o ≡ some v → IsNumber v)
    → stored_or default (back o) ≡ stored_or default o
stored_or-back default none h = refl
stored_or-back default (some v) h =
    let (z, is) = h v refl in
    let reads : bytes_to_int64 v ≡ wrap64 z =
      ap bytes_to_int64 is ∙ bytes_to_int64-int64_to_bytes z in
    bytes_to_int64-int64_to_bytes (bytes_to_int64 v) ∙ ap wrap64 reads ∙ wrap64-wrap64 z ∙ sym reads

some-exported : (o : Option Bytes) (z : ℤ) → exported o none ≡ some z → (v : Bytes) × (o ≡ some v)
some-exported none z h = cc h
some-exported (some v) z h = (v, refl)

module _ (db : Bolt) where
  get-import_client_ts :
      (k : Bytes) (m : GoMap Bytes ℤ) (b : db.Bucket Bytes)
      → DistinctKeys m
      → All (λ e. IsKey e.0) m
      → db.get k (import_client_ts db m b) ≡ imported (get k m) (db.get k b)
  unfolding import_client_ts get
  get-import_client_ts k [] b d h = refl
  get-import_client_ts k ((j, v) ∷ m) b (n, d) (key, keys) =
      get-import_client_ts k m (db.put j (int64_to_bytes v) b) d keys ∙ here (j == k) refl
    where
      here :
          (t : Bool)
          → (j == k) ≡ t
          → imported (get k m) (db.get k (db.put j (int64_to_bytes v) b))
            ≡ imported (if j == k then some v else get k m) (db.get k b)
      here true e =
          let same : j ≡ k = (bytes_key.beq_iff j k).0 e in
          rw (db.get-put j k (int64_to_bytes v) b key, e, none_of_has k m (rw same at n)) refl
      here false e = rw (db.get-put j k (int64_to_bytes v) b key, e) refl

  import_balances-eq :
      (m : GoMap Bytes ℤ) (b : db.Bucket Bytes)
      → All (λ e. IsItemKey e.0) m
      → import_balances db m b ≡ import_client_ts db m b
  unfolding import_balances import_client_ts item_key
  import_balances-eq [] b h = refl
  import_balances-eq ((k, v) ∷ m) b ((item, fits, is), h) =
      let reads : must_atoi k ≡ item = ap must_atoi is ∙ must_atoi-itoa item fits in
      rw (reads, ← is) (import_balances-eq m (db.put k (int64_to_bytes v) b) h)

  -- The store holds numbers of 64 bits only, its balances under keys of items: what the operations of the
  -- store write.
  pub record IsPortable (s : Store db) : Type 0 where
    pub balance_keys : (k v : Bytes) → db.get k s.balances ≡ some v → IsItemKey k
    pub balances : (k v : Bytes) → db.get k s.balances ≡ some v → IsNumber v
    pub timestamps : (k v : Bytes) → db.get k s.client_ts ≡ some v → IsNumber v

  distinct : (b : db.Bucket Bytes) → DistinctKeys (db.for_each b)
  distinct b = IsAscending-DistinctKeys (db.for_each b) (db.for_each-IsAscending b)

  exported_of :
      (k : Bytes) (b : db.Bucket Bytes)
      → get k (export_client_ts (db.for_each b) []) ≡ exported (db.get k b) none
  unfolding get
  exported_of k b =
      get-export_client_ts k (db.for_each b) [] (distinct b)
      ∙ ap (λ o. exported o none) (db.get-for_each k b)

  exported-IsKey :
      (b : db.Bucket Bytes) → All (λ e. IsKey e.0) (export_client_ts (db.for_each b) [])
  exported-IsKey b =
      All-get (λ k v. IsKey k) (export_client_ts (db.for_each b) [])
        (export_client_ts-DistinctKeys (db.for_each b) [] tt)
        (λ k z found.
          let (v, there) = some-exported (db.get k b) z (sym (exported_of k b) ∙ found) in
          db.get-IsKey k v b there)

  -- A bucket of numbers that is exported and imported.
  through :
      (k : Bytes) (b : db.Bucket Bytes)
      → db.get k (import_client_ts db (export_client_ts (db.for_each b) []) db.fresh)
        ≡ back (db.get k b)
  through k b =
      get-import_client_ts k _ db.fresh (export_client_ts-DistinctKeys (db.for_each b) [] tt)
        (exported-IsKey b)
      ∙ rw (exported_of k b, db.get-fresh {V = Bytes} k) refl

  through_balances :
      (b : db.Bucket Bytes)
      → ((k v : Bytes) → db.get k b ≡ some v → IsItemKey k)
      → import_balances db (export_balances (db.for_each b) []) db.fresh
        ≡ import_client_ts db (export_client_ts (db.for_each b) []) db.fresh
  through_balances b keyed =
      let known : All (λ e. IsItemKey e.0) (db.for_each b) =
        All-get (λ k v. IsItemKey k) (db.for_each b) (distinct b)
          (λ k v found. keyed k v (sym (db.get-for_each k b) ∙ found)) in
      let kept : All (λ e. IsItemKey e.0) (export_client_ts (db.for_each b) []) =
        All-get (λ k v. IsItemKey k) (export_client_ts (db.for_each b) [])
          (export_client_ts-DistinctKeys (db.for_each b) [] tt)
          (λ k z found.
            let (v, there) = some-exported (db.get k b) z (sym (exported_of k b) ∙ found) in
            keyed k v there) in
      rw (export_balances-eq (db.for_each b) [] known)
        (import_balances-eq (export_client_ts (db.for_each b) []) db.fresh kept)

  -- A replica that takes over an exported snapshot reads every balance and every client timestamp as the
  -- exporting replica does, and holds no lock and no WAL entry, whatever it held before. It is asked
  -- that the exporting store holds what the operations of the store write, and that both start their
  -- balances at the same number.
  pub import_snapshot-export_snapshot :
      (s t : Store db) (item : ℤ) (client txn_id : Bytes)
      → IsPortable s
      → t.initial_balance ≡ s.initial_balance
      → (get_balance db (import_snapshot db (export_snapshot db s) t) item ≡ get_balance db s item)
        × (get_client_ts db (import_snapshot db (export_snapshot db s) t) client
            ≡ get_client_ts db s client)
        × (is_locked db (import_snapshot db (export_snapshot db s) t) item ≡ false)
        × (wal_exists db (import_snapshot db (export_snapshot db s) t) txn_id ≡ false)
  unfolding get_balance get_client_ts is_locked wal_exists export_snapshot import_snapshot
  import_snapshot-export_snapshot s t item client txn_id p same = (
    rw (through_balances s.balances p.balance_keys, through (item_key item) s.balances, same)
        (stored_or-back s.initial_balance (db.get (item_key item) s.balances)
          (p.balances (item_key item))),
    rw (through client s.client_ts)
        (stored_or-back (pos 0) (db.get client s.client_ts) (p.timestamps client)),
    rw (db.get-fresh {V = Bytes} (item_key item)) refl,
    rw (db.get-fresh {V = WalPreimage} txn_id) refl,
  )
