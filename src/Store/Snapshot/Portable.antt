-- ===== src/Store/Snapshot/Portable.antt =====
-- The stores whose snapshots carry all of their balances, internal/store/snapshot.go: a new store, and what
-- the operations of the store make of one.
use byz_bank.Prelude.{◌≡◌, refl, inl, inr, Bool-cases, some}
use byz_bank.Prelude.Int.{ℤ, IsInt64}
use byz_bank.Prelude.Keys.{◌==◌}
use byz_bank.Prelude.Text.{Bytes, bytes_key}
use byz_bank.Store.Bbolt.{Bolt, is_key, IsKey, is_key-IsKey}
use byz_bank.Store.Balances.{item_key-IsKey}
use byz_bank.Store.Codec.{item_key, int64_to_bytes}
use byz_bank.Store.{Store, open_store, set_balance_tx, set_client_ts}
use byz_bank.Store.Snapshot.RoundTrip.{IsNumber, IsPortable}

module _ (db : Bolt) where
  pub open_store-IsPortable : (initial total : ℤ) → IsPortable db (open_store db initial total)
  unfolding open_store
  open_store-IsPortable initial total = record {
    balance_keys = λ k v h. cc (h, db.get-fresh {V = Bytes} k);
    balances = λ k v h. cc (h, db.get-fresh {V = Bytes} k);
    timestamps = λ k v h. cc (h, db.get-fresh {V = Bytes} k);
  }

  -- What holds of all entries holds after one more of them.
  put-All :
      (P : Bytes → Bytes → Type 0) (k v : Bytes) (b : db.Bucket Bytes)
      → IsKey k
      → P k v
      → ((j w : Bytes) → db.get j b ≡ some w → P j w)
      → (j w : Bytes) → db.get j (db.put k v b) ≡ some w
      → P j w
  put-All P k v b key new old j w h = elim (Bool-cases (k == j)) [
    | inl same ↦
        let e : k ≡ j = (bytes_key.beq_iff k j).0 same in
        let is : v ≡ w = cc (h, rw same at (db.get-put k j v b key)) in rw (← e, ← is) new
    | inr apart ↦ old j w (cc (h, rw apart at (db.get-put k j v b key)))
  ]

  pub set_balance_tx-IsPortable :
      (s : Store db) (item bal : ℤ)
      → IsInt64 item
      → IsPortable db s
      → IsPortable db (set_balance_tx db s item bal)
  unfolding set_balance_tx item_key
  set_balance_tx-IsPortable s item bal fits p = record {
    balance_keys =
        put-All (λ k v. (i : ℤ) × IsInt64 i × (k ≡ item_key i)) (item_key item) (int64_to_bytes bal)
          s.balances (item_key-IsKey item) (item, fits, refl) p.balance_keys;
    balances =
        put-All (λ k v. IsNumber v) (item_key item) (int64_to_bytes bal) s.balances
          (item_key-IsKey item) (bal, refl) p.balances;
    timestamps = p.timestamps;
  }

  pub set_client_ts-IsPortable :
      (s : Store db) (client_id : Bytes) (ts : ℤ)
      → IsPortable db s
      → IsPortable db (set_client_ts db client_id ts s)
  unfolding set_client_ts
  set_client_ts-IsPortable s client_id ts p = record {
    balance_keys = p.balance_keys;
    balances = p.balances;
    timestamps = elim (Bool-cases (is_key client_id)) [
      | inl taken ↦ rw taken (
          put-All (λ k v. IsNumber v) client_id (int64_to_bytes ts) s.client_ts
            (is_key-IsKey client_id taken) (ts, refl) p.timestamps)
      | inr refused ↦ rw refused (p.timestamps)
    ];
  }
