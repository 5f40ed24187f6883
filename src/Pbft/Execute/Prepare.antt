-- ===== src/Pbft/Execute/Prepare.antt =====
-- The prepare phase of a cross-shard transfer as the replicas execute it: `executeCoordPrepare` and
-- `executePartPrepare` of internal/pbft/engine.go.
use byz_bank.Prelude.{
  ◌≡◌, refl, ◌∙◌, true, false, [], ◌∷◌, some, if◌then◌else◌, arith, Bool-cases, inl, inr,
}
use byz_bank.Prelude.Int.{ℤ, ◌+64◌, ◌-64◌, ltb_ℤ, wrap64-+64, wrap64--64, int_key}
use byz_bank.Prelude.Keys.{◌==◌}
use byz_bank.Prelude.Text.{Bytes, bytes_key}
use byz_bank.Store.Bbolt.{Bolt}
use byz_bank.Store.Types
use byz_bank.Store.Types.{DatastoreEntry, Outcome, prepare, committed, aborted}
use byz_bank.Store.Balances.{
  get_balance-set, apply_debit_only_short, apply_debit_only_covered, apply_credit_only_lem,
}
use byz_bank.Store.Frame.{
  get_balance-append_datastore, get_balance-wal_write, get_balance-release_lock,
  is_locked-release_lock, is_locked-append_datastore, lock_frame, wal_entry, wal_frame,
  wal_entry-release_lock, wal_entry-wal_write, wal_entry-append_datastore,
}
use byz_bank.Store.{
  Store, ok, wal_exists, get_balance, is_locked, set_balance_tx, release_lock, append_datastore,
  wal_write,
}
use byz_bank.Pbft.Signing.{txn_id-IsKey}
use byz_bank.Store.Types.{WalPreimage}
use byz_bank.Pbft.Crypto.{Crypto}
use byz_bank.Pbft.Messages.{Request, CertificateMsg, txn_id}
use byz_bank.Pbft.State.{Engine}
use byz_bank.Pbft.Execute.{entry_of, execute_coord_prepare, execute_part_prepare, credit_once}

module _ (db : Bolt) (c : Crypto) where
  coord_prepare_short :
      (r : Request) (seq : ℤ) (cert : CertificateMsg) (e : Engine db)
      → ltb_ℤ (get_balance db e.store r.x) r.amt ≡ true
      → (execute_coord_prepare db c r seq cert e).store ≡ release_lock db r.x e.store
  unfolding execute_coord_prepare
  coord_prepare_short r seq cert e h =
      rw (apply_debit_only_short db r.x r.amt e.store h, execute_coord_prepare)

  coord_prepared : Request → ℤ → Store db → Store db
  coord_prepared r view s = append_datastore db (entry_of Types.cross prepare r view committed) (
      wal_write db (txn_id c r) ((r.x, get_balance db s r.x) ∷ [])
        (set_balance_tx db s r.x (get_balance db s r.x -64 r.amt)))

  coord_prepare_covered :
      (r : Request) (seq : ℤ) (cert : CertificateMsg) (e : Engine db)
      → ltb_ℤ (get_balance db e.store r.x) r.amt ≡ false
      → (execute_coord_prepare db c r seq cert e).store ≡ coord_prepared r e.view e.store
  unfolding execute_coord_prepare coord_prepared
  coord_prepare_covered r seq cert e h =
      rw (apply_debit_only_covered db r.x r.amt e.store h, execute_coord_prepare) (ground arith)

  coord_prepared-balances :
      (r : Request) (view z : ℤ) (s : Store db)
      → get_balance db (coord_prepared r view s) z
        ≡ (if r.x == z then get_balance db s r.x -64 r.amt else get_balance db s z)
  unfolding coord_prepared
  coord_prepared-balances r view z s =
      simp (get_balance-append_datastore, get_balance-wal_write, get_balance-set, wrap64--64)

  wal_entry-logged :
      (r : Request) (s : Store db) (k : Bytes) (pre : WalPreimage)
      → wal_entry db (wal_write db (txn_id c r) pre s) k
        ≡ (if txn_id c r == k then some pre else wal_entry db s k)
  wal_entry-logged r s k pre = wal_entry-wal_write db s (txn_id c r) k pre (txn_id-IsKey c r)

  coord_prepared-entries :
      (r : Request) (view : ℤ) (k : Bytes) (s : Store db)
      → wal_entry db (coord_prepared r view s) k
        ≡ (if txn_id c r == k then some ((r.x, get_balance db s r.x) ∷ []) else wal_entry db s k)
  unfolding coord_prepared
  coord_prepared-entries r view k s = simp (wal_frame, wal_entry-logged)

  coord_prepared-locks :
      (r : Request) (view z : ℤ) (s : Store db)
      → is_locked db (coord_prepared r view s) z ≡ is_locked db s z
  unfolding coord_prepared
  coord_prepared-locks r view z s = simp lock_frame

  part_credited : Request → Store db → Store db
  part_credited r s =
      if wal_exists db s (txn_id c r)
      then s
      else wal_write db (txn_id c r) ((r.y, get_balance db s r.y) ∷ [])
          (set_balance_tx db s r.y (get_balance db s r.y +64 r.amt))

  credit_once_lem : (r : Request) (s : Store db) → credit_once db c r s ≡ ok (part_credited r s)
  unfolding credit_once part_credited
  credit_once_lem r s = rw (apply_credit_only_lem db r.y r.amt s) (ground arith)

  part_prepare_commit_lem :
      (r : Request) (seq : ℤ) (cert : CertificateMsg) (e : Engine db)
      → (execute_part_prepare db c r seq cert committed e).store
        ≡ append_datastore db
            (entry_of Types.cross prepare r e.view committed)
            (part_credited r e.store)
  unfolding execute_part_prepare
  part_prepare_commit_lem r seq cert e =
      rw (credit_once_lem r e.store, execute_part_prepare) (ground arith)

  part_prepare_abort_lem :
      (r : Request) (seq : ℤ) (cert : CertificateMsg) (e : Engine db)
      → (execute_part_prepare db c r seq cert aborted e).store
        ≡ append_datastore db (entry_of Types.cross prepare r e.view aborted) e.store
  unfolding execute_part_prepare
  part_prepare_abort_lem r seq cert e = ground arith

  -- The coordinator's prepare, on every branch. With enough money on x it is debited, its old
  -- balance is logged under the transaction and the locks stay; otherwise only the lock on x goes.
  pub coord_prepare_lem :
      (r : Request) (seq : ℤ) (cert : CertificateMsg) (e : Engine db) (z : ℤ) (k : Bytes)
      → let s = e.store in
        let s' = (execute_coord_prepare db c r seq cert e).store in
        let short = ltb_ℤ (get_balance db s r.x) r.amt in
        (get_balance db s' z ≡ (
          if short
          then get_balance db s z
          else if r.x == z
          then get_balance db s r.x -64 r.amt
          else get_balance db s z))
        × (wal_entry db s' k ≡ (
            if short
            then wal_entry db s k
            else if txn_id c r == k
            then some ((r.x, get_balance db s r.x) ∷ [])
            else wal_entry db s k))
        × (is_locked db s' z
            ≡ (if short then (if r.x == z then false else is_locked db s z) else is_locked db s z))
  coord_prepare_lem r seq cert e z k =
      elim (Bool-cases (ltb_ℤ (get_balance db e.store r.x) r.amt)) [
        | inl short ↦
            rw (coord_prepare_short r seq cert e short, short)
              (
                get_balance-release_lock db e.store r.x z,
                wal_entry-release_lock db e.store r.x k,
                is_locked-release_lock db e.store r.x z,
              )
        | inr covered ↦
            rw (coord_prepare_covered r seq cert e covered, covered)
              (
                coord_prepared-balances r e.view z e.store,
                coord_prepared-entries r e.view k e.store,
                coord_prepared-locks r e.view z e.store,
              )
      ]

  part_credited_lem :
      (r : Request) (s : Store db) (z : ℤ) (k : Bytes)
      → let s' = part_credited r s in
        let logged = wal_exists db s (txn_id c r) in
        (get_balance db s' z ≡ (
          if logged
          then get_balance db s z
          else if r.y == z
          then get_balance db s r.y +64 r.amt
          else get_balance db s z))
        × (wal_entry db s' k ≡ (
            if logged
            then wal_entry db s k
            else if txn_id c r == k
            then some ((r.y, get_balance db s r.y) ∷ [])
            else wal_entry db s k))
        × (is_locked db s' z ≡ is_locked db s z)
  unfolding part_credited
  part_credited_lem r s z k = elim (Bool-cases (wal_exists db s (txn_id c r))) [
    | inl logged ↦ rw logged (refl, refl, refl)
    | inr fresh ↦ rw fresh (
      simp (get_balance-wal_write, get_balance-set, wrap64-+64),
      simp (wal_frame, wal_entry-logged),
      simp lock_frame,
    )
  ]

  -- The participant's prepare credits y and logs its old balance, once for a transaction: if the WAL
  -- has an entry of it, the balances and the WAL stay as they are. A prepare with outcome abort
  -- changes neither. No lock changes.
  pub part_prepare_lem :
      (r : Request) (seq : ℤ) (cert : CertificateMsg) (e : Engine db) (z : ℤ) (k : Bytes)
      → let s = e.store in
        let s' = (execute_part_prepare db c r seq cert committed e).store in
        let s'' = (execute_part_prepare db c r seq cert aborted e).store in
        let logged = wal_exists db s (txn_id c r) in
        (get_balance db s' z ≡ (
          if logged
          then get_balance db s z
          else if r.y == z
          then get_balance db s r.y +64 r.amt
          else get_balance db s z))
        × (wal_entry db s' k ≡ (
            if logged
            then wal_entry db s k
            else if txn_id c r == k
            then some ((r.y, get_balance db s r.y) ∷ [])
            else wal_entry db s k))
        × (is_locked db s' z ≡ is_locked db s z)
        × (get_balance db s'' z ≡ get_balance db s z)
        × (wal_entry db s'' k ≡ wal_entry db s k)
        × (is_locked db s'' z ≡ is_locked db s z)
  part_prepare_lem r seq cert e z k =
      let (b, w, l) = part_credited_lem r e.store z k in
      let d = entry_of Types.cross prepare r e.view committed in
      let d' = entry_of Types.cross prepare r e.view aborted in
      rw (part_prepare_commit_lem r seq cert e, part_prepare_abort_lem r seq cert e)
        (
          get_balance-append_datastore db (part_credited r e.store) d z ∙ b,
          wal_entry-append_datastore db (part_credited r e.store) d k ∙ w,
          is_locked-append_datastore db (part_credited r e.store) d z ∙ l,
          get_balance-append_datastore db e.store d' z,
          wal_entry-append_datastore db e.store d' k,
          is_locked-append_datastore db e.store d' z,
        )
