-- ===== src/Pbft/Execute/Finish.antt =====
-- The commit phase of a cross-shard transfer as the replicas execute it: the commits and the aborts
-- of internal/pbft/engine.go.
use byz_bank.Prelude.{
  ◌≡◌, refl, ◌∙◌, false, [], ◌∷◌, none, some, if◌then◌else◌, arith, Bool-cases, inl, inr,
}
use byz_bank.Prelude.Int.{ℤ, wrap64-eq, IsInt64, int_key, ==_ℤ_iff}
use byz_bank.Prelude.Keys.{◌==◌}
use byz_bank.Prelude.Text.{Bytes, bytes_key}
use byz_bank.Store.Bbolt.{Bolt}
use byz_bank.Store.Types
use byz_bank.Store.Types.{Outcome, commit, committed, aborted}
use byz_bank.Store.Balances.{get_balance-set}
use byz_bank.Store.Frame.{
  balance_frame, lock_frame, wal_frame, get_balance-wal_delete, get_balance-set_client_ts,
  get_balance-append_datastore, wal_entry-set_client_ts, wal_entry-append_datastore,
  is_locked-set_client_ts, is_locked-append_datastore, wal_entry, wal_undo_single, wal_exists_lem,
}
use byz_bank.Store.{
  Store, get_balance, is_locked, set_balance_tx, release_lock, append_datastore, wal_delete,
  set_client_ts,
}
use byz_bank.Pbft.Crypto.{Crypto}
use byz_bank.Pbft.Messages.{Request, CertificateMsg, txn_id}
use byz_bank.Pbft.State.{Engine}
use byz_bank.Pbft.Execute.{
  entry_of, execute_coord_commit, execute_coord_abort, execute_part_commit, execute_part_abort,
  undo_if_logged, unlock_if_locked, send_client_reply,
}

module _ (db : Bolt) (c : Crypto) where
  unlock_if_locked_lem :
      (s : Store db) (i z : ℤ) (k : Bytes)
      → (get_balance db (unlock_if_locked db c i s) z ≡ get_balance db s z)
        × (wal_entry db (unlock_if_locked db c i s) k ≡ wal_entry db s k)
        × (is_locked db (unlock_if_locked db c i s) z
            ≡ (if i == z then false else is_locked db s z))
  unfolding unlock_if_locked
  unlock_if_locked_lem s i z k = elim (Bool-cases (is_locked db s i)) [
    | inl held ↦ rw held (simp balance_frame, simp wal_frame, simp lock_frame)
    | inr free ↦ rw free (refl, refl, ground (arith, ==_ℤ_iff i z))
  ]

  -- An undo of a logged one-item preimage.
  undo_logged :
      (r : Request) (s : Store db) (i old : ℤ)
      → wal_entry db s (txn_id c r) ≡ some ((i, old) ∷ [])
      → undo_if_logged db c r s ≡ wal_delete db (txn_id c r) (set_balance_tx db s i old)
  unfolding undo_if_logged
  undo_logged r s i old h =
      rw (wal_exists_lem db s (txn_id c r), h, wal_undo_single db s (txn_id c r) i old h)

  undo_absent :
      (r : Request) (s : Store db)
      → wal_entry db s (txn_id c r) ≡ none
      → undo_if_logged db c r s ≡ s
  unfolding undo_if_logged
  undo_absent r s h = rw (wal_exists_lem db s (txn_id c r), h)

  coord_commit_store :
      (r : Request) (seq : ℤ) (cert : CertificateMsg) (e : Engine db)
      → (execute_coord_commit db c r seq cert e).store
        ≡ set_client_ts db r.client_id r.ts (
            release_lock db r.x (
              wal_delete db
                (txn_id c r)
                (append_datastore db (entry_of Types.cross commit r e.view committed) e.store)))
  unfolding execute_coord_commit send_client_reply
  coord_commit_store r seq cert e = ground arith

  part_commit_store :
      (r : Request) (seq : ℤ) (cert : CertificateMsg) (e : Engine db)
      → (execute_part_commit db c r seq cert e).store
        ≡ unlock_if_locked db c r.y (
            wal_delete db
              (txn_id c r)
              (append_datastore db (entry_of Types.cross commit r e.view committed) e.store))
  unfolding execute_part_commit
  part_commit_store r seq cert e = ground arith

  coord_abort_store :
      (r : Request) (seq : ℤ) (cert : CertificateMsg) (e : Engine db)
      → (execute_coord_abort db c r seq cert e).store
        ≡ set_client_ts db r.client_id r.ts (
            unlock_if_locked db c r.x (
              append_datastore db
                (entry_of Types.cross commit r e.view aborted)
                (undo_if_logged db c r e.store)))
  unfolding execute_coord_abort send_client_reply
  coord_abort_store r seq cert e = ground arith

  part_abort_store :
      (r : Request) (seq : ℤ) (cert : CertificateMsg) (e : Engine db)
      → (execute_part_abort db c r seq cert e).store
        ≡ unlock_if_locked db c r.y (
            append_datastore db
              (entry_of Types.cross commit r e.view aborted)
              (undo_if_logged db c r e.store))
  unfolding execute_part_abort
  part_abort_store r seq cert e = ground arith

  -- After the coordinator's commit no balance has changed, the transaction's WAL entry is gone, and
  -- the lock on x is free.
  pub coord_commit_lem :
      (r : Request) (seq : ℤ) (cert : CertificateMsg) (e : Engine db) (z : ℤ) (k : Bytes)
      → let s = e.store in
        let s' = (execute_coord_commit db c r seq cert e).store in
        (get_balance db s' z ≡ get_balance db s z)
        × (wal_entry db s' k ≡ (if txn_id c r == k then none else wal_entry db s k))
        × (is_locked db s' z ≡ (if r.x == z then false else is_locked db s z))
  coord_commit_lem r seq cert e z k =
      rw (coord_commit_store r seq cert e) (simp balance_frame, simp wal_frame, simp lock_frame)

  pub part_commit_lem :
      (r : Request) (seq : ℤ) (cert : CertificateMsg) (e : Engine db) (z : ℤ) (k : Bytes)
      → let s = e.store in
        let s' = (execute_part_commit db c r seq cert e).store in
        (get_balance db s' z ≡ get_balance db s z)
        × (wal_entry db s' k ≡ (if txn_id c r == k then none else wal_entry db s k))
        × (is_locked db s' z ≡ (if r.y == z then false else is_locked db s z))
  part_commit_lem r seq cert e z k =
      let s =
        wal_delete db (txn_id c r)
          (append_datastore db (entry_of Types.cross commit r e.view committed) e.store) in
      let (b, w, l) = unlock_if_locked_lem s r.y z k in
      rw (part_commit_store r seq cert e)
        (b ∙ simp balance_frame, w ∙ simp wal_frame, l ∙ simp lock_frame)

  undone_lem :
      (r : Request) (s : Store db) (i old z : ℤ) (k : Bytes)
      → wal_entry db s (txn_id c r) ≡ some ((i, old) ∷ [])
      → IsInt64 old
      → let s' = undo_if_logged db c r s in
        (get_balance db s' z ≡ (if i == z then old else get_balance db s z))
        × (wal_entry db s' k ≡ (if txn_id c r == k then none else wal_entry db s k))
        × (is_locked db s' z ≡ is_locked db s z)
  undone_lem r s i old z k h range = rw (undo_logged r s i old h) (
    simp (get_balance-wal_delete, get_balance-set, wrap64-eq old range),
    simp wal_frame,
    simp lock_frame,
  )

  -- The coordinator's abort of a prepared transaction puts the logged balance of x back, drops the
  -- WAL entry and frees x. Without an entry no balance changes.
  pub coord_abort_lem :
      (r : Request) (seq : ℤ) (cert : CertificateMsg) (e : Engine db) (old z : ℤ) (k : Bytes)
      → wal_entry db e.store (txn_id c r) ≡ some ((r.x, old) ∷ [])
      → IsInt64 old
      → let s = e.store in
        let s' = (execute_coord_abort db c r seq cert e).store in
        (get_balance db s' z ≡ (if r.x == z then old else get_balance db s z))
        × (wal_entry db s' k ≡ (if txn_id c r == k then none else wal_entry db s k))
        × (is_locked db s' z ≡ (if r.x == z then false else is_locked db s z))
  coord_abort_lem r seq cert e old z k h range =
      let u = undo_if_logged db c r e.store in
      let s = append_datastore db (entry_of Types.cross commit r e.view aborted) u in
      let (bu, wu, lu) = undone_lem r e.store r.x old z k h range in
      let (b, w, l) = unlock_if_locked_lem s r.x z k in
      rw (coord_abort_store r seq cert e) (
        get_balance-set_client_ts db _ r.client_id r.ts z
            ∙ b
            ∙ get_balance-append_datastore db u _ z
            ∙ bu,
        wal_entry-set_client_ts db _ r.client_id r.ts k
            ∙ w
            ∙ wal_entry-append_datastore db u _ k
            ∙ wu,
        is_locked-set_client_ts db _ r.client_id r.ts z
            ∙ l
            ∙ rw (
              is_locked-append_datastore db u (entry_of Types.cross commit r e.view aborted) z,
              lu,
            ),
      )

  pub part_abort_lem :
      (r : Request) (seq : ℤ) (cert : CertificateMsg) (e : Engine db) (old z : ℤ) (k : Bytes)
      → wal_entry db e.store (txn_id c r) ≡ some ((r.y, old) ∷ [])
      → IsInt64 old
      → let s = e.store in
        let s' = (execute_part_abort db c r seq cert e).store in
        (get_balance db s' z ≡ (if r.y == z then old else get_balance db s z))
        × (wal_entry db s' k ≡ (if txn_id c r == k then none else wal_entry db s k))
        × (is_locked db s' z ≡ (if r.y == z then false else is_locked db s z))
  part_abort_lem r seq cert e old z k h range =
      let u = undo_if_logged db c r e.store in
      let s = append_datastore db (entry_of Types.cross commit r e.view aborted) u in
      let (bu, wu, lu) = undone_lem r e.store r.y old z k h range in
      let (b, w, l) = unlock_if_locked_lem s r.y z k in
      rw (part_abort_store r seq cert e) (
        b ∙ get_balance-append_datastore db u _ z ∙ bu,
        w ∙ wal_entry-append_datastore db u _ k ∙ wu,
        l
            ∙ rw (
              is_locked-append_datastore db u (entry_of Types.cross commit r e.view aborted) z,
              lu,
            ),
      )

  -- An abort of a transaction that this replica has no WAL entry of changes no balance and no entry.
  pub abort_absent :
      (r : Request) (seq : ℤ) (cert : CertificateMsg) (e : Engine db) (z : ℤ) (k : Bytes)
      → wal_entry db e.store (txn_id c r) ≡ none
      → let s = e.store in
        let s' = (execute_coord_abort db c r seq cert e).store in
        let s'' = (execute_part_abort db c r seq cert e).store in
        (get_balance db s' z ≡ get_balance db s z)
        × (get_balance db s'' z ≡ get_balance db s z)
        × (wal_entry db s' k ≡ wal_entry db s k)
        × (wal_entry db s'' k ≡ wal_entry db s k)
  abort_absent r seq cert e z k h =
      let s = append_datastore db (entry_of Types.cross commit r e.view aborted) e.store in
      let (b, w, _) = unlock_if_locked_lem s r.x z k in
      let (b', w', _) = unlock_if_locked_lem s r.y z k in
      rw (coord_abort_store r seq cert e, part_abort_store r seq cert e, undo_absent r e.store h)
        (
          get_balance-set_client_ts db _ r.client_id r.ts z ∙ b ∙ simp balance_frame,
          b' ∙ simp balance_frame,
          wal_entry-set_client_ts db _ r.client_id r.ts k ∙ w ∙ simp wal_frame,
          w' ∙ simp wal_frame,
        )
