-- ===== src/Pbft/Execute/Refinement.antt =====
-- `tryExecute` of internal/pbft/engine.go does to the state that the store keeps in its buckets just what
-- the operations of the bank say.
use byz_bank.Prelude.{
  ◌≡◌, refl, ap, ◌∙◌, inl, inr, List, [], ◌∷◌, none, some, Bool-cases, Option-cases,
}
use byz_bank.Prelude.Int.{ℤ, ltb_ℤ, ◌+64◌, ◌-64◌, wrap64-+64, wrap64--64, int_key}
use byz_bank.Prelude.Text.{bytes_key}
use byz_bank.Store.Bbolt.{Bolt}
use byz_bank.Store.Types.{committed, aborted}
use byz_bank.Store.Balances.{apply_debit_only_short, apply_debit_only_covered}
use byz_bank.Store.Abstract.{
  Bank, set_balance, unlock, log_preimage, stamp, bank_of, bank-set_balance_tx,
  bank-append_datastore, bank-release_lock, bank-wal_write, bank-wal_delete, bank-set_client_ts,
  bank-restore_balances,
}
use byz_bank.Store.{
  Store, Error, ok, err, insufficient, is_present, get_balance, balance_in_tx, set_balance_tx,
  apply_transfer, apply_debit_only, apply_credit_only, is_locked, release_lock, wal_write,
  wal_exists, wal_undo, restore_balances,
}
use byz_bank.Pbft.Signing.{txn_id-IsKey}
use byz_bank.Pbft.Crypto.{Crypto}
use byz_bank.Pbft.Messages.{
  Op, Request, CertificateMsg, txn_id, unset, intra, coord_prepare, part_prepare_commit,
  part_prepare_abort, coord_commit, coord_abort, part_commit, part_abort, other,
}
use byz_bank.Pbft.State.{Engine, Event}
use byz_bank.Pbft.Locks.{lock_items_for_op, release_all, release_locks_for_op}
use byz_bank.Pbft.Execute.{
  with_store, call_hook, send_client_reply, execute_intra, execute_coord_prepare, credit_once,
  part_prepare_store, execute_part_prepare, execute_coord_commit, undo_if_logged, unlock_if_locked,
  execute_coord_abort, execute_part_commit, execute_part_abort, execute_op,
}
use byz_bank.Pbft.Execute.Bank.{unlock_all, pay, undo, unlock_held, bank_op}

module _ (db : Bolt) (c : Crypto) where
  abbrev B : Store db → Bank
  B = bank_of db

  bank-release_all : (is : List ℤ) (s : Store db) → B (release_all db is s) ≡ unlock_all is (B s)
  unfolding release_all unlock_all
  bank-release_all [] s = refl
  bank-release_all (i ∷ is) s =
      bank-release_all is (release_lock db i s) ∙ ap (unlock_all is) (bank-release_lock db i s)

  bank-release_locks :
      (r : Request) (s : Store db)
      → B (release_locks_for_op db r s) ≡ unlock_all (lock_items_for_op r) (B s)
  unfolding release_locks_for_op
  bank-release_locks r s = bank-release_all (lock_items_for_op r) s

  call_hook-store : (ev : Event) (e : Engine db) → (call_hook db c ev e).store ≡ e.store
  call_hook-store ev e = elim (Bool-cases e.two_pc) [ inl on ↦ rw on refl | inr off ↦ rw off refl ]

  bank-paid :
      (x y amt : ℤ) (s : Store db)
      → B (
          set_balance_tx db
            (set_balance_tx db s x (balance_in_tx db s x -64 amt))
            y
            (balance_in_tx db s y +64 amt))
        ≡ pay x y amt (B s)
  unfolding bank_of get_balance
  bank-paid x y amt s =
      bank-set_balance_tx db y _ _
      ∙ ap (set_balance y _) (bank-set_balance_tx db x _ s)
      ∙ rw (wrap64-+64 (balance_in_tx db s y) amt, wrap64--64 (balance_in_tx db s x) amt) refl

  get-eq : (s : Store db) (x : ℤ) → (B s).balance x ≡ balance_in_tx db s x
  unfolding bank_of get_balance
  get-eq s x = refl

  intra-refused :
      (r : Request) (seq : ℤ) (e : Engine db) (x : Error)
      → apply_transfer db r.x r.y r.amt e.store ≡ err x
      → B (execute_intra db c r seq e).store ≡ unlock_all (lock_items_for_op r) (B e.store)
  unfolding execute_intra
  intra-refused r seq e x h = rw (h, execute_intra) (bank-release_locks r e.store)

  intra-done :
      (r : Request) (seq : ℤ) (e : Engine db) (s : Store db)
      → apply_transfer db r.x r.y r.amt e.store ≡ ok s
      → B (execute_intra db c r seq e).store
        ≡ unlock_all (lock_items_for_op r) (stamp r.client_id r.ts (B s))
  unfolding execute_intra send_client_reply
  intra-done r seq e s h =
      rw (h, execute_intra)
        (bank-release_locks r _
          ∙ ap (unlock_all (lock_items_for_op r)) (
              bank-set_client_ts db r.client_id r.ts _
              ∙ ap (stamp r.client_id r.ts) (bank-append_datastore db _ s)))

  intra-refines :
      (r : Request) (seq : ℤ) (e : Engine db)
      → B (execute_intra db c r seq e).store ≡ bank_op c intra r (B e.store)
  unfolding apply_transfer bank_op balance_in_tx bank_of get_balance
  intra-refines r seq e = elim (Bool-cases (ltb_ℤ (balance_in_tx db e.store r.x) r.amt)) [
    | inl poor ↦
        let refused : apply_transfer db r.x r.y r.amt e.store
            ≡ err (insufficient r.x (balance_in_tx db e.store r.x) r.amt) =
          rw poor refl in
        rw (get-eq e.store r.x, poor) (intra-refused r seq e _ refused)
    | inr rich ↦
        let paid : apply_transfer db r.x r.y r.amt e.store
            ≡ ok (
                set_balance_tx db
                  (set_balance_tx db e.store r.x (balance_in_tx db e.store r.x -64 r.amt)) r.y
                  (balance_in_tx db e.store r.y +64 r.amt)) =
          rw rich refl in
        rw (get-eq e.store r.x, rich)
          (intra-done r seq e _ paid
            ∙ ap (λ b. unlock_all (lock_items_for_op r) (stamp r.client_id r.ts b))
                (bank-paid r.x r.y r.amt e.store))
  ]

  coord_prepare-refused :
      (r : Request) (seq : ℤ) (cert : CertificateMsg) (e : Engine db) (x : Error)
      → apply_debit_only db r.x r.amt e.store ≡ err x
      → B (execute_coord_prepare db c r seq cert e).store ≡ unlock r.x (B e.store)
  unfolding execute_coord_prepare with_store
  coord_prepare-refused r seq cert e x h =
      rw (h, execute_coord_prepare) (bank-release_lock db r.x e.store)

  coord_prepare-done :
      (r : Request) (seq : ℤ) (cert : CertificateMsg) (e : Engine db) (s : Store db)
      → apply_debit_only db r.x r.amt e.store ≡ ok s
      → B (execute_coord_prepare db c r seq cert e).store
        ≡ log_preimage (txn_id c r) (some ((r.x, get_balance db e.store r.x) ∷ [])) (B s)
  unfolding execute_coord_prepare
  coord_prepare-done r seq cert e s h =
      rw (h, execute_coord_prepare, call_hook-store)
        (bank-append_datastore db _ _ ∙ bank-wal_write db (txn_id c r) _ s (txn_id-IsKey c r))

  bank-debited :
      (x amt : ℤ) (s : Store db)
      → B (set_balance_tx db s x (get_balance db s x -64 amt))
        ≡ set_balance x (get_balance db s x -64 amt) (B s)
  bank-debited x amt s =
      bank-set_balance_tx db x _ s ∙ rw (wrap64--64 (get_balance db s x) amt) refl

  coord_prepare-refines :
      (r : Request) (seq : ℤ) (cert : CertificateMsg) (e : Engine db)
      → B (execute_coord_prepare db c r seq cert e).store ≡ bank_op c coord_prepare r (B e.store)
  unfolding bank_op bank_of
  coord_prepare-refines r seq cert e =
      elim (Bool-cases (ltb_ℤ (get_balance db e.store r.x) r.amt)) [
        | inl poor ↦ rw poor (
            coord_prepare-refused r seq cert e _ (apply_debit_only_short db r.x r.amt e.store poor))
        | inr rich ↦ rw rich (
            coord_prepare-done r seq cert e _ (apply_debit_only_covered db r.x r.amt e.store rich)
            ∙ ap (log_preimage (txn_id c r) _) (bank-debited r.x r.amt e.store))
      ]

  part_prepare_abort-refines :
      (r : Request) (seq : ℤ) (cert : CertificateMsg) (e : Engine db)
      → B (execute_part_prepare db c r seq cert aborted e).store ≡ B e.store
  unfolding execute_part_prepare part_prepare_store
  part_prepare_abort-refines r seq cert e = rw call_hook-store (bank-append_datastore db _ e.store)

  part_prepare_commit-done :
      (r : Request) (seq : ℤ) (cert : CertificateMsg) (e : Engine db) (s : Store db)
      → credit_once db c r e.store ≡ ok s
      → B (execute_part_prepare db c r seq cert committed e).store ≡ B s
  unfolding execute_part_prepare part_prepare_store
  part_prepare_commit-done r seq cert e s h =
      rw (h, execute_part_prepare, call_hook-store) (bank-append_datastore db _ s)

  bank-credited :
      (y amt : ℤ) (s : Store db)
      → B (set_balance_tx db s y (balance_in_tx db s y +64 amt))
        ≡ set_balance y (get_balance db s y +64 amt) (B s)
  unfolding get_balance
  bank-credited y amt s =
      bank-set_balance_tx db y _ s ∙ rw (wrap64-+64 (balance_in_tx db s y) amt) refl

  part_prepare_commit-refines :
      (r : Request) (seq : ℤ) (cert : CertificateMsg) (e : Engine db)
      → B (execute_part_prepare db c r seq cert committed e).store
        ≡ bank_op c part_prepare_commit r (B e.store)
  unfolding credit_once apply_credit_only wal_exists bank_op bank_of
  part_prepare_commit-refines r seq cert e =
      elim (Bool-cases (is_present (db.get (txn_id c r) e.store.wal))) [
        | inl there ↦
            let kept : credit_once db c r e.store ≡ ok e.store = rw there refl in
            rw there (part_prepare_commit-done r seq cert e _ kept)
        | inr gone ↦
            let credited : credit_once db c r e.store
                ≡ ok (
                    wal_write db (txn_id c r) ((r.y, get_balance db e.store r.y) ∷ [])
                      (set_balance_tx db e.store r.y (balance_in_tx db e.store r.y +64 r.amt))) =
              rw gone refl in
            rw gone (
              part_prepare_commit-done r seq cert e _ credited
              ∙ bank-wal_write db (txn_id c r) _ _ (txn_id-IsKey c r)
              ∙ ap (log_preimage (txn_id c r) _) (bank-credited r.y r.amt e.store))
      ]

  bank-undo_if_logged :
      (r : Request) (s : Store db)
      → B (undo_if_logged db c r s) ≡ undo (txn_id c r) (db.get (txn_id c r) s.wal) (B s)
  unfolding undo_if_logged wal_exists wal_undo
  bank-undo_if_logged r s = elim (Option-cases (db.get (txn_id c r) s.wal)) [
    | inl gone ↦ rw gone refl
    | inr (pre, there) ↦
        let undone : wal_undo db (txn_id c r) s ≡ ok (restore_balances db pre s) =
          rw (there, wal_undo) refl in
        rw (there, undone)
          (bank-wal_delete db (txn_id c r) _
            ∙ ap (log_preimage (txn_id c r) none) (bank-restore_balances db pre s))
  ]

  bank-unlock_if_locked :
      (item : ℤ) (s : Store db) → B (unlock_if_locked db c item s) ≡ unlock_held item (B s)
  unfolding unlock_if_locked bank_of
  bank-unlock_if_locked item s = elim (Bool-cases (is_locked db s item)) [
    | inl held ↦ rw held (bank-release_lock db item s)
    | inr free ↦ rw free refl
  ]

  coord_commit-refines :
      (r : Request) (seq : ℤ) (cert : CertificateMsg) (e : Engine db)
      → B (execute_coord_commit db c r seq cert e).store ≡ bank_op c coord_commit r (B e.store)
  unfolding execute_coord_commit send_client_reply bank_op
  coord_commit-refines r seq cert e = rw call_hook-store (
      bank-set_client_ts db r.client_id r.ts _
      ∙ ap (stamp r.client_id r.ts) (
          bank-release_lock db r.x _
          ∙ ap (unlock r.x) (
              bank-wal_delete db (txn_id c r) _
              ∙ ap (log_preimage (txn_id c r) none) (bank-append_datastore db _ e.store))))

  coord_abort-refines :
      (r : Request) (seq : ℤ) (cert : CertificateMsg) (e : Engine db)
      → B (execute_coord_abort db c r seq cert e).store ≡ bank_op c coord_abort r (B e.store)
  unfolding execute_coord_abort send_client_reply bank_op bank_of
  coord_abort-refines r seq cert e = rw call_hook-store (
      bank-set_client_ts db r.client_id r.ts _
      ∙ ap (stamp r.client_id r.ts) (
          bank-unlock_if_locked r.x _
          ∙ ap (unlock_held r.x) (bank-append_datastore db _ _ ∙ bank-undo_if_logged r e.store)))

  part_commit-refines :
      (r : Request) (seq : ℤ) (cert : CertificateMsg) (e : Engine db)
      → B (execute_part_commit db c r seq cert e).store ≡ bank_op c part_commit r (B e.store)
  unfolding execute_part_commit bank_op
  part_commit-refines r seq cert e = rw call_hook-store (
      bank-unlock_if_locked r.y _
      ∙ ap (unlock_held r.y) (
          bank-wal_delete db (txn_id c r) _
          ∙ ap (log_preimage (txn_id c r) none) (bank-append_datastore db _ e.store)))

  part_abort-refines :
      (r : Request) (seq : ℤ) (cert : CertificateMsg) (e : Engine db)
      → B (execute_part_abort db c r seq cert e).store ≡ bank_op c part_abort r (B e.store)
  unfolding execute_part_abort bank_op bank_of
  part_abort-refines r seq cert e = rw call_hook-store (
      bank-unlock_if_locked r.y _
      ∙ ap (unlock_held r.y) (bank-append_datastore db _ _ ∙ bank-undo_if_logged r e.store))

  -- What the execution of a committed slot does to the balances, locks, WAL and timestamps of a replica
  -- depends only on these: it is the bank's operation. A client whose id the
  -- database refuses as a key gets no timestamp.
  pub execute_op-refines :
      (op : Op) (r : Request) (seq : ℤ) (cert : CertificateMsg) (e : Engine db)
      → B (execute_op db c op r seq cert e).store ≡ bank_op c op r (B e.store)
  unfolding execute_op bank_op with_store
  execute_op-refines intra r seq cert e = intra-refines r seq e
  execute_op-refines coord_prepare r seq cert e = coord_prepare-refines r seq cert e
  execute_op-refines part_prepare_commit r seq cert e = part_prepare_commit-refines r seq cert e
  execute_op-refines part_prepare_abort r seq cert e = part_prepare_abort-refines r seq cert e
  execute_op-refines coord_commit r seq cert e = coord_commit-refines r seq cert e
  execute_op-refines coord_abort r seq cert e = coord_abort-refines r seq cert e
  execute_op-refines part_commit r seq cert e = part_commit-refines r seq cert e
  execute_op-refines part_abort r seq cert e = part_abort-refines r seq cert e
  execute_op-refines unset r seq cert e = bank-release_locks r e.store
  execute_op-refines (other tag) r seq cert e = bank-release_locks r e.store
