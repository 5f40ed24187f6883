-- ===== src/Pbft/Execute/Atomic.antt =====
-- A cross-shard transfer over a replica of each of its two clusters: what the executions of
-- internal/pbft/engine.go do together to the money.
use byz_bank.Prelude.{
  ◌≡◌, refl, ap, ap₂, ◌∙◌, Bool, true, false, List, [], Option, none, if◌then◌else◌, arith,
}
use byz_bank.Prelude.Int.{
  ℤ, ◌+ℤ◌, ◌-ℤ◌, ◌+64◌, ◌-64◌, +64-eq, -64-eq, ltb_ℤ, pos_part, neg_part, IsInt64, int_key,
  int_laws, ==_ℤ_iff,
}
use byz_bank.Prelude.Keys.{◌==◌, beq_refl}
use byz_bank.Prelude.Text.{Bytes, bytes_key}
use byz_bank.Store.Bbolt.{Bolt}
use byz_bank.Store.Types.{committed}
use byz_bank.Store.Ledger.{total, sum_over, sum_over-ext, sum_over-update, update, count}
use byz_bank.Store.Frame.{wal_entry}
use byz_bank.Store.{get_balance, is_locked, wal_exists}
use byz_bank.Pbft.Crypto.{Crypto}
use byz_bank.Pbft.Messages.{
  Op, Request, CertificateMsg, txn_id, client_req, coord_prepare, coord_commit, coord_abort,
  part_prepare_commit, part_commit, part_abort,
}
use byz_bank.Pbft.State.{Engine}
use byz_bank.Pbft.Execute.{execute_op, execute_coord_prepare, execute_part_prepare}
use byz_bank.Pbft.Execute.Prepare.{coord_prepare_lem, part_prepare_lem}
use byz_bank.Pbft.Execute.Finish.{
  coord_commit_lem, part_commit_lem, coord_abort_lem, part_abort_lem,
}

-- The client's request under the tag of one of its operations.
abbrev pub tagged : Op → Request → Request
tagged op r = record r { op = op }

pub once_or_none :
    {A : Type 0} (b : Bool) (o p : Option A)
    → (if b then none else if b then o else p) ≡ (if b then none else p)
once_or_none true o p = refl
once_or_none false o p = refl

put_back : (f : ℤ → ℤ) (x v z : ℤ) → (if x == z then f x else if x == z then v else f z) ≡ f z
put_back f x v z = ground (arith, ==_ℤ_iff x z)

balanced :
    (a b amt p q p' q' : ℤ)
    → p' +ℤ a ≡ p +ℤ (a -ℤ amt)
    → q' +ℤ b ≡ q +ℤ (b +ℤ amt)
    → p' +ℤ q' ≡ p +ℤ q
balanced a b amt p q p' q' h k =
    omega (int_laws, ap pos_part h, ap neg_part h, ap pos_part k, ap neg_part k)

module _ (db : Bolt) (c : Crypto) (r : Request) (s₁ s₂ : ℤ) (c₁ c₂ : CertificateMsg) where
  -- The coordinator's replica after prepare and commit, and after prepare and abort.
  abbrev pub coord_end : Op → Engine db → Engine db
  coord_end op a =
      execute_op db c op (tagged op r) s₂ c₂
        (execute_op db c coord_prepare (tagged coord_prepare r) s₁ c₁ a)

  abbrev pub part_end : Op → Engine db → Engine db
  part_end op b =
      execute_op db c op (tagged op r) s₂ c₂
        (execute_op db c part_prepare_commit (tagged part_prepare_commit r) s₁ c₁ b)

  -- Prepare and then commit at the coordinator, where x holds the amount: x has paid it, in 64 bits, no
  -- other balance has changed, the transaction has no WAL entry and x no lock, and every other WAL
  -- entry and lock is as before.
  pub coord_committed :
      (a : Engine db) (z : ℤ) (k : Bytes)
      → ltb_ℤ (get_balance db a.store r.x) r.amt ≡ false
      → let a' = coord_end coord_commit a in
        (get_balance db a'.store z
          ≡ update (get_balance db a.store) r.x (get_balance db a.store r.x -64 r.amt) z)
        × (wal_entry db a'.store k ≡ (if txn_id c r == k then none else wal_entry db a.store k))
        × (is_locked db a'.store z ≡ (if r.x == z then false else is_locked db a.store z))
  unfolding execute_op txn_id client_req
  coord_committed a z k covered =
      let a₁ = execute_coord_prepare db c (tagged coord_prepare r) s₁ c₁ a in
      let (b, w, l) = coord_prepare_lem db c (tagged coord_prepare r) s₁ c₁ a z k in
      let (b', w', l') = coord_commit_lem db c (tagged coord_commit r) s₂ c₂ a₁ z k in
      (
        b' ∙ b ∙ rw covered,
        w' ∙ rw (w, covered) (once_or_none (txn_id c r == k) _ _),
        l' ∙ rw (l, covered),
      )

  -- Prepare and then commit at the participant, where the WAL has no entry of the transaction at first:
  -- y has been paid once, in 64 bits, no other balance has changed, the transaction has no WAL entry
  -- and y no lock, and every other WAL entry and lock is as before.
  pub part_committed :
      (b : Engine db) (z : ℤ) (k : Bytes)
      → wal_exists db b.store (txn_id c r) ≡ false
      → let b' = part_end part_commit b in
        (get_balance db b'.store z
          ≡ update (get_balance db b.store) r.y (get_balance db b.store r.y +64 r.amt) z)
        × (wal_entry db b'.store k ≡ (if txn_id c r == k then none else wal_entry db b.store k))
        × (is_locked db b'.store z ≡ (if r.y == z then false else is_locked db b.store z))
  unfolding execute_op txn_id client_req
  part_committed b z k fresh =
      let b₁ = execute_part_prepare db c (tagged part_prepare_commit r) s₁ c₁ committed b in
      let (m, w, l, _, _, _) = part_prepare_lem db c (tagged part_prepare_commit r) s₁ c₁ b z k in
      let (m', w', l') = part_commit_lem db c (tagged part_commit r) s₂ c₂ b₁ z k in
      (m' ∙ m ∙ rw fresh, w' ∙ rw (w, fresh) (once_or_none (txn_id c r == k) _ _), l' ∙ rw l)

  -- Prepare and then abort at the coordinator, where x holds the amount and its balance is a 64-bit
  -- number: every balance is as before, the transaction has no WAL entry and x no lock, and every
  -- other WAL entry and lock is as before.
  pub coord_aborted :
      (a : Engine db) (z : ℤ) (k : Bytes)
      → ltb_ℤ (get_balance db a.store r.x) r.amt ≡ false
      → IsInt64 (get_balance db a.store r.x)
      → let a' = coord_end coord_abort a in
        (get_balance db a'.store z ≡ get_balance db a.store z)
        × (wal_entry db a'.store k ≡ (if txn_id c r == k then none else wal_entry db a.store k))
        × (is_locked db a'.store z ≡ (if r.x == z then false else is_locked db a.store z))
  unfolding execute_op txn_id client_req
  coord_aborted a z k covered range =
      let a₁ = execute_coord_prepare db c (tagged coord_prepare r) s₁ c₁ a in
      let (b, w, l) = coord_prepare_lem db c (tagged coord_prepare r) s₁ c₁ a z k in
      let (_, own, _) = coord_prepare_lem db c (tagged coord_prepare r) s₁ c₁ a z (txn_id c r) in
      let (b', w', l') =
        coord_abort_lem db c (tagged coord_abort r) s₂ c₂ a₁ (get_balance db a.store r.x) z k
          (own ∙ rw (covered, beq_refl (txn_id c r))) range in
      (
        b' ∙ rw (b, covered) (put_back (get_balance db a.store) r.x _ z),
        w' ∙ rw (w, covered) (once_or_none (txn_id c r == k) _ _),
        l' ∙ rw (l, covered),
      )

  -- Prepare and then abort at the participant, where the WAL has no entry of the transaction at first
  -- and y's balance is a 64-bit number: every balance is as before, the transaction has no WAL entry
  -- and y no lock, and every other WAL entry and lock is as before.
  pub part_aborted :
      (b : Engine db) (z : ℤ) (k : Bytes)
      → wal_exists db b.store (txn_id c r) ≡ false
      → IsInt64 (get_balance db b.store r.y)
      → let b' = part_end part_abort b in
        (get_balance db b'.store z ≡ get_balance db b.store z)
        × (wal_entry db b'.store k ≡ (if txn_id c r == k then none else wal_entry db b.store k))
        × (is_locked db b'.store z ≡ (if r.y == z then false else is_locked db b.store z))
  unfolding execute_op txn_id client_req
  part_aborted b z k fresh range =
      let b₁ = execute_part_prepare db c (tagged part_prepare_commit r) s₁ c₁ committed b in
      let (m, w, l, _, _, _) = part_prepare_lem db c (tagged part_prepare_commit r) s₁ c₁ b z k in
      let (_, own, _, _, _, _) =
        part_prepare_lem db c (tagged part_prepare_commit r) s₁ c₁ b z (txn_id c r) in
      let (m', w', l') =
        part_abort_lem db c (tagged part_abort r) s₂ c₂ b₁ (get_balance db b.store r.y) z k
          (own ∙ rw (fresh, beq_refl (txn_id c r))) range in
      (
        m' ∙ rw (m, fresh) (put_back (get_balance db b.store) r.y _ z),
        w' ∙ rw (w, fresh) (once_or_none (txn_id c r == k) _ _),
        l' ∙ rw l,
      )

-- A transfer that both clusters prepare and commit conserves their money together, each
-- cluster with sequence numbers and certificates of its own, over items of the coordinator that have x once and items of the participant that have y once. It is asked that x
-- holds the amount, that the participant's WAL has no entry of the transaction at first, and that
-- the two new balances fit into 64 bits.
pub total-committed :
    (db : Bolt) (c : Crypto) (r : Request) (s₁ s₂ t₁ t₂ : ℤ) (c₁ c₂ d₁ d₂ : CertificateMsg)
    (a b : Engine db) (items_a items_b : List ℤ)
    → ltb_ℤ (get_balance db a.store r.x) r.amt ≡ false
    → wal_exists db b.store (txn_id c r) ≡ false
    → count r.x items_a ≡ 1
    → count r.y items_b ≡ 1
    → IsInt64 (get_balance db a.store r.x -ℤ r.amt)
    → IsInt64 (get_balance db b.store r.y +ℤ r.amt)
    → total db (coord_end db c r s₁ s₂ c₁ c₂ coord_commit a).store items_a
        +ℤ total db (part_end db c r t₁ t₂ d₁ d₂ part_commit b).store items_b
      ≡ total db a.store items_a +ℤ total db b.store items_b
total-committed db c r s₁ s₂ t₁ t₂ c₁ c₂ d₁ d₂ a b items_a items_b covered fresh ha hb ra rb =
    let f = get_balance db a.store in
    let g = get_balance db b.store in
    let ea =
      sum_over-ext _ (update f r.x (f r.x -64 r.amt)) items_a
        (λ z. (coord_committed db c r s₁ s₂ c₁ c₂ a z [] covered).0) in
    let eb =
      sum_over-ext _ (update g r.y (g r.y +64 r.amt)) items_b
        (λ z. (part_committed db c r t₁ t₂ d₁ d₂ b z [] fresh).0) in
    let paid = sum_over-update f r.x (f r.x -64 r.amt) items_a ha in
    let got = sum_over-update g r.y (g r.y +64 r.amt) items_b hb in
    ap₂ (λ u v. u +ℤ v) ea eb
    ∙ balanced (f r.x) (g r.y) r.amt _ _ _ _
        (paid ∙ ap (λ u. sum_over f items_a +ℤ u) (-64-eq (f r.x) r.amt ra))
        (got ∙ ap (λ u. sum_over g items_b +ℤ u) (+64-eq (g r.y) r.amt rb))
