-- ===== src/Store/Snapshot/Log.antt =====
-- The datastore in a snapshot, internal/store/snapshot.go: the log that is exported and imported.
use byz_bank.Prelude.{
  ℕ, suc, ◌+◌, ◌-◌, ◌<◌, ◌^◌, ◌≡◌, refl, ap, ◌∙◌, inl, inr, Bool-cases, List, [], ◌∷◌, Option, none,
  some, arith, length, if◌then◌else◌,
}
use byz_bank.Prelude.Int.{ℤ, of_word, to_word}
use byz_bank.Prelude.Keys.{◌==◌, nat_key, get, beq_refl}
use byz_bank.Prelude.Text.{Bytes, bytes_key}
use byz_bank.Store.Bbolt.{Bolt}
use byz_bank.Store.Unique.{ascending_unique, get-Before}
use byz_bank.Store.Order.{seq_key-lt, seq_key-meta}
use byz_bank.Store.Codec.{seq_key, bytes_value, bytes_value-big_endian}
use byz_bank.Store.Types.{DatastoreEntry, Cell, last_seq, entry}
use byz_bank.Store.{Store, open_store, meta_datastore_seq, datastore_entries}
use byz_bank.Store.Log.{append_all, append_all-IsFiled, fresh-IsFiled, datastore_entries-append_all}
use byz_bank.Store.Rows.{
  seq_key-IsKey, meta-IsKey, numbered, number_from, rows, filed, rows-Before, rows-IsAscending,
  meta_apart, get_meta-rows, collect_entries-rows,
}
use byz_bank.Store.Snapshot.{
  export_entries, stored_seq, export_snapshot, import_snapshot, import_entries,
}

to_word-of_word : (n : ℕ) → n < 2 ^ 62 → to_word (of_word n) ≡ n
unfolding to_word of_word
to_word-of_word n h = ground arith

export_entries-rows :
    (i : ℕ) (es : List DatastoreEntry)
    → i + length es < 2 ^ 62
    → export_entries (rows i es) ≡ number_from i es
unfolding rows export_entries number_from
export_entries-rows i [] h = rw (beq_refl meta_datastore_seq) refl
export_entries-rows i (e ∷ es) h =
    rw (meta_apart i (omega arith), export_entries-rows (suc i) es (omega arith)) refl

export_entries-filed :
    (es : List DatastoreEntry) → length es < 2 ^ 62 → export_entries (filed es) ≡ number_from 0 es
unfolding export_entries number_from
export_entries-filed [] h = refl
export_entries-filed (e ∷ es) h = export_entries-rows 0 (e ∷ es) (omega arith)

seq_value : (n : ℕ) → n < 2 ^ 62 → bytes_value 0 (seq_key n) ≡ n
unfolding seq_key
seq_value n h = bytes_value-big_endian 8 n (omega arith)

stored_seq-filed :
    (es : List DatastoreEntry)
    → length es < 2 ^ 62
    → stored_seq (get meta_datastore_seq (filed es)) ≡ length es - 1
unfolding get
stored_seq-filed [] h = refl
stored_seq-filed (e ∷ es) h =
    let last : 0 + length (e ∷ es) - 1 ≡ length (e ∷ es) - 1 = omega arith in
    rw (get_meta-rows 0 (e ∷ es) (omega arith), last)
      (seq_value (length (e ∷ es) - 1) (omega arith))

-- What a lookup gives where one map is laid over another.
abbrev over : Option Cell → Option Cell → Option Cell
over none old = old
over (some x) old = some x

over-none : (o : Option Cell) → over o none ≡ o
over-none none = refl
over-none (some x) = refl

-- The entries with their last number cover the bucket that held that number only.
over_last :
    (k : Bytes) (es : List DatastoreEntry) (start : Cell)
    → length es < 2 ^ 62
    → over (get k (rows 0 es)) (if meta_datastore_seq == k then some start else none)
      ≡ get k (rows 0 es)
over_last k es start h = elim (Bool-cases (meta_datastore_seq == k)) [
  | inl here ↦
      let same : meta_datastore_seq ≡ k = (bytes_key.beq_iff meta_datastore_seq k).0 here in
      rw (← same, get_meta-rows 0 es (omega arith)) refl
  | inr gone ↦ rw gone (over-none (get k (rows 0 es)))
]

module _ (db : Bolt) where
  get-import_entries :
      (k : Bytes) (i : ℕ) (es : List DatastoreEntry) (b : db.Bucket Cell)
      → i + length es < 2 ^ 62
      → db.get meta_datastore_seq b ≡ some (last_seq (seq_key (i + length es - 1)))
      → db.get k (import_entries db (number_from i es) b) ≡ over (get k (rows i es)) (db.get k b)
  unfolding import_entries number_from rows get
  get-import_entries k i [] b h last = elim (Bool-cases (meta_datastore_seq == k)) [
    | inl here ↦
        let same : meta_datastore_seq ≡ k = (bytes_key.beq_iff meta_datastore_seq k).0 here in
        let end : i + 0 - 1 ≡ i - 1 = omega arith in rw (here, ← same, ← end) last
    | inr gone ↦ rw gone refl
  ]
  get-import_entries k i (e ∷ es) b h last =
      let b' = db.put (seq_key i) (entry (numbered i e)) b in
      let first : import_entries db (number_from i (e ∷ es)) b
          ≡ import_entries db (number_from (suc i) es) b' =
        ap
          (λ w.
            import_entries db (number_from (suc i) es)
              (db.put (seq_key w) (entry (numbered i e)) b))
          (to_word-of_word i (omega arith)) in
      let next : i + suc (length es) - 1 ≡ suc i + length es - 1 = omega arith in
      let kept : db.get meta_datastore_seq b' ≡ some (last_seq (seq_key (suc i + length es - 1))) =
        rw (db.get-put _ _ _ _ (seq_key-IsKey i), meta_apart i (omega arith), ← next) last in
      let rest = get-import_entries k (suc i) es b' (omega arith) kept in
      ap (db.get k) first ∙ rest ∙ elim (Bool-cases (seq_key i == k)) [
        | inl here ↦
            let same : seq_key i ≡ k = (bytes_key.beq_iff (seq_key i) k).0 here in
            let later : get k (rows (suc i) es) ≡ none = rw (← same) (
              get-Before (seq_key i) (rows (suc i) es)
                (rows-Before (seq_key i) (suc i) es
                  (seq_key-lt i (suc i) (omega arith) (omega arith)) (seq_key-meta i (omega arith)))
                (rows-IsAscending (suc i) es (omega arith))) in
            rw (here, later, db.get-put _ _ _ _ (seq_key-IsKey i), here) refl
        | inr gone ↦ rw (gone, db.get-put _ _ _ _ (seq_key-IsKey i), gone) refl
      ]

  -- The bucket into which a snapshot with these entries is imported.
  unfoldable imported : List DatastoreEntry → db.Bucket Cell
  imported es =
      import_entries db (number_from 0 es)
        (db.put meta_datastore_seq (last_seq (seq_key (length es - 1))) db.fresh)

  imported-rows :
      (es : List DatastoreEntry) → length es < 2 ^ 62 → db.for_each (imported es) ≡ rows 0 es
  unfolding imported
  imported-rows es h =
      ascending_unique _ _ (db.for_each-IsAscending _) (rows-IsAscending 0 es (omega arith)) λ k.
        let start = last_seq (seq_key (length es - 1)) in
        let end : length es - 1 ≡ 0 + length es - 1 = omega arith in
        let b = db.put meta_datastore_seq start db.fresh in
        let held : db.get meta_datastore_seq b ≡ some (last_seq (seq_key (0 + length es - 1))) =
          rw (db.get-put _ _ _ _ meta-IsKey, beq_refl meta_datastore_seq, ← end) refl in
        let found : db.get k b ≡ (if meta_datastore_seq == k then some start else none) =
          rw (db.get-put _ _ _ _ meta-IsKey, db.get-fresh {V = Cell} k) refl in
        db.get-for_each k (imported es)
        ∙ get-import_entries k 0 es b (omega arith) held
        ∙ ap (over (get k (rows 0 es))) found
        ∙ over_last k es start h

  -- The log of a new replica lists the entries appended since, fewer than 2^62, in the order of the
  -- calls, numbered from 0, and so does the log of a replica that imports a snapshot of it.
  pub import_snapshot-append_all :
      (bal items : ℤ) (es : List DatastoreEntry) (t : Store db)
      → length es < 2 ^ 62
      → (datastore_entries db (append_all db es (open_store db bal items))
          ≡ some (number_from 0 es))
        × (datastore_entries db (
              import_snapshot db
                (export_snapshot db (append_all db es (open_store db bal items)))
                t)
            ≡ some (number_from 0 es))
  unfolding datastore_entries import_snapshot export_snapshot imported
  import_snapshot-append_all bal items es t h =
      let is =
        append_all-IsFiled db es [] (open_store db bal items) (omega arith)
          (fresh-IsFiled db bal items) in
      let bucket = (append_all db es (open_store db bal items)).datastore in
      let seq : stored_seq (db.get meta_datastore_seq bucket) ≡ length es - 1 =
        rw (← db.get-for_each meta_datastore_seq bucket, is) (stored_seq-filed es h) in
      (
        datastore_entries-append_all db bal items es h,
        rw (is, export_entries-filed es h, seq)
            (rw (imported-rows es h) (collect_entries-rows 0 es (omega arith))),
      )
