-- ===== src/Store/Log.antt =====
-- The datastore of internal/store/store.go is a log: `AppendDatastore` adds an entry behind the others, and
-- `Datastore` lists them in the order in which they were appended.
use byz_bank.Prelude.{
  ℕ, suc, ◌+◌, ◌-◌, ◌%◌, ◌<◌, ◌^◌, ◌≡◌, refl, ap, sym, ◌∙◌, inl, inr, Bool-cases, List, [], ◌∷◌,
  ◌++◌, some, arith, length, length-append, if◌then◌else◌,
}
use mathlib.Core.List.{append_assoc, append-nil}
use byz_bank.Prelude.Int.{ℤ}
use byz_bank.Prelude.Keys.{◌==◌, nat_key, get}
use byz_bank.Prelude.Text.{Bytes, bytes_key}
use byz_bank.Store.Bbolt.{Bolt, IsAscending}
use byz_bank.Store.Unique.{ascending_unique}
use byz_bank.Store.Order.{seq_key-meta}
use byz_bank.Store.Codec.{seq_key, bytes_value, bytes_value-big_endian}
use byz_bank.Store.Types.{DatastoreEntry, last_seq, entry}
use byz_bank.Store.{
  Store, open_store, meta_datastore_seq, next_seq, append_datastore, collect_entries,
  datastore_entries,
}
use byz_bank.Store.Rows.{
  seq_key-IsKey, meta-IsKey, clash, numbered, number_from, rows, filed, rows-IsAscending,
  get-rows_append, get_meta-rows, collect_entries-rows,
}

next_after : (n : ℕ) → n < 2 ^ 62 → (bytes_value 0 (seq_key n) + 1) % 2 ^ 64 ≡ suc n
unfolding seq_key
next_after n h = rw (bytes_value-big_endian 8 n (omega arith)) (omega arith)

next_seq-filed :
    (es : List DatastoreEntry)
    → length es < 2 ^ 62
    → next_seq (get meta_datastore_seq (filed es)) ≡ length es
unfolding next_seq get
next_seq-filed [] h = refl
next_seq-filed (e ∷ es) h =
    let last : 0 + length (e ∷ es) - 1 ≡ length es = omega arith in
    rw (get_meta-rows 0 (e ∷ es) (omega arith), last, next_after (length es) (omega arith)) refl

filed-IsAscending : (es : List DatastoreEntry) → length es < 2 ^ 62 → IsAscending (filed es)
filed-IsAscending [] h = tt
filed-IsAscending (e ∷ es) h = rows-IsAscending 0 (e ∷ es) (omega arith)

get-filed_append :
    (k : Bytes) (es : List DatastoreEntry) (e : DatastoreEntry)
    → length es < 2 ^ 62
    → get k (filed (es ++ (e ∷ []))) ≡ (
        if meta_datastore_seq == k
        then some (last_seq (seq_key (length es)))
        else if seq_key (length es) == k
        then some (entry (numbered (length es) e))
        else get k (filed es))
unfolding get rows
get-filed_append k [] e h = elim (Bool-cases (seq_key 0 == k)) [
  | inl here ↦
      let apart = clash (seq_key 0) meta_datastore_seq k (seq_key-meta 0 (omega arith)) here in
      rw (here, apart) refl
  | inr gone ↦ rw gone refl
]
get-filed_append k (x ∷ es) e h = get-rows_append k 0 (length (x ∷ es)) (x ∷ es) e (omega arith) h

collect_entries-filed :
    (es : List DatastoreEntry)
    → length es < 2 ^ 62
    → collect_entries (filed es) ≡ some (number_from 0 es)
unfolding collect_entries number_from
collect_entries-filed [] h = refl
collect_entries-filed (e ∷ es) h = collect_entries-rows 0 (e ∷ es) (omega arith)

module _ (db : Bolt) where
  -- The bucket holds these entries.
  abbrev pub IsFiled : Store db → List DatastoreEntry → Type 0
  IsFiled s es = db.for_each s.datastore ≡ filed es

  -- The entries appended one after the other.
  unfoldable pub append_all : List DatastoreEntry → Store db → Store db
  append_all [] s = s
  append_all (e ∷ es) s = append_all es (append_datastore db e s)

  append_datastore-IsFiled :
      (s : Store db) (es : List DatastoreEntry) (e : DatastoreEntry)
      → suc (length es) < 2 ^ 62
      → IsFiled s es
      → IsFiled (append_datastore db e s) (es ++ (e ∷ []))
  unfolding append_datastore
  append_datastore-IsFiled s es e h is =
      let at : next_seq (db.get meta_datastore_seq s.datastore) ≡ length es =
        rw (← db.get-for_each meta_datastore_seq s.datastore, is)
          (next_seq-filed es (omega arith)) in
      ascending_unique _ _ (db.for_each-IsAscending _)
        (filed-IsAscending (es ++ (e ∷ [])) (omega (arith, length-append es (e ∷ []))))
        λ k.
          let old : db.get k s.datastore ≡ get k (filed es) =
            sym (db.get-for_each k s.datastore) ∙ ap (get k) is in
          rw
            (
              at,
              db.get-for_each,
              db.get-put _ _ _ _ meta-IsKey,
              db.get-put _ _ _ _ (seq_key-IsKey (length es)),
              old,
              get-filed_append k es e (omega arith),
            )
            refl

  pub append_all-IsFiled :
      (new es : List DatastoreEntry) (s : Store db)
      → length es + length new < 2 ^ 62
      → IsFiled s es
      → IsFiled (append_all new s) (es ++ new)
  unfolding append_all
  append_all-IsFiled [] es s h is = rw (append-nil es) is
  append_all-IsFiled (e ∷ new) es s h is =
      let more = append_datastore-IsFiled s es e (omega arith) is in
      rw (← append_assoc es (e ∷ []) new) (
        append_all-IsFiled new (es ++ (e ∷ [])) (append_datastore db e s)
          (omega (arith, length-append es (e ∷ []))) more)

  pub fresh-IsFiled : (bal items : ℤ) → IsFiled (open_store db bal items) []
  unfolding open_store get
  fresh-IsFiled bal items =
      ascending_unique _ [] (db.for_each-IsAscending _) tt
        (λ k. db.get-for_each k db.fresh ∙ db.get-fresh k)

  -- The log of a new replica lists the appended entries in order.
  pub datastore_entries-append_all :
      (bal items : ℤ) (es : List DatastoreEntry)
      → length es < 2 ^ 62
      → datastore_entries db (append_all es (open_store db bal items)) ≡ some (number_from 0 es)
  unfolding datastore_entries
  datastore_entries-append_all bal items es h =
      rw
        (append_all-IsFiled es [] (open_store db bal items) (omega arith) (fresh-IsFiled bal items))
        (collect_entries-filed es h)
