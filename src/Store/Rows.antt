-- ===== src/Store/Rows.antt =====
-- What the datastore bucket of internal/store/store.go holds after a run of `AppendDatastore`.
use byz_bank.Prelude.{
  ℕ, suc, ◌+◌, ◌-◌, ◌<◌, ◌^◌, ◌≡◌, ◌≢◌, refl, sym, ◌∙◌, true, false, inl, inr, Bool-cases, List, [],
  ◌∷◌, ◌++◌, some, arith, length, if◌then◌else◌,
}
use byz_bank.Prelude.Int.{of_word}
use byz_bank.Prelude.Keys.{◌==◌, nat_key, GoMap, get, beq_refl, beq_ne}
use byz_bank.Prelude.Text.{Bytes, bytes_key}
use byz_bank.Store.Bbolt.{IsKey, is_key, is_key-IsKey, bytes_lt, Before, IsAscending}
use byz_bank.Store.Ascending.{bytes_lt_irrefl}
use byz_bank.Store.Order.{seq_key-lt, seq_key-meta}
use byz_bank.Store.Codec.{length-big_endian, seq_key}
use byz_bank.Store.Types.{DatastoreEntry, Cell, last_seq, entry}
use byz_bank.Store.{meta_datastore_seq, collect_entries}

abbrev pub numbered : ℕ → DatastoreEntry → DatastoreEntry
numbered i e = record e { seq = of_word i }

-- The entries with the numbers from `i` on.
unfoldable pub number_from : ℕ → List DatastoreEntry → List DatastoreEntry
number_from i [] = []
number_from i (e ∷ es) = numbered i e ∷ number_from (suc i) es

-- What the bucket holds when these entries were appended: each under its number, and the last number.
unfoldable pub rows : ℕ → List DatastoreEntry → GoMap Bytes Cell
rows i [] = (meta_datastore_seq, last_seq (seq_key (i - 1))) ∷ []
rows i (e ∷ es) = (seq_key i, entry (numbered i e)) ∷ rows (suc i) es

abbrev pub filed : List DatastoreEntry → GoMap Bytes Cell
filed [] = []
filed (e ∷ es) = rows 0 (e ∷ es)

pub rows-Before :
    (k : Bytes) (i : ℕ) (es : List DatastoreEntry)
    → bytes_lt k (seq_key i) ≡ true
    → bytes_lt k meta_datastore_seq ≡ true
    → Before k (rows i es)
unfolding rows
rows-Before k i [] h m = m
rows-Before k i (e ∷ es) h m = h

pub rows-IsAscending :
    (i : ℕ) (es : List DatastoreEntry) → i + length es < 2 ^ 62 → IsAscending (rows i es)
unfolding rows
rows-IsAscending i [] h = (tt, tt)
rows-IsAscending i (e ∷ es) h = (
  rows-Before (seq_key i) (suc i) es (seq_key-lt i (suc i) (omega arith) (omega arith))
      (seq_key-meta i (omega arith)),
  rows-IsAscending (suc i) es (omega arith),
)

lt_ne : (a b : Bytes) → bytes_lt a b ≡ true → a ≢ b
lt_ne a b h e = cc (bytes_lt_irrefl b, rw e at h)

pub seq_key-IsKey : (i : ℕ) → IsKey (seq_key i)
unfolding seq_key is_key
seq_key-IsKey i = is_key-IsKey (seq_key i) (rw (length-big_endian 8 i) refl)

pub meta-IsKey : IsKey meta_datastore_seq
unfolding is_key
meta-IsKey = is_key-IsKey meta_datastore_seq refl

pub meta_apart : (i : ℕ) → i < 2 ^ 62 → (seq_key i == meta_datastore_seq) ≡ false
meta_apart i h =
    beq_ne (seq_key i) meta_datastore_seq (lt_ne (seq_key i) meta_datastore_seq (seq_key-meta i h))

pub clash : (a b k : Bytes) → bytes_lt a b ≡ true → (a == k) ≡ true → (b == k) ≡ false
clash a b k h same =
    let e : a ≡ k = (bytes_key.beq_iff a k).0 same in beq_ne b k λ e'. lt_ne a b h (e ∙ sym e')

-- The lookups after an append are those of the longer list.
pub get-rows_append :
    (k : Bytes) (i n : ℕ) (es : List DatastoreEntry) (e : DatastoreEntry)
    → n ≡ i + length es
    → n < 2 ^ 62
    → get k (rows i (es ++ (e ∷ []))) ≡ (
        if meta_datastore_seq == k
        then some (last_seq (seq_key n))
        else if seq_key n == k
        then some (entry (numbered n e))
        else get k (rows i es))
unfolding rows get
get-rows_append k i n [] e is h =
    let at : n ≡ i = omega arith in
    let back : suc i - 1 ≡ i = omega arith in
    elim (Bool-cases (seq_key i == k)) [
      | inl here ↦
          let apart = clash (seq_key i) meta_datastore_seq k (seq_key-meta i (omega arith)) here in
          rw (at, here, apart) refl
      | inr gone ↦ elim (Bool-cases (meta_datastore_seq == k)) [
        | inl last ↦ rw (at, gone, last, back) refl
        | inr other ↦ rw (at, gone, other) refl
      ]
    ]
get-rows_append k i n (x ∷ es) e is h =
    let rest = get-rows_append k (suc i) n es e (omega arith) h in
    elim (Bool-cases (seq_key i == k)) [
      | inl here ↦
          let apart = clash (seq_key i) meta_datastore_seq k (seq_key-meta i (omega arith)) here in
          let apart' = clash (seq_key i) (seq_key n) k (seq_key-lt i n (omega arith) h) here in
          rw (here, apart, apart') refl
      | inr gone ↦ rw gone rest
    ]

pub get_meta-rows :
    (i : ℕ) (es : List DatastoreEntry)
    → i + length es < 2 ^ 62
    → get meta_datastore_seq (rows i es) ≡ some (last_seq (seq_key (i + length es - 1)))
unfolding rows get
get_meta-rows i [] h =
    let same : i + 0 - 1 ≡ i - 1 = omega arith in rw (beq_refl meta_datastore_seq, same) refl
get_meta-rows i (e ∷ es) h =
    let apart = meta_apart i (omega arith) in
    let same : i + suc (length es) - 1 ≡ suc i + length es - 1 = omega arith in
    rw (apart, same) (get_meta-rows (suc i) es (omega arith))

pub collect_entries-rows :
    (i : ℕ) (es : List DatastoreEntry)
    → i + length es < 2 ^ 62
    → collect_entries (rows i es) ≡ some (number_from i es)
unfolding rows collect_entries number_from
collect_entries-rows i [] h = rw (beq_refl meta_datastore_seq) refl
collect_entries-rows i (e ∷ es) h =
    let apart = meta_apart i (omega arith) in
    rw (apart, collect_entries-rows (suc i) es (omega arith)) refl
